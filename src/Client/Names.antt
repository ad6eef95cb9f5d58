-- ===== src/Client/Names.antt =====
-- constants.go and types.go: the names of the known providers, and the constructors of secrets. The
-- types of types.go are those of the package vault.
use omnivault.Base.{Bytes, codes, Map, Option}
use omnivault.Vault.Types.{Secret, new_secret}

pub data ProviderName : Type 0 where
  keychain win_cred lib_secret keyring : ProviderName
  one_password bitwarden last_pass kee_pass pass dashlane : ProviderName
  aws_secrets_manager aws_parameter_store gcp_secret_manager azure_key_vault : ProviderName
  digital_ocean ibm_secrets_manager oracle_vault : ProviderName
  hashi_corp_vault cyber_ark akeyless infisical doppler : ProviderName
  env file memory sql dot_env sops age : ProviderName
  k8s_secrets : ProviderName

-- String, and Scheme, which is the same text.
abbrev pub string : ProviderName → Bytes
string ProviderName.keychain = codes "keychain"
string ProviderName.win_cred = codes "wincred"
string ProviderName.lib_secret = codes "libsecret"
string ProviderName.keyring = codes "keyring"
string ProviderName.one_password = codes "op"
string ProviderName.bitwarden = codes "bw"
string ProviderName.last_pass = codes "lp"
string ProviderName.kee_pass = codes "kp"
string ProviderName.pass = codes "pass"
string ProviderName.dashlane = codes "dashlane"
string ProviderName.aws_secrets_manager = codes "aws-sm"
string ProviderName.aws_parameter_store = codes "aws-ssm"
string ProviderName.gcp_secret_manager = codes "gcp-sm"
string ProviderName.azure_key_vault = codes "azure-kv"
string ProviderName.digital_ocean = codes "do"
string ProviderName.ibm_secrets_manager = codes "ibm-sm"
string ProviderName.oracle_vault = codes "oracle"
string ProviderName.hashi_corp_vault = codes "vault"
string ProviderName.cyber_ark = codes "conjur"
string ProviderName.akeyless = codes "akeyless"
string ProviderName.infisical = codes "infisical"
string ProviderName.doppler = codes "doppler"
string ProviderName.env = codes "env"
string ProviderName.file = codes "file"
string ProviderName.memory = codes "memory"
string ProviderName.sql = codes "sql"
string ProviderName.dot_env = codes "dotenv"
string ProviderName.sops = codes "sops"
string ProviderName.age = codes "age"
string ProviderName.k8s_secrets = codes "k8s"

abbrev pub scheme : ProviderName → Bytes
scheme p = string p

abbrev pub new_secret_with_fields : Option (Map Bytes) → Secret
new_secret_with_fields fields = record (new_secret (codes "")) { fields = fields }

abbrev pub new_secret_bytes : Option Bytes → Secret
new_secret_bytes data_bytes = record (new_secret (codes "")) { value_bytes = data_bytes }
