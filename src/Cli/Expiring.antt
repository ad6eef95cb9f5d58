-- ===== src/Cli/Expiring.antt =====
-- cmd/omnivault/expiry.go: the warning that a command prints about a secret that expires.
use omnivault.Base.{Bytes, Bool, true, false, Option, none, some, [], ◌==◌, if◌then◌else◌}
use omnivault.Vault.Types.{Time}
use omnivault.Vault.Errors.{Error}
use omnivault.Vault.Interface.{Result, ok, err, panic}
use omnivault.Config as Config
use omnivault.Config.{Reading, load_config_from_file, default_config, get_expiry_warning_days}
use omnivault.Expiry as Expiry
use omnivault.Expiry.{Status, check, Texts, write_warning}
use omnivault.Daemon.Protocol.{SecretResponse}

abbrev pub config_or_default : Result Config.Config → Config.Config
config_or_default (ok cfg) = cfg
config_or_default (err e) = default_config
config_or_default panic = default_config

-- What is written to the standard error, and the error that is returned.
unfoldable pub check_expiry_warning :
    Texts → Config.Codec → Reading → Time → SecretResponse → Bytes × Option Error
unfolding write_warning check load_config_from_file
check_expiry_warning tx codec file now secret =
    if secret.expires_at == 0
    then ([], none)
    else write_warning tx secret.path (
        check secret.expires_at
          (get_expiry_warning_days (config_or_default (load_config_from_file codec file))) now)

abbrev pub is_some {ℓ} : {A : Type ℓ} → Option A → Bool
is_some none = false
is_some (some a) = true

abbrev is_ok : Status → Bool
is_ok Status.ok = true
is_ok Status.warning = false
is_ok Status.expired = false

abbrev is_expired : Status → Bool
is_expired Status.ok = false
is_expired Status.warning = false
is_expired Status.expired = true
