-- ===== src/Providers/Env.antt =====
-- providers/env/env.go: secrets in the environment of the process. The environment is a map from
-- names to values that os.LookupEnv, os.Setenv, os.Unsetenv and os.Environ read and write.
pub mod Laws
pub mod Listing
use omnivault.Base.{
  ℕ, Bytes, codes, Bool, true, false, Option, none, some, List, [], ◌∷◌, ◌++◌, Map, lookup, insert,
  delete, has_key, has_prefix, trim_prefix, before, if◌then◌else◌,
}
use omnivault.Vault.Types.{Secret, no_metadata, reveal}
use omnivault.Vault.Errors.{Error, Sentinel, vault_error, sentinel}
use omnivault.Vault.Interface.{Vault, Result, ok, err, panic, Clock, Capabilities}

pub record Config : Type 0 where
  pub prefix : Bytes
  pub allow_write : Bool

-- The provider, with the environment of its process.
pub record Provider : Type 0 where
  pub config : Config
  pub environ : Map Bytes

-- The error that the operating system answers a write with, if it refuses the name or the value.
pub record Os : Type 0 where
  pub setenv_error : Bytes → Bytes → Option Error
  pub unsetenv_error : Bytes → Option Error

abbrev pub provider_name : Bytes
provider_name = codes "env"

abbrev pub failure : Bytes → Bytes → Sentinel → Error
failure op path e = vault_error op path provider_name (sentinel e)

abbrev pub variable : Provider → Bytes → Bytes
variable p path = p.config.prefix ++ path

-- The secret that Get builds from the value of a variable.
abbrev pub secret_of : Bytes → Bytes → Secret
secret_of path value = record {
  value = value;
  value_bytes = none;
  fields = none;
  metadata = record no_metadata { provider = provider_name; path = path };
}

unfoldable pub get : Provider → Bytes → Result (Option Secret)
unfolding lookup
get p path = elim (lookup (variable p path) p.environ) [
  | none ↦ err (failure (codes "Get") path Sentinel.secret_not_found)
  | some value ↦ ok (some (secret_of path value))
]

-- os.Setenv and os.Unsetenv
abbrev pub setenv : Os → Provider → Bytes → Bytes → Result (Unit {0}) × Provider
setenv os p name value = elim (os.setenv_error name value) [
  | none ↦ (ok tt, record p { environ = insert name value p.environ })
  | some e ↦ (err e, p)
]

abbrev pub unsetenv : Os → Provider → Bytes → Result (Unit {0}) × Provider
unsetenv os p name = elim (os.unsetenv_error name) [
  | none ↦ (ok tt, record p { environ = delete name p.environ })
  | some e ↦ (err e, p)
]

-- Reveal of a nil secret panics.
unfoldable pub set : Os → Provider → Clock → Bytes → Option Secret → Result (Unit {0}) × Provider
unfolding insert reveal
set os p clock path none =
    if p.config.allow_write
    then (panic, p)
    else (err (failure (codes "Set") path Sentinel.read_only), p)
set os p clock path (some s) =
    if p.config.allow_write
    then setenv os p (variable p path) (reveal s)
    else (err (failure (codes "Set") path Sentinel.read_only), p)

unfoldable pub remove : Os → Provider → Bytes → Result (Unit {0}) × Provider
unfolding delete
remove os p path =
    if p.config.allow_write
    then unsetenv os p (variable p path)
    else (err (failure (codes "Delete") path Sentinel.read_only), p)

unfoldable pub exists : Provider → Bytes → Result Bool
unfolding has_key
exists p path = ok (has_key (variable p path) p.environ)

-- os.Environ: a line `name=value` for each variable.
unfoldable pub environ_lines : Map Bytes → List Bytes
environ_lines [] = []
environ_lines ((k, v) ∷ m) = (k ++ b'=' ∷ v) ∷ environ_lines m

-- strings.SplitN(line, "=", 2)[0]
unfoldable pub name_of_line : Bytes → Bytes
unfolding before
name_of_line line = elim (before b'=' line) [ none ↦ line | some name ↦ name ]

unfoldable pub list_lines : Bytes → Bytes → List Bytes → List Bytes
unfolding has_prefix trim_prefix name_of_line
list_lines config_prefix full_prefix [] = []
list_lines config_prefix full_prefix (line ∷ lines) =
    let rest = list_lines config_prefix full_prefix lines in
    let name = name_of_line line in
    if has_prefix name full_prefix then trim_prefix name config_prefix ∷ rest else rest

unfoldable pub list_paths : Provider → Bytes → Result (List Bytes)
unfolding list_lines environ_lines
list_paths p prefix =
    ok (list_lines p.config.prefix (p.config.prefix ++ prefix) (environ_lines p.environ))

abbrev pub capabilities : Provider → Capabilities
capabilities p = record {
  read = true;
  write = p.config.allow_write;
  delete = p.config.allow_write;
  list = true;
  versioning = false;
  rotation = false;
  binary = false;
  multi_field = false;
  batch = false;
  watch = false;
}

abbrev pub env_vault : Os → Vault Provider
env_vault os = record {
  get = get;
  set = set os;
  remove = remove os;
  exists = exists;
  list_paths = list_paths;
  name = λ p. provider_name;
  capabilities = capabilities;
  close = λ p. (ok tt, p);
}
