-- ===== src/CustomProvider.antt =====
-- examples/custom_provider/main.go: a provider outside the library. Each method holds the mutex from its
-- first line to its return, so a call is one step. A nil *Secret is `none`; secrets are values here, so
-- what a caller does to a secret that it was given is not seen by the provider.
pub mod Laws
pub mod Program
mod Examples
use omnivault.Base.{
  Bytes, codes, Bool, true, false, Option, none, some, List, [], ◌∷◌, Map, lookup, insert, delete,
  keys, has_key, has_prefix, if◌then◌else◌,
}
use omnivault.Vault.Types.{Secret}
use omnivault.Vault.Errors.{Error, Sentinel, sentinel, vault_error}
use omnivault.Vault.Interface.{Vault, Result, ok, err, Clock, Capabilities}

pub record CustomProvider : Type 0 where
  pub provider_name : Bytes
  pub api_key : Bytes
  pub secrets : Map (Option Secret)

abbrev pub new_custom_provider : Bytes → Bytes → CustomProvider
new_custom_provider name api_key = record { provider_name = name; api_key = api_key; secrets = [] }

abbrev pub not_found : CustomProvider → Bytes → Error
not_found p path =
    vault_error (codes "Get") path p.provider_name (sentinel Sentinel.secret_not_found)

unfoldable pub get : CustomProvider → Bytes → Result (Option Secret)
unfolding lookup
get p path = elim (lookup path p.secrets) [ none ↦ err (not_found p path) | some s ↦ ok s ]

unfoldable pub set :
    CustomProvider → Clock → Bytes → Option Secret → Result (Unit {0}) × CustomProvider
unfolding insert
set p clock path s = (ok tt, record p { secrets = insert path s p.secrets })

unfoldable pub remove : CustomProvider → Bytes → Result (Unit {0}) × CustomProvider
unfolding delete
remove p path = (ok tt, record p { secrets = delete path p.secrets })

unfoldable pub exists : CustomProvider → Bytes → Result Bool
unfolding has_key
exists p path = ok (has_key path p.secrets)

unfoldable pub matching : Bytes → List Bytes → List Bytes
unfolding has_prefix
matching prefix [] = []
matching prefix (path ∷ paths) =
    let rest = matching prefix paths in if has_prefix path prefix then path ∷ rest else rest

unfoldable pub list_paths : CustomProvider → Bytes → Result (List Bytes)
unfolding matching keys
list_paths p prefix = ok (matching prefix (keys p.secrets))

abbrev pub capabilities : CustomProvider → Capabilities
capabilities p = record {
  read = true;
  write = true;
  delete = true;
  list = true;
  versioning = false;
  rotation = false;
  binary = false;
  multi_field = true;
  batch = false;
  watch = false;
}

abbrev pub close : CustomProvider → Result (Unit {0}) × CustomProvider
close p = (ok tt, p)

-- `var _ vault.Vault = (*CustomProvider)(nil)`
abbrev pub custom_vault : Vault CustomProvider
custom_vault = record {
  get = get;
  set = set;
  remove = remove;
  exists = exists;
  list_paths = list_paths;
  name = λ p. p.provider_name;
  capabilities = capabilities;
  close = close;
}
