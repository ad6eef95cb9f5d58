-- ===== src/Client.antt =====
-- client.go, providers.go and registry.go: a client of one provider, the choice of the provider by the
-- configuration, and the registry of the factories by the scheme of a URI. A call of a method of the
-- interface Vault is a call of the provider that the value holds, which is `vault_of`.
pub mod Delegates
pub mod Names
pub mod Laws
pub mod Registered
mod Examples
use omnivault.Base.{
  ℕ, Bytes, codes, Bool, true, false, Option, none, some, List, [], ◌∷◌, ◌++◌, Map, insert, delete,
  lookup, keys, is_empty, bytes_eq, trim_prefix, ◌&&◌, if◌then◌else◌,
}
use omnivault.Vault.Types.{Secret, new_secret, reveal, get_field}
use omnivault.Vault.Errors.{Error, Sentinel, sentinel, message, suffixed}
use omnivault.Vault.Interface.{Vault, Result, ok, err, panic, ◌>>=◌, Clock}
use omnivault.Vault.Reference as Reference
use omnivault.Providers.Env as Env
use omnivault.Providers.Memory as Memory
use omnivault.Providers.File as File
use omnivault.Providers.Sql as Sql

-- The methods of Client that do more than call the vault's.
module _ {ℓ} {S : Type ℓ} (v : Vault S) where
  open v use {get, set}

  -- A method of a nil secret panics.
  abbrev pub of_secret : (Secret → Bytes) → Option Secret → Result Bytes
  of_secret f none = panic
  of_secret f (some s) = ok (f s)

  unfoldable pub get_value : S → Bytes → Result Bytes
  get_value c path = get c path >>= of_secret reveal

  unfoldable pub get_field_of : S → Bytes → Bytes → Result Bytes
  get_field_of c path field = get c path >>= of_secret (λ s. get_field s field)

  unfoldable pub set_value : S → Clock → Bytes → Bytes → Result (Unit {0}) × S
  set_value c clock path value = set c clock path (some (new_secret value))

  abbrev pub or_panic {κ} : {A : Type κ} → Result A → Result A
  or_panic (ok a) = ok a
  or_panic (err e) = panic
  or_panic panic = panic

  unfoldable pub must_get : S → Bytes → Result (Option Secret)
  must_get c path = or_panic (get c path)

  unfoldable pub must_get_value : S → Bytes → Result Bytes
  unfolding get_value
  must_get_value c path = or_panic (get_value c path)

-- A vault of one of the built-in providers.
pub data Built (F D K : Type 0) : Type 0 where
  env : Env.Provider → Built F D K
  memory : Memory.Provider → Built F D K
  file : File.Provider F → Built F D K
  sql : Sql.Provider D K → Built F D K

-- The values of an `any` that the code tells apart.
pub data ProviderConfig (D : Type 0) : Type 0 where
  env_value : Env.Config → ProviderConfig D
  env_pointer : Option Env.Config → ProviderConfig D
  secrets : Map Bytes → ProviderConfig D
  file_value : File.Config → ProviderConfig D
  file_pointer : Option File.Config → ProviderConfig D
  sql_value : Sql.Config D → ProviderConfig D
  sql_pointer : Option (Sql.Config D) → ProviderConfig D
  other : ProviderConfig D

pub record Config (V D : Type 0) : Type 0 where
  pub provider : Bytes
  pub custom_vault : Option V
  pub provider_config : ProviderConfig D

-- What the built-in providers work on.
pub record World (F D K : Type 0) : Type 0 where
  pub environ : Map Bytes
  pub files : File.Files F
  pub json : File.Json
  pub database : Sql.Database D
  pub cipher : Sql.Cipher K
  pub codec : Sql.Codec

abbrev pub env_config : {D : Type 0} → ProviderConfig D → Env.Config
env_config (ProviderConfig.env_value c) = c
env_config (ProviderConfig.env_pointer (some c)) = c
env_config _ = record { prefix = []; allow_write = false }

abbrev pub memory_provider : {D : Type 0} → Clock → ProviderConfig D → Memory.Provider
memory_provider clock (ProviderConfig.secrets m) = Memory.new_with_secrets clock m
memory_provider clock _ = Memory.new

abbrev pub file_config : {D : Type 0} → ProviderConfig D → Option File.Config
file_config (ProviderConfig.file_value c) = some c
file_config (ProviderConfig.file_pointer c) = c
file_config _ = none

abbrev pub sql_config : {D : Type 0} → ProviderConfig D → Option (Sql.Config D)
sql_config (ProviderConfig.sql_value c) = some c
sql_config (ProviderConfig.sql_pointer c) = c
sql_config _ = none

module _ {F D K : Type 0} (w : World F D K) where
  abbrev pub env_provider : Env.Config → Built F D K
  env_provider c = Built.env (record { config = c; environ = w.environ })

  -- A provider and the file system after it was made, as `Built`.
  abbrev pub built_file : Result (File.Provider F) × F → Result (Built F D K) × F
  built_file (ok p, s) = (ok (Built.file p), s)
  built_file (err e, s) = (err e, s)
  built_file (panic, s) = (panic, s)

  abbrev pub file_provider : Option File.Config → F → Result (Built F D K) × F
  file_provider none s =
      (err (message (codes "file provider requires file.Config in ProviderConfig")), s)
  file_provider (some c) s = built_file (File.new w.files w.json c s)

  abbrev pub sql_provider : Option (Sql.Config D) → Result (Built F D K)
  sql_provider none =
      err (message (codes "sql provider requires sqlstore.Config in ProviderConfig"))
  sql_provider (some c) = Sql.new w.database w.cipher w.codec c >>= λ p. ok (Built.sql p)

  -- newProvider; the file system is the state, which file.New may change.
  unfoldable pub new_provider : {V : Type 0} → Clock → Config V D → F → Result (Built F D K) × F
  new_provider clock c s =
      let given = c.provider_config in
      if bytes_eq c.provider (codes "env")
      then (ok (env_provider (env_config given)), s)
      else if bytes_eq c.provider (codes "memory")
      then (ok (Built.memory (memory_provider clock given)), s)
      else if bytes_eq c.provider (codes "file")
      then file_provider (file_config given) s
      else if bytes_eq c.provider (codes "sql")
      then (sql_provider (sql_config given), s)
      else if is_empty c.provider
      then (err (sentinel Sentinel.no_provider), s)
      else (
        err (
            suffixed (sentinel Sentinel.unknown_scheme)
              (c.provider ++ codes " (use CustomVault for external providers)")),
        s,
      )

  -- The vault of a client: the one that was given, or a built-in provider.
  pub data Held (V : Type 0) : Type 0 where
    custom : V → Held V
    built : Built F D K → Held V

  abbrev pub held : {V : Type 0} → Result (Built F D K) × F → Result (Held V) × F
  held (ok b, s) = (ok (Held.built b), s)
  held (err e, s) = (err e, s)
  held (panic, s) = (panic, s)

  unfoldable pub new_client : {V : Type 0} → Clock → Config V D → F → Result (Held V) × F
  new_client clock c s = elim c.custom_vault [
    | some v ↦ (ok (Held.custom v), s)
    | none ↦ held (new_provider clock c s)
  ]

  abbrev pub Factory : Type 0
  Factory = Bytes → F → Result (Built F D K) × F

  abbrev pub memory_factory : Factory
  memory_factory uri s = (ok (Built.memory Memory.new), s)

  abbrev pub or_dot : Bytes → Bytes
  or_dot dir = if is_empty dir then codes "." else dir

  abbrev pub file_factory : Factory
  file_factory uri s =
      file_provider
        (some (record {
          directory = or_dot (trim_prefix uri (codes "file://"));
          extension = codes ".json";
          json_format = true;
          file_mode = 0;
          dir_mode = 0;
          read_only = false;
          allow_insecure_permissions = false;
        }))
        s

  abbrev pub env_factory : Factory
  env_factory uri s = (
    ok (env_provider (record { prefix = trim_prefix uri (codes "env://"); allow_write = true })),
    s,
  )

-- A registry of factories of vaults `V`; `F` is what they work on.
abbrev pub Registry {ℓ} : Type ℓ → Type 0 → Type ℓ
Registry V F = Map (Bytes → F → Result V × F)

-- %v of a slice of strings, without its brackets.
abbrev pub spaced : List Bytes → Bytes
spaced [] = []
spaced (x ∷ []) = x
spaced (x ∷ y ∷ xs) = x ++ codes " " ++ spaced (y ∷ xs)

abbrev pub scheme_of : Bytes → Bytes
scheme_of uri =
    let scheme = Reference.scheme uri in
    if is_empty scheme && bytes_eq uri (codes "memory") then codes "memory" else scheme

abbrev pub missing_scheme : Bytes → Error
missing_scheme uri =
    suffixed (sentinel Sentinel.invalid_secret_ref) (codes "missing scheme in URI: " ++ uri)

abbrev pub unknown_scheme : List Bytes → Bytes → Error
unknown_scheme schemes scheme =
    suffixed (sentinel Sentinel.unknown_scheme)
      (scheme ++ codes " (available: [" ++ spaced schemes ++ codes "])")

module _ {ℓ} {V : Type ℓ} {F : Type 0} where
  unfoldable pub register_provider :
      Bytes → (Bytes → F → Result V × F) → Registry V F → Registry V F
  register_provider scheme factory r = insert scheme factory r

  unfoldable pub unregister_provider : Bytes → Registry V F → Registry V F
  unregister_provider scheme r = delete scheme r

  unfoldable pub registered_schemes : Registry V F → List Bytes
  registered_schemes r = keys r

  -- What VaultFromURI does with the factory of the scheme.
  abbrev pub build : Registry V F → Bytes → F → Option (Bytes → F → Result V × F) → Result V × F
  build r uri s none = (err (unknown_scheme (registered_schemes r) (scheme_of uri)), s)
  build r uri s (some factory) = factory uri s

  unfoldable pub vault_from_uri : Registry V F → Bytes → F → Result V × F
  vault_from_uri r uri s =
      if is_empty (scheme_of uri)
      then (err (missing_scheme uri), s)
      else build r uri s (lookup (scheme_of uri) r)

-- The factories that the package registers when it is loaded.
unfoldable pub init : {F D K : Type 0} (w : World F D K) → Registry (Built F D K) F
init w = register_provider (codes "env") (env_factory w) (
    register_provider (codes "file") (file_factory w)
      (register_provider (codes "memory") (memory_factory w) []))
