-- ===== src/Providers/Memory.antt =====
-- providers/memory/memory.go: the in-memory provider. Each method holds the mutex from its first line
-- to its return, so a call is one step. A nil map is `none`.
pub mod Copy
pub mod Laws
pub mod Listing
use omnivault.Base.{
  ℕ, suc, Bytes, codes, Bool, true, false, Option, none, some, List, [], ◌∷◌, Map, lookup, insert,
  delete, keys, has_key, has_prefix, length, if◌then◌else◌,
}
use omnivault.Vault.Types.{Time, Secret, no_metadata, has_bytes}
use omnivault.Vault.Errors.{Error, Sentinel, vault_error, sentinel}
use omnivault.Vault.Interface.{Vault, Result, ok, err, panic, Clock, Capabilities}

pub record Provider : Type 0 where
  pub secrets : Option (Map Secret)
  pub closed : Bool

abbrev pub new : Provider
new = record { secrets = some []; closed = false }

abbrev pub provider_name : Bytes
provider_name = codes "memory"

-- vault.NewVaultError(op, path, p.Name(), e)
abbrev pub failure : Bytes → Bytes → Sentinel → Error
failure op path e = vault_error op path provider_name (sentinel e)

-- `for k, v := range m { out[k] = v }`
unfoldable pub copy_entries {ℓ} : {V : Type ℓ} → Map V → Map V → Map V
unfolding insert
copy_entries [] out = out
copy_entries ((k, v) ∷ m) out = copy_entries m (insert k v out)

unfoldable pub copy_map : Option (Map Bytes) → Option (Map Bytes)
unfolding copy_entries
copy_map none = none
copy_map (some m) = some (copy_entries m [])

unfoldable pub copy_secret : Secret → Secret
unfolding copy_map
copy_secret s = record {
  value = s.value;
  value_bytes = if has_bytes s then s.value_bytes else none;
  fields = copy_map s.fields;
  metadata = record s.metadata { tags = copy_map s.metadata.tags };
}

abbrev pub initial_secret : Time → Bytes → Bytes → Secret
initial_secret now k v = record {
  value = v;
  value_bytes = none;
  fields = none;
  metadata = record no_metadata { provider = provider_name; path = k; created_at = some now };
}

unfoldable pub add_secrets : Clock → Map Bytes → Map Secret → Map Secret
unfolding insert
add_secrets clock [] out = out
add_secrets clock ((k, v) ∷ m) out =
    add_secrets (λ i. clock (suc i)) m (insert k (initial_secret (clock 0) k v) out)

unfoldable pub new_with_secrets : Clock → Map Bytes → Provider
unfolding add_secrets
new_with_secrets clock m = record { secrets = some (add_secrets clock m []); closed = false }

abbrev pub entries : Option (Map Secret) → Map Secret
entries none = []
entries (some m) = m

unfoldable pub get : Provider → Bytes → Result (Option Secret)
unfolding lookup copy_secret
get p path =
    if p.closed
    then err (failure (codes "Get") path Sentinel.closed)
    else elim (lookup path (entries p.secrets)) [
      | none ↦ err (failure (codes "Get") path Sentinel.secret_not_found)
      | some s ↦ ok (some (copy_secret s))
    ]

abbrev pub or_now : Option Time → Time → Option Time
or_now none now = some now
or_now (some t) now = some t

-- What Set stores: a copy, stamped. The calls of vault.Now are two readings of the clock.
unfoldable pub stamped : Clock → Bytes → Secret → Secret
unfolding copy_secret
stamped clock path s =
    let copied = copy_secret s in
    record copied {
      metadata = record copied.metadata {
        created_at = or_now copied.metadata.created_at (clock 0);
        modified_at = some (clock 1);
        provider = provider_name;
        path = path;
      };
    }

-- p.secrets[path] = stored; a write into a nil map panics.
abbrev pub write : Provider → Option (Map Secret) → Bytes → Secret → Result (Unit {0}) × Provider
write p none path s = (panic, p)
write p (some m) path s = (ok tt, record p { secrets = some (insert path s m) })

-- A nil secret is copied to nil, and reading its metadata panics.
unfoldable pub set : Provider → Clock → Bytes → Option Secret → Result (Unit {0}) × Provider
unfolding stamped insert
set p clock path none =
    if p.closed then (err (failure (codes "Set") path Sentinel.closed), p) else (panic, p)
set p clock path (some s) =
    if p.closed
    then (err (failure (codes "Set") path Sentinel.closed), p)
    else write p p.secrets path (stamped clock path s)

-- delete(p.secrets, path); on a nil map it does nothing.
abbrev pub delete_entry : Option (Map Secret) → Bytes → Option (Map Secret)
delete_entry none path = none
delete_entry (some m) path = some (delete path m)

unfoldable pub remove : Provider → Bytes → Result (Unit {0}) × Provider
unfolding delete
remove p path =
    if p.closed
    then (err (failure (codes "Delete") path Sentinel.closed), p)
    else (ok tt, record p { secrets = delete_entry p.secrets path })

unfoldable pub exists : Provider → Bytes → Result Bool
unfolding has_key
exists p path =
    if p.closed
    then err (failure (codes "Exists") path Sentinel.closed)
    else ok (has_key path (entries p.secrets))

unfoldable pub matching : Bytes → List Bytes → List Bytes
unfolding has_prefix
matching prefix [] = []
matching prefix (path ∷ paths) =
    let rest = matching prefix paths in if has_prefix path prefix then path ∷ rest else rest

unfoldable pub list_paths : Provider → Bytes → Result (List Bytes)
unfolding matching keys
list_paths p prefix =
    if p.closed
    then err (failure (codes "List") prefix Sentinel.closed)
    else ok (matching prefix (keys (entries p.secrets)))

abbrev pub capabilities : Provider → Capabilities
capabilities p = record {
  read = true;
  write = true;
  delete = true;
  list = true;
  versioning = false;
  rotation = false;
  binary = true;
  multi_field = true;
  batch = false;
  watch = false;
}

unfoldable pub close : Provider → Result (Unit {0}) × Provider
close p = (ok tt, record p { secrets = none; closed = true })

unfoldable pub clear : Provider → Provider
clear p = record p { secrets = some [] }

unfoldable pub count : Provider → ℕ
count p = length (entries p.secrets)

-- `var _ vault.Vault = (*Provider)(nil)`
abbrev pub memory_vault : Vault Provider
memory_vault = record {
  get = get;
  set = set;
  remove = remove;
  exists = exists;
  list_paths = list_paths;
  name = λ p. provider_name;
  capabilities = capabilities;
  close = close;
}
