-- ===== src/Providers/Sql/Parts.antt =====
-- providers/sqlstore/sqlstore.go: the types that the provider works with, and its helpers that take no parameter.
use omnivault.Base.{
  ℕ, Bytes, codes, Bool, true, ◌&&◌, ◌||◌, leb, Option, none, some, List, [], ◌∷◌, Map,
  if◌then◌else◌, ℤ,
}
use omnivault.Vault.Types.{Time, Any, Secret, has_bytes}
use omnivault.Vault.Errors.{Error, vault_error}
use omnivault.Vault.Interface.{Result, ok, err, panic, ◌>>=◌}
use omnivault.Providers.Memory.{copy_entries, copy_map, or_now}

pub record Row : Type 0 where
  pub nonce : Bytes
  pub ciphertext : Bytes
  pub key_id : Bytes

-- ExecContext; QueryRowContext and Scan of a row or of a count; QueryContext with, for each row,
-- the result of Scan, and rows.Err.
pub record Database {ℓ} (D : Type ℓ) : Type ℓ where
  pub exec : D → Bytes → List Bytes → Result (Unit {0}) × D
  pub query_row : D → Bytes → Bytes → Result Row
  pub query_count : D → Bytes → Bytes → Result ℤ
  pub query_paths : D → Bytes → Bytes → Result (List (Result Bytes) × Option Error)
  pub is_no_rows : Error → Bool

-- A key; the second argument of seal and open is the nonce, the last is the associated data.
pub record Cipher (K : Type 0) : Type 0 where
  pub new_cipher : Bytes → Result K
  pub new_gcm : K → Result K
  pub nonce_size : K → ℕ
  pub seal : K → Bytes → Bytes → Bytes → Bytes
  pub unseal : K → Bytes → Bytes → Bytes → Result Bytes

pub record Codec : Type 0 where
  pub marshal : Secret → Result Bytes
  pub unmarshal : Bytes → Result Secret
  pub json_string : Bytes → Any
  pub quoted : Bytes → Bytes

pub data Query : Type 0 where
  get_query upsert_query delete_query exists_query list_query : Query

pub record Config {ℓ} (D : Type ℓ) : Type ℓ where
  pub db : Option D
  pub table : Bytes
  pub dialect : Bytes
  pub encryption_key : Bytes
  pub key_id : Bytes
  pub auto_migrate : Bool
  pub read_only : Bool

-- The provider, with the database that it works on.
pub record Provider {ℓ} (D : Type ℓ) (K : Type 0) : Type ℓ where
  pub db : D
  pub table : Bytes
  pub dialect : Bytes
  pub key_id : Bytes
  pub read_only : Bool
  pub aead : K

abbrev pub provider_name : Bytes
provider_name = codes "sql"

abbrev pub failure : Bytes → Bytes → Error → Error
failure op path e = vault_error op path provider_name e

-- A byte of 128 or more belongs to no letter of the list.
abbrev pub identifier_byte : ℕ → Bool
identifier_byte c =
    (leb 97 c && leb c 122)
    || (leb 65 c && leb c 90)
    || (leb 48 c && leb c 57)
    || leb 95 c && leb c 95

unfoldable pub all_identifier : Bytes → Bool
all_identifier [] = true
all_identifier (c ∷ s) = identifier_byte c && all_identifier s

abbrev pub slice_of {ℓ} : {A : Type ℓ} → Option (List A) → Option (List A)
slice_of none = none
slice_of (some []) = none
slice_of (some (x ∷ xs)) = some (x ∷ xs)

abbrev pub copy_extra : Option (Map Any) → Option (Map Any)
copy_extra none = none
copy_extra (some m) = some (copy_entries m [])

abbrev pub copy_secret : Secret → Secret
copy_secret s = record {
  value = s.value;
  value_bytes = if has_bytes s then s.value_bytes else none;
  fields = copy_map s.fields;
  metadata = record s.metadata {
    tags = copy_map s.metadata.tags;
    labels = slice_of s.metadata.labels;
    extra = copy_extra s.metadata.extra;
  };
}

-- What Set stores.
unfoldable pub stamped : Time → Bytes → Secret → Secret
stamped now path s =
    let copied = copy_secret s in
    record copied {
      metadata = record copied.metadata {
        created_at = or_now copied.metadata.created_at now;
        modified_at = some now;
        provider = provider_name;
        path = path;
      };
    }

abbrev pub or_empty : Option (Map Any) → Map Any
or_empty none = []
or_empty (some m) = m

abbrev pub within {ℓ} : {A : Type ℓ} → Bytes → Bytes → Result A → Result A
within op path (ok a) = ok a
within op path (err e) = err (failure op path e)
within op path panic = panic

-- The rows of List; the first one that does not scan ends it.
unfoldable pub scanned : Bytes → List (Result Bytes) → Option Error → Result (List Bytes)
scanned prefix [] none = ok []
scanned prefix [] (some e) = err (failure (codes "List") prefix e)
scanned prefix (r ∷ rows) end =
    within (codes "List") prefix r >>= λ path. scanned prefix rows end >>= λ rest. ok (path ∷ rest)
