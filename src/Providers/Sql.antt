-- ===== src/Providers/Sql.antt =====
-- providers/sqlstore/sqlstore.go: encrypted secrets in the rows of an SQL table. database/sql is the
-- record `Database` over the state `D` of the database, AES-GCM is `Cipher`, and encoding/json and
-- fmt's %q are `Codec`.
mod Parts
pub mod Stamps
pub mod Rows
mod Examples
unfoldable pub use Parts.*
use omnivault.Base.{
  ℕ, Bytes, codes, Bool, true, false, not, ◌&&◌, ◌||◌, leb, ltb, Option, none, some, List, [], ◌∷◌,
  ◌++◌, Map, insert, is_empty, bytes_eq, if◌then◌else◌, ℤ, pos, negsuc,
}
use omnivault.Vault.Types.{Time, Any, Secret, Metadata, has_bytes}
use omnivault.Vault.Errors.{Error, Sentinel, vault_error, sentinel, message, prefixed}
use omnivault.Vault.Interface.{Vault, Result, ok, err, panic, ◌>>=◌, Clock, Capabilities}
use omnivault.Providers.Memory.{copy_entries, copy_map, or_now}

module _ {ℓ} {D : Type ℓ} {K : Type 0} (dbs : Database D) (cipher : Cipher K) (codec : Codec) where
  open dbs use {exec, query_row, query_count, query_paths, is_no_rows}

  abbrev pub is_postgres : Provider D K → Bool
  is_postgres p = bytes_eq p.dialect (codes "postgres")

  abbrev pub placeholder : Provider D K → Bytes
  placeholder p = if is_postgres p then codes "$1" else codes "?"

  abbrev pub upsert_end : Provider D K → Bytes
  upsert_end p =
      if is_postgres p
      then codes
          " (path, nonce, ciphertext, key_id) VALUES ($1, $2, $3, $4) ON CONFLICT (path) DO UPDATE SET nonce = EXCLUDED.nonce, ciphertext = EXCLUDED.ciphertext, key_id = EXCLUDED.key_id, updated_at = CURRENT_TIMESTAMP"
      else if bytes_eq p.dialect (codes "sqlite")
      then codes
          " (path, nonce, ciphertext, key_id) VALUES (?, ?, ?, ?) ON CONFLICT(path) DO UPDATE SET nonce = excluded.nonce, ciphertext = excluded.ciphertext, key_id = excluded.key_id, updated_at = CURRENT_TIMESTAMP"
      else codes
          " (path, nonce, ciphertext, key_id) VALUES (?, ?, ?, ?) ON DUPLICATE KEY UPDATE nonce = VALUES(nonce), ciphertext = VALUES(ciphertext), key_id = VALUES(key_id), updated_at = CURRENT_TIMESTAMP"

  -- The names that the code gives its queries are the constructors of `Query`.
  unfoldable pub query : Provider D K → Query → Bytes
  query p Query.get_query =
      codes "SELECT nonce, ciphertext, key_id FROM "
      ++ p.table
      ++ codes " WHERE path = "
      ++ placeholder p
  query p Query.upsert_query = codes "INSERT INTO " ++ p.table ++ upsert_end p
  query p Query.delete_query =
      codes "DELETE FROM " ++ p.table ++ codes " WHERE path = " ++ placeholder p
  query p Query.exists_query =
      codes "SELECT COUNT(1) FROM " ++ p.table ++ codes " WHERE path = " ++ placeholder p
  query p Query.list_query =
      codes "SELECT path FROM "
      ++ p.table
      ++ codes " WHERE path LIKE "
      ++ placeholder p
      ++ codes " ORDER BY path"

  abbrev pub blob_type : Provider D K → Bytes
  blob_type p = if is_postgres p then codes "BYTEA" else codes "BLOB"

  abbrev pub newline : Bytes
  newline = 10 ∷ []

  abbrev pub create_table : Provider D K → Bytes
  create_table p =
      codes "CREATE TABLE IF NOT EXISTS "
      ++ p.table
      ++ codes " ("
      ++ newline
      ++ codes "path VARCHAR(512) PRIMARY KEY,"
      ++ newline
      ++ codes "nonce "
      ++ blob_type p
      ++ codes " NOT NULL,"
      ++ newline
      ++ codes "ciphertext "
      ++ blob_type p
      ++ codes " NOT NULL,"
      ++ newline
      ++ codes "key_id VARCHAR(255) NOT NULL DEFAULT '',"
      ++ newline
      ++ codes "created_at TIMESTAMP NOT NULL DEFAULT CURRENT_TIMESTAMP,"
      ++ newline
      ++ codes "updated_at TIMESTAMP NOT NULL DEFAULT CURRENT_TIMESTAMP"
      ++ newline
      ++ codes ")"

  abbrev pub Changed : Type ℓ
  Changed = Result (Unit {0}) × Provider D K

  -- An ExecContext of the provider, its error named after `op` and `path`.
  abbrev pub executed : Provider D K → Bytes → Bytes → Result (Unit {0}) × D → Changed
  executed p op path (r, d) = (within op path r, record p { db = d })

  unfoldable pub migrate : Provider D K → Changed
  migrate p = executed p (codes "Migrate") p.table (exec p.db (create_table p) [])

  unfoldable pub validate_identifier : Bytes → Result (Unit {0})
  validate_identifier name =
      if is_empty name
      then err (message (codes "sqlstore: identifier is empty"))
      else if all_identifier name
      then ok tt
      else err (message (codes "sqlstore: invalid identifier " ++ codec.quoted name))

  abbrev pub or_default : Bytes → Bytes → Bytes
  or_default given default = if is_empty given then default else given

  abbrev pub prefixing {κ} : {A : Type κ} → Bytes → Result A → Result A
  prefixing m (ok a) = ok a
  prefixing m (err e) = err (prefixed m e)
  prefixing m panic = panic

  abbrev pub migrated : Changed → Result (Provider D K)
  migrated (ok u, p) = ok p
  migrated (err e, p) = err e
  migrated (panic, p) = panic

  abbrev pub configured : Config D → D → Bytes → K → Provider D K
  configured c d table aead = record {
    db = d;
    table = table;
    dialect = or_default c.dialect (codes "mysql");
    key_id = c.key_id;
    read_only = c.read_only;
    aead = aead;
  }

  abbrev pub finish : Config D → Provider D K → Result (Provider D K)
  finish c p = if c.auto_migrate then migrated (migrate p) else ok p

  abbrev pub with_block : Config D → D → Bytes → K → Result (Provider D K)
  with_block c d table block =
      prefixing (codes "sqlstore: create cipher") (cipher.new_gcm block) >>= λ aead.
      finish c (configured c d table aead)

  abbrev pub with_table : Config D → D → Bytes → Result (Provider D K)
  with_table c d table =
      prefixing (codes "sqlstore: invalid encryption key") (cipher.new_cipher c.encryption_key)
      >>= λ block. with_block c d table block

  -- The provider that New returns; `d` is the database of the configuration.
  abbrev pub new_on : Config D → D → Result (Provider D K)
  new_on c d =
      let table = or_default c.table (codes "omnivault_secrets") in
      validate_identifier table >>= λ u. with_table c d table

  abbrev pub given : Config D → Option D → Result (Provider D K)
  given c none = err (message (codes "sqlstore: DB is required"))
  given c (some d) = new_on c d

  abbrev pub new : Config D → Result (Provider D K)
  new c = given c c.db

  abbrev pub with_key_id : Bytes → Bytes → Secret → Secret
  with_key_id path key_id s = record s {
    metadata = record s.metadata {
      provider = provider_name;
      path = path;
      extra = some (insert (codes "key_id") (codec.json_string key_id) (or_empty s.metadata.extra));
    };
  }

  -- Get from Open on.
  abbrev pub opened : Provider D K → Bytes → Row → Result Secret
  opened p path row =
      within (codes "Get") path (cipher.unseal p.aead row.nonce row.ciphertext path)
      >>= λ plaintext. within (codes "Get") path (codec.unmarshal plaintext) >>= λ s.
          ok (with_key_id path row.key_id s)

  abbrev pub found : Provider D K → Bytes → Result Row → Result (Option Secret)
  found p path (ok row) = opened p path row >>= λ s. ok (some s)
  found p path (err e) =
      if is_no_rows e
      then err (failure (codes "Get") path (sentinel Sentinel.secret_not_found))
      else err (failure (codes "Get") path e)
  found p path panic = panic

  unfoldable pub get : Provider D K → Bytes → Result (Option Secret)
  get p path = found p path (query_row p.db (query p Query.get_query) path)

  abbrev pub failed : Provider D K → Bytes → Error → Changed
  failed p path e = (err (failure (codes "Set") path e), p)

  -- Set from Seal on; `random` is what io.ReadFull reads of the random source.
  abbrev pub put : Provider D K → Bytes → Bytes → Result Bytes → Changed
  put p path payload (ok nonce) = executed p (codes "Set") path (
      exec p.db (query p Query.upsert_query)
        (path ∷ nonce ∷ cipher.seal p.aead nonce payload path ∷ p.key_id ∷ []))
  put p path payload (err e) = failed p path e
  put p path payload panic = (panic, p)

  abbrev pub store : Provider D K → Bytes → Result Bytes → Result Bytes → Changed
  store p path random (ok payload) = put p path payload random
  store p path random (err e) = failed p path e
  store p path random panic = (panic, p)

  module _ (random : ℕ → Result Bytes) where
    unfoldable pub set : Provider D K → Clock → Bytes → Option Secret → Changed
    set p clock path given =
        if p.read_only then failed p path (sentinel Sentinel.read_only) else elim given [
          | none ↦ failed p path (message (codes "secret is required"))
          | some s ↦
              store p path (random (cipher.nonce_size p.aead))
                (codec.marshal (stamped (clock 0) path s))
        ]

  unfoldable pub remove : Provider D K → Bytes → Changed
  remove p path =
      if p.read_only
      then (err (failure (codes "Delete") path (sentinel Sentinel.read_only)), p)
      else executed p (codes "Delete") path (exec p.db (query p Query.delete_query) (path ∷ []))

  abbrev pub positive : ℤ → Bool
  positive (pos n) = ltb 0 n
  positive (negsuc n) = false

  unfoldable pub exists : Provider D K → Bytes → Result Bool
  exists p path =
      within (codes "Exists") path (query_count p.db (query p Query.exists_query) path) >>= λ n.
      ok (positive n)

  unfoldable pub list_paths : Provider D K → Bytes → Result (List Bytes)
  list_paths p prefix =
      within (codes "List") prefix
        (query_paths p.db (query p Query.list_query) (prefix ++ codes "%"))
      >>= λ rows. scanned prefix rows.0 rows.1

  abbrev pub capabilities : Provider D K → Capabilities
  capabilities p = record {
    read = true;
    write = not p.read_only;
    delete = not p.read_only;
    list = true;
    versioning = false;
    rotation = false;
    binary = true;
    multi_field = true;
    batch = false;
    watch = false;
  }

  abbrev pub sql_vault : (ℕ → Result Bytes) → Vault (Provider D K)
  sql_vault random = record {
    get = get;
    set = set random;
    remove = remove;
    exists = exists;
    list_paths = list_paths;
    name = λ p. provider_name;
    capabilities = capabilities;
    close = λ p. (ok tt, p);
  }
