-- ===== src/Providers/Sql/Examples.antt =====
-- The theorems about the SQL provider over a table that is a map, with a cipher that writes the
-- associated data before the plaintext.
use omnivault.Base.{
  ℕ, zero, suc, Bytes, codes, true, false, Map, lookup, insert, Option, none, some, List, [], ◌∷◌,
  ◌==◌, if◌then◌else◌, ◌≡◌, refl, arith, is_empty,
}
use omnivault.Vault.Types.{Secret, new_secret}
use omnivault.Vault.Errors.{Error, message}
use omnivault.Vault.Interface.{Result, ok, err}
use omnivault.Providers.Sql.{
  Row, Database, Cipher, Codec, Config, Provider, all_identifier, validate_identifier, migrate,
}
use omnivault.Providers.Sql.Stamps as Stamps
use omnivault.Providers.Sql.Rows.{IsAead, new-all_identifier}

unfoldable mark : Bytes → Bytes → Bytes
mark [] m = 0 ∷ m
mark (c ∷ path) m = suc c ∷ mark path m

abbrev no_match : Error
no_match = message (codes "cipher: message authentication failed")

unfoldable unmark : Bytes → Bytes → Result Bytes
unmark path [] = err no_match
unmark [] (zero ∷ m) = ok m
unmark [] (suc d ∷ m) = err no_match
unmark (c ∷ path) (zero ∷ m) = err no_match
unmark (c ∷ path) (suc d ∷ m) = if c == d then unmark path m else err no_match

unmark-mark : (path m : Bytes) → unmark path (mark path m) ≡ ok m
unfolding unmark mark
unmark-mark [] m = refl
unmark-mark (c ∷ path) m = ground (arith, unmark-mark path m)

abbrev marking : Cipher Bytes
marking = record {
  new_cipher = λ key. ok key;
  new_gcm = λ key. ok key;
  nonce_size = λ key. 1;
  seal = λ key nonce m path. mark path m;
  unseal = λ key nonce c path. unmark path c;
}

abbrev marking-IsAead : IsAead marking
marking-IsAead = record { longest = 100; opens = λ k nonce m path n l. unmark-mark path m }

abbrev row_of : Option Row → Result Row
row_of none = err (message (codes "sql: no rows in result set"))
row_of (some row) = ok row

abbrev upserted : Map Row → List Bytes → Map Row
upserted d (path ∷ nonce ∷ ciphertext ∷ key_id ∷ []) =
    insert path (record { nonce = nonce; ciphertext = ciphertext; key_id = key_id }) d
upserted d _ = d

abbrev table : Database (Map Row)
table = record {
  exec = λ d q args. (ok tt, upserted d args);
  query_row = λ d q path. row_of (lookup path d);
  query_count = λ d q path. err (message (codes "count"));
  query_paths = λ d q path. err (message (codes "paths"));
  is_no_rows = λ e. true;
}

-- encoding/json, on a secret that `s` is the only one of.
abbrev codec : Secret → Codec
codec s = record {
  marshal = λ x. ok (codes "{}");
  unmarshal = λ text. ok s;
  json_string = λ text. text;
  quoted = λ text. text;
}

abbrev provider : Map Row → Provider (Map Row) Bytes
provider d = record {
  db = d;
  table = codes "t";
  dialect = codes "sqlite";
  key_id = codes "1";
  read_only = false;
  aead = codes "key";
}

-- The secret that Set keeps of a value.
abbrev kept : Secret
kept = Stamps.kept 7 (codes "k") (new_secret (codes "v"))

abbrev written : Map Row
written =
    (
      codes "k",
      record { nonce = codes "n"; ciphertext = mark (codes "k") (codes "{}"); key_id = codes "1" },
    )
    ∷ []

-- A random source that has one byte.
abbrev one_byte : ℕ → Result Bytes
one_byte n = if n == 1 then ok (codes "n") else err (message (codes "EOF"))

abbrev config : Config (Map Row)
config = record {
  db = some [];
  table = codes "t";
  dialect = codes "sqlite";
  encryption_key = codes "key";
  key_id = codes "1";
  auto_migrate = true;
  read_only = false;
}

new-all_identifier_example : (is_empty (codes "t") ≡ false) × (all_identifier (codes "t") ≡ true)
unfolding validate_identifier all_identifier migrate
new-all_identifier_example = new-all_identifier table marking (codec kept) config (provider []) refl
