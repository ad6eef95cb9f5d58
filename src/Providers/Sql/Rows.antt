-- ===== src/Providers/Sql/Rows.antt =====
-- What the rows of the SQL provider give back, and which table its statements name.
use omnivault.Base.{
  ℕ, Bytes, codes, true, false, Option, none, some, [], ◌∷◌, ◌≡◌, is_empty, if-eq, inl, inr, arith,
  length, leb,
}
use mathlib.Core.Path.{subst}
use omnivault.Vault.Types.{Secret}
use omnivault.Vault.Interface.{Result, ok, err, panic, >>=-eq-ok}
use omnivault.Providers.Sql.{
  Database, Cipher, Codec, Config, Query, Provider, query, new, new_on, migrate, migrated,
  validate_identifier, all_identifier, or_default, prefixing, configured, given, finish, with_block,
  with_table,
}

-- SQL's meaning of the upsert and the select of a provider `p`, whatever its state: the row that an
-- upsert has written is the one that a select of its path finds.
abbrev pub IsTable {ℓ} :
    {D : Type ℓ} {K : Type 0} → Database D → Cipher K → Codec → Provider D K → Type ℓ
IsTable {D = D} dbs cipher codec p =
    (d d' : D) (path nonce ciphertext key_id : Bytes)
    → dbs.exec d (query dbs cipher codec p Query.upsert_query)
        (path ∷ nonce ∷ ciphertext ∷ key_id ∷ [])
      ≡ (ok tt, d')
    → dbs.query_row d' (query dbs cipher codec p Query.get_query) path
      ≡ ok (record { nonce = nonce; ciphertext = ciphertext; key_id = key_id })

-- Authenticated encryption of texts up to a length: what was sealed with a nonce of the cipher's size
-- opens with the same nonce and associated data.
pub record IsAead {K : Type 0} (cipher : Cipher K) : Type 0 where
  pub longest : ℕ
  pub opens :
      (k : K) (nonce m path : Bytes)
      → length nonce ≡ cipher.nonce_size k
      → leb (length m) longest ≡ true
      → cipher.unseal k nonce (cipher.seal k nonce m path) path ≡ ok m

-- A read of random bytes that succeeds fills what it was given.
abbrev pub ReadsFull : (ℕ → Result Bytes) → Type 0
ReadsFull random = (n : ℕ) (b : Bytes) → random n ≡ ok b → length b ≡ n

module _ {ℓ} {D : Type ℓ} {K : Type 0} (dbs : Database D) (cipher : Cipher K) (codec : Codec) where
  -- What a Set that succeeds has done.
  abbrev Written : (p q : Provider D K) (path : Bytes) (s : Secret) (random : Result Bytes) → Type ℓ
  Written p q path s random =
      (payload : Bytes) × (nonce : Bytes) × (d : D) × (codec.marshal s ≡ ok payload)
      × (random ≡ ok nonce)
      × (dbs.exec p.db (query dbs cipher codec p Query.upsert_query)
            (path ∷ nonce ∷ cipher.seal p.aead nonce payload path ∷ p.key_id ∷ [])
          ≡ (ok tt, d))
      × (q ≡ record p { db = d })

  validate_identifier-eq-ok :
      (name : Bytes)
      → validate_identifier dbs cipher codec name ≡ ok tt
      → (is_empty name ≡ false) × (all_identifier name ≡ true)
  unfolding validate_identifier
  validate_identifier-eq-ok name h = ground arith

  migrated-eq-ok :
      (c : Result (Unit {0}) × Provider D K) (p : Provider D K)
      → migrated dbs cipher codec c ≡ ok p
      → c.1.table ≡ p.table
  migrated-eq-ok (ok u, q) p h = cc
  migrated-eq-ok (err e, q) p h = cc
  migrated-eq-ok (panic, q) p h = cc

  finish-table :
      (c : Config D) (q p : Provider D K) → finish dbs cipher codec c q ≡ ok p → q.table ≡ p.table
  unfolding migrate
  finish-table c q p h =
      elim (if-eq c.auto_migrate (migrated dbs cipher codec (migrate dbs cipher codec q)) (ok q)
        h) [ inl e ↦ migrated-eq-ok (migrate dbs cipher codec q) p e | inr e ↦ cc ]

  with_table-table :
      (c : Config D) (d : D) (table : Bytes) (p : Provider D K)
      → with_table dbs cipher codec c d table ≡ ok p
      → table ≡ p.table
  with_table-table c d table p h =
      let (block, b, e) =
        >>=-eq-ok
          (prefixing dbs cipher codec (codes "sqlstore: invalid encryption key")
            (cipher.new_cipher c.encryption_key))
          (with_block dbs cipher codec c d table) h in
      let (aead, a, e') =
        >>=-eq-ok
          (prefixing dbs cipher codec (codes "sqlstore: create cipher") (cipher.new_gcm block))
          (λ aead. finish dbs cipher codec c (configured dbs cipher codec c d table aead)) e in
      finish-table c (configured dbs cipher codec c d table aead) p e'

  new_on-table :
      (c : Config D) (d : D) (p : Provider D K)
      → new_on dbs cipher codec c d ≡ ok p
      → (is_empty p.table ≡ false) × (all_identifier p.table ≡ true)
  new_on-table c d p h =
      let table = or_default dbs cipher codec c.table (codes "omnivault_secrets") in
      let (u, v, e) =
        >>=-eq-ok (validate_identifier dbs cipher codec table)
          (λ u. with_table dbs cipher codec c d table) h in
      subst (λ t. (is_empty t ≡ false) × (all_identifier t ≡ true)) (with_table-table c d table p e)
        (validate_identifier-eq-ok table v)

  given-table :
      (c : Config D) (o : Option D) (p : Provider D K)
      → given dbs cipher codec c o ≡ ok p
      → (is_empty p.table ≡ false) × (all_identifier p.table ≡ true)
  given-table c none p h = cc
  given-table c (some d) p h = new_on-table c d p h

  -- The table of a provider that New returns has a name, of ASCII letters, digits and '_' only: the
  -- name is written into every statement as it is.
  pub new-all_identifier :
      (c : Config D) (p : Provider D K)
      → new dbs cipher codec c ≡ ok p
      → (is_empty p.table ≡ false) × (all_identifier p.table ≡ true)
  new-all_identifier c p h = given-table c c.db p h
