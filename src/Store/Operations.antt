-- ===== src/Store/Operations.antt =====
-- internal/store/encrypted.go: the methods of EncryptedStore.
use omnivault.Base.{
  ℕ, suc, Bytes, codes, Bool, true, false, not, ◌||◌, Option, none, some, List, [], ◌∷◌, ◌++◌,
  lookup, insert, delete, keys, has_key, has_prefix, is_empty, length, sort_strings, if◌then◌else◌,
}
use omnivault.Vault.Types.{Time, Secret}
use omnivault.Vault.Errors.{Sentinel, sentinel, message, prefixed}
use omnivault.Vault.Interface.{Result, ok, err, panic, ◌>>=◌, Capabilities}
use omnivault.Store.Crypto.{
  Crypto, Rand, new_crypto, default_argon2_params, verify_password, create_verification_blob,
  encrypt, decrypt, locked_error, is_unlocked, context,
}
use omnivault.Store.Crypto as Crypto
use omnivault.Store.Disk.{
  VaultMeta, Secrets, Platform, Io, Store, Outcome, then_do, needs, needs_plain, vault_exists,
  save_meta, load_meta, save_data, load_data,
}

-- s.crypto == nil || !s.crypto.IsUnlocked()
unfoldable pub is_locked : Store → Bool
is_locked s = elim s.crypto [ none ↦ true | some c ↦ not (is_unlocked c) ]

-- A read through a nil pointer panics.
abbrev pub deref {ℓ κ} : {A : Type ℓ} {B : Type κ} → Option A → (A → Result B) → Result B
deref none f = panic
deref (some a) f = f a

abbrev pub deref_or {ℓ} : {A : Type ℓ} → Option A → Store → (A → Outcome) → Outcome
deref_or none s f = (panic, s)
deref_or (some a) s f = f a

-- The timestamps that Set writes into the secret that it is given; both are the one reading `now`.
abbrev pub or_now : Option Time → Time → Option Time
or_now none now = some now
or_now (some t) now = some t

unfoldable pub stamped : Time → Secret → Secret
stamped now x = record x {
  metadata = record x.metadata {
    created_at = or_now x.metadata.created_at now;
    modified_at = some now;
  };
}

unfoldable pub matching : Bytes → List Bytes → List Bytes
matching prefix [] = []
matching prefix (path ∷ paths) =
    let rest = matching prefix paths in
    if is_empty prefix || has_prefix path prefix then path ∷ rest else rest

unfoldable pub secret_count : Store → ℕ
secret_count s = elim s.contents [ none ↦ 0 | some m ↦ length m ]

unfoldable pub exists : Store → Bytes → Result Bool
exists s path =
    if is_locked s then err locked_error else deref s.contents (λ m. ok (has_key path m))

unfoldable pub list_paths : Store → Bytes → Result (List Bytes)
list_paths s prefix =
    if is_locked s
    then err locked_error
    else deref s.contents (λ m. ok (sort_strings (matching prefix (keys m))))

-- What ChangePassword leaves in memory before it saves.
abbrev pub changed : Store → VaultMeta → Crypto → Bytes → Secrets → Store
changed s meta fresh verification resealed = record s {
  meta = some (record meta {
    salt = fresh.salt;
    argon2_params = fresh.params;
    verification = verification;
  });
  contents = some resealed;
  crypto = some fresh;
}

module _ (pf : Platform) where
  open pf use {prim, codec}

  unfoldable pub open_secret : Crypto → Option Bytes → Result Secret
  open_secret c none = err (sentinel Sentinel.secret_not_found)
  open_secret c (some encrypted) = do
    decrypted ← context (codes "failed to decrypt secret") (decrypt prim c encrypted)
    context (codes "failed to unmarshal secret") (codec.unmarshal_secret decrypted)

  unfoldable pub get : Store → Bytes → Result Secret
  get s path =
      if is_locked s
      then err locked_error
      else deref s.contents (λ m. deref s.crypto (λ c. open_secret c (lookup path m)))

  -- One round of ChangePassword's loop: decrypt with the old key, encrypt with the new one.
  unfoldable pub reseal : Rand → Crypto → Crypto → Bytes → Bytes → Result Bytes
  reseal rand old fresh path encrypted = do
    decrypted ← context (codes "failed to decrypt secret " ++ path) (decrypt prim old encrypted)
    context (codes "failed to re-encrypt secret " ++ path) (encrypt prim rand fresh decrypted)

module _ (pf : Platform) (io : Io) where
  open pf use {prim, codec}

  -- saveMeta and then saveData, as Initialize and ChangePassword end.
  unfoldable pub save_both : Store → Outcome
  save_both s =
      then_do (codes "failed to save metadata") (save_meta pf io s)
        λ s1. then_do (codes "failed to save data") (save_data pf io s1) λ s2. (ok tt, s2)

  unfoldable pub initialize : Store → Bytes → Outcome
  initialize s password =
      if vault_exists io s
      then (err (message (codes "vault already exists")), s)
      else needs (codes "failed to create crypto")
          (new_crypto (io.rand 0) none default_argon2_params) s
          λ fresh.
            let crypto = Crypto.unlock prim fresh password in
            needs (codes "failed to create verification")
              (create_verification_blob prim (io.rand 1) crypto) s
              λ verification.
                let ready = record s {
                  meta = some (record {
                    version = 1;
                    created_at = io.clock 0;
                    salt = crypto.salt;
                    argon2_params = crypto.params;
                    verification = verification;
                  });
                  contents = some [];
                  crypto = some crypto;
                  unlock_time = io.clock 1;
                } in
                save_both ready

  -- What Unlock does with the outcome of loadData: on an error it locks again.
  abbrev pub finish_unlock : Outcome → Outcome
  finish_unlock (ok u, s) = (ok tt, s)
  finish_unlock (err e, s) =
      (err (prefixed (codes "failed to load vault data") e), record s { crypto = none })
  finish_unlock (panic, s) = (panic, s)

  unfoldable pub unlock : Store → Bytes → Outcome
  unlock s password =
      if not (vault_exists io s)
      then (err (message (codes "vault does not exist, run init first")), s)
      else then_do (codes "failed to load metadata") (load_meta pf io s) λ s1.
        deref_or s1.meta s1 λ meta.
          needs (codes "failed to create crypto")
            (new_crypto (io.rand 0) (some meta.salt) meta.argon2_params) s1
            λ fresh.
              if not (verify_password prim fresh password meta.verification)
              then (err (message (codes "invalid password")), s1)
              else finish_unlock (
                  load_data pf io (record s1 {
                    crypto = some (Crypto.unlock prim fresh password);
                    unlock_time = io.clock 0;
                  }))

  abbrev pub forget : Store → Outcome
  forget s = (ok tt, record s { crypto = none; contents = none; dirty = false })

  unfoldable pub lock : Store → Outcome
  lock s = elim s.crypto [
    | none ↦ (ok tt, s)
    | some c ↦
        if s.dirty
        then then_do (codes "failed to save data") (save_data pf io s) forget
        else forget s
  ]

  -- if s.autoSave { return s.saveData() }; return nil
  abbrev pub auto_saved : Store → Outcome
  auto_saved s = if s.auto_save then save_data pf io s else (ok tt, s)

  -- json.Marshal and EncryptString of the stamped secret.
  unfoldable pub seal_secret : Crypto → Secret → Result Bytes
  seal_secret c x = do
    plain ← context (codes "failed to marshal secret") (codec.marshal_secret x)
    context (codes "failed to encrypt secret") (encrypt prim (io.rand 0) c plain)

  unfoldable pub set : Store → Bytes → Option Secret → Outcome
  set s path given =
      if is_locked s
      then (err locked_error, s)
      else deref_or given s λ x. deref_or s.crypto s λ c.
        needs_plain (seal_secret c (stamped (io.clock 0) x)) s λ encrypted.
          deref_or s.contents s
            λ m. auto_saved (record s { contents = some (insert path encrypted m); dirty = true })

  unfoldable pub remove : Store → Bytes → Outcome
  remove s path =
      if is_locked s
      then (err locked_error, s)
      else deref_or s.contents s
          λ m. auto_saved (record s { contents = some (delete path m); dirty = true })

  unfoldable pub reseal_all : ℕ → Crypto → Crypto → Secrets → Secrets → Result Secrets
  reseal_all i old fresh [] out = ok out
  reseal_all i old fresh ((path, encrypted) ∷ m) out =
      reseal pf (io.rand i) old fresh path encrypted >>= λ again.
      reseal_all (suc i) old fresh m (insert path again out)

  -- ChangePassword from the new Crypto on, which the new password unlocks.
  unfoldable pub rekey : Store → VaultMeta → Crypto → Crypto → Outcome
  rekey s meta old fresh =
      needs (codes "failed to create verification")
        (create_verification_blob prim (io.rand 1) fresh) s
        λ verification. deref_or s.contents s λ m.
          needs_plain (reseal_all 2 old fresh m []) s
            λ resealed. save_both (changed s meta fresh verification resealed)

  unfoldable pub change_password : Store → Bytes → Bytes → Outcome
  change_password s old_password new_password = deref_or s.meta s λ meta. deref_or s.crypto s λ old.
      if not (verify_password prim old old_password meta.verification)
      then (err (message (codes "invalid current password")), s)
      else needs (codes "failed to create crypto")
          (new_crypto (io.rand 0) none default_argon2_params) s
          λ locked. rekey s meta old (Crypto.unlock prim locked new_password)

abbrev pub capabilities : Capabilities
capabilities = record {
  read = true;
  write = true;
  delete = true;
  list = true;
  versioning = false;
  rotation = false;
  binary = true;
  multi_field = true;
  batch = false;
  watch = false;
}
