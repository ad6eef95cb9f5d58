-- ===== src/Store/Contents.antt =====
-- What a client reads of an unlocked store: Get, Set and Delete as operations on a map.
use omnivault.Base.{
  Bytes, codes, true, false, ◌≡◌, ◌∙◌, Option, some, arith, lookup, insert, delete, bytes_eq,
  if◌then◌else◌, lookup-insert, lookup-delete,
}
use omnivault.Vault.Types.{Secret}
use omnivault.Vault.Errors.{Sentinel, sentinel}
use omnivault.Vault.Interface.{ok, err}
use omnivault.Store.Crypto.{Crypto, IsSound, Fills, encrypt, locked_error, is_unlocked}
use omnivault.Store.Crypto.Laws.{decrypt-encrypt, context-ok_iff}
use omnivault.Store.Disk.{Secrets, Platform, Io, Store, save_data}
use omnivault.Store.Operations.{
  is_locked, get, set, remove, auto_saved, exists, list_paths, seal_secret, open_secret, stamped,
}

-- The store is unlocked by `c` and has the map `m`.
pub record IsUnlocked (s : Store) (c : Crypto) (m : Secrets) : Type 0 where
  pub by_crypto : s.crypto ≡ some c
  pub with_key : is_unlocked c ≡ true
  pub with_map : s.contents ≡ some m

-- A save changes neither the map nor the key in memory, whether it succeeds or fails.
pub save_data_keeps :
    (pf : Platform) (io : Io) (s : Store)
    → ((save_data pf io s).1.contents ≡ s.contents) × ((save_data pf io s).1.crypto ≡ s.crypto)
unfolding save_data
save_data_keeps pf io s = ground arith

auto_saved_keeps :
    (pf : Platform) (io : Io) (s : Store)
    → ((auto_saved pf io s).1.contents ≡ s.contents) × ((auto_saved pf io s).1.crypto ≡ s.crypto)
auto_saved_keeps pf io s = ground (arith, save_data_keeps pf io s)

module _ (pf : Platform) (io : Io) (s : Store) (c : Crypto) (m : Secrets)
    (u : IsUnlocked s c m) where
  pub unlocked : is_locked s ≡ false
  unfolding is_locked
  unlocked = ground (arith, u.by_crypto, u.with_key)

  pub get_unlocked : (q : Bytes) → get pf s q ≡ open_secret pf c (lookup q m)
  unfolding get
  get_unlocked q = ground (arith, unlocked, u.by_crypto, u.with_map)

  pub set_unlocked :
      (p : Bytes) (x : Secret) (e : Bytes)
      → seal_secret pf io c (stamped (io.clock 0) x) ≡ ok e
      → set pf io s p (some x)
        ≡ auto_saved pf io (record s { contents = some (insert p e m); dirty = true })
  unfolding set
  set_unlocked p x e h = ground (arith, unlocked, u.by_crypto, u.with_map, h)

  pub remove_unlocked :
      (p : Bytes)
      → remove pf io s p
        ≡ auto_saved pf io (record s { contents = some (delete p m); dirty = true })
  unfolding remove
  remove_unlocked p = ground (arith, unlocked, u.with_map)

  pub set-IsUnlocked :
      (p : Bytes) (x : Secret) (e : Bytes)
      → seal_secret pf io c (stamped (io.clock 0) x) ≡ ok e
      → IsUnlocked (set pf io s p (some x)).1 c (insert p e m)
  set-IsUnlocked p x e h =
      let s' : Store = record s { contents = some (insert p e m); dirty = true } in
      let k = auto_saved_keeps pf io s' in
      rw (set_unlocked p x e h)
        (record { by_crypto = k.1 ∙ u.by_crypto; with_key = u.with_key; with_map = k.0 })

  pub remove-IsUnlocked : (p : Bytes) → IsUnlocked (remove pf io s p).1 c (delete p m)
  remove-IsUnlocked p =
      let s' : Store = record s { contents = some (delete p m); dirty = true } in
      let k = auto_saved_keeps pf io s' in
      rw (remove_unlocked p)
        (record { by_crypto = k.1 ∙ u.by_crypto; with_key = u.with_key; with_map = k.0 })

-- What Get answers at a path that was just written or deleted.
pub open_sealed :
    (pf : Platform) (sound : IsSound pf.prim) (io : Io) (c : Crypto) (x y : Secret) (j e : Bytes)
    → Fills (io.rand 0)
    → pf.codec.marshal_secret x ≡ ok j
    → pf.codec.unmarshal_secret j ≡ ok y
    → seal_secret pf io c x ≡ ok e
    → open_secret pf c (some e) ≡ ok y
unfolding open_secret seal_secret
open_sealed pf sound io c x y j e fills mj uj h = ground (
  arith,
  mj,
  uj,
  decrypt-encrypt pf.prim sound (io.rand 0) c c j e fills,
  context-ok_iff (codes "failed to encrypt secret") (encrypt pf.prim (io.rand 0) c j) e,
)

-- In an unlocked store Get answers, after a Set at `p` of a secret that can be sealed, with what
-- encoding/json makes of the stamped secret at `p` and as before at every other path, whether or
-- not the vault file could be written. What is sealed can be opened, and reads of randomness fill.
pub get-set :
    (pf : Platform) (sound : IsSound pf.prim) (io : Io) (s : Store) (c : Crypto) (m : Secrets)
    (p : Bytes) (x y : Secret) (j e : Bytes) (q : Bytes)
    → IsUnlocked s c m
    → Fills (io.rand 0)
    → pf.codec.marshal_secret (stamped (io.clock 0) x) ≡ ok j
    → pf.codec.unmarshal_secret j ≡ ok y
    → seal_secret pf io c (stamped (io.clock 0) x) ≡ ok e
    → get pf (set pf io s p (some x)).1 q ≡ (if bytes_eq p q then ok y else get pf s q)
get-set pf sound io s c m p x y j e q u fills mj uj h =
    let t = open_sealed pf sound io c (stamped (io.clock 0) x) y j e fills mj uj h in
    rw
      (
        get_unlocked pf io (set pf io s p (some x)).1 c (insert p e m)
            (set-IsUnlocked pf io s c m u p x e h) q,
        get_unlocked pf io s c m u q,
        lookup-insert p q e m,
      )
      (ground (arith, t))

-- In an unlocked store Get fails with ErrSecretNotFound at `p` after a Delete of `p`, and answers as
-- before at every other path, whether or not the vault file could be written.
pub get-remove :
    (pf : Platform) (io : Io) (s : Store) (c : Crypto) (m : Secrets) (p q : Bytes)
    → IsUnlocked s c m
    → get pf (remove pf io s p).1 q
      ≡ (if bytes_eq p q then err (sentinel Sentinel.secret_not_found) else get pf s q)
unfolding open_secret
get-remove pf io s c m p q u =
    rw
      (
        get_unlocked pf io (remove pf io s p).1 c (delete p m) (remove-IsUnlocked pf io s c m u p)
            q,
        get_unlocked pf io s c m u q,
        lookup-delete p q m,
      )
      (ground arith)

-- A locked store answers no call: Get, Exists and List fail, and Set and Delete fail and change
-- nothing.
pub locked_refuses :
    (pf : Platform) (io : Io) (s : Store) (p : Bytes) (x : Option Secret)
    → is_locked s ≡ true
    → (get pf s p ≡ err locked_error)
      × (exists s p ≡ err locked_error)
      × (list_paths s p ≡ err locked_error)
      × (set pf io s p x ≡ (err locked_error, s))
      × (remove pf io s p ≡ (err locked_error, s))
unfolding get exists list_paths set remove
locked_refuses pf io s p x h = ground arith
