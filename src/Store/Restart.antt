-- ===== src/Store/Restart.antt =====
-- internal/store/encrypted.go: restarts, where a new process over the same disk is unlocked with the
-- password.
use omnivault.Base.{
  Bytes, true, false, ◌≡◌, refl, ◌∙◌, ap, some, arith, lookup, insert, delete, bytes_eq,
  if◌then◌else◌,
}
use omnivault.Vault.Types.{Secret}
use omnivault.Vault.Errors.{Sentinel, sentinel}
use omnivault.Vault.Interface.{ok, err}
use omnivault.Store.Crypto.{Crypto, IsSound, Fills}
use omnivault.Store.Disk.{VaultMeta, Secrets, Platform, Io, Store, new_encrypted_store, save_data}
use omnivault.Store.Operations.{get, set, remove, unlock, auto_saved, seal_secret, stamped}
use omnivault.Store.Contents.{
  IsUnlocked, get_unlocked, set_unlocked, remove_unlocked, set-IsUnlocked, remove-IsUnlocked,
  get-set, get-remove,
}
use omnivault.Store.Sessions.{Works, HasMeta, HasData, unlock_saved}

-- Unlocking from the disk of an unlocked store succeeds and gives a store that answers every Get
-- as that one does, if the password verifies against the saved metadata and the key in memory is the
-- one that it derives from them, the saved map has the entries of the map in memory, and the system
-- carries out every call.
pub get-restart :
    (pf : Platform) (io : Io) (s : Store) (password : Bytes) (c : Crypto) (meta : VaultMeta)
    (m m' : Secrets) (b d q : Bytes)
    → Works io
    → IsUnlocked s c m
    → HasMeta pf password s.disk c meta b
    → HasData pf s.disk m m' d
    → ((unlock pf io (new_encrypted_store s.disk) password).0 ≡ ok tt)
      × (get pf (unlock pf io (new_encrypted_store s.disk) password).1 q ≡ get pf s q)
get-restart pf io s password c meta m m' b d q w u hm hd =
    let t = new_encrypted_store s.disk in
    let e = unlock_saved pf io w t password c meta m m' b d hm hd in
    let after =
      get_unlocked pf io
        (record t {
          meta = some meta;
          crypto = some c;
          contents = some m';
          unlock_time = io.clock 0;
        })
        c m' (record { by_crypto = refl; with_key = u.with_key; with_map = refl }) q in
    (rw e, rw (e, after, get_unlocked pf io s c m u q, hd.same q))

-- encoding/json writes the map, and what it writes is read back with the same entries.
pub record RoundTrips (pf : Platform) (m m' : Secrets) (bytes : Bytes) : Type 0 where
  pub marshals : pf.codec.marshal_data (some m) ≡ ok bytes
  pub unmarshals : pf.codec.unmarshal_data bytes ≡ ok (some m')
  pub same_entries : (k : Bytes) → lookup k m' ≡ lookup k m

module _ (pf : Platform) (io : Io) (w : Works io) where
  save_data_lem :
      (s : Store) (bytes : Bytes)
      → pf.codec.marshal_data s.contents ≡ ok bytes
      → save_data pf io s
        ≡ (ok tt, record s { disk = record s.disk { vault_file = some bytes }; dirty = false })
  unfolding save_data
  save_data_lem s bytes h = ground (arith, w.mkdir_vault_works, w.write_vault_works)

  auto_saved_lem :
      (s : Store) (bytes : Bytes)
      → s.auto_save ≡ true
      → pf.codec.marshal_data s.contents ≡ ok bytes
      → auto_saved pf io s
        ≡ (ok tt, record s { disk = record s.disk { vault_file = some bytes }; dirty = false })
  auto_saved_lem s bytes a h = ground (arith, save_data_lem s bytes h)

  auto_saved-HasMeta :
      (s : Store) (password : Bytes) (c : Crypto) (meta : VaultMeta) (b bytes : Bytes)
      → s.auto_save ≡ true
      → pf.codec.marshal_data s.contents ≡ ok bytes
      → HasMeta pf password s.disk c meta b
      → HasMeta pf password (auto_saved pf io s).1.disk c meta b
  auto_saved-HasMeta s password c meta b bytes a h hm = rw (auto_saved_lem s bytes a h) (record {
    in_file = hm.in_file;
    parsed = hm.parsed;
    long = hm.long;
    verified = hm.verified;
    unlocks = hm.unlocks;
  })

  auto_saved-HasData :
      (s : Store) (m m' : Secrets) (bytes : Bytes)
      → s.auto_save ≡ true
      → s.contents ≡ some m
      → RoundTrips pf m m' bytes
      → HasData pf (auto_saved pf io s).1.disk m m' bytes
  auto_saved-HasData s m m' bytes a h r =
      rw (auto_saved_lem s bytes a (ap pf.codec.marshal_data h ∙ r.marshals))
        (record { in_file = refl; parsed = r.unmarshals; same = r.same_entries })

-- A Set survives a restart. In an unlocked store that saves automatically, whose metadata file the
-- password verifies against and whose key in memory is the one that the password derives from that
-- file, a Set of a secret that can be sealed is followed by an unlock from the disk that it left: Get then answers at `p` with what encoding/json makes of the stamped
-- secret, and as before the Set at every other path. The system carries out every call, what is
-- sealed can be opened, reads of randomness fill, and encoding/json reads back the secret and the
-- map.
pub get-restart-set :
    (pf : Platform) (sound : IsSound pf.prim) (io io' : Io) (s : Store) (password : Bytes)
    (c : Crypto) (meta : VaultMeta) (m m' : Secrets) (b bytes p : Bytes) (x y : Secret)
    (j e q : Bytes)
    → Works io
    → Works io'
    → Fills (io.rand 0)
    → s.auto_save ≡ true
    → IsUnlocked s c m
    → HasMeta pf password s.disk c meta b
    → pf.codec.marshal_secret (stamped (io.clock 0) x) ≡ ok j
    → pf.codec.unmarshal_secret j ≡ ok y
    → seal_secret pf io c (stamped (io.clock 0) x) ≡ ok e
    → RoundTrips pf (insert p e m) m' bytes
    → get pf (unlock pf io' (new_encrypted_store (set pf io s p (some x)).1.disk) password).1 q
      ≡ (if bytes_eq p q then ok y else get pf s q)
get-restart-set pf sound io io' s password c meta m m' b bytes p x y j e q w w' fills a u hm mj uj h
      r =
    let s1 : Store = record s { contents = some (insert p e m); dirty = true } in
    let step = set_unlocked pf io s c m u p x e h in
    let hm' : HasMeta pf password (set pf io s p (some x)).1.disk c meta b =
      rw step (auto_saved-HasMeta pf io w s1 password c meta b bytes a r.marshals hm) in
    let hd' : HasData pf (set pf io s p (some x)).1.disk (insert p e m) m' bytes =
      rw step (auto_saved-HasData pf io w s1 (insert p e m) m' bytes a refl r) in
    (get-restart pf io' (set pf io s p (some x)).1 password c meta (insert p e m) m' b bytes q w'
      (set-IsUnlocked pf io s c m u p x e h) hm' hd').1
    ∙ get-set pf sound io s c m p x y j e q u fills mj uj h

-- A Delete survives a restart. In an unlocked store that saves automatically, whose metadata file
-- the password verifies against and whose key in memory is the one that the password derives from
-- that file, a Delete of `p` is followed by an unlock from the disk that it left: Get then fails with ErrSecretNotFound at `p`, and answers as before the Delete at every
-- other path. The system carries out every call, and encoding/json reads back the map.
pub get-restart-remove :
    (pf : Platform) (io io' : Io) (s : Store) (password : Bytes) (c : Crypto) (meta : VaultMeta)
    (m m' : Secrets) (b bytes p q : Bytes)
    → Works io
    → Works io'
    → s.auto_save ≡ true
    → IsUnlocked s c m
    → HasMeta pf password s.disk c meta b
    → RoundTrips pf (delete p m) m' bytes
    → get pf (unlock pf io' (new_encrypted_store (remove pf io s p).1.disk) password).1 q
      ≡ (if bytes_eq p q then err (sentinel Sentinel.secret_not_found) else get pf s q)
get-restart-remove pf io io' s password c meta m m' b bytes p q w w' a u hm r =
    let s1 : Store = record s { contents = some (delete p m); dirty = true } in
    let step = remove_unlocked pf io s c m u p in
    let hm' : HasMeta pf password (remove pf io s p).1.disk c meta b =
      rw step (auto_saved-HasMeta pf io w s1 password c meta b bytes a r.marshals hm) in
    let hd' : HasData pf (remove pf io s p).1.disk (delete p m) m' bytes =
      rw step (auto_saved-HasData pf io w s1 (delete p m) m' bytes a refl r) in
    (get-restart pf io' (remove pf io s p).1 password c meta (delete p m) m' b bytes q w'
      (remove-IsUnlocked pf io s c m u p) hm' hd').1
    ∙ get-remove pf io s c m p q u
