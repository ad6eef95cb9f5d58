-- ===== src/Store/Failures.antt =====
-- What the store is left in when the system fails in the middle of a call.
use omnivault.Base.{Bytes, codes, true, false, ◌≡◌, refl, ◌∙◌, ap, none, some, arith, lookup, []}
use omnivault.Vault.Errors.{Error, prefixed}
use omnivault.Vault.Interface.{ok, err}
use omnivault.Store.Crypto.{
  Crypto, IsSound, Fills, new_crypto, default_argon2_params, create_verification_blob,
  verify_password, is_unlocked, decrypt,
}
use omnivault.Store.Crypto as Crypto
use omnivault.Store.Disk.{
  VaultMeta, Secrets, Disk, Platform, Io, Store, Outcome, Written, save_meta, new_encrypted_store,
  vault_exists,
}
use omnivault.Store.Operations.{
  is_locked, get, open_secret, reseal_all, save_both, changed, rekey, change_password, unlock,
  initialize,
}
use omnivault.Store.Contents.{IsUnlocked, get_unlocked}
use omnivault.Store.Sessions.{Works, HasData, unlock_saved}
use omnivault.Store.Rekey.{unlock-is_unlocked}
use omnivault.Store.Rotation.{changed-HasMeta, changed-parts, save_both_cut}

change_password-save :
    (pf : Platform) (io : Io) (s : Store) (c locked : Crypto) (m res : Secrets) (meta : VaultMeta)
    (old new v : Bytes)
    → IsUnlocked s c m
    → s.meta ≡ some meta
    → verify_password pf.prim c old meta.verification ≡ true
    → new_crypto (io.rand 0) none default_argon2_params ≡ ok locked
    → create_verification_blob pf.prim (io.rand 1) (Crypto.unlock pf.prim locked new) ≡ ok v
    → reseal_all pf io 2 c (Crypto.unlock pf.prim locked new) m [] ≡ ok res
    → change_password pf io s old new
      ≡ save_both pf io (changed s meta (Crypto.unlock pf.prim locked new) v res)
unfolding change_password rekey
change_password-save pf io s c locked m res meta old new v u hm hv hl hb hr =
    ground (arith, u.by_crypto, u.with_map)

open_wrong :
    (pf : Platform) (c : Crypto) (m : Secrets) (q enc : Bytes) (x : Error)
    → lookup q m ≡ some enc
    → decrypt pf.prim c enc ≡ err x
    → open_secret pf c (lookup q m) ≡ err (prefixed (codes "failed to decrypt secret") x)
unfolding open_secret
open_wrong pf c m q enc x l d = ground arith

-- A ChangePassword that writes the metadata and fails to write the vault file, which stays as it
-- was, reports an error and leaves new metadata beside the old vault file: the next session is
-- unlocked by the new password, and Get fails at every path whose old sealed secret the new key
-- does not open. The old password verifies, and all before the save succeeds; encoding/json writes the
-- new metadata and map, and reads back the metadata and the old map; what is sealed can be opened with
-- its key, reads of randomness fill, and the next session carries out every call.
pub change_password_interrupted :
    (pf : Platform) (sound : IsSound pf.prim) (io io' : Io) (s : Store) (c locked : Crypto)
    (m m' res : Secrets) (meta meta' : VaultMeta) (old new v b bytes d q enc : Bytes) (e x : Error)
    → IsUnlocked s c m
    → s.meta ≡ some meta
    → verify_password pf.prim c old meta.verification ≡ true
    → Fills (io.rand 1)
    → new_crypto (io.rand 0) none default_argon2_params ≡ ok locked
    → create_verification_blob pf.prim (io.rand 1) (Crypto.unlock pf.prim locked new) ≡ ok v
    → reseal_all pf io 2 c (Crypto.unlock pf.prim locked new) m [] ≡ ok res
    → (changed s meta (Crypto.unlock pf.prim locked new) v res).meta ≡ some meta'
    → pf.codec.marshal_meta (some meta') ≡ ok b
    → pf.codec.unmarshal_meta b ≡ ok meta'
    → pf.codec.marshal_data (some res) ≡ ok bytes
    → HasData pf s.disk m m' d
    → io.mkdir_meta ≡ none
    → io.mkdir_vault ≡ none
    → io.write_meta ≡ Written.done
    → io.write_vault ≡ Written.failed e s.disk.vault_file
    → Works io'
    → lookup q m ≡ some enc
    → decrypt pf.prim (Crypto.unlock pf.prim locked new) enc ≡ err x
    → let (answer, t) = change_password pf io s old new in
      (answer ≡ err (prefixed (codes "failed to save data") e))
      × ((unlock pf io' (new_encrypted_store t.disk) new).0 ≡ ok tt)
      × (get pf (unlock pf io' (new_encrypted_store t.disk) new).1 q
          ≡ err (prefixed (codes "failed to decrypt secret") x))
change_password_interrupted pf sound io io' s c locked m m' res meta meta' old new v b bytes d q enc
      e x u hm hv fills hl hb hr fm mm um md hd k1 k2 w1 w2 w' lq dq =
    let fresh = Crypto.unlock pf.prim locked new in
    let final = changed s meta fresh v res in
    let whole =
      change_password-save pf io s c locked m res meta old new v u hm hv hl hb hr
      ∙ save_both_cut pf io final b bytes e s.disk.vault_file k1 k2 w1 w2
          (ap pf.codec.marshal_meta fm ∙ mm) md in
    let left : Disk = record { meta_file = some b; vault_file = s.disk.vault_file } in
    let has_meta =
      changed-HasMeta pf sound (io.rand 0) (io.rand 1) left locked new v b meta' fills hl hb
        (changed-parts pf s meta locked new v res meta' fm) refl um in
    let has_data : HasData pf left m m' d = record {
      in_file = hd.in_file;
      parsed = hd.parsed;
      same = hd.same;
    } in
    let back =
      unlock_saved pf io' w' (new_encrypted_store left) new fresh meta' m m' b d has_meta
        has_data in
    let opened : Store = record (new_encrypted_store left) {
      meta = some meta';
      crypto = some fresh;
      contents = some m';
      unlock_time = io'.clock 0;
    } in
    let read =
      get_unlocked pf io' opened fresh m'
        (record { by_crypto = refl; with_key = unlock-is_unlocked pf locked new; with_map = refl })
        q
      ∙ open_wrong pf fresh m' q enc x (hd.same q ∙ lq) dq in
    (ap (λ (o : Outcome). o.0) whole, rw (whole, back), rw (whole, back) read)

-- An Initialize where no vault exists, which makes its key and verification and then cannot make
-- the directory of the metadata file, reports the error and leaves the store unlocked with an
-- empty map, though no vault exists.
pub initialize_left_unlocked :
    (pf : Platform) (io : Io) (s : Store) (password v : Bytes) (fresh : Crypto) (e : Error)
    → vault_exists io s ≡ false
    → new_crypto (io.rand 0) none default_argon2_params ≡ ok fresh
    → create_verification_blob pf.prim (io.rand 1) (Crypto.unlock pf.prim fresh password) ≡ ok v
    → io.mkdir_meta ≡ some e
    → let (answer, t) = initialize pf io s password in
      (answer ≡ err (prefixed (codes "failed to save metadata") e))
      × (is_locked t ≡ false)
      × (t.contents ≡ some [])
      × (vault_exists io t ≡ false)
unfolding initialize save_both save_meta is_locked vault_exists is_unlocked Crypto.unlock
initialize_left_unlocked pf io s password v fresh e x hl hb k = ground arith
