-- ===== src/Store/Rotation.antt =====
-- Changing the password on disk: the next session after a ChangePassword, and after one that the
-- system cuts short.
use omnivault.Base.{
  ℕ, Bytes, codes, false, ◌≡◌, ◌∙◌, sym, ap, Option, none, some, arith, IsMap, ltb, length,
}
use mathlib.Core.Path.{subst}
use omnivault.Vault.Errors.{Error, prefixed}
use omnivault.Vault.Interface.{ok, err}
use omnivault.Store.Crypto.{
  Crypto, Primitives, Rand, IsSound, Fills, new_crypto, default_argon2_params,
  create_verification_blob, verify_password, is_unlocked, decrypt,
}
use omnivault.Store.Crypto as Crypto
use omnivault.Store.Crypto.Laws.{verify_password-create}
use omnivault.Store.Disk.{
  VaultMeta, Secrets, Disk, Platform, Io, Store, Outcome, Written, save_meta, save_data,
  new_encrypted_store,
}
use omnivault.Store.Operations.{get, save_both, changed, change_password, unlock}
use omnivault.Store.Contents.{IsUnlocked}
use omnivault.Store.Chains.{Done}
use omnivault.Store.Sessions.{Works, HasMeta, HasData, crypto_of}
use omnivault.Store.Restart.{RoundTrips, get-restart}
use omnivault.Store.Rekey.{
  save_both_keeps, rekey-Done, change_password-Done, get-change_password, unlock-is_unlocked,
}

new_crypto-fresh :
    (rand : Rand) (c : Crypto)
    → new_crypto rand none default_argon2_params ≡ ok c
    → (c.key ≡ none) × (ltb (length c.salt) 16 ≡ false)
unfolding new_crypto
new_crypto-fresh rand c h = ground arith

-- The metadata that a change of password writes is that of the new Crypto, and verifies.
pub changed-HasMeta :
    (pf : Platform) (sound : IsSound pf.prim) (rand rand1 : Rand) (d : Disk) (locked : Crypto)
    (password v b : Bytes) (meta : VaultMeta)
    → Fills rand1
    → new_crypto rand none default_argon2_params ≡ ok locked
    → create_verification_blob pf.prim rand1 (Crypto.unlock pf.prim locked password) ≡ ok v
    → (meta.salt ≡ locked.salt) × (meta.argon2_params ≡ locked.params) × (meta.verification ≡ v)
    → d.meta_file ≡ some b
    → pf.codec.unmarshal_meta b ≡ ok meta
    → HasMeta pf password d (Crypto.unlock pf.prim locked password) meta b
changed-HasMeta pf sound rand rand1 d locked password v b meta fills hl hv e hd hu =
    let f = new_crypto-fresh rand locked hl in
    let same : crypto_of meta ≡ locked = ground arith in
    record {
      in_file = hd;
      parsed = hu;
      long = ground arith;
      verified =
          rw (same, e.2) (verify_password-create pf.prim sound rand1 locked password v fills hv);
      unlocks = rw same;
    }

module _ (pf : Platform) (io : Io) (s : Store) (b : Bytes) where
  save_both_lem :
      (bytes : Bytes)
      → Works io
      → pf.codec.marshal_meta s.meta ≡ ok b
      → pf.codec.marshal_data s.contents ≡ ok bytes
      → save_both pf io s ≡ (
        ok tt,
        record s { disk = record { meta_file = some b; vault_file = some bytes }; dirty = false },
      )
  unfolding save_both save_meta save_data
  save_both_lem bytes w hm hd = ground arith

  -- The metadata file is written, and the write of the vault file fails.
  pub save_both_cut :
      (bytes : Bytes) (e : Error) (left : Option Bytes)
      → io.mkdir_meta ≡ none
      → io.mkdir_vault ≡ none
      → io.write_meta ≡ Written.done
      → io.write_vault ≡ Written.failed e left
      → pf.codec.marshal_meta s.meta ≡ ok b
      → pf.codec.marshal_data s.contents ≡ ok bytes
      → save_both pf io s ≡ (
        err (prefixed (codes "failed to save data") e),
        record s { disk = record { meta_file = some b; vault_file = left } },
      )
  unfolding save_both save_meta save_data
  save_both_cut bytes e left m1 m2 w1 w2 hm hd = ground arith

save_both_meta : (pf : Platform) (io : Io) (s : Store) → (save_both pf io s).1.meta ≡ s.meta
unfolding save_both save_meta save_data
save_both_meta pf io s = ground arith

pub changed-parts :
    (pf : Platform) (s : Store) (meta : VaultMeta) (locked : Crypto) (new v : Bytes) (res : Secrets)
    (meta' : VaultMeta)
    → (changed s meta (Crypto.unlock pf.prim locked new) v res).meta ≡ some meta'
    → (meta'.salt ≡ locked.salt) × (meta'.argon2_params ≡ locked.params) × (meta'.verification ≡ v)
unfolding Crypto.unlock
changed-parts pf s meta locked new v res meta' h = ground arith

-- After a ChangePassword that succeeds, of an unlocked store in whose map each path stands once, a
-- restart and an Unlock with the new password, Get answers at every path what it answered before
-- the change: where the system carries out every call, what is sealed can be opened, reads of
-- randomness fill, and encoding/json reads back the metadata and the map that the change saved.
pub get-restart-change_password :
    (pf : Platform) (sound : IsSound pf.prim) (io io' : Io) (s : Store) (c : Crypto)
    (m res m' : Secrets) (meta' : VaultMeta) (old new b bytes q : Bytes)
    → Works io
    → Works io'
    → IsUnlocked s c m
    → IsMap m
    → ((n : ℕ) → Fills (io.rand n))
    → Done (change_password pf io s old new)
    → (change_password pf io s old new).1.meta ≡ some meta'
    → (change_password pf io s old new).1.contents ≡ some res
    → pf.codec.marshal_meta (some meta') ≡ ok b
    → pf.codec.unmarshal_meta b ≡ ok meta'
    → RoundTrips pf res m' bytes
    → let disk = (change_password pf io s old new).1.disk in
      ((unlock pf io' (new_encrypted_store disk) new).0 ≡ ok tt)
      × (get pf (unlock pf io' (new_encrypted_store disk) new).1 q ≡ get pf s q)
get-restart-change_password pf sound io io' s c m res m' meta' old new b bytes q w w' u d fills h tm
      tc mm um r =
    let (meta, locked, hm, v, hl, e) = change_password-Done pf io s c old new u.by_crypto h in
    let fresh = Crypto.unlock pf.prim locked new in
    let (blob, res0, hv, hr, e2) = rekey-Done pf io s meta c fresh m u.with_map (subst Done e h) in
    let final = changed s meta fresh blob res0 in
    let whole = e ∙ e2 in
    let k = save_both_keeps pf io final in
    let fm : final.meta ≡ some meta' =
      sym (save_both_meta pf io final) ∙ sym (ap (λ (o : Outcome). o.1.meta) whole) ∙ tm in
    let fc : final.contents ≡ some res =
      sym k.0 ∙ sym (ap (λ (o : Outcome). o.1.contents) whole) ∙ tc in
    let saved =
      save_both_lem pf io final b bytes w (ap pf.codec.marshal_meta fm ∙ mm)
        (ap pf.codec.marshal_data fc ∙ r.marshals) in
    let dk = ap (λ (o : Outcome). o.1.disk) (whole ∙ saved) in
    let t = (change_password pf io s old new).1 in
    let u' : IsUnlocked t fresh res = record {
      by_crypto = ap (λ (o : Outcome). o.1.crypto) whole ∙ k.1;
      with_key = unlock-is_unlocked pf locked new;
      with_map = tc;
    } in
    let has_meta =
      changed-HasMeta pf sound (io.rand 0) (io.rand 1) t.disk locked new blob b meta' (fills 1) hl
        hv (changed-parts pf s meta locked new blob res0 meta' fm)
        (ap (λ (x : Disk). x.meta_file) dk) um in
    let has_data : HasData pf t.disk res m' bytes = record {
      in_file = ap (λ (x : Disk). x.vault_file) dk;
      parsed = r.unmarshals;
      same = r.same_entries;
    } in
    let back = get-restart pf io' t new fresh meta' res m' b bytes q w' u' has_meta has_data in
    (back.0, back.1 ∙ get-change_password pf sound io s c m old new q u d fills h)
