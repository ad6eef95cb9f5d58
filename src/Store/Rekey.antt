-- ===== src/Store/Rekey.antt =====
-- internal/store/encrypted.go: ChangePassword, and its loop that seals every secret again.
use omnivault.Base.{
  ℕ, suc, Bytes, codes, true, false, ◌≡◌, refl, ◌∙◌, none, some, arith, IsMap, lookup, insert,
  has_key, [], ◌∷◌, ◌++◌, if◌then◌else◌, Option-cases, inl, inr, Bool-cases, bytes_eq_iff,
  lookup-insert,
}
use mathlib.Core.Path.{subst}
use omnivault.Vault.Errors.{sentinel, Sentinel}
use omnivault.Vault.Interface.{Result-cases, >>=-eq-ok, ok, err}
use omnivault.Store.Crypto.{
  Crypto, Primitives, Rand, IsSound, Fills, new_crypto, default_argon2_params,
  create_verification_blob, verify_password, is_unlocked, encrypt, decrypt, context,
}
use omnivault.Store.Crypto as Crypto
use omnivault.Store.Crypto.Laws.{decrypt-encrypt, context-ok_iff}
use omnivault.Store.Disk.{VaultMeta, Secrets, Platform, Io, Store, save_meta}
use omnivault.Store.Operations.{
  get, open_secret, reseal, reseal_all, save_both, changed, rekey, change_password,
}
use omnivault.Store.Contents.{IsUnlocked, get_unlocked, save_data_keeps}
use omnivault.Store.Chains.{Done}

module _ (pf : Platform) (sound : IsSound pf.prim) where
  reseal-ok :
      (rand : Rand) (old fresh : Crypto) (path e again : Bytes)
      → Fills rand
      → reseal pf rand old fresh path e ≡ ok again
      → open_secret pf fresh (some again) ≡ open_secret pf old (some e)
  unfolding reseal open_secret
  reseal-ok rand old fresh path e again fills h =
      let (d, hd, he) =
        >>=-eq-ok (context (codes "failed to decrypt secret " ++ path) (decrypt pf.prim old e)) _
          h in
      let opened =
        (context-ok_iff (codes "failed to decrypt secret " ++ path) (decrypt pf.prim old e) d).0
          hd in
      let sealed =
        (context-ok_iff (codes "failed to re-encrypt secret " ++ path)
            (encrypt pf.prim rand fresh d) again).0
          he in
      ground
        (arith, opened, decrypt-encrypt pf.prim sound rand fresh fresh d again fills sealed refl)

  reseal_all-ok :
      (io : Io) (i : ℕ) (old fresh : Crypto) (m out res : Secrets) (q : Bytes)
      → ((n : ℕ) → Fills (io.rand n))
      → IsMap m
      → reseal_all pf io i old fresh m out ≡ ok res
      → open_secret pf fresh (lookup q res) ≡ (
          if has_key q m
          then open_secret pf old (lookup q m)
          else open_secret pf fresh (lookup q out))
  unfolding reseal_all lookup has_key
  reseal_all-ok io i old fresh [] out res q fills d h = ground arith
  reseal_all-ok io i old fresh ((p, e) ∷ m) out res q fills d h =
      let (again, hr, rest) = >>=-eq-ok (reseal pf (io.rand i) old fresh p e) _ h in
      ground (
        arith,
        reseal_all-ok io (suc i) old fresh m (insert p again out) res q fills d.1 rest,
        reseal-ok (io.rand i) old fresh p e again (fills i) hr,
        lookup-insert p q again out,
        bytes_eq_iff p q,
      )

save_meta_keeps :
    (pf : Platform) (io : Io) (s : Store)
    → ((save_meta pf io s).1.contents ≡ s.contents) × ((save_meta pf io s).1.crypto ≡ s.crypto)
unfolding save_meta
save_meta_keeps pf io s = ground arith

pub unlock-is_unlocked :
    (pf : Platform) (c : Crypto) (password : Bytes)
    → is_unlocked (Crypto.unlock pf.prim c password) ≡ true
unfolding is_unlocked Crypto.unlock
unlock-is_unlocked pf c password = refl

-- Saving changes neither the map nor the key in memory, whatever the system answers.
pub save_both_keeps :
    (pf : Platform) (io : Io) (s : Store)
    → ((save_both pf io s).1.contents ≡ s.contents) × ((save_both pf io s).1.crypto ≡ s.crypto)
unfolding save_both
save_both_keeps pf io s =
    ground (arith, save_meta_keeps pf io s, save_data_keeps pf io (save_meta pf io s).1)

pub rekey-Done :
    (pf : Platform) (io : Io) (s : Store) (meta : VaultMeta) (old fresh : Crypto) (m : Secrets)
    → s.contents ≡ some m
    → Done (rekey pf io s meta old fresh)
    → (v : Bytes) × (res : Secrets) × (create_verification_blob pf.prim (io.rand 1) fresh ≡ ok v)
      × (reseal_all pf io 2 old fresh m [] ≡ ok res)
      × (rekey pf io s meta old fresh ≡ save_both pf io (changed s meta fresh v res))
unfolding rekey
rekey-Done pf io s meta old fresh m c h =
    elim (Result-cases (create_verification_blob pf.prim (io.rand 1) fresh)) [
      | inl (v, hv) ↦ elim (Result-cases (reseal_all pf io 2 old fresh m [])) [
        | inl (res, hr) ↦ (v, res, hv, hr, ground arith)
        | inr (inl (e, hr)) ↦ absurd (ground arith)
        | inr (inr hr) ↦ absurd (ground arith)
      ]
      | inr (inl (e, hv)) ↦ absurd (ground arith)
      | inr (inr hv) ↦ absurd (ground arith)
    ]

pub change_password-Done :
    (pf : Platform) (io : Io) (s : Store) (c : Crypto) (old new : Bytes)
    → s.crypto ≡ some c
    → Done (change_password pf io s old new)
    → (meta : VaultMeta) × (locked : Crypto) × (s.meta ≡ some meta)
      × (verify_password pf.prim c old meta.verification ≡ true)
      × (new_crypto (io.rand 0) none default_argon2_params ≡ ok locked)
      × (change_password pf io s old new ≡ rekey pf io s meta c (Crypto.unlock pf.prim locked new))
unfolding change_password
change_password-Done pf io s c old new hc h = elim (Option-cases s.meta) [
  | inl n ↦ absurd (ground arith)
  | inr (meta, hm) ↦ elim (Bool-cases (verify_password pf.prim c old meta.verification)) [
    | inr n ↦ absurd (ground arith)
    | inl v ↦ elim (Result-cases (new_crypto (io.rand 0) none default_argon2_params)) [
      | inl (locked, hl) ↦ (meta, locked, hm, v, hl, ground arith)
      | inr (inl (e, hl)) ↦ absurd (ground arith)
      | inr (inr hl) ↦ absurd (ground arith)
    ]
  ]
]

lookup-nil : (q : Bytes) → lookup {V = Bytes} q [] ≡ none
unfolding lookup
lookup-nil q = refl

open_missing :
    (pf : Platform) (c : Crypto) (q : Bytes) (m : Secrets)
    → has_key q m ≡ false
    → open_secret pf c (lookup q m) ≡ err (sentinel Sentinel.secret_not_found)
unfolding has_key open_secret
open_missing pf c q m h = ground arith

-- A ChangePassword that succeeds, of an unlocked store in whose map each path stands once, loses
-- no secret: Get answers at every path what it answered before, if what is sealed can be opened
-- and reads of randomness fill.
pub get-change_password :
    (pf : Platform) (sound : IsSound pf.prim) (io : Io) (s : Store) (c : Crypto) (m : Secrets)
    (old new q : Bytes)
    → IsUnlocked s c m
    → IsMap m
    → ((n : ℕ) → Fills (io.rand n))
    → Done (change_password pf io s old new)
    → get pf (change_password pf io s old new).1 q ≡ get pf s q
unfolding open_secret
get-change_password pf sound io s c m old new q u d fills h =
    let (meta, locked, hm, v, hl, e) = change_password-Done pf io s c old new u.by_crypto h in
    let fresh = Crypto.unlock pf.prim locked new in
    let (blob, res, hv, hr, e2) = rekey-Done pf io s meta c fresh m u.with_map (subst Done e h) in
    let final = changed s meta fresh blob res in
    let k = save_both_keeps pf io final in
    let u' : IsUnlocked (change_password pf io s old new).1 fresh res =
      rw (e, e2)
        (record { by_crypto = k.1; with_key = unlock-is_unlocked pf locked new; with_map = k.0 }) in
    get_unlocked pf io (change_password pf io s old new).1 fresh res u' q
    ∙ ground (
      arith,
      reseal_all-ok pf sound io 2 c fresh m [] res q fills d hr,
      get_unlocked pf io s c m u q,
      lookup-nil q,
      open_missing pf c q m,
    )
