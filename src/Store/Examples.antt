-- ===== src/Store/Examples.antt =====
-- The theorems about the store at a vault of one secret.
use omnivault.Base.{
  has_key, ◌∷◌, codes, true, none, some, [], ◌∷◌, ◌++◌, after_prefix, bytes_eq, lookup, insert,
  delete, ◌≡◌, refl,
}
use omnivault.Vault.Types.{new_secret}
use omnivault.Vault.Errors.{sentinel, Sentinel}
use omnivault.Vault.Interface.{ok, err}
use omnivault.Store.Crypto.{
  Primitives, Rand, Crypto, IsSound, Fills, default_argon2_params, new_aead, verify_password,
  encrypt, decrypt, create_verification_blob, new_crypto, is_unlocked, lock, encrypt_with,
  decrypt_with, derive_key, locked_error, verification_magic,
}
use omnivault.Store.Crypto as Crypto
use omnivault.Store.Disk.{VaultMeta, new_encrypted_store, vault_exists, load_meta, load_data}
use omnivault.Store.Operations.{is_locked, get, set, remove, exists, unlock, seal_secret, stamped}
use omnivault.Store.Contents.{get-set, get-remove}
use omnivault.Store.Sessions.{crypto_of}
use omnivault.Store.Steps.{Step, Reachable, exists-Reachable}
use omnivault.Store.Contents.{IsUnlocked}
use omnivault.Store.Disk.{Store, Disk, VaultMeta, Secrets, save_meta, save_data}
use omnivault.Store.Crypto.{create_verification_blob, Crypto}
use omnivault.Store.Operations.{initialize, save_both}
use omnivault.Store.Restart.{get-restart, get-restart-set, get-restart-remove}
use omnivault.Store.Password.{unlock-verified}
use omnivault.Store.Toy.{
  zeros, toy_prim, toy_sound, toy_rand-Fills, toy, works, crypto_for, sealed, meta_for,
  old_password, one_secret, one_disk, one_store, works-Works, one_store-IsUnlocked,
  one_store-HasMeta, one_disk-HasData, toy-Reads,
}

get-restart_example :
    ((unlock toy works (new_encrypted_store one_disk) old_password).0 ≡ ok tt)
    × (get toy (unlock toy works (new_encrypted_store one_disk) old_password).1 (codes "a")
        ≡ get toy one_store (codes "a"))
get-restart_example =
    get-restart toy works one_store old_password (crypto_for old_password) (meta_for old_password)
      one_secret one_secret (zeros 32 ++ sealed old_password (codes "omnivault-v1"))
      (codes "a" ++ sealed old_password (codes "1")) (codes "a") works-Works one_store-IsUnlocked
      one_store-HasMeta one_disk-HasData

get-restart-set_example :
    get toy
      (unlock toy works
        (new_encrypted_store
          (set toy works one_store (codes "a") (some (new_secret (codes "2")))).1.disk)
        old_password).1
      (codes "a")
    ≡ ok (new_secret (codes "2"))
unfolding bytes_eq stamped seal_secret encrypt encrypt_with insert lookup
get-restart-set_example =
    get-restart-set toy toy_sound works works one_store old_password (crypto_for old_password)
      (meta_for old_password) one_secret ((codes "a", sealed old_password (codes "2")) ∷ [])
      (zeros 32 ++ sealed old_password (codes "omnivault-v1"))
      (codes "a" ++ sealed old_password (codes "2")) (codes "a") (new_secret (codes "2"))
      (new_secret (codes "2")) (codes "2") (sealed old_password (codes "2")) (codes "a") works-Works
      works-Works toy_rand-Fills refl one_store-IsUnlocked one_store-HasMeta refl refl refl
      (record { marshals = refl; unmarshals = refl; same_entries = λ k. refl })

get-restart-remove_example :
    get toy
      (unlock toy works
        (new_encrypted_store (remove toy works one_store (codes "a")).1.disk)
        old_password).1
      (codes "a")
    ≡ err (sentinel Sentinel.secret_not_found)
unfolding bytes_eq delete lookup
get-restart-remove_example =
    get-restart-remove toy works works one_store old_password (crypto_for old_password)
      (meta_for old_password) one_secret [] (zeros 32 ++ sealed old_password (codes "omnivault-v1"))
      [] (codes "a") (codes "a") works-Works works-Works refl one_store-IsUnlocked one_store-HasMeta
      (record { marshals = refl; unmarshals = refl; same_entries = λ k. refl })

get-set_example :
    get toy (set toy works one_store (codes "b") (some (new_secret (codes "2")))).1 (codes "b")
    ≡ ok (new_secret (codes "2"))
unfolding bytes_eq stamped seal_secret encrypt encrypt_with
get-set_example =
    get-set toy toy_sound works one_store (crypto_for old_password) one_secret (codes "b")
      (new_secret (codes "2")) (new_secret (codes "2")) (codes "2")
      (sealed old_password (codes "2")) (codes "b") one_store-IsUnlocked toy_rand-Fills refl refl
      refl

unlock-verified_example :
    (meta : VaultMeta) × ((unlock toy works (new_encrypted_store one_disk) old_password).1.meta
      ≡ some meta)
    × (verify_password toy_prim (crypto_of meta) old_password meta.verification ≡ true)
unfolding is_locked unlock vault_exists load_meta new_crypto verify_password derive_key after_prefix
    bytes_eq Crypto.unlock load_data is_unlocked
unlock-verified_example =
    unlock-verified toy works (new_encrypted_store one_disk) old_password refl refl

abbrev empty_disk : Disk
empty_disk = record { meta_file = none; vault_file = none }

abbrev initialized : Store
initialized = (initialize toy works (new_encrypted_store empty_disk) old_password).1

exists-Reachable_example :
    (c : Crypto) × (m : Secrets) × (meta : VaultMeta) × IsUnlocked
      (set toy works initialized (codes "a") none).1
      c
      m
    × ((set toy works initialized (codes "a") none).1.meta ≡ some meta)
    × (exists (set toy works initialized (codes "a") none).1 (codes "a")
        ≡ ok (has_key (codes "a") m))
unfolding initialize vault_exists new_crypto create_verification_blob encrypt encrypt_with
    Crypto.unlock derive_key save_both save_meta save_data set is_locked is_unlocked
exists-Reachable_example =
    exists-Reachable toy (set toy works initialized (codes "a") none).1 (codes "a") toy-Reads
      (Reachable.steps
        (Reachable.steps (Reachable.starts empty_disk)
          (Step.initializes works (new_encrypted_store empty_disk) old_password))
        (Step.sets works initialized (codes "a") none))
      refl

get-remove_example :
    get toy (remove toy works one_store (codes "b")).1 (codes "a") ≡ get toy one_store (codes "a")
unfolding bytes_eq
get-remove_example =
    get-remove toy works one_store (crypto_for old_password) one_secret (codes "b") (codes "a")
      one_store-IsUnlocked
