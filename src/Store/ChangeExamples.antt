-- ===== src/Store/ChangeExamples.antt =====
-- The theorems about changes of password, failures and listing, at a small vault.
use omnivault.Base.{
  Bytes, codes, false, none, some, [], ◌∷◌, ◌++◌, after_prefix, bytes_eq, lookup, insert, ◌≡◌, refl,
  IsMap,
}
use omnivault.Vault.Errors.{Error, message, prefixed}
use omnivault.Vault.Interface.{ok, err}
use omnivault.Store.Crypto.{
  Primitives, Rand, Crypto, IsSound, Fills, default_argon2_params, new_aead, verify_password,
  encrypt, decrypt, create_verification_blob, new_crypto, is_unlocked, lock, encrypt_with,
  decrypt_with, derive_key, locked_error, verification_magic,
}
use omnivault.Store.Crypto as Crypto
use omnivault.Store.Disk.{
  Secrets, Io, Written, Disk, Store, new_encrypted_store, vault_exists, save_meta, save_data,
}
use omnivault.Store.Operations.{
  is_locked, get, unlock, reseal, reseal_all, change_password, rekey, save_both, initialize,
}
use omnivault.Store.Contents.{IsUnlocked}
use omnivault.Store.Rekey.{get-change_password}
use omnivault.Store.Rotation.{get-restart-change_password}
use omnivault.Store.Failures.{change_password_interrupted, initialize_left_unlocked}
use omnivault.Store.Toy.{
  zeros, toy_sound, toy_rand-Fills, toy, works, crypto_for, sealed, meta_for, old_password,
  new_password, one_secret, one_disk, one_store, bad_key, works-Works, one_store-IsUnlocked,
  one_disk-HasData,
}

abbrev verification_blob : Bytes
verification_blob = sealed old_password (codes "omnivault-v1")

-- A Crypto made from the salt, which has no key yet.
abbrev keyless : Crypto
keyless = record (crypto_for old_password) { key = none }

one_secret-IsMap : IsMap one_secret
unfolding lookup
one_secret-IsMap = (refl, tt)

get-change_password_example :
    get toy (change_password toy works one_store old_password new_password).1 (codes "a")
    ≡ get toy one_store (codes "a")
unfolding change_password rekey reseal_all reseal verify_password derive_key after_prefix bytes_eq
    new_crypto Crypto.unlock create_verification_blob encrypt encrypt_with decrypt decrypt_with
    insert save_both save_meta save_data
get-change_password_example =
    get-change_password toy toy_sound works one_store (crypto_for old_password) one_secret
      old_password new_password (codes "a") one_store-IsUnlocked one_secret-IsMap
      (λ n. toy_rand-Fills) refl

abbrev after_change : Store
after_change = (change_password toy works one_store old_password new_password).1

get-restart-change_password_example :
    ((unlock toy works (new_encrypted_store after_change.disk) new_password).0 ≡ ok tt)
    × (get toy (unlock toy works (new_encrypted_store after_change.disk) new_password).1 (codes "a")
        ≡ get toy one_store (codes "a"))
unfolding change_password rekey reseal_all reseal verify_password derive_key after_prefix bytes_eq
    new_crypto Crypto.unlock create_verification_blob encrypt encrypt_with decrypt decrypt_with
    insert save_both save_meta save_data
get-restart-change_password_example =
    get-restart-change_password toy toy_sound works works one_store (crypto_for old_password)
      one_secret ((codes "a", sealed new_password (codes "1")) ∷ [])
      ((codes "a", sealed new_password (codes "1")) ∷ []) (meta_for new_password) old_password
      new_password (zeros 32 ++ sealed new_password (codes "omnivault-v1"))
      (codes "a" ++ sealed new_password (codes "1")) (codes "a") works-Works works-Works
      one_store-IsUnlocked one_secret-IsMap (λ n. toy_rand-Fills) refl refl refl refl refl
      (record { marshals = refl; unmarshals = refl; same_entries = λ k. refl })

abbrev disk_full : Error
disk_full = message (codes "disk full")

-- The vault file cannot be written; the file that is there stays.
abbrev cut : Io
cut = record works { write_vault = Written.failed disk_full one_disk.vault_file }

abbrev after_cut : Disk
after_cut = (change_password toy cut one_store old_password new_password).1.disk

change_password_interrupted_example :
    ((change_password toy cut one_store old_password new_password).0
      ≡ err (prefixed (codes "failed to save data") disk_full))
    × ((unlock toy works (new_encrypted_store after_cut) new_password).0 ≡ ok tt)
    × (get toy (unlock toy works (new_encrypted_store after_cut) new_password).1 (codes "a")
        ≡ err (
            prefixed
              (codes "failed to decrypt secret")
              (prefixed (codes "failed to decrypt") bad_key)))
unfolding reseal_all reseal verify_password derive_key after_prefix bytes_eq new_crypto
    Crypto.unlock create_verification_blob encrypt encrypt_with decrypt decrypt_with insert lookup
change_password_interrupted_example =
    change_password_interrupted toy toy_sound cut works one_store (crypto_for old_password)
      (record (crypto_for old_password) { key = none }) one_secret one_secret
      ((codes "a", sealed new_password (codes "1")) ∷ []) (meta_for old_password)
      (meta_for new_password) old_password new_password (sealed new_password (codes "omnivault-v1"))
      (zeros 32 ++ sealed new_password (codes "omnivault-v1"))
      (codes "a" ++ sealed new_password (codes "1")) (codes "a" ++ sealed old_password (codes "1"))
      (codes "a") (sealed old_password (codes "1")) disk_full
      (prefixed (codes "failed to decrypt") bad_key) one_store-IsUnlocked refl refl toy_rand-Fills
      refl refl refl refl refl refl refl one_disk-HasData refl refl refl refl works-Works refl refl

abbrev no_directory : Io
no_directory = record works { mkdir_meta = some disk_full }

abbrev empty_disk : Disk
empty_disk = record { meta_file = none; vault_file = none }

initialize_left_unlocked_example :
    ((initialize toy no_directory (new_encrypted_store empty_disk) old_password).0
      ≡ err (prefixed (codes "failed to save metadata") disk_full))
    × (is_locked (initialize toy no_directory (new_encrypted_store empty_disk) old_password).1
        ≡ false)
    × ((initialize toy no_directory (new_encrypted_store empty_disk) old_password).1.contents
        ≡ some [])
    × (vault_exists no_directory
          (initialize toy no_directory (new_encrypted_store empty_disk) old_password).1
        ≡ false)
unfolding vault_exists new_crypto create_verification_blob encrypt encrypt_with Crypto.unlock
    derive_key
initialize_left_unlocked_example =
    initialize_left_unlocked toy no_directory (new_encrypted_store empty_disk) old_password
      verification_blob keyless disk_full refl refl refl refl

-- A store with two secrets, which its map does not hold in their order.
abbrev two_secrets : Secrets
two_secrets = (codes "b", []) ∷ (codes "ab", []) ∷ []

abbrev two_store : Store
two_store = record one_store { contents = some two_secrets }

two_store-IsUnlocked : IsUnlocked two_store (crypto_for old_password) two_secrets
unfolding is_unlocked
two_store-IsUnlocked = record { by_crypto = refl; with_key = refl; with_map = refl }
