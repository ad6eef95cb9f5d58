-- ===== src/Store/Sessions.antt =====
-- internal/store/encrypted.go: what Unlock makes of the disk that an earlier session left.
use omnivault.Base.{Bytes, true, false, ◌≡◌, none, some, arith, lookup, ltb, length}
use omnivault.Vault.Interface.{ok}
use omnivault.Store.Crypto.{
  Crypto, Primitives, new_crypto, verify_password, derive_key, is_unlocked,
}
use omnivault.Store.Crypto as Crypto
use omnivault.Store.Disk.{
  VaultMeta, Secrets, Disk, Platform, Io, Store, Written, vault_exists, load_meta, load_data,
}
use omnivault.Store.Operations.{unlock}

-- The system carries out every call.
pub record Works (io : Io) : Type 0 where
  pub stat_works : io.stat_works ≡ true
  pub mkdir_meta_works : io.mkdir_meta ≡ none
  pub mkdir_vault_works : io.mkdir_vault ≡ none
  pub write_meta_works : io.write_meta ≡ Written.done
  pub write_vault_works : io.write_vault ≡ Written.done
  pub read_meta_works : io.read_meta ≡ none
  pub read_vault_works : io.read_vault ≡ none

-- The Crypto that Unlock makes of the metadata, before it has a key.
abbrev pub crypto_of : VaultMeta → Crypto
crypto_of meta = record { params = meta.argon2_params; salt = meta.salt; key = none }

-- The metadata file holds metadata that the password verifies against, and `c` is the Crypto that
-- this password unlocks.
pub record HasMeta (pf : Platform) (password : Bytes) (d : Disk) (c : Crypto) (meta : VaultMeta)
    (bytes : Bytes) : Type 0 where
  pub in_file : d.meta_file ≡ some bytes
  pub parsed : pf.codec.unmarshal_meta bytes ≡ ok meta
  pub long : ltb (length meta.salt) 16 ≡ false
  pub verified : verify_password pf.prim (crypto_of meta) password meta.verification ≡ true
  pub unlocks : c ≡ Crypto.unlock pf.prim (crypto_of meta) password

-- The vault file holds the map `m'`, which has the entries of `m`. (encoding/json sorts the keys.)
pub record HasData (pf : Platform) (d : Disk) (m m' : Secrets) (bytes : Bytes) : Type 0 where
  pub in_file : d.vault_file ≡ some bytes
  pub parsed : pf.codec.unmarshal_data bytes ≡ ok (some m')
  pub same : (k : Bytes) → lookup k m' ≡ lookup k m

module _ (pf : Platform) (io : Io) (w : Works io) where
  vault_exists_saved :
      (t : Store) (b : Bytes) → t.disk.meta_file ≡ some b → vault_exists io t ≡ true
  unfolding vault_exists
  vault_exists_saved t b h = ground (arith, w.stat_works)

  load_meta_saved :
      (t : Store) (b : Bytes) (meta : VaultMeta)
      → t.disk.meta_file ≡ some b
      → pf.codec.unmarshal_meta b ≡ ok meta
      → load_meta pf io t ≡ (ok tt, record t { meta = some meta })
  unfolding load_meta
  load_meta_saved t b meta h p = ground (arith, w.read_meta_works)

  load_data_saved :
      (t : Store) (b : Bytes) (m : Secrets)
      → t.disk.vault_file ≡ some b
      → pf.codec.unmarshal_data b ≡ ok (some m)
      → load_data pf io t ≡ (ok tt, record t { contents = some m })
  unfolding load_data
  load_data_saved t b m h p = ground (arith, w.read_vault_works)

  new_crypto_saved :
      (meta : VaultMeta)
      → ltb (length meta.salt) 16 ≡ false
      → new_crypto (io.rand 0) (some meta.salt) meta.argon2_params ≡ ok (crypto_of meta)
  unfolding new_crypto
  new_crypto_saved meta h = ground arith

  -- Unlock with the right password, of any store over the disk.
  pub unlock_saved :
      (t : Store) (password : Bytes) (c : Crypto) (meta : VaultMeta) (m m' : Secrets) (b d : Bytes)
      → HasMeta pf password t.disk c meta b
      → HasData pf t.disk m m' d
      → unlock pf io t password ≡ (
        ok tt,
        record t {
          meta = some meta;
          crypto = some c;
          contents = some m';
          unlock_time = io.clock 0;
        },
      )
  unfolding unlock
  unlock_saved t password c meta m m' b d hm hd = ground (
    arith,
    vault_exists_saved t b hm.in_file,
    load_meta_saved t b meta hm.in_file hm.parsed,
    new_crypto_saved meta hm.long,
    hm.verified,
    hm.unlocks,
    load_data_saved (record t { meta = some meta; crypto = some c; unlock_time = io.clock 0 }) d m'
        hd.in_file hd.parsed,
  )
