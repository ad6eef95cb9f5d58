-- ===== src/Store/Disk.antt =====
-- internal/store/encrypted.go: the state of EncryptedStore, its two files, and how they are saved and
-- loaded. encoding/json is the record `Codec`; what the operating system answers during one call of
-- the store is the record `Io`. Every method holds the mutex from its first line to its return, so a
-- call is one step. A nil pointer or map is `none`.
use omnivault.Base.{ℕ, Bytes, Bool, true, false, Option, none, some, [], Map}
use omnivault.Vault.Types.{Time, Secret}
use omnivault.Vault.Errors.{Error, prefixed}
use omnivault.Vault.Interface.{Result, ok, err, panic, Clock}
use omnivault.Store.Crypto.{Primitives, Rand, Crypto, Argon2Params}

pub record VaultMeta : Type 0 where
  pub version : ℕ
  pub created_at : Time
  pub salt : Bytes
  pub argon2_params : Argon2Params
  pub verification : Bytes

-- A VaultData is its map `Secrets`, from paths to encrypted secrets; a pointer to one is an option,
-- and the map itself may be nil when it comes from a file.
abbrev pub Secrets : Type 0
Secrets = Map Bytes

-- json.Marshal, json.MarshalIndent and json.Unmarshal at the types that the store writes and reads.
pub record Codec : Type 0 where
  pub marshal_meta : Option VaultMeta → Result Bytes
  pub unmarshal_meta : Bytes → Result VaultMeta
  pub marshal_data : Option Secrets → Result Bytes
  pub unmarshal_data : Bytes → Result (Option Secrets)
  pub marshal_secret : Secret → Result Bytes
  pub unmarshal_secret : Bytes → Result Secret

pub record Platform : Type 0 where
  pub prim : Primitives
  pub codec : Codec

-- The contents of vault.meta and vault.enc, where they exist.
pub record Disk : Type 0 where
  pub meta_file : Option Bytes
  pub vault_file : Option Bytes

-- The outcome of a write: done, or an error and what the file then holds.
pub data Written : Type 0 where
  done : Written
  failed : Error → Option Bytes → Written

-- The answers of the system during one call: whether os.Stat reports an existing file, the errors of
-- MkdirAllPrivate and of os.ReadFile at a file that exists, the outcomes of WriteFilePrivate, the
-- readings of the clock, and the reads of crypto/rand by their place in the call.
pub record Io : Type 0 where
  pub stat_works : Bool
  pub mkdir_meta : Option Error
  pub mkdir_vault : Option Error
  pub write_meta : Written
  pub write_vault : Written
  pub read_meta : Option Error
  pub read_vault : Option Error
  pub missing : Error
  pub clock : Clock
  pub rand : ℕ → Rand

pub record Store : Type 0 where
  pub disk : Disk
  pub crypto : Option Crypto
  pub meta : Option VaultMeta
  pub contents : Option Secrets
  pub dirty : Bool
  pub auto_save : Bool
  pub unlock_time : Time

-- NewEncryptedStore, over what is on disk.
abbrev pub new_encrypted_store : Disk → Store
new_encrypted_store disk = record {
  disk = disk;
  crypto = none;
  meta = none;
  contents = none;
  dirty = false;
  auto_save = true;
  unlock_time = 0;
}

abbrev pub Outcome : Type 0
Outcome = Result (Unit {0}) × Store

-- The next statement after a call that may fail, with the context that its error is given.
abbrev pub then_do : Bytes → Outcome → (Store → Outcome) → Outcome
then_do m (ok u, s) next = next s
then_do m (err e, s) next = (err (prefixed m e), s)
then_do m (panic, s) next = (panic, s)

-- A value that may be an error is needed; the error is returned.
abbrev pub needs {ℓ} : {A : Type ℓ} → Bytes → Result A → Store → (A → Outcome) → Outcome
needs m (ok a) s next = next a
needs m (err e) s next = (err (prefixed m e), s)
needs m panic s next = (panic, s)

-- The same for an error that is returned as it is.
abbrev pub needs_plain {ℓ} : {A : Type ℓ} → Result A → Store → (A → Outcome) → Outcome
needs_plain (ok a) s next = next a
needs_plain (err e) s next = (err e, s)
needs_plain panic s next = (panic, s)

abbrev pub unless_error : Option Error → Store → (Unit {0} → Outcome) → Outcome
unless_error none s next = next tt
unless_error (some e) s next = (err e, s)

abbrev pub put_meta_file : Written → Bytes → Store → Outcome
put_meta_file Written.done bytes s =
    (ok tt, record s { disk = record s.disk { meta_file = some bytes } })
put_meta_file (Written.failed e left) bytes s =
    (err e, record s { disk = record s.disk { meta_file = left } })

-- The write of vault.enc, and `s.dirty = false` behind it.
abbrev pub put_vault_file : Written → Bytes → Store → Outcome
put_vault_file Written.done bytes s =
    (ok tt, record s { disk = record s.disk { vault_file = some bytes }; dirty = false })
put_vault_file (Written.failed e left) bytes s =
    (err e, record s { disk = record s.disk { vault_file = left } })

unfoldable pub vault_exists : Io → Store → Bool
vault_exists io s = elim s.disk.meta_file [ none ↦ false | some b ↦ io.stat_works ]

abbrev pub or_empty : Option Secrets → Secrets
or_empty none = []
or_empty (some m) = m

-- os.ReadFile
abbrev pub read_file : Option Bytes → Option Error → Error → Result Bytes
read_file none broken missing = err missing
read_file (some b) none missing = ok b
read_file (some b) (some e) missing = err e

module _ (pf : Platform) (io : Io) where
  open pf use {codec}

  unfoldable pub save_meta : Store → Outcome
  save_meta s =
      unless_error io.mkdir_meta s
        λ _. needs_plain (codec.marshal_meta s.meta) s λ bytes. put_meta_file io.write_meta bytes s

  unfoldable pub load_meta : Store → Outcome
  load_meta s = needs_plain (read_file s.disk.meta_file io.read_meta io.missing) s λ bytes.
      needs_plain (codec.unmarshal_meta bytes) s λ meta. (ok tt, record s { meta = some meta })

  unfoldable pub save_data : Store → Outcome
  save_data s = unless_error io.mkdir_vault s λ _.
      needs_plain (codec.marshal_data s.contents) s λ bytes. put_vault_file io.write_vault bytes s

  -- A vault file that does not exist is an empty vault; so is a file whose map is null.
  abbrev pub load_bytes : Option Bytes → Store → Outcome
  load_bytes none s = (ok tt, record s { contents = some [] })
  load_bytes (some b) s = needs_plain (read_file (some b) io.read_vault io.missing) s λ bytes.
      needs_plain (codec.unmarshal_data bytes) s
        λ m. (ok tt, record s { contents = some (or_empty m) })

  unfoldable pub load_data : Store → Outcome
  load_data s = load_bytes s.disk.vault_file s
