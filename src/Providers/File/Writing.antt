-- ===== src/Providers/File/Writing.antt =====
-- providers/file/file.go: Set, and Get of the same path behind it.
use omnivault.Base.{ℕ, Bytes, Bool, true, Option, none, if◌then◌else◌, ◌≡◌}
use omnivault.Vault.Types.{Secret, new_secret, secret_bytes}
use omnivault.Vault.Interface.{ok}
use omnivault.Providers.File.{Info, Files, Json, Provider, encoded}

-- What the operating system documents of a directory: a regular file that can be opened and read after
-- a write holds what was written, the directory stays where it is, and closing it does not fail.
pub record Disk {ℓ} {F : Type ℓ} (fs : Files F) : Type ℓ where
  pub read_back :
      (s s' : F) (name text read : Bytes) (mode : ℕ) (info : Info)
      → fs.write_file s name text mode ≡ (ok tt, s')
      → fs.open_file s' name ≡ ok (record { stat = ok info; content = ok read; close_error = none })
      → info.regular ≡ true
      → read ≡ text
  pub root_stays :
      (s s' : F) (directory name text : Bytes) (mode : ℕ)
      → fs.write_file s name text mode ≡ (ok tt, s')
      → fs.open_root s directory ≡ ok tt
      → fs.open_root s' directory ≡ ok tt
  pub root_keeps :
      (s s' : F) (directory name : Bytes) (mode : ℕ)
      → fs.mkdir_all s name mode ≡ (ok tt, s')
      → fs.open_root s directory ≡ ok tt
      → fs.open_root s' directory ≡ ok tt
  pub closes : (s : F) → fs.close_root s ≡ none

module _ {ℓ} {F : Type ℓ} (fs : Files F) (json : Json) where
  -- What a write leaves: the file holds the encoding of the secret.
  abbrev Wrote : (p q : Provider F) (name : Bytes) (given : Option Secret) → Type ℓ
  Wrote p q name given =
      (text : Bytes) × (s : F) × (encoded fs json p given ≡ ok text)
      × (fs.write_file p.files name text p.config.file_mode ≡ (ok tt, s))
      × (q ≡ record p { files = s })

  -- The file after Set: its directory opens, and what is read of it is the encoding of the secret.
  abbrev Stored : (q : Provider F) (name : Bytes) (given : Option Secret) → Type 0
  Stored q name given =
      (text : Bytes) × (encoded fs json q given ≡ ok text)
      × (fs.open_root q.files q.config.directory ≡ ok tt)
      × ((info : Info) (read : Bytes)
          → fs.open_file q.files name
            ≡ ok (record { stat = ok info; content = ok read; close_error = none })
          → info.regular ≡ true
          → read ≡ text)

  -- What a file keeps of a secret: all of it in the JSON format, else its bytes only.
  abbrev pub kept : Bool → Secret → Secret
  kept json_format x = if json_format then x else new_secret (secret_bytes x)
