-- ===== src/Providers/File/Parts.antt =====
-- providers/file/file.go: the types that the provider works with, and its helpers that take no parameter.
use omnivault.Base.{
  ℕ, Bytes, codes, Bool, Option, none, some, List, [], ◌∷◌, ◌++◌, bytes_eq, if◌then◌else◌,
}
use omnivault.Vault.Types.{Time, Secret, new_secret}
use omnivault.Vault.Errors.{Error, vault_error, message, suffixed}
use omnivault.Vault.Interface.{Result, ok, err, panic}

pub record Config : Type 0 where
  pub directory : Bytes
  pub extension : Bytes
  pub json_format : Bool
  pub file_mode : ℕ
  pub dir_mode : ℕ
  pub read_only : Bool
  pub allow_insecure_permissions : Bool

-- What fs.FileInfo says of an open file; `private` is osfs.IsPrivate, `mode` the text of %04o.
pub record Info : Type 0 where
  pub regular : Bool
  pub private : Bool
  pub mode : Bytes
  pub mod_time : Time

-- The answers of Stat, io.ReadAll and Close on an open file.
pub record Opened : Type 0 where
  pub stat : Result Info
  pub content : Result Bytes
  pub close_error : Option Error

-- One call of the function that filepath.WalkDir is given: with an error, for a directory, or for a
-- file with its path relative to the directory.
pub data Visit : Type 0 where
  broken : Error → Visit
  directory : Visit
  file : Result Bytes → Visit

-- os.MkdirAll; os.OpenRoot; Open, Stat, MkdirAll, WriteFile, Remove and Close of an os.Root of the
-- directory; filepath.WalkDir, IsLocal and Dir; errors.Is(err, fs.ErrNotExist) and os.IsNotExist.
pub record Files {ℓ} (F : Type ℓ) : Type ℓ where
  pub make_directory : F → Bytes → ℕ → Result (Unit {0}) × F
  pub open_root : F → Bytes → Result (Unit {0})
  pub open_file : F → Bytes → Result Opened
  pub stat_file : F → Bytes → Result (Unit {0})
  pub mkdir_all : F → Bytes → ℕ → Result (Unit {0}) × F
  pub write_file : F → Bytes → Bytes → ℕ → Result (Unit {0}) × F
  pub remove_file : F → Bytes → Result (Unit {0}) × F
  pub close_root : F → Option Error
  pub walk : F → Bytes → List Visit
  pub is_local : Bytes → Bool
  pub parent : Bytes → Bytes
  pub errors_is_not_exist : Error → Bool
  pub os_is_not_exist : Error → Bool

pub record Json : Type 0 where
  pub marshal_indent : Option Secret → Result Bytes
  pub unmarshal : Bytes → Result Secret

-- The provider, with the file system that it works on.
pub record Provider {ℓ} (F : Type ℓ) : Type ℓ where
  pub config : Config
  pub files : F

abbrev pub provider_name : Bytes
provider_name = codes "file"

abbrev pub failure : Bytes → Bytes → Error → Error
failure op path e = vault_error op path provider_name e

-- ErrInsecurePermissions, with the mode.
abbrev pub insecure : Bytes → Error
insecure mode =
    suffixed (message (codes "secret file is accessible by group or others"))
      (codes "mode " ++ mode)

abbrev pub within {ℓ} : {A : Type ℓ} → Bytes → Bytes → Result A → Result A
within op path (ok a) = ok a
within op path (err e) = err (failure op path e)
within op path panic = panic

-- The deferred closeRoot, and the deferred Close of the file in Get.
abbrev pub closing {ℓ} : {A : Type ℓ} → Option Error → Result A → Result A
closing none r = r
closing (some e) (ok a) = err e
closing (some e) (err x) = err x
closing (some e) panic = panic

abbrev pub close_failure : Bytes → Option Error → Option Error
close_failure path none = none
close_failure path (some e) = some (failure (codes "Get") path e)

-- strings.TrimSuffix, for a suffix that is not empty.
unfoldable pub trim_suffix : Bytes → Bytes → Bytes
trim_suffix [] x = []
trim_suffix (c ∷ s) x = if bytes_eq (c ∷ s) x then [] else c ∷ trim_suffix s x

-- `data` as JSON, or as plain text if it is none.
abbrev pub parsed : Bytes → Result Secret → Secret
parsed text (ok s) = s
parsed text (err e) = new_secret text
parsed text panic = new_secret text
