-- ===== src/Providers/File.antt =====
-- providers/file/file.go: secrets in files under a directory. The operating system is the record
-- `Files` over the state `F` of the file system; encoding/json is the record `Json`.
mod Parts
pub mod Laws
pub mod Writing
mod Examples
unfoldable pub use Parts.*
use omnivault.Base.{
  ℕ, Bytes, codes, Bool, true, false, not, ◌&&◌, ◌||◌, Option, none, some, List, [], ◌∷◌, ◌++◌,
  has_prefix, is_empty, bytes_eq, ◌==◌, if◌then◌else◌,
}
use omnivault.Vault.Types.{Time, Secret, new_secret, secret_bytes}
use omnivault.Vault.Errors.{Error, Sentinel, vault_error, sentinel, message, suffixed}
use omnivault.Vault.Interface.{Vault, Result, ok, err, panic, ◌>>=◌, Clock, Capabilities}

module _ {ℓ} {F : Type ℓ} (fs : Files F) (json : Json) where
  open fs use {
    make_directory, open_root, open_file, stat_file, mkdir_all, write_file, remove_file, close_root,
    walk, is_local, parent, errors_is_not_exist, os_is_not_exist,
  }

  abbrev pub with_defaults : Config → Config
  with_defaults c = record c {
    file_mode = if c.file_mode == 0 then 384 else c.file_mode;
    dir_mode = if c.dir_mode == 0 then 448 else c.dir_mode;
  }

  abbrev pub made : Config → Result (Unit {0}) × F → Result (Provider F) × F
  made c (ok u, s) = (ok (record { config = c; files = s }), s)
  made c (err e, s) = (err e, s)
  made c (panic, s) = (panic, s)

  -- osfs.PrivateFilePerm is 0600 and osfs.PrivateDirPerm is 0700.
  unfoldable pub new : Config → F → Result (Provider F) × F
  new given s =
      if is_empty given.directory
      then (err (message (codes "directory is required")), s)
      else let c = with_defaults given in
        if c.read_only
        then (ok (record { config = c; files = s }), s)
        else made c (make_directory s c.directory c.dir_mode)

  unfoldable pub filename : Provider F → Bytes → Bytes → Result Bytes
  filename p op path =
      let name = path ++ p.config.extension in
      if is_empty path || not (is_local name)
      then err (failure op path (sentinel Sentinel.invalid_path))
      else ok name

  abbrev pub not_found : Bytes → Error
  not_found path = failure (codes "Get") path (sentinel Sentinel.secret_not_found)

  abbrev pub with_file_info : Bytes → Info → Secret → Secret
  with_file_info path info s = record s {
    metadata = record s.metadata {
      provider = provider_name;
      path = path;
      modified_at = some info.mod_time;
    };
  }

  abbrev pub decoded : Provider F → Bytes → Secret
  decoded p text =
      if p.config.json_format then parsed text (json.unmarshal text) else new_secret text

  abbrev pub read_content : Provider F → Bytes → Opened → Info → Result Secret
  read_content p path f info =
      within (codes "Get") path f.content >>= λ text. ok (with_file_info path info (decoded p text))

  abbrev pub checked : Provider F → Bytes → Opened → Info → Result Secret
  checked p path f info =
      if not p.config.allow_insecure_permissions && not info.private
      then err (failure (codes "Get") path (insecure info.mode))
      else read_content p path f info

  -- Get from Stat on.
  abbrev pub read_opened : Provider F → Bytes → Opened → Result Secret
  read_opened p path f = within (codes "Get") path f.stat >>= λ info.
      if not info.regular
      then err (failure (codes "Get") path (sentinel Sentinel.invalid_path))
      else checked p path f info

  abbrev pub read_file : Provider F → Bytes → Result Opened → Result Secret
  read_file p path (ok f) = closing (close_failure path f.close_error) (read_opened p path f)
  read_file p path (err e) =
      if os_is_not_exist e then err (not_found path) else err (failure (codes "Get") path e)
  read_file p path panic = panic

  abbrev pub present : Result Secret → Result (Option Secret)
  present (ok s) = ok (some s)
  present (err e) = err e
  present panic = panic

  -- openRoot of Get.
  abbrev pub get_in_root : Provider F → Bytes → Bytes → Result (Unit {0}) → Result (Option Secret)
  get_in_root p path name (ok u) =
      present (closing (close_root p.files) (read_file p path (open_file p.files name)))
  get_in_root p path name (err e) =
      if errors_is_not_exist e then err (not_found path) else err (failure (codes "Get") path e)
  get_in_root p path name panic = panic

  unfoldable pub get : Provider F → Bytes → Result (Option Secret)
  get p path = do
    name ← filename p (codes "Get") path
    get_in_root p path name (open_root p.files p.config.directory)

  abbrev pub Changed : Type ℓ
  Changed = Result (Unit {0}) × Provider F

  -- A step on the file system, and what follows it.
  abbrev pub step :
      Provider F → Bytes → Bytes → Result (Unit {0}) × F → (Provider F → Changed) → Changed
  step p op path (ok u, s) next = next (record p { files = s })
  step p op path (err e, s) next = (err (failure op path e), record p { files = s })
  step p op path (panic, s) next = (panic, record p { files = s })

  abbrev pub close_after : Changed → Changed
  close_after (r, p) = (closing (close_root p.files) r, p)

  abbrev pub put : Provider F → Bytes → Bytes → Result Bytes → Changed
  put p path name (ok text) =
      step p (codes "Set") path (write_file p.files name text p.config.file_mode) λ q. (ok tt, q)
  put p path name (err e) = (err (failure (codes "Set") path e), p)
  put p path name panic = (panic, p)

  -- secret.Bytes() of a nil secret panics.
  abbrev pub encoded : Provider F → Option Secret → Result Bytes
  encoded p none = if p.config.json_format then json.marshal_indent none else panic
  encoded p (some s) =
      if p.config.json_format then json.marshal_indent (some s) else ok (secret_bytes s)

  -- Set from openRoot on.
  unfoldable pub set_in_root : Provider F → Bytes → Bytes → Option Secret → Changed
  set_in_root p path name given =
      let write = λ (q : Provider F). put q path name (encoded q given) in
      if bytes_eq (parent name) (codes ".")
      then write p
      else step p (codes "Set") path (mkdir_all p.files (parent name) p.config.dir_mode) write

  -- What an operation that writes does with the results of filename and openRoot.
  abbrev pub opened : Provider F → Bytes → Bytes → Result (Unit {0}) → Changed → Changed
  opened p op path (ok u) next = next
  opened p op path (err e) next = (err (failure op path e), p)
  opened p op path panic next = (panic, p)

  abbrev pub named : Provider F → Result Bytes → (Bytes → Changed) → Changed
  named p (ok name) next = next name
  named p (err e) next = (err e, p)
  named p panic next = (panic, p)

  unfoldable pub set : Provider F → Clock → Bytes → Option Secret → Changed
  set p clock path given =
      if p.config.read_only
      then (err (failure (codes "Set") path (sentinel Sentinel.read_only)), p)
      else named p (filename p (codes "Set") path) λ name.
        opened p (codes "Set") path (open_root p.files p.config.directory)
          (close_after (set_in_root p path name given))

  -- Remove, where a file that does not exist is no error.
  abbrev pub removed : Provider F → Bytes → Result (Unit {0}) × F → Changed
  removed p path (ok u, s) = (ok tt, record p { files = s })
  removed p path (err e, s) =
      if os_is_not_exist e
      then (ok tt, record p { files = s })
      else (err (failure (codes "Delete") path e), record p { files = s })
  removed p path (panic, s) = (panic, record p { files = s })

  abbrev pub remove_in_root : Provider F → Bytes → Bytes → Result (Unit {0}) → Changed
  remove_in_root p path name (ok u) = close_after (removed p path (remove_file p.files name))
  remove_in_root p path name (err e) =
      if errors_is_not_exist e then (ok tt, p) else (err (failure (codes "Delete") path e), p)
  remove_in_root p path name panic = (panic, p)

  unfoldable pub remove : Provider F → Bytes → Changed
  remove p path =
      if p.config.read_only
      then (err (failure (codes "Delete") path (sentinel Sentinel.read_only)), p)
      else named p (filename p (codes "Delete") path)
          λ name. remove_in_root p path name (open_root p.files p.config.directory)

  abbrev pub found : Bytes → Result (Unit {0}) → Result Bool
  found path (ok u) = ok true
  found path (err e) = if os_is_not_exist e then ok false else err (failure (codes "Exists") path e)
  found path panic = panic

  abbrev pub exists_in_root : Provider F → Bytes → Bytes → Result (Unit {0}) → Result Bool
  exists_in_root p path name (ok u) =
      closing (close_root p.files) (found path (stat_file p.files name))
  exists_in_root p path name (err e) =
      if errors_is_not_exist e then ok false else err (failure (codes "Exists") path e)
  exists_in_root p path name panic = panic

  unfoldable pub exists : Provider F → Bytes → Result Bool
  exists p path = do
    name ← filename p (codes "Exists") path
    exists_in_root p path name (open_root p.files p.config.directory)

  abbrev pub without_extension : Bytes → Bytes → Bytes
  without_extension extension rel = if is_empty extension then rel else trim_suffix rel extension

  abbrev pub listed : Bytes → Bytes → List Bytes → List Bytes
  listed prefix rel rest = if has_prefix rel prefix then rel ∷ rest else rest

  -- The results of the walk; the first error ends it.
  unfoldable pub walk_results : Bytes → Bytes → List Visit → Result (List Bytes)
  walk_results extension prefix [] = ok []
  walk_results extension prefix (broken e ∷ visits) = err e
  walk_results extension prefix (directory ∷ visits) = walk_results extension prefix visits
  walk_results extension prefix (file rel ∷ visits) = rel >>= λ r.
      walk_results extension prefix visits >>= λ rest.
      ok (listed prefix (without_extension extension r) rest)

  unfoldable pub list_paths : Provider F → Bytes → Result (List Bytes)
  list_paths p prefix =
      within (codes "List") prefix
        (walk_results p.config.extension prefix (walk p.files p.config.directory))

  abbrev pub capabilities : Provider F → Capabilities
  capabilities p = record {
    read = true;
    write = not p.config.read_only;
    delete = not p.config.read_only;
    list = true;
    versioning = false;
    rotation = false;
    binary = true;
    multi_field = p.config.json_format;
    batch = false;
    watch = false;
  }

  abbrev pub file_vault : Vault (Provider F)
  file_vault = record {
    get = get;
    set = set;
    remove = remove;
    exists = exists;
    list_paths = list_paths;
    name = λ p. provider_name;
    capabilities = capabilities;
    close = λ p. (ok tt, p);
  }
