-- ===== src/Config.antt =====
-- internal/config: the user's configuration and the places of its files. os.ReadFile, encoding/json,
-- time.ParseDuration, filepath.Join and the user's directories are parameters. A Duration is an int64
-- of nanoseconds.
use omnivault.Base.{
  Bytes, codes, Bool, true, false, Option, none, some, [], Map, is_empty, if◌then◌else◌, ℤ, pos,
  leb_ℤ,
}
use omnivault.Vault.Errors.{Error}
use omnivault.Vault.Interface.{Result, ok, err, panic, ◌>>=◌}

pub record Config : Type 0 where
  pub auto_lock_timeout : Bytes
  pub default_format : Bytes
  pub default_tags : Option (Map Bytes)
  pub expiry_warning_days : ℤ

abbrev pub default_config : Config
default_config = record {
  auto_lock_timeout = codes "15m";
  default_format = codes "text";
  default_tags = none;
  expiry_warning_days = pos 30;
}

-- The outcome of os.ReadFile: the file does not exist, another error, or what it holds.
pub data Reading : Type 0 where
  missing : Reading
  failed : Error → Reading
  content : Bytes → Reading

-- json.Unmarshal into a Config that has values already; json.MarshalIndent; time.ParseDuration.
pub record Codec : Type 0 where
  pub unmarshal : Bytes → Config → Result Config
  pub marshal : Config → Result Bytes
  pub parse_duration : Bytes → Result ℤ

module _ (codec : Codec) where
  unfoldable pub load_config_from_file : Reading → Result Config
  load_config_from_file missing = ok default_config
  load_config_from_file (failed e) = err e
  load_config_from_file (content bytes) = codec.unmarshal bytes default_config

  -- What is written, or the error; `write` is WriteFilePrivate at the path.
  unfoldable pub save_to_file : (Bytes → Result (Unit {0})) → Config → Result (Unit {0})
  save_to_file write c = codec.marshal c >>= write

  abbrev pub fifteen_minutes : ℤ
  fifteen_minutes = pos 900000000000

  unfoldable pub get_auto_lock_duration : Config → ℤ
  get_auto_lock_duration c =
      if is_empty c.auto_lock_timeout
      then fifteen_minutes
      else elim (codec.parse_duration c.auto_lock_timeout) [
        | ok d ↦ d
        | err e ↦ fifteen_minutes
        | panic ↦ fifteen_minutes
      ]

unfoldable pub get_expiry_warning_days : Config → ℤ
get_expiry_warning_days c =
    if leb_ℤ c.expiry_warning_days (pos 0) then pos 30 else c.expiry_warning_days

pub record Paths : Type 0 where
  pub config_dir : Bytes
  pub config_file : Bytes
  pub vault_file : Bytes
  pub meta_file : Bytes
  pub socket_path : Bytes
  pub tcp_addr : Bytes
  pub pid_file : Bytes
  pub log_file : Bytes

-- filepath.Join of two names; os.UserHomeDir and its value on an error; os.Getenv("LOCALAPPDATA").
pub record Directories : Type 0 where
  pub join : Bytes → Bytes → Bytes
  pub home : Result Bytes
  pub local_app_data : Bytes

module _ (dirs : Directories) where
  open dirs use {join, home, local_app_data}

  abbrev pub home_or : Bytes → Result Bytes → Bytes
  home_or fallback (ok h) = h
  home_or fallback (err e) = fallback
  home_or fallback panic = fallback

  abbrev pub paths_under : Bytes → Bytes → Bytes → Paths
  paths_under config_dir socket tcp = record {
    config_dir = config_dir;
    config_file = join config_dir (codes "config.json");
    vault_file = join config_dir (codes "vault.enc");
    meta_file = join config_dir (codes "vault.meta");
    socket_path = socket;
    tcp_addr = tcp;
    pid_file = join config_dir (codes "omnivaultd.pid");
    log_file = join config_dir (codes "omnivaultd.log");
  }

  unfoldable pub unix_paths : Paths
  unix_paths =
      let config_dir = join (home_or (codes ".") home) (codes ".omnivault") in
      paths_under config_dir (join config_dir (codes "omnivaultd.sock")) []

  unfoldable pub windows_paths : Paths
  windows_paths =
      let local =
        if is_empty local_app_data
        then join (join (home_or [] home) (codes "AppData")) (codes "Local")
        else local_app_data in
      paths_under (join local (codes "OmniVault")) [] (codes "127.0.0.1:19839")

  -- runtime.GOOS == "windows"
  unfoldable pub get_paths : Bool → Paths
  get_paths windows = if windows then windows_paths else unix_paths

module _ {ℓ} {W : Type ℓ} (paths : Paths) where
  -- `mkdir_private` is fs.MkdirAllPrivate.
  unfoldable pub ensure_config_dir : (W → Bytes → Option Error × W) → W → Option Error × W
  ensure_config_dir mkdir_private w = mkdir_private w paths.config_dir

  -- `stat` gives the error of os.Stat.
  unfoldable pub vault_exists : (W → Bytes → Option Error) → W → Bool
  vault_exists stat w = elim (stat w paths.vault_file) [ none ↦ true | some e ↦ false ]

  unfoldable pub cleanup_socket : Bool → (W → Bytes → Option Error × W) → W → Option Error × W
  cleanup_socket windows remove w = if windows then (none, w) else remove w paths.socket_path

module _ (codec : Codec) (dirs : Directories) (windows : Bool) where
  -- LoadConfig and Save, at the place of the platform; `read` and `write` are those of a path.
  unfoldable pub load_config : (Bytes → Reading) → Result Config
  load_config read = load_config_from_file codec (read (get_paths dirs windows).config_file)

  unfoldable pub save : (Bytes → Bytes → Result (Unit {0})) → Config → Result (Unit {0})
  save write c = save_to_file codec (write (get_paths dirs windows).config_file) c
