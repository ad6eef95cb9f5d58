-- ===== src/Vault/Errors.antt =====
-- vault/errors.go and errors.go: the sentinel errors, VaultError, and the errors that fmt.Errorf
-- builds. An error of code that is not in the repository is `external`, known by its text.
use omnivault.Base.{ℕ, Bytes, codes, Bool, false, ◌++◌, is_empty, if◌then◌else◌, ◌==◌}

pub data Sentinel : Type 0 where
  secret_not_found access_denied invalid_path read_only not_supported connection_failed : Sentinel
  authentication_failed version_not_found already_exists closed : Sentinel
  no_provider unknown_scheme invalid_secret_ref provider_not_registered : Sentinel

abbrev pub sentinel_text : Sentinel → Bytes
sentinel_text Sentinel.secret_not_found = codes "secret not found"
sentinel_text Sentinel.access_denied = codes "access denied"
sentinel_text Sentinel.invalid_path = codes "invalid path"
sentinel_text Sentinel.read_only = codes "vault is read-only"
sentinel_text Sentinel.not_supported = codes "operation not supported"
sentinel_text Sentinel.connection_failed = codes "connection failed"
sentinel_text Sentinel.authentication_failed = codes "authentication failed"
sentinel_text Sentinel.version_not_found = codes "version not found"
sentinel_text Sentinel.already_exists = codes "secret already exists"
sentinel_text Sentinel.closed = codes "vault is closed"
sentinel_text Sentinel.no_provider = codes "no provider configured"
sentinel_text Sentinel.unknown_scheme = codes "unknown scheme"
sentinel_text Sentinel.invalid_secret_ref = codes "invalid secret reference"
sentinel_text Sentinel.provider_not_registered = codes "provider not registered for scheme"

-- Sentinels are pointers: two are the same error if they are the same variable.
abbrev pub sentinel_index : Sentinel → ℕ
sentinel_index Sentinel.secret_not_found = 0
sentinel_index Sentinel.access_denied = 1
sentinel_index Sentinel.invalid_path = 2
sentinel_index Sentinel.read_only = 3
sentinel_index Sentinel.not_supported = 4
sentinel_index Sentinel.connection_failed = 5
sentinel_index Sentinel.authentication_failed = 6
sentinel_index Sentinel.version_not_found = 7
sentinel_index Sentinel.already_exists = 8
sentinel_index Sentinel.closed = 9
sentinel_index Sentinel.no_provider = 10
sentinel_index Sentinel.unknown_scheme = 11
sentinel_index Sentinel.invalid_secret_ref = 12
sentinel_index Sentinel.provider_not_registered = 13

pub data Error : Type 0 where
  sentinel : Sentinel → Error
  vault_error : Bytes → Bytes → Bytes → Error → Error
  message : Bytes → Error
  prefixed : Bytes → Error → Error
  suffixed : Error → Bytes → Error
  external : Bytes → Error

-- The text of err.Error(). `prefixed m e` is fmt.Errorf("m: %w", e), `suffixed e m` is
-- fmt.Errorf("%w: m", e).
unfoldable pub error_text : Error → Bytes
error_text (sentinel s) = sentinel_text s
error_text (vault_error op path provider e) =
    if is_empty path
    then provider ++ (codes ": " ++ (op ++ (codes ": " ++ error_text e)))
    else provider ++ (codes ": " ++ (op ++ (codes " " ++ (path ++ (codes ": " ++ error_text e)))))
error_text (message m) = m
error_text (prefixed m e) = m ++ (codes ": " ++ error_text e)
error_text (suffixed e m) = error_text e ++ (codes ": " ++ m)
error_text (external m) = m

-- errors.Is(err, target) at a sentinel: through VaultError's Is and Unwrap and fmt's %w.
unfoldable pub error_is : Error → Sentinel → Bool
error_is (sentinel s) t = sentinel_index s == sentinel_index t
error_is (vault_error op path provider e) t = error_is e t
error_is (message m) t = false
error_is (prefixed m e) t = error_is e t
error_is (suffixed e m) t = error_is e t
error_is (external m) t = false
