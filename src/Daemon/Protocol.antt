-- ===== src/Daemon/Protocol.antt =====
-- internal/daemon/protocol.go and the state of internal/daemon/server.go: requests as their handlers
-- have decoded them (`none` is a body that does not decode), responses, and the server. A handler
-- holds the server's mutex from its first use of the store to its return, so a request is one step.
use omnivault.Base.{ℕ, Bytes, codes, Bool, Option, some, List, Map, ◌+◌}
use omnivault.Vault.Types.{Time}
use omnivault.Store.Disk.{Store}

pub data Method : Type 0 where
  get post put delete other : Method

pub record UnlockRequest : Type 0 where
  pub password : Bytes

pub record InitRequest : Type 0 where
  pub password : Bytes

pub record ChangePasswordRequest : Type 0 where
  pub old_password : Bytes
  pub new_password : Bytes

pub record SetSecretRequest : Type 0 where
  pub value : Bytes
  pub fields : Option (Map Bytes)
  pub tags : Option (Map Bytes)

pub record SearchRequest : Type 0 where
  pub pattern : Bytes
  pub regex : Bool

-- A zero time is 0.
pub record ExportedSecret : Type 0 where
  pub path : Bytes
  pub value : Bytes
  pub fields : Option (Map Bytes)
  pub tags : Option (Map Bytes)
  pub expires_at : Time

pub record ExportRequest : Type 0 where
  pub prefix : Bytes

pub record ImportRequest : Type 0 where
  pub secrets : List ExportedSecret
  pub merge : Bool

pub record ImportResponse : Type 0 where
  pub imported : ℕ
  pub skipped : ℕ
  pub errors : ℕ

pub record StatusResponse : Type 0 where
  pub running : Bool
  pub locked : Bool
  pub vault_exists : Bool
  pub secret_count : ℕ
  pub unlocked_at : Time
  pub uptime : Bytes

pub record SecretResponse : Type 0 where
  pub path : Bytes
  pub value : Bytes
  pub fields : Option (Map Bytes)
  pub tags : Option (Map Bytes)
  pub created_at : Time
  pub updated_at : Time
  pub expires_at : Time

pub record SecretListItem : Type 0 where
  pub path : Bytes
  pub has_value : Bool
  pub has_fields : Bool
  pub tags : List Bytes
  pub tags_map : Option (Map Bytes)
  pub created_at : Time
  pub updated_at : Time
  pub expires_at : Time

pub data ErrorCode : Type 0 where
  no_code vault_locked vault_not_found secret_not_found : ErrorCode
  invalid_password invalid_request internal_error already_exists : ErrorCode

pub data Body : Type 0 where
  error : Bytes → ErrorCode → Body
  success : Bytes → Body
  status : StatusResponse → Body
  secret : SecretResponse → Body
  secrets : List SecretListItem → ℕ → Body
  search : List Bytes → ℕ → Body
  exported : List ExportedSecret → ℕ → Body
  imported : ImportResponse → Body

-- What is written to the client; a handler that panics writes nothing.
pub data Reply : Type 0 where
  respond : ℕ → Body → Reply
  crashed : Reply

-- The auto-lock timer is the time at which it fires, if one is pending.
pub record Server : Type 0 where
  pub store : Store
  pub auto_lock_duration : Time
  pub auto_lock_timer : Option Time

abbrev pub write_error : ℕ → Bytes → ErrorCode → Reply
write_error code message e = respond code (Body.error message e)

abbrev pub method_not_allowed : Reply
method_not_allowed = write_error 405 (codes "method not allowed") ErrorCode.no_code

abbrev pub invalid_body : Reply
invalid_body = write_error 400 (codes "invalid request body") ErrorCode.invalid_request

abbrev pub locked_reply : Reply
locked_reply = write_error 403 (codes "vault is locked") ErrorCode.vault_locked

unfoldable pub reset_auto_lock : Time → Server → Server
reset_auto_lock now s = record s { auto_lock_timer = some (now + s.auto_lock_duration) }

abbrev pub with_store : Server → Store → Server
with_store s t = record s { store = t }
