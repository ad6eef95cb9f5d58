-- ===== src/DaemonClient.antt =====
-- internal/client/client.go: the calls that a command makes of the daemon. net/http is the record
-- `Http` over the state `W` of what is behind the socket, encoding/json is `Json`; the fields of a
-- body are those of the daemon's protocol.
pub mod Errors
pub mod RoundTrip
mod Examples
pub mod RoundTripExamples
use omnivault.Base.{
  ℕ, Bytes, codes, Bool, true, false, not, ◌||◌, ◌&&◌, leb, Option, none, some, List, [], Map, ◌++◌,
  is_empty, bytes_eq, if◌then◌else◌,
}
use omnivault.Vault.Errors.{Error}
use omnivault.Vault.Interface.{Result, ok, err, panic}
use omnivault.Config.{Paths}
use omnivault.Daemon.Protocol.{
  Method, UnlockRequest, InitRequest, ChangePasswordRequest, SetSecretRequest, SearchRequest,
  ExportedSecret, ExportRequest, ImportRequest, ImportResponse, StatusResponse, SecretResponse,
  SecretListItem, ErrorCode,
}

pub data Request : Type 0 where
  init_request : InitRequest → Request
  unlock_request : UnlockRequest → Request
  change_password_request : ChangePasswordRequest → Request
  search_request : SearchRequest → Request
  export_request : ExportRequest → Request
  import_request : ImportRequest → Request
  set_secret_request : SetSecretRequest → Request

pub record ErrorResponse : Type 0 where
  pub error : Bytes
  pub code : Bytes

-- The constants ErrCode….
abbrev pub code_text : ErrorCode → Bytes
code_text ErrorCode.no_code = []
code_text ErrorCode.vault_locked = codes "VAULT_LOCKED"
code_text ErrorCode.vault_not_found = codes "VAULT_NOT_FOUND"
code_text ErrorCode.secret_not_found = codes "SECRET_NOT_FOUND"
code_text ErrorCode.invalid_password = codes "INVALID_PASSWORD"
code_text ErrorCode.invalid_request = codes "INVALID_REQUEST"
code_text ErrorCode.internal_error = codes "INTERNAL_ERROR"
code_text ErrorCode.already_exists = codes "ALREADY_EXISTS"

pub record DaemonError : Type 0 where
  pub status_code : ℕ
  pub code : Bytes
  pub text : Bytes

unfoldable pub daemon_error_text : DaemonError → Bytes
daemon_error_text e = if is_empty e.code then e.text else e.code ++ codes ": " ++ e.text

unfoldable pub is_vault_locked : DaemonError → Bool
is_vault_locked e = bytes_eq e.code (code_text ErrorCode.vault_locked)

unfoldable pub is_not_found : DaemonError → Bool
is_not_found e =
    bytes_eq e.code (code_text ErrorCode.secret_not_found)
    || bytes_eq e.code (code_text ErrorCode.vault_not_found)

unfoldable pub is_invalid_password : DaemonError → Bool
is_invalid_password e = bytes_eq e.code (code_text ErrorCode.invalid_password)

-- `wrapped m e` is fmt.Errorf("m: %w", e); `bad_status n text` is the error of a reply with the
-- status n whose body is not that of an error.
pub data ClientError : Type 0 where
  wrapped : Bytes → Error → ClientError
  bad_status : ℕ → Bytes → ClientError
  daemon : DaemonError → ClientError

pub data Answer {ℓ} (A : Type ℓ) : Type ℓ where
  done : A → Answer A
  failed : ClientError → Answer A
  crashed : Answer A

pub record Response : Type 0 where
  pub status_code : ℕ
  pub body : Result Bytes

-- http.NewRequestWithContext, the Do of the client, and a connection to the socket of the client.
pub record Http {ℓ} (W : Type ℓ) : Type ℓ where
  pub new_request_error : Method → Bytes → Option Error
  pub perform : W → Method → Bytes → Option Bytes → Result Response × W
  pub dial_tcp : W → Bytes → Bool
  pub dial_unix : W → Bytes → Bool
  pub socket_exists : W → Bytes → Bool

pub record Json : Type 0 where
  pub marshal : Request → Result Bytes
  pub error_response : Bytes → Result ErrorResponse
  pub success_response : Bytes → Result Bytes
  pub status_response : Bytes → Result StatusResponse
  pub search_response : Bytes → Result (List Bytes × ℕ)
  pub export_response : Bytes → Result (List ExportedSecret × ℕ)
  pub import_response : Bytes → Result ImportResponse
  pub list_response : Bytes → Result (List SecretListItem × ℕ)
  pub secret_response : Bytes → Result SecretResponse

-- Where the daemon listens.
pub record Client : Type 0 where
  pub socket_path : Bytes
  pub tcp_addr : Bytes

abbrev pub new_with_paths : Bytes → Bytes → Client
new_with_paths socket_path tcp_addr = record { socket_path = socket_path; tcp_addr = tcp_addr }

abbrev pub new_with_socket : Bytes → Client
new_with_socket socket_path = new_with_paths socket_path []

abbrev pub new : Paths → Client
new paths = new_with_paths paths.socket_path paths.tcp_addr

abbrev pub or_failed {ℓ} : {A : Type ℓ} → Bytes → Result A → Answer A
or_failed m (ok a) = Answer.done a
or_failed m (err e) = Answer.failed (ClientError.wrapped m e)
or_failed m panic = Answer.crashed

-- The error of a reply with a status of 400 or more.
abbrev pub reply_error : ℕ → Bytes → Result ErrorResponse → ClientError
reply_error status body (ok r) =
    if is_empty r.error
    then ClientError.bad_status status body
    else ClientError.daemon (record { status_code = status; code = r.code; text = r.error })
reply_error status body (err e) = ClientError.bad_status status body
reply_error status body panic = ClientError.bad_status status body

module _ {ℓ} {W : Type ℓ} (http : Http W) (json : Json) where
  module _ {κ} {A : Type κ} (decode : Bytes → Result A) where
    abbrev pub read_body : ℕ → Bytes → Answer A
    read_body status body =
        if leb 400 status
        then Answer.failed (reply_error status body (json.error_response body))
        else or_failed (codes "failed to unmarshal response") (decode body)

    abbrev pub read_response : ℕ → Result Bytes → Answer A
    read_response status (ok body) = read_body status body
    read_response status (err e) =
        Answer.failed (ClientError.wrapped (codes "failed to read response") e)
    read_response status panic = Answer.crashed

    abbrev pub received : Result Response × W → Answer A × W
    received (ok r, w) = (read_response r.status_code r.body, w)
    received (err e, w) = (Answer.failed (ClientError.wrapped (codes "request failed") e), w)
    received (panic, w) = (Answer.crashed, w)

    abbrev pub send : W → Method → Bytes → Option Bytes → Option Error → Answer A × W
    send w method path body none =
        received (http.perform w method (codes "http://localhost" ++ path) body)
    send w method path body (some e) =
        (Answer.failed (ClientError.wrapped (codes "failed to create request") e), w)

    abbrev pub with_body : W → Method → Bytes → Result (Option Bytes) → Answer A × W
    with_body w method path (ok body) =
        send w method path body (http.new_request_error method (codes "http://localhost" ++ path))
    with_body w method path (err e) =
        (Answer.failed (ClientError.wrapped (codes "failed to marshal request") e), w)
    with_body w method path panic = (Answer.crashed, w)

  abbrev pub some_of : Result Bytes → Result (Option Bytes)
  some_of (ok b) = ok (some b)
  some_of (err e) = err e
  some_of panic = panic

  abbrev pub marshalled : Option Request → Result (Option Bytes)
  marshalled none = ok none
  marshalled (some r) = some_of (json.marshal r)

  unfoldable pub request {κ} :
      {A : Type κ} → W → Method → Bytes → Option Request → (Bytes → Result A) → Answer A × W
  request w method path body decode = with_body decode w method path (marshalled body)

  abbrev pub get {κ} : {A : Type κ} → W → Bytes → (Bytes → Result A) → Answer A × W
  get w path decode = request w Method.get path none decode

  abbrev pub post {κ} :
      {A : Type κ} → W → Bytes → Option Request → (Bytes → Result A) → Answer A × W
  post w path body decode = request w Method.post path body decode

  abbrev pub get_status : W → Answer StatusResponse × W
  get_status w = get w (codes "/status") json.status_response

  abbrev pub initialize : W → Bytes → Answer Bytes × W
  initialize w password =
      post w (codes "/init") (some (Request.init_request (record { password = password })))
        json.success_response

  abbrev pub unlock : W → Bytes → Answer Bytes × W
  unlock w password =
      post w (codes "/unlock") (some (Request.unlock_request (record { password = password })))
        json.success_response

  abbrev pub lock : W → Answer Bytes × W
  lock w = post w (codes "/lock") none json.success_response

  abbrev pub change_password : W → Bytes → Bytes → Answer Bytes × W
  change_password w old_password new_password =
      post w (codes "/password")
        (some (
          Request.change_password_request
            (record { old_password = old_password; new_password = new_password })))
        json.success_response

  abbrev pub search : W → Bytes → Bool → Answer (List Bytes × ℕ) × W
  search w pattern regex =
      post w (codes "/search")
        (some (Request.search_request (record { pattern = pattern; regex = regex })))
        json.search_response

  abbrev pub export : W → Bytes → Answer (List ExportedSecret × ℕ) × W
  export w prefix =
      post w (codes "/export") (some (Request.export_request (record { prefix = prefix })))
        json.export_response

  abbrev pub import : W → List ExportedSecret → Bool → Answer ImportResponse × W
  import w secrets merge =
      post w (codes "/import")
        (some (Request.import_request (record { secrets = secrets; merge = merge })))
        json.import_response

  abbrev pub list_path : Bytes → Bytes
  list_path prefix =
      if is_empty prefix then codes "/secrets" else codes "/secrets" ++ codes "?prefix=" ++ prefix

  abbrev pub list_secrets : W → Bytes → Answer (List SecretListItem × ℕ) × W
  list_secrets w prefix = get w (list_path prefix) json.list_response

  abbrev pub get_secret : W → Bytes → Answer SecretResponse × W
  get_secret w path = get w (codes "/secret/" ++ path) json.secret_response

  abbrev pub set_secret :
      W → Bytes → Bytes → Option (Map Bytes) → Option (Map Bytes) → Answer Bytes × W
  set_secret w path value fields tags =
      request w Method.put (codes "/secret/" ++ path)
        (some (Request.set_secret_request (record { value = value; fields = fields; tags = tags })))
        json.success_response

  abbrev pub delete_secret : W → Bytes → Answer Bytes × W
  delete_secret w path =
      request w Method.delete (codes "/secret/" ++ path) none json.success_response

  abbrev pub stop : W → Answer Bytes × W
  stop w = post w (codes "/stop") none json.success_response

  -- `windows` is runtime.GOOS == "windows".
  unfoldable pub is_daemon_running : Client → Bool → W → Bool
  is_daemon_running c windows w =
      if windows
      then http.dial_tcp w c.tcp_addr
      else http.socket_exists w c.socket_path && http.dial_unix w c.socket_path
