-- ===== src/DaemonClient/Examples.antt =====
-- The calls of a client at a locked daemon, over a connection that carries error replies.
use omnivault.Base.{
  ℕ, Bytes, codes, true, false, none, [], ◌∷◌, ◌++◌, ◌==◌, if◌then◌else◌, ◌≡◌, refl, trim_prefix,
  trim_prefix-append,
}
use omnivault.Vault.Errors.{message}
use omnivault.Vault.Interface.{Result, ok, err}
use omnivault.Store.Operations.{is_locked}
use omnivault.Store.Disk.{new_encrypted_store}
use omnivault.Store.Toy.{toy, works, one_disk}
use omnivault.Daemon.Protocol.{Server, Reply, Body, ErrorCode, respond, crashed}
use omnivault.Daemon.Secrets.{handle_secret}
use omnivault.DaemonClient.{
  Answer, ClientError, DaemonError, ErrorResponse, Response, Http, Json, code_text, is_vault_locked,
  get_secret, set_secret, delete_secret,
}
use omnivault.DaemonClient.Errors.{Carries, is_plain, secret_calls-locked}

abbrev pub code_index : ErrorCode → ℕ
code_index ErrorCode.no_code = 0
code_index ErrorCode.vault_locked = 1
code_index ErrorCode.vault_not_found = 2
code_index ErrorCode.secret_not_found = 3
code_index ErrorCode.invalid_password = 4
code_index ErrorCode.invalid_request = 5
code_index ErrorCode.internal_error = 6
code_index ErrorCode.already_exists = 7

abbrev indexed_code : ℕ → ErrorCode
indexed_code n =
    if n == 1
    then ErrorCode.vault_locked
    else if n == 2
    then ErrorCode.vault_not_found
    else if n == 3
    then ErrorCode.secret_not_found
    else if n == 4
    then ErrorCode.invalid_password
    else if n == 5
    then ErrorCode.invalid_request
    else if n == 6
    then ErrorCode.internal_error
    else if n == 7
    then ErrorCode.already_exists
    else ErrorCode.no_code

pub indexed_code-code_index : (code : ErrorCode) → indexed_code (code_index code) ≡ code
indexed_code-code_index ErrorCode.no_code = refl
indexed_code-code_index ErrorCode.vault_locked = refl
indexed_code-code_index ErrorCode.vault_not_found = refl
indexed_code-code_index ErrorCode.secret_not_found = refl
indexed_code-code_index ErrorCode.invalid_password = refl
indexed_code-code_index ErrorCode.invalid_request = refl
indexed_code-code_index ErrorCode.internal_error = refl
indexed_code-code_index ErrorCode.already_exists = refl

abbrev on_wire : Reply → Result Response
on_wire (respond status (Body.error text code)) =
    ok (record { status_code = status; body = ok (code_index code ∷ text) })
on_wire (respond status body) = ok (record { status_code = status; body = ok [] })
on_wire crashed = err (message (codes "EOF"))

abbrev pub error_of : Bytes → Result ErrorResponse
error_of [] = err (message (codes "unexpected end of JSON input"))
error_of (c ∷ text) = ok (record { error = text; code = code_text (indexed_code c) })

abbrev handled : Reply × Server → Result Response × Server
handled (reply, s) = (on_wire reply, s)

abbrev socket : Http Server
socket = record {
  new_request_error = λ m url. none;
  perform = λ s m url body.
      handled (handle_secret toy works 7 s m (trim_prefix url (codes "http://localhost")) none);
  dial_tcp = λ s addr. false;
  dial_unix = λ s path. true;
  socket_exists = λ s path. true;
}

abbrev json : Json
json = record {
  marshal = λ r. ok (codes "{}");
  error_response = error_of;
  success_response = λ b. ok b;
  status_response = λ b. err (message (codes "status"));
  search_response = λ b. err (message (codes "search"));
  export_response = λ b. err (message (codes "export"));
  import_response = λ b. err (message (codes "import"));
  list_response = λ b. err (message (codes "list"));
  secret_response = λ b. err (message (codes "secret"));
}

socket-Carries : Carries socket json toy works 7
socket-Carries = record {
  wire = on_wire;
  decode = λ body. none;
  accepts = λ m path c p. refl;
  performs = λ s m path body c p.
      rw (trim_prefix-append (codes "http://localhost") (codes "/secret/" ++ path));
  locked_text = (1 ∷ codes "vault is locked", refl, refl);
}

abbrev locked : Server
locked = record {
  store = new_encrypted_store one_disk;
  auto_lock_duration = 900;
  auto_lock_timer = none;
}

secret_calls-locked_example :
    (e : DaemonError) × (is_vault_locked e ≡ true)
    × (get_secret socket json locked (codes "db/a")
        ≡ (Answer.failed (ClientError.daemon e), locked))
    × (set_secret socket json locked (codes "db/a") (codes "v") none none
        ≡ (Answer.failed (ClientError.daemon e), locked))
    × (delete_secret socket json locked (codes "db/a")
        ≡ (Answer.failed (ClientError.daemon e), locked))
unfolding is_locked is_plain
secret_calls-locked_example =
    secret_calls-locked socket json toy works 7 socket-Carries locked (codes "db/a") (codes "v")
      (codes "{}") none none refl refl refl refl
