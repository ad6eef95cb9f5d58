-- ===== src/DaemonClient/RoundTripExamples.antt =====
-- A client and a daemon over a connection that carries set requests, their replies and secrets.
use omnivault.Base.{
  Bytes, codes, Option, none, some, [], ◌∷◌, ◌++◌, true, false, ◌≡◌, refl, trim_prefix,
  trim_prefix-append, bytes_eq, insert,
}
use omnivault.Vault.Types.{Secret, new_secret, reveal}
use omnivault.Vault.Errors.{message}
use omnivault.Vault.Interface.{Result, ok, err}
use omnivault.Store.Crypto.{encrypt, encrypt_with, is_unlocked}
use omnivault.Store.Disk.{Platform, save_data}
use omnivault.Store.Operations as Operations
use omnivault.Store.Operations.{is_locked, seal_secret, stamped}
use omnivault.Store.Toy.{
  toy, toy_sound, toy_rand-Fills, works, crypto_for, sealed, old_password, one_secret, one_store,
  one_store-IsUnlocked,
}
use omnivault.Daemon.Protocol.{
  Server, Reply, Body, respond, crashed, SetSecretRequest, SecretResponse,
}
use omnivault.Daemon.Secrets.{handle_secret, secret_response}
use omnivault.DaemonClient.{Answer, Request, Response, Http, Json, get_secret, set_secret}
use omnivault.DaemonClient.Examples.{code_index, error_of}
use omnivault.DaemonClient.Errors.{Carries, is_plain}
use omnivault.DaemonClient.RoundTrip.{get_secret-set_secret}

-- The codec of secrets keeps the timestamps; they are all 5 here.
abbrev pub dated : Platform
dated = record toy {
  codec = record toy.codec { unmarshal_secret = λ b. ok (stamped 5 (new_secret b)) };
}

abbrev set_request : Bytes → SetSecretRequest
set_request value = record { value = value; fields = none; tags = none }

abbrev read_request : Option Bytes → Option SetSecretRequest
read_request none = none
read_request (some b) = some (set_request b)

abbrev on_wire : Reply → Result Response
on_wire (respond status (Body.error text code)) =
    ok (record { status_code = status; body = ok (code_index code ∷ text) })
on_wire (respond status (Body.success m)) = ok (record { status_code = status; body = ok m })
on_wire (respond status (Body.secret x)) = ok (record { status_code = status; body = ok x.value })
on_wire (respond status body) = ok (record { status_code = status; body = ok [] })
on_wire crashed = err (message (codes "EOF"))

abbrev handled : Reply × Server → Result Response × Server
handled (reply, s) = (on_wire reply, s)

abbrev pub socket : Http Server
socket = record {
  new_request_error = λ m url. none;
  perform = λ s m url body. handled (
      handle_secret dated works 7 s m (trim_prefix url (codes "http://localhost"))
        (read_request body));
  dial_tcp = λ s addr. false;
  dial_unix = λ s path. true;
  socket_exists = λ s path. true;
}

abbrev shown : Bytes → SecretResponse
shown value = record {
  path = codes "b";
  value = value;
  fields = none;
  tags = none;
  created_at = 5;
  updated_at = 5;
  expires_at = 0;
}

abbrev value_of : Request → Result Bytes
value_of (Request.set_secret_request req) = ok req.value
value_of _ = err (message (codes "not sent"))

abbrev pub json : Json
json = record {
  marshal = value_of;
  error_response = error_of;
  success_response = λ b. ok b;
  status_response = λ b. err (message (codes "status"));
  search_response = λ b. err (message (codes "search"));
  export_response = λ b. err (message (codes "export"));
  import_response = λ b. err (message (codes "import"));
  list_response = λ b. err (message (codes "list"));
  secret_response = λ b. ok (shown b);
}

abbrev pub wired : Carries socket json dated works 7
wired = record {
  wire = on_wire;
  decode = read_request;
  accepts = λ m path c p. refl;
  performs = λ s m path body c p.
      rw (trim_prefix-append (codes "http://localhost") (codes "/secret/" ++ path));
  locked_text = (1 ∷ codes "vault is locked", refl, refl);
}

abbrev pub unlocked : Server
unlocked = record { store = one_store; auto_lock_duration = 900; auto_lock_timer = none }

abbrev pub kept_secret : Secret
kept_secret = stamped 5 (new_secret (codes "2"))

get_secret-set_secret_example :
    let (answer, t) = set_secret socket json unlocked (codes "b") (codes "2") none none in
    (answer ≡ Answer.done (codes "secret saved"))
    × (r : SecretResponse) × ((get_secret socket json t (codes "b")).0 ≡ Answer.done r)
    × (r.path ≡ codes "b")
    × (r.value ≡ codes "2")
    × (r.fields ≡ none)
    × (r.tags ≡ none)
unfolding is_plain bytes_eq stamped seal_secret encrypt encrypt_with secret_response Operations.set
    is_locked is_unlocked save_data insert reveal
get_secret-set_secret_example =
    get_secret-set_secret socket json dated works 7 wired toy_sound unlocked
      (crypto_for old_password) one_secret (codes "b") (set_request (codes "2")) kept_secret
      (codes "2") (sealed old_password (codes "2")) (codes "2") (codes "secret saved")
      (codes "secret saved") (codes "2")
      (record { same_value = refl; same_bytes = refl; same_fields = refl; same_tags = refl })
      one_store-IsUnlocked refl refl toy_rand-Fills refl refl refl refl
      (record { written = refl; read = refl }) (record { on_wire = refl; decoded = refl })
      (record { on_wire = refl; decoded = refl })
