-- ===== src/DaemonClient/Errors.antt =====
-- What a client learns of an error of the daemon.
use omnivault.Base.{
  ℕ, Bytes, codes, Bool, true, false, Option, none, some, ◌++◌, is_empty, leb, not, bytes_eq_self,
  Map, ◌&&◌, ◌||◌, ◌==◌, [], ◌∷◌, trim_prefix-append, if◌then◌else◌, ◌≡◌, refl, ap,
}
use omnivault.Providers.Sql.{identifier_byte}
use omnivault.Vault.Types.{Time}
use omnivault.Vault.Interface.{Result, ok}
use omnivault.Store.Disk.{Platform, Io}
use omnivault.Store.Operations.{is_locked}
use omnivault.Daemon.Protocol.{Method, Server, Reply, ErrorCode, locked_reply, SetSecretRequest}
use omnivault.Daemon.Secrets.{handle_secret}
use omnivault.DaemonClient.{
  Answer, some_of, ClientError, DaemonError, Request, Response, Http, Json, code_text,
  is_vault_locked, request, received, marshalled, get_secret, set_secret, delete_secret,
}

-- Bytes that stand for themselves in a URL.
abbrev plain_byte : ℕ → Bool
plain_byte c = identifier_byte c || c == b'-'

abbrev plain_segments : Bool → Bytes → Bool
plain_segments start [] = not start
plain_segments start (c ∷ s) =
    let next = plain_segments true s in
    let same = plain_segments false s in
    if c == b'/' then not start && next else plain_byte c && same

-- Segments of such bytes, none of them empty, with a '/' between each and the next.
unfoldable pub is_plain : Bytes → Bool
is_plain path = plain_segments true path

-- The URL of a request on a secret.
abbrev pub secret_url : Bytes → Bytes
secret_url path = codes "http://localhost" ++ (codes "/secret/" ++ path)

-- The methods of the calls on a secret.
abbrev pub is_secret_call : Method → Bool
is_secret_call Method.get = true
is_secret_call Method.put = true
is_secret_call Method.delete = true
is_secret_call Method.post = false
is_secret_call Method.other = false

-- What net/http and encoding/json carry between the daemon and a client in a call on a secret whose
-- path is plain, over a connection that does not fail: the path of the URL, the body as the handler
-- decodes it, and the reply of a locked vault as the client decodes it.
pub record Carries (http : Http Server) (json : Json) (pf : Platform) (io : Io) (now : Time)
    : Type 0 where
  pub wire : Reply → Result Response
  pub decode : Option Bytes → Option SetSecretRequest
  pub accepts :
      (m : Method) (path : Bytes)
      → is_secret_call m ≡ true
      → is_plain path ≡ true
      → http.new_request_error m (secret_url path) ≡ none
  pub performs :
      (s : Server) (m : Method) (path : Bytes) (body : Option Bytes)
      → is_secret_call m ≡ true
      → is_plain path ≡ true
      → http.perform s m (secret_url path) body ≡ (
        wire (handle_secret pf io now s m (codes "/secret/" ++ path) (decode body)).0,
        (handle_secret pf io now s m (codes "/secret/" ++ path) (decode body)).1,
      )
  pub locked_text :
      (bytes : Bytes) × (wire locked_reply ≡ ok (record { status_code = 403; body = ok bytes }))
      × (json.error_response bytes
          ≡ ok
              (record { error = codes "vault is locked"; code = code_text ErrorCode.vault_locked }))

abbrev pub locked_error : DaemonError
locked_error = record {
  status_code = 403;
  code = code_text ErrorCode.vault_locked;
  text = codes "vault is locked";
}

-- A reply of the daemon as a client's call answers it.
module _ {κ} {A : Type κ} (http : Http Server) (json : Json) (decode : Bytes → Result A) where
  received-error :
      (status : ℕ) (bytes text : Bytes) (code : ErrorCode) (r : Result Response) (s : Server)
      → leb 400 status ≡ true
      → is_empty text ≡ false
      → r ≡ ok (record { status_code = status; body = ok bytes })
      → json.error_response bytes ≡ ok (record { error = text; code = code_text code })
      → received http json decode (r, s) ≡ (
        Answer.failed (
            ClientError.daemon
              (record { status_code = status; code = code_text code; text = text })),
        s,
      )
  received-error status bytes text code r s h n e d = rw (e, h, d, n)

  -- The daemon answers a request on a secret while it is locked.
  request-locked :
      (pf : Platform) (io : Io) (now : Time) (carries : Carries http json pf io now) (s : Server)
      (m : Method) (path : Bytes) (body : Option Request) (sent : Option Bytes)
      → is_locked s.store ≡ true
      → is_empty path ≡ false
      → is_secret_call m ≡ true
      → is_plain path ≡ true
      → marshalled http json body ≡ ok sent
      → request http json s m (codes "/secret/" ++ path) body decode
        ≡ (Answer.failed (ClientError.daemon locked_error), s)
  unfolding request handle_secret
  request-locked pf io now carries s m path body sent l e c p h =
      let (bytes, w, d) = carries.locked_text in
      rw
        (
          h,
          carries.accepts m path c p,
          carries.performs s m path sent c p,
          trim_prefix-append (codes "/secret/") path,
          e,
          l,
        )
        (received-error 403 bytes (codes "vault is locked") ErrorCode.vault_locked
          (carries.wire locked_reply) s refl refl w d)

-- Each call that a client makes about one secret of a locked daemon changes nothing and answers an
-- error that says the vault is locked, if its path is plain, the body of a set is written as JSON, and
-- net/http and JSON carry the request and the reply.
pub secret_calls-locked :
    (http : Http Server) (json : Json) (pf : Platform) (io : Io) (now : Time)
    (carries : Carries http json pf io now) (s : Server) (path value text : Bytes)
    (fields tags : Option (Map Bytes))
    → is_locked s.store ≡ true
    → is_empty path ≡ false
    → is_plain path ≡ true
    → json.marshal
        (Request.set_secret_request (record { value = value; fields = fields; tags = tags }))
      ≡ ok text
    → (e : DaemonError) × (is_vault_locked e ≡ true)
      × (get_secret http json s path ≡ (Answer.failed (ClientError.daemon e), s))
      × (set_secret http json s path value fields tags ≡ (Answer.failed (ClientError.daemon e), s))
      × (delete_secret http json s path ≡ (Answer.failed (ClientError.daemon e), s))
unfolding is_vault_locked
secret_calls-locked http json pf io now carries s path value text fields tags l e p m =
    let set = Request.set_secret_request (record { value = value; fields = fields; tags = tags }) in
    (
      locked_error,
      bytes_eq_self (code_text ErrorCode.vault_locked),
      request-locked http json json.secret_response pf io now carries s Method.get path none none l
          e refl p refl,
      request-locked http json json.success_response pf io now carries s Method.put path (some set)
          (some text) l e refl p (ap (some_of http json) m),
      request-locked http json json.success_response pf io now carries s Method.delete path none
          none l e refl p refl,
    )
