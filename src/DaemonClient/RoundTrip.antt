-- ===== src/DaemonClient/RoundTrip.antt =====
-- A secret from one client through the daemon and its store to another client.
use omnivault.Base.{
  Bytes, codes, true, false, Option, none, some, ◌++◌, is_empty, trim_prefix-append, ◌≡◌, refl, ◌∙◌,
  ap, arith, bytes_eq_self,
}
use omnivault.Vault.Types.{Time, Secret, reveal}
use omnivault.Vault.Interface.{Result, ok}
use omnivault.Store.Crypto.{Crypto, IsSound, Fills}
use omnivault.Store.Disk.{Platform, Io, Secrets, Store}
use omnivault.Store.Contents.{IsUnlocked, unlocked, set-IsUnlocked, get-set}
use omnivault.Store.Operations as Operations
use omnivault.Store.Operations.{is_locked, seal_secret, stamped}
use omnivault.Daemon.Protocol.{
  Method, Server, Body, respond, SetSecretRequest, SecretResponse, reset_auto_lock, with_store,
}
use omnivault.Daemon.Session.{done}
use omnivault.Daemon.Secrets.{handle_secret, get_secret, set_secret, requested, secret_response}
use omnivault.DaemonClient as DaemonClient
use omnivault.DaemonClient.{Answer, Request, Response, Http, Json, request, received, marshalled}
use omnivault.DaemonClient.Errors.{Carries, is_plain, is_secret_call}

module _ (http : Http Server) (json : Json) (pf : Platform) (io : Io) (now : Time)
    (carries : Carries http json pf io now) where
  -- The client's JSON of the request decodes to it in the daemon.
  pub record Sent (req : SetSecretRequest) (text : Bytes) : Type 0 where
    pub written : json.marshal (Request.set_secret_request req) ≡ ok text
    pub read : carries.decode (some text) ≡ some req

  -- A reply with the status 200 is read by the client's `decode` as `a`.
  pub record Received {κ} {A : Type κ} (decode : Bytes → Result A) (body : Body) (a : A)
      (bytes : Bytes) : Type κ where
    pub on_wire :
        carries.wire (respond 200 body) ≡ ok (record { status_code = 200; body = ok bytes })
    pub decoded : decode bytes ≡ ok a

  received-ok {κ} :
      {A : Type κ} (decode : Bytes → Result A) (body : Body) (a : A) (bytes : Bytes) (s : Server)
      → Received decode body a bytes
      → received http json decode (carries.wire (respond 200 body), s) ≡ (Answer.done a, s)
  received-ok decode body a bytes s r = rw (r.on_wire, r.decoded) refl

  -- A request on a secret that the daemon answers with `body`.
  request-answered {κ} :
      {A : Type κ} (decode : Bytes → Result A) (s t : Server) (m : Method) (path : Bytes)
      (sends : Option Request) (sent : Option Bytes) (body : Body) (a : A) (bytes : Bytes)
      → is_secret_call m ≡ true
      → is_plain path ≡ true
      → marshalled http json sends ≡ ok sent
      → handle_secret pf io now s m (codes "/secret/" ++ path) (carries.decode sent)
        ≡ (respond 200 body, t)
      → Received decode body a bytes
      → request http json s m (codes "/secret/" ++ path) sends decode ≡ (Answer.done a, t)
  unfolding request
  request-answered decode s t m path sends sent body a bytes c p w h r =
      rw (w, carries.accepts m path c p, carries.performs s m path sent c p, h)
        (received-ok decode body a bytes t r)

  handle_secret-put :
      (s : Server) (path : Bytes) (req : SetSecretRequest)
      → is_locked s.store ≡ false
      → is_empty path ≡ false
      → (Operations.set pf io s.store path (some (requested req))).0 ≡ ok tt
      → handle_secret pf io now s Method.put (codes "/secret/" ++ path) (some req) ≡ (
        done (codes "secret saved"),
        reset_auto_lock now
            (with_store s (Operations.set pf io s.store path (some (requested req))).1),
      )
  unfolding handle_secret set_secret
  handle_secret-put s path req u e w =
      rw (trim_prefix-append (codes "/secret/") path, e, u) (ground (arith, w))

  handle_secret-get :
      (s : Server) (path : Bytes) (x : Secret) (body : Option SetSecretRequest)
      → is_locked s.store ≡ false
      → is_empty path ≡ false
      → Operations.get pf s.store path ≡ ok x
      → handle_secret pf io now s Method.get (codes "/secret/" ++ path) body
        ≡ (respond 200 (Body.secret (secret_response path x)), reset_auto_lock now s)
  unfolding handle_secret get_secret
  handle_secret-get s path x body u e g =
      rw (trim_prefix-append (codes "/secret/") path, e, u, g) refl

  reveal_plain : (y : Secret) → y.value_bytes ≡ none → reveal y ≡ y.value
  unfolding reveal
  reveal_plain y h = ground arith

  -- The secret that the store keeps for a request, with its timestamps.
  abbrev kept : SetSecretRequest → Secret
  kept req = stamped (io.clock 0) (requested req)

  -- What the JSON of a stored secret keeps of it; timestamps lose their fractions of a second.
  pub record Keeps (x y : Secret) : Type 0 where
    pub same_value : y.value ≡ x.value
    pub same_bytes : y.value_bytes ≡ x.value_bytes
    pub same_fields : y.fields ≡ x.fields
    pub same_tags : y.metadata.tags ≡ x.metadata.tags

  -- The daemon stores what a client sets, and shows it to the next client.
  module _ (sound : IsSound pf.prim) (s : Server) (c : Crypto) (m : Secrets) (path : Bytes)
      (req : SetSecretRequest) (y : Secret) (j e : Bytes) where
    abbrev after : Store
    after = (Operations.set pf io s.store path (some (requested req))).1

    after-unlocked :
        IsUnlocked s.store c m → seal_secret pf io c (kept req) ≡ ok e → is_locked after ≡ false
    after-unlocked u h =
        unlocked pf io after c _ (set-IsUnlocked pf io s.store c m u path (requested req) e h)

    get-after :
        IsUnlocked s.store c m
        → Fills (io.rand 0)
        → pf.codec.marshal_secret (kept req) ≡ ok j
        → pf.codec.unmarshal_secret j ≡ ok y
        → seal_secret pf io c (kept req) ≡ ok e
        → Operations.get pf after path ≡ ok y
    get-after u fills mj uj h =
        get-set pf sound io s.store c m path (requested req) y j e path u fills mj uj h
        ∙ rw (bytes_eq_self path) refl

    -- A client that sets a secret with a plain path in an unlocked daemon gets the answer of success,
    -- and GetSecret then answers with the same path, value, fields and tags. The store's Set returns no
    -- error, reads of randomness fill, net/http and JSON carry this request and the two replies, and the
    -- JSON of the stored secret keeps its value, fields and tags.
    pub get_secret-set_secret :
        (text ack message shown : Bytes)
        → Keeps (kept req) y
        → IsUnlocked s.store c m
        → is_empty path ≡ false
        → is_plain path ≡ true
        → Fills (io.rand 0)
        → pf.codec.marshal_secret (kept req) ≡ ok j
        → pf.codec.unmarshal_secret j ≡ ok y
        → seal_secret pf io c (kept req) ≡ ok e
        → (Operations.set pf io s.store path (some (requested req))).0 ≡ ok tt
        → Sent req text
        → Received json.success_response (Body.success (codes "secret saved")) message ack
        → Received json.secret_response
            (Body.secret (secret_response path y))
            (secret_response path y)
            shown
        → let (answer, t) =
            DaemonClient.set_secret http json s path req.value req.fields req.tags in
          (answer ≡ Answer.done message)
          × (r : SecretResponse) × ((DaemonClient.get_secret http json t path).0 ≡ Answer.done r)
          × (r.path ≡ path)
          × (r.value ≡ req.value)
          × (r.fields ≡ req.fields)
          × (r.tags ≡ req.tags)
    unfolding secret_response reveal stamped reset_auto_lock
    get_secret-set_secret text ack message shown k u n p fills mj uj h w sent acked seen =
        let t : Server = reset_auto_lock now (with_store s after) in
        let q =
          request-answered json.success_response s t Method.put path
            (some (Request.set_secret_request req)) (some text)
            (Body.success (codes "secret saved")) message ack refl p
            (ap (DaemonClient.some_of http json) sent.written)
            (rw sent.read (handle_secret-put s path req (unlocked pf io s.store c m u) n w))
            acked in
        let g =
          request-answered json.secret_response t (reset_auto_lock now t) Method.get path none none
            (Body.secret (secret_response path y)) (secret_response path y) shown refl p refl
            (handle_secret-get t path y (carries.decode none) (after-unlocked u h) n
              (get-after u fills mj uj h))
            seen in
        (
          ap (λ o. o.0) q,
          secret_response path y,
          ap (λ (v : Server). (DaemonClient.get_secret http json v path).0) (ap (λ o. o.1) q)
              ∙ ap (λ o. o.0) g,
          refl,
          reveal_plain y k.same_bytes ∙ k.same_value,
          k.same_fields,
          k.same_tags,
        )
