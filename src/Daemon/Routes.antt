-- ===== src/Daemon/Routes.antt =====
-- internal/daemon/server.go: the routes of the HTTP server. http.ServeMux and encoding/json are
-- parameters.
use omnivault.Base.{ℕ, Bytes, codes, Option, none, some, [], ◌∷◌, Map, lookup}
use omnivault.Vault.Types.{Time}
use omnivault.Store.Disk.{Platform, Io}
use omnivault.Daemon.Protocol.{
  Method, UnlockRequest, InitRequest, ChangePasswordRequest, SetSecretRequest, SearchRequest,
  ExportRequest, ImportRequest, Reply, Server,
}
use omnivault.Daemon.Session.{
  handle_status, handle_init, handle_unlock, handle_lock, handle_password, handle_stop,
}
use omnivault.Daemon.Secrets.{handle_secrets, handle_secret}
use omnivault.Daemon.Bulk.{Matcher, handle_search, handle_export, handle_import}

-- json.NewDecoder(r.Body).Decode at each type of request; `none` is an error.
pub record Json : Type 0 where
  pub as_init : Bytes → Option InitRequest
  pub as_unlock : Bytes → Option UnlockRequest
  pub as_change : Bytes → Option ChangePasswordRequest
  pub as_set : Bytes → Option SetSecretRequest
  pub as_search : Bytes → Option SearchRequest
  pub as_export : Bytes → Option ExportRequest
  pub as_import : Bytes → Option ImportRequest

-- A request: its method, the path of its URL, the query parameter "prefix", and its body.
pub record Request : Type 0 where
  pub method : Method
  pub url_path : Bytes
  pub prefix : Bytes
  pub body : Bytes

-- The handlers that are registered.
pub data Handler : Type 0 where
  status init unlock lock password secrets secret search export import stop : Handler

-- The patterns that registerRoutes gives to the mux.
abbrev pub routes : Map Handler
routes =
    (codes "/status", Handler.status)
    ∷ (codes "/init", Handler.init)
    ∷ (codes "/unlock", Handler.unlock)
    ∷ (codes "/lock", Handler.lock)
    ∷ (codes "/password", Handler.password)
    ∷ (codes "/secrets", Handler.secrets)
    ∷ (codes "/secret/", Handler.secret)
    ∷ (codes "/search", Handler.search)
    ∷ (codes "/export", Handler.export)
    ∷ (codes "/import", Handler.import)
    ∷ (codes "/stop", Handler.stop)
    ∷ []

-- The code that the server runs on and that is not its own. `pattern` is the choice that http.ServeMux
-- makes for a path among the registered patterns; without one the mux answers by itself.
pub record Host : Type 0 where
  pub pf : Platform
  pub matcher : Matcher
  pub json : Json
  pub pattern : Map Handler → Bytes → Option Bytes

-- What the system answers while a request is handled; an import has an `Io` for each secret.
pub record Answers : Type 0 where
  pub io : Io
  pub ios : ℕ → Io
  pub now : Time
  pub uptime : Bytes

-- The response to a request: a handler's, or that of the mux.
pub data Response : Type 0 where
  handled : Reply → Response
  unrouted : Response

-- The handler that a request reaches.
unfoldable pub handler_of : Host → Request → Option Handler
handler_of h r = elim (h.pattern routes r.url_path) [
  | none ↦ none
  | some pattern ↦ lookup pattern routes
]

module _ (h : Host) (a : Answers) where
  open h use {pf, matcher, json}
  open a use {io, ios, now, uptime}

  unfoldable pub handle : Handler → Server → Request → Reply × Server
  handle Handler.status s r = handle_status pf io now uptime s r.method
  handle Handler.init s r = handle_init pf io now s r.method (json.as_init r.body)
  handle Handler.unlock s r = handle_unlock pf io now s r.method (json.as_unlock r.body)
  handle Handler.lock s r = handle_lock pf io now s r.method
  handle Handler.password s r = handle_password pf io now s r.method (json.as_change r.body)
  handle Handler.secrets s r = handle_secrets pf io now s r.method r.prefix
  handle Handler.secret s r = handle_secret pf io now s r.method r.url_path (json.as_set r.body)
  handle Handler.search s r = handle_search pf now matcher s r.method (json.as_search r.body)
  handle Handler.export s r = handle_export pf now s r.method (json.as_export r.body)
  handle Handler.import s r = handle_import pf now ios s r.method (json.as_import r.body)
  handle Handler.stop s r = handle_stop s r.method

  abbrev pub routed : Option Handler → Server → Request → Response × Server
  routed none s r = (Response.unrouted, s)
  routed (some handler) s r = let (reply, t) = handle handler s r in (Response.handled reply, t)

  unfoldable pub serve : Server → Request → Response × Server
  serve s r = routed (handler_of h r) s r
