-- ===== src/Daemon/Unlocking.antt =====
-- The requests that can unlock a locked vault.
use omnivault.Base.{
  Bool, true, false, ◌≡◌, refl, ◌∙◌, ap, Option, none, some, length, ltb, arith, ◌⊎◌, inl, inr,
  Option-cases,
}
use mathlib.Core.Path.{subst}
use omnivault.Vault.Types.{Time}
use omnivault.Store.Disk.{Platform, Io, VaultMeta, vault_exists}
use omnivault.Store.Operations.{is_locked}
use omnivault.Store.Crypto.{verify_password}
use omnivault.Store.Sessions.{crypto_of}
use omnivault.Store.Locking.{lock-is_locked}
use omnivault.Daemon.Protocol.{Method, UnlockRequest, InitRequest, Server}
use omnivault.Daemon.Session.{handle_status, handle_init, handle_lock, handle_password, handle_stop}
use omnivault.Daemon.Secrets.{handle_secrets, handle_secret}
use omnivault.Daemon.Bulk.{handle_search, handle_export, handle_import}
use omnivault.Daemon.Guards.{handle_unlock-verified}
use omnivault.Daemon.Routes.{Host, Answers, Request, Handler, handle, handler_of, serve}

-- The handlers that unlock, lock or make the vault.
abbrev pub is_session : Handler → Bool
is_session Handler.init = true
is_session Handler.unlock = true
is_session Handler.lock = true
is_session _ = false

module _ (h : Host) (a : Answers) where
  -- Every other handler leaves a server alone whose vault is locked.
  pub handle-locked :
      (x : Handler) (s : Server) (r : Request)
      → is_session x ≡ false
      → is_locked s.store ≡ true
      → (handle h a x s r).1 ≡ s
  unfolding handle handle_status handle_password handle_secrets handle_secret handle_search
      handle_export handle_import handle_stop
  handle-locked Handler.init s r n l = absurd (ground arith)
  handle-locked Handler.unlock s r n l = absurd (ground arith)
  handle-locked Handler.lock s r n l = absurd (ground arith)
  handle-locked Handler.status s r n l = ground arith
  handle-locked Handler.password s r n l = ground arith
  handle-locked Handler.secrets s r n l = ground arith
  handle-locked Handler.secret s r n l = ground arith
  handle-locked Handler.search s r n l = ground arith
  handle-locked Handler.export s r n l = ground arith
  handle-locked Handler.import s r n l = ground arith
  handle-locked Handler.stop s r n l = ground arith

handle_lock-is_locked :
    (pf : Platform) (io : Io) (now : Time) (s : Server) (m : Method)
    → is_locked s.store ≡ true
    → is_locked (handle_lock pf io now s m).1.store ≡ true
unfolding handle_lock
handle_lock-is_locked pf io now s m l = ground (arith, lock-is_locked pf io s.store l)

-- What an init request that unlocks a vault has been.
handle_init-fresh :
    (pf : Platform) (io : Io) (now : Time) (s : Server) (m : Method) (body : Option InitRequest)
    → is_locked s.store ≡ true
    → is_locked (handle_init pf io now s m body).1.store ≡ false
    → (req : InitRequest) × (body ≡ some req)
      × (vault_exists io s.store ≡ false)
      × (ltb (length req.password) 8 ≡ false)
unfolding handle_init
handle_init-fresh pf io now s Method.post none l u = absurd (ground arith)
handle_init-fresh pf io now s Method.post (some req) l u = (req, refl, ground arith, ground arith)
handle_init-fresh pf io now s _ body l u = absurd (ground arith)

module _ (h : Host) (a : Answers) (s : Server) (r : Request) where
  pub serve-handle :
      (x : Handler) → handler_of h r ≡ some x → (serve h a s r).1 ≡ (handle h a x s r).1
  unfolding serve
  serve-handle x e = ground arith

  pub serve-unrouted : handler_of h r ≡ none → (serve h a s r).1 ≡ s
  unfolding serve
  serve-unrouted e = ground arith

  -- The request has been served by /unlock with a password that verifies against the metadata that
  -- the store then holds.
  abbrev pub ByPassword : Type 0
  ByPassword =
      (req : UnlockRequest) × (meta : VaultMeta) × (handler_of h r ≡ some Handler.unlock)
      × (h.json.as_unlock r.body ≡ some req)
      × ((serve h a s r).1.store.meta ≡ some meta)
      × (verify_password h.pf.prim (crypto_of meta) req.password meta.verification ≡ true)

  -- The request has been served by /init with a password of eight bytes or more, where there was no
  -- vault.
  abbrev pub ByInit : Type 0
  ByInit =
      (req : InitRequest) × (handler_of h r ≡ some Handler.init)
      × (h.json.as_init r.body ≡ some req)
      × (vault_exists a.io s.store ≡ false)
      × (ltb (length req.password) 8 ≡ false)

  by_handler :
      (x : Handler)
      → handler_of h r ≡ some x
      → is_locked s.store ≡ true
      → is_locked (handle h a x s r).1.store ≡ false
      → ByPassword ⊎ ByInit
  unfolding handle
  by_handler Handler.unlock e l u =
      let (req, meta, b, m, v) =
        handle_unlock-verified h.pf a.io a.now s r.method (h.json.as_unlock r.body) l u in
      let same = ap (λ (t : Server). t.store.meta) (serve-handle Handler.unlock e) in
      inl (req, meta, e, b, same ∙ m, v)
  by_handler Handler.init e l u =
      let (req, b, f, n) =
        handle_init-fresh h.pf a.io a.now s r.method (h.json.as_init r.body) l u in
      inr (req, e, b, f, n)
  by_handler Handler.lock e l u =
      absurd (ground (arith, handle_lock-is_locked h.pf a.io a.now s r.method l))
  by_handler x e l u = absurd (ground (arith, handle-locked h a x s r))

  -- A request that finds the vault locked and leaves it unlocked has reached /unlock with a password
  -- that verifies against the metadata that the store then holds, or /init with a password of at
  -- least eight bytes where there was no vault. This holds for every path, method and body, and
  -- whatever the system answers.
  pub serve-unlocks :
      is_locked s.store ≡ true → is_locked (serve h a s r).1.store ≡ false → ByPassword ⊎ ByInit
  serve-unlocks l u = elim (Option-cases (handler_of h r)) [
    | inl n ↦ absurd (ground (arith, serve-unrouted n))
    | inr (x, e) ↦
        by_handler x e l (subst (λ (t : Server). is_locked t.store ≡ false) (serve-handle x e) u)
  ]
