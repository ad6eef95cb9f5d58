-- ===== src/Daemon/Guarded.antt =====
-- The auto-lock invariant (is_guarded of Daemon/AutoLock) through one request.
use omnivault.Base.{
  Bytes, true, false, not, ◌&&◌, ◌≡◌, ◌≢◌, sym, ◌∙◌, ap, Option, none, some, ltb, length, arith,
  Option-cases, Bool-cases, inl, inr,
}
use mathlib.Core.Path.{subst}
use omnivault.Vault.Types.{Time}
use omnivault.Vault.Interface.{Result, ok, err, panic}
use omnivault.Store.Disk.{Platform, Io, Store, vault_exists}
use omnivault.Store.Consistency.{Reads}
use omnivault.Store.Locking.{lock-ok, unlock-OkOrLocked}
use omnivault.Store.Operations as Operations
use omnivault.Store.Operations.{is_locked, initialize}
use omnivault.Daemon.Protocol.{
  Method, InitRequest, UnlockRequest, Reply, Server, reset_auto_lock, with_store,
}
use omnivault.Daemon.Session.{
  handle_status, handle_stop, handle_init, handle_unlock, handle_lock, internal_error,
  unlock_failed,
}
use omnivault.Daemon.Routes.{Host, Answers, Request, Handler, Response, handle, handler_of, serve}
use omnivault.Daemon.Cases.{at_if, at_post, at_answered}
use omnivault.Daemon.Pending.{
  is_pending, is_pending-reset_auto_lock, is_pending-with_store, Pends-handle_secrets,
  Pends-handle_secret, Pends-handle_search, Pends-handle_export, Pends-handle_import,
  Pends-handle_password,
}
use omnivault.Daemon.Unlocking.{is_session, handle-locked, serve-handle, serve-unrouted}
use omnivault.Daemon.AutoLock.{is_failure, is_critical, is_guarded}

module _ (now : Time) where
  pub by_lock : (s : Server) → is_locked s.store ≡ true → is_guarded (now, s) ≡ true
  unfolding is_guarded
  by_lock s h = ground arith

  by_timer : (s : Server) → is_pending now s ≡ true → is_guarded (now, s) ≡ true
  unfolding is_guarded
  by_timer s h = ground arith

  unlocked_pends :
      (s : Server)
      → is_guarded (now, s) ≡ true
      → is_locked s.store ≡ false
      → is_pending now s ≡ true
  unfolding is_guarded
  unlocked_pends s h u = ground arith

  is_guarded-reset : (s : Server) → is_guarded (now, reset_auto_lock now s) ≡ true
  is_guarded-reset s = by_timer (reset_auto_lock now s) (is_pending-reset_auto_lock now s)

  -- An answer that is no failure leaves the server guarded.
  abbrev Guards : Reply × Server → Type 0
  Guards o = is_failure (Response.handled o.0) ≡ false → is_guarded (now, o.1) ≡ true

  module _ (pf : Platform) (io : Io) (s : Server) where
    Guards-handle_init :
        (m : Method) (body : Option InitRequest)
        → is_guarded (now, s) ≡ true
        → Guards (handle_init pf io now s m body)
    unfolding handle_init is_failure
    Guards-handle_init m none h = at_post Guards m s _ (λ f. h) (λ f. h)
    Guards-handle_init m (some req) h =
        at_post Guards m s _ (λ f. h)
          (at_if Guards (ltb (length req.password) 8) _ _ (λ l f. h)
            (λ n.
              at_if Guards (vault_exists io s.store) _ _ (λ y f. h)
                (λ y.
                  at_answered Guards s (initialize pf io s.store req.password) internal_error _
                    (λ t e f. is_guarded-reset (with_store s t)) (λ x t e f. absurd (ground arith))
                    (λ t e f. absurd (ground arith)))))

    Guards-handle_lock :
        (m : Method) → is_guarded (now, s) ≡ true → Guards (handle_lock pf io now s m)
    unfolding handle_lock is_failure
    Guards-handle_lock m h =
        let stopped : Server = record s { auto_lock_timer = none } in
        at_post Guards m s _ (λ f. h)
          (at_answered Guards stopped (Operations.lock pf io s.store) internal_error _
            (λ t e f.
              by_lock (with_store stopped t)
                (sym (ap (λ o. is_locked o.1) e) ∙ lock-ok pf io s.store (ap (λ o. o.0) e)))
            (λ x t e f. absurd (ground arith)) (λ t e f. absurd (ground arith)))

    -- A failed unlock of a locked vault leaves it locked; one of an unlocked vault leaves its timer.
    guarded_with :
        (t : Store)
        → is_guarded (now, s) ≡ true
        → (is_locked s.store ≡ true → is_locked t ≡ true)
        → is_guarded (now, with_store s t) ≡ true
    guarded_with t h k = elim (Bool-cases (is_locked s.store)) [
      | inl l ↦ by_lock (with_store s t) (k l)
      | inr u ↦ by_timer (with_store s t) (is_pending-with_store now s t (unlocked_pends s h u))
    ]

    unlock_fails :
        (password : Bytes) (r : Result (Unit {0})) (t : Store)
        → Reads pf
        → r ≢ ok tt
        → Operations.unlock pf io s.store password ≡ (r, t)
        → is_locked s.store ≡ true
        → is_locked t ≡ true
    unlock_fails password r t reads f e l =
        elim (unlock-OkOrLocked pf io s.store password reads l) [
          | inl o ↦ absurd (f (sym (ap (λ o. o.0) e) ∙ o))
          | inr k ↦ sym (ap (λ o. is_locked o.1) e) ∙ k
        ]

    -- The answer leaves the server guarded.
    abbrev Safe : Reply × Server → Type 0
    Safe o = is_guarded (now, o.1) ≡ true

    Safe-handle_unlock :
        (m : Method) (body : Option UnlockRequest)
        → Reads pf
        → is_guarded (now, s) ≡ true
        → Safe (handle_unlock pf io now s m body)
    unfolding handle_unlock
    Safe-handle_unlock m none reads h = at_post Safe m s _ h h
    Safe-handle_unlock m (some req) reads h = at_post Safe m s _ h (
        at_if Safe (not (vault_exists io s.store)) _ _ (λ y. h)
          (λ n.
            at_answered Safe s (Operations.unlock pf io s.store req.password) unlock_failed _
              (λ t e. is_guarded-reset (with_store s t))
              (λ x t e. guarded_with t h (unlock_fails req.password (err x) t reads (λ q. cc) e))
              (λ t e. guarded_with t h (unlock_fails req.password panic t reads (λ q. cc) e))))

module _ (h : Host) (a : Answers) (s : Server) (r : Request) where
  handle-Pends :
      (x : Handler)
      → is_session x ≡ false
      → is_pending a.now s ≡ true
      → is_pending a.now (handle h a x s r).1 ≡ true
  unfolding handle handle_status handle_stop
  handle-Pends Handler.init n p = absurd (ground arith)
  handle-Pends Handler.unlock n p = absurd (ground arith)
  handle-Pends Handler.lock n p = absurd (ground arith)
  handle-Pends Handler.status n p = ground (arith, p)
  handle-Pends Handler.password n p =
      Pends-handle_password a.now h.pf s p a.io r.method (h.json.as_change r.body)
  handle-Pends Handler.secrets n p = Pends-handle_secrets a.now h.pf s p a.io r.method r.prefix
  handle-Pends Handler.secret n p =
      Pends-handle_secret a.now h.pf s p a.io r.method r.url_path (h.json.as_set r.body)
  handle-Pends Handler.search n p =
      Pends-handle_search a.now h.pf s p h.matcher r.method (h.json.as_search r.body)
  handle-Pends Handler.export n p =
      Pends-handle_export a.now h.pf s p r.method (h.json.as_export r.body)
  handle-Pends Handler.import n p =
      Pends-handle_import a.now h.pf s p a.ios r.method (h.json.as_import r.body)
  handle-Pends Handler.stop n p = ground (arith, p)

  handle-is_guarded :
      (x : Handler)
      → is_session x ≡ false
      → is_guarded (a.now, s) ≡ true
      → is_guarded (a.now, (handle h a x s r).1) ≡ true
  handle-is_guarded x n g = elim (Bool-cases (is_locked s.store)) [
    | inl l ↦
        subst (λ (t : Server). is_guarded (a.now, t) ≡ true) (sym (handle-locked h a x s r n l)) g
    | inr u ↦ by_timer a.now (handle h a x s r).1 (handle-Pends x n (unlocked_pends a.now s g u))
  ]

  by_handler :
      (x : Handler)
      → Reads h.pf
      → (is_critical (some x) && is_failure (Response.handled (handle h a x s r).0)) ≡ false
      → is_guarded (a.now, s) ≡ true
      → is_guarded (a.now, (handle h a x s r).1) ≡ true
  unfolding handle
  by_handler Handler.init reads f g =
      Guards-handle_init a.now h.pf a.io s r.method (h.json.as_init r.body) g f
  by_handler Handler.lock reads f g = Guards-handle_lock a.now h.pf a.io s r.method g f
  by_handler Handler.unlock reads f g =
      Safe-handle_unlock a.now h.pf a.io s r.method (h.json.as_unlock r.body) reads g
  by_handler x reads f g = handle-is_guarded x (ground arith) g

  serve-reply :
      (x : Handler)
      → handler_of h r ≡ some x
      → (serve h a s r).0 ≡ Response.handled (handle h a x s r).0
  unfolding serve
  serve-reply x e = ground arith

  pub serve-is_guarded :
      Reads h.pf
      → (is_critical (handler_of h r) && is_failure (serve h a s r).0) ≡ false
      → is_guarded (a.now, s) ≡ true
      → is_guarded (a.now, (serve h a s r).1) ≡ true
  serve-is_guarded reads f g = elim (Option-cases (handler_of h r)) [
    | inl n ↦
        subst (λ (t : Server). is_guarded (a.now, t) ≡ true) (sym (serve-unrouted h a s r n)) g
    | inr (x, e) ↦
        subst (λ (t : Server). is_guarded (a.now, t) ≡ true) (sym (serve-handle h a s r x e))
          (by_handler x reads
            (sym (
                ap (λ o. is_critical o && is_failure (serve h a s r).0) e
                ∙ ap (λ q. is_critical (some x) && is_failure q) (serve-reply x e))
              ∙ f)
            g)
  ]
