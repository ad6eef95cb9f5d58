-- ===== src/Daemon/Pending.antt =====
-- The auto-lock timer through the requests that do not end a session.
use omnivault.Base.{
  ℕ, Bytes, codes, Bool, true, false, ◌≡◌, ◌+◌, Option, none, some, leb, ltb, length, is_empty,
  trim_prefix, arith,
}
use omnivault.Vault.Types.{Time}
use omnivault.Vault.Errors.{Error}
use omnivault.Vault.Interface.{ok, err, panic}
use omnivault.Store.Disk.{Platform, Io, Store, Outcome}
use omnivault.Store.Operations.{is_locked, list_paths, change_password}
use omnivault.Store.Operations as Operations
use omnivault.Daemon.Protocol.{
  Method, SetSecretRequest, SearchRequest, ExportRequest, ImportRequest, ChangePasswordRequest,
  Reply, Server, reset_auto_lock, with_store,
}
use omnivault.Daemon.Session.{answered, done, internal_error, handle_password}
use omnivault.Daemon.Secrets.{
  requested, handle_secrets, handle_secret, get_secret, set_secret, delete_secret, by_method,
}
use omnivault.Daemon.Bulk.{
  Matcher, Import, import_answered, import_loop, no_counts, handle_search, handle_export,
  handle_import,
}
use omnivault.Daemon.Cases.{at_if, at_post, at_answered}

-- A timer is pending that fires at most the auto-lock duration after `now`.
unfoldable pub is_pending : Time → Server → Bool
is_pending now s = elim s.auto_lock_timer [
  | none ↦ false
  | some t ↦ leb t (now + s.auto_lock_duration)
]

module _ (now : Time) where
  pub is_pending-reset_auto_lock : (s : Server) → is_pending now (reset_auto_lock now s) ≡ true
  unfolding is_pending reset_auto_lock
  is_pending-reset_auto_lock s = ground arith

  pub is_pending-with_store :
      (s : Server) (t : Store) → is_pending now s ≡ true → is_pending now (with_store s t) ≡ true
  unfolding is_pending
  is_pending-with_store s t h = h

  -- A timer is pending after the answer.
  abbrev Pends : Reply × Server → Type 0
  Pends o = is_pending now o.1 ≡ true

  Pends-answered :
      (s : Server) (o : Outcome) (failed : Error → Reply) (reply : Reply)
      → is_pending now s ≡ true
      → Pends (answered s o failed (λ t. (reply, reset_auto_lock now t)))
  Pends-answered s o failed reply h =
      at_answered Pends s o failed (λ t. (reply, reset_auto_lock now t))
        (λ t e. is_pending-reset_auto_lock (with_store s t)) (λ x t e. is_pending-with_store s t h)
        (λ t e. is_pending-with_store s t h)

  Pends-import_answered :
      (pf : Platform) (s : Server) (o : Import)
      → is_pending now s ≡ true
      → Pends (import_answered pf now s o)
  Pends-import_answered pf s (ok n, t) h = is_pending-reset_auto_lock (with_store s t)
  Pends-import_answered pf s (err e, t) h = is_pending-with_store s t h
  Pends-import_answered pf s (panic, t) h = is_pending-with_store s t h

  module _ (pf : Platform) (s : Server) (h : is_pending now s ≡ true) where
    pub Pends-handle_secrets :
        (io : Io) (m : Method) (prefix : Bytes) → Pends (handle_secrets pf io now s m prefix)
    unfolding handle_secrets
    Pends-handle_secrets io m prefix = ground (arith, h, is_pending-reset_auto_lock s)

    Pends-get_secret : (io : Io) (path : Bytes) → Pends (get_secret pf io now s path)
    unfolding get_secret
    Pends-get_secret io path = ground (arith, h, is_pending-reset_auto_lock s)

    Pends-set_secret :
        (io : Io) (path : Bytes) (body : Option SetSecretRequest)
        → Pends (set_secret pf io now s path body)
    unfolding set_secret
    Pends-set_secret io path none = h
    Pends-set_secret io path (some req) =
        Pends-answered s (Operations.set pf io s.store path (some (requested req))) internal_error
          (done (codes "secret saved")) h

    Pends-delete_secret : (io : Io) (path : Bytes) → Pends (delete_secret pf io now s path)
    unfolding delete_secret
    Pends-delete_secret io path =
        Pends-answered s (Operations.remove pf io s.store path) internal_error
          (done (codes "secret deleted")) h

    Pends-by_method :
        (io : Io) (m : Method) (path : Bytes) (body : Option SetSecretRequest)
        → Pends (by_method pf io now m s path body)
    Pends-by_method io Method.get path body = Pends-get_secret io path
    Pends-by_method io Method.put path body = Pends-set_secret io path body
    Pends-by_method io Method.delete path body = Pends-delete_secret io path
    Pends-by_method io Method.post path body = h
    Pends-by_method io Method.other path body = h

    pub Pends-handle_secret :
        (io : Io) (m : Method) (url : Bytes) (body : Option SetSecretRequest)
        → Pends (handle_secret pf io now s m url body)
    unfolding handle_secret
    Pends-handle_secret io m url body =
        let path = trim_prefix url (codes "/secret/") in
        at_if Pends (is_empty path) _ _ (λ e. h)
          (λ n. at_if Pends (is_locked s.store) _ _ (λ l. h) (λ u. Pends-by_method io m path body))

    pub Pends-handle_search :
        (mt : Matcher) (m : Method) (body : Option SearchRequest)
        → Pends (handle_search pf now mt s m body)
    unfolding handle_search
    Pends-handle_search mt m body = ground (arith, h, is_pending-reset_auto_lock s)

    pub Pends-handle_export :
        (m : Method) (body : Option ExportRequest) → Pends (handle_export pf now s m body)
    unfolding handle_export
    Pends-handle_export m body = ground (arith, h, is_pending-reset_auto_lock s)

    pub Pends-handle_import :
        (ios : ℕ → Io) (m : Method) (body : Option ImportRequest)
        → Pends (handle_import pf now ios s m body)
    unfolding handle_import
    Pends-handle_import ios m none = at_post Pends m s _ h h
    Pends-handle_import ios m (some req) = at_post Pends m s _ h (
        at_if Pends (is_locked s.store) _ _ (λ l. h)
          (λ u.
            Pends-import_answered pf s (import_loop pf req.merge ios req.secrets no_counts s.store)
              h))

    pub Pends-handle_password :
        (io : Io) (m : Method) (body : Option ChangePasswordRequest)
        → Pends (handle_password pf io now s m body)
    unfolding handle_password
    Pends-handle_password io m none = at_post Pends m s _ h h
    Pends-handle_password io m (some req) = at_post Pends m s _ h (
        at_if Pends (ltb (length req.new_password) 8) _ _ (λ l. h)
          (λ u.
            at_if Pends (is_locked s.store) _ _ (λ l. h)
              (λ k.
                at_answered Pends s
                  (change_password pf io s.store req.old_password req.new_password) _ _
                  (λ t e. is_pending-with_store s t h) (λ x t e. is_pending-with_store s t h)
                  (λ t e. is_pending-with_store s t h))))
