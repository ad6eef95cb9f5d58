-- ===== src/Daemon/Session.antt =====
-- internal/daemon/server.go: the handlers of the session (status, init, unlock, lock, password), the
-- auto-lock timer and the shutdown.
use omnivault.Base.{
  Bytes, codes, true, not, Option, none, some, ltb, length, contains, if◌then◌else◌,
}
use omnivault.Vault.Types.{Time}
use omnivault.Vault.Errors.{Error, error_text}
use omnivault.Vault.Interface.{ok, err, panic}
use omnivault.Store.Disk.{Platform, Io, Store, Outcome, vault_exists}
use omnivault.Store.Operations as Operations
use omnivault.Store.Operations.{is_locked, secret_count, initialize, change_password}
use omnivault.Daemon.Protocol.{
  Method, UnlockRequest, InitRequest, ChangePasswordRequest, ErrorCode, Body, Reply, respond,
  crashed, Server, write_error, method_not_allowed, invalid_body, locked_reply, reset_auto_lock,
  with_store,
}

abbrev pub if_post : Method → Server → Reply × Server → Reply × Server
if_post Method.post s next = next
if_post Method.get s next = (method_not_allowed, s)
if_post Method.put s next = (method_not_allowed, s)
if_post Method.delete s next = (method_not_allowed, s)
if_post Method.other s next = (method_not_allowed, s)

abbrev pub if_get : Method → Server → Reply × Server → Reply × Server
if_get Method.get s next = next
if_get Method.post s next = (method_not_allowed, s)
if_get Method.put s next = (method_not_allowed, s)
if_get Method.delete s next = (method_not_allowed, s)
if_get Method.other s next = (method_not_allowed, s)

abbrev pub decoded {ℓ} : {R : Type ℓ} → Option R → Server → (R → Reply × Server) → Reply × Server
decoded none s next = (invalid_body, s)
decoded (some r) s next = next r

-- The outcome of a call of the store: it keeps the store that the call left, on every branch.
abbrev pub answered :
    Server → Outcome → (Error → Reply) → (Server → Reply × Server) → Reply × Server
answered s (ok u, t) failed next = next (with_store s t)
answered s (err e, t) failed next = (failed e, with_store s t)
answered s (panic, t) failed next = (crashed, with_store s t)

abbrev pub internal_error : Error → Reply
internal_error e = write_error 500 (error_text e) ErrorCode.internal_error

abbrev pub done : Bytes → Reply
done message = respond 200 (Body.success message)

unfoldable pub unlock_failed : Error → Reply
unlock_failed e =
    if contains (error_text e) (codes "invalid password")
    then write_error 401 (codes "invalid password") ErrorCode.invalid_password
    else internal_error e

unfoldable pub password_failed : Error → Reply
password_failed e =
    if contains (error_text e) (codes "invalid")
    then write_error 401 (error_text e) ErrorCode.invalid_password
    else internal_error e

module _ (pf : Platform) (io : Io) (now : Time) where
  -- `uptime` is the text of the time since the start.
  unfoldable pub handle_status : Bytes → Server → Method → Reply × Server
  handle_status uptime s m = if_get m s (
    respond 200 (
        Body.status (record {
          running = true;
          locked = is_locked s.store;
          vault_exists = vault_exists io s.store;
          secret_count = secret_count s.store;
          unlocked_at = if is_locked s.store then 0 else s.store.unlock_time;
          uptime = uptime;
        })),
    s,
  )

  unfoldable pub handle_init : Server → Method → Option InitRequest → Reply × Server
  handle_init s m body = if_post m s (
      decoded body s λ req.
        if ltb (length req.password) 8
        then (
          write_error 400 (codes "password must be at least 8 characters")
              ErrorCode.invalid_request,
          s,
        )
        else if vault_exists io s.store
        then (write_error 409 (codes "vault already exists") ErrorCode.already_exists, s)
        else answered s (initialize pf io s.store req.password) internal_error
            λ s1. (done (codes "vault initialized"), reset_auto_lock now s1))

  unfoldable pub handle_unlock : Server → Method → Option UnlockRequest → Reply × Server
  handle_unlock s m body = if_post m s (
      decoded body s λ req.
        if not (vault_exists io s.store)
        then (
          write_error 404 (codes "vault does not exist, run init first") ErrorCode.vault_not_found,
          s,
        )
        else answered s (Operations.unlock pf io s.store req.password) unlock_failed
            λ s1. (done (codes "vault unlocked"), reset_auto_lock now s1))

  -- The timer is stopped before the store is locked.
  unfoldable pub handle_lock : Server → Method → Reply × Server
  handle_lock s m = if_post m s (
      answered (record s { auto_lock_timer = none }) (Operations.lock pf io s.store) internal_error
        λ s1. (done (codes "vault locked"), s1))

  unfoldable pub handle_password : Server → Method → Option ChangePasswordRequest → Reply × Server
  handle_password s m body = if_post m s (
      decoded body s λ req.
        if ltb (length req.new_password) 8
        then (
          write_error 400 (codes "new password must be at least 8 characters")
              ErrorCode.invalid_request,
          s,
        )
        else if is_locked s.store
        then (locked_reply, s)
        else answered s (change_password pf io s.store req.old_password req.new_password)
            password_failed λ s1. (done (codes "password changed"), s1))

  -- The function that the timer calls; the timer has run out then.
  unfoldable pub auto_lock : Server → Server
  auto_lock s = record s { store = (Operations.lock pf io s.store).1; auto_lock_timer = none }

  -- The two first steps of Shutdown on the server, where nothing comes between them: it stops the timer
  -- and locks the store; a failure to lock is logged only.
  unfoldable pub shutdown : Server → Server
  shutdown s = record s { auto_lock_timer = none; store = (Operations.lock pf io s.store).1 }

-- handleStop answers, and calls Shutdown afterwards.
unfoldable pub handle_stop : Server → Method → Reply × Server
handle_stop s m = if_post m s (done (codes "daemon stopping"), s)

-- NewServerWithPaths: an auto-lock duration of 0 is 15 minutes, in nanoseconds.
unfoldable pub new_server : Store → Time → Server
new_server store duration = record {
  store = store;
  auto_lock_duration = if ltb 0 duration then duration else 900000000000;
  auto_lock_timer = none;
}
