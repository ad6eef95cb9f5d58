-- ===== src/Daemon/Ending.antt =====
-- What is left of the vault when the daemon's Run returns.
use omnivault.Base.{
  Bool, Bytes, true, false, ◌||◌, List, [], ◌∷◌, ◌≡◌, Option, none, some, arith, Bool-cases, inl,
  inr,
}
use omnivault.Vault.Types.{Time}
use omnivault.Vault.Errors.{Error}
use omnivault.Vault.Interface.{ok}
use omnivault.Config.{Paths, cleanup_socket, ensure_config_dir}
use omnivault.Store.Disk.{Io, Secrets, Written}
use omnivault.Store.Locking.{lock-ok, lock-works, lock-is_locked}
use omnivault.Store.Operations.{is_locked}
use omnivault.Daemon.Protocol.{Server}
use omnivault.Daemon.Session.{auto_lock}
use omnivault.Daemon.Routes.{Host, Answers, Request, Handler, handler_of, serve}
use omnivault.Daemon.Unlocking.{serve-unlocks}
use omnivault.Daemon.Lifecycle.{
  Os, Ended, Meanwhile, shut_down, ended_with, listening, prepared, create_listener, write_pid_file,
  run,
}

-- What happens while the HTTP server is shut down: it serves requests, and timers fire.
pub data Event : Type 0 where
  request : Answers → Request → Event
  timer : Io → Time → Event

-- A request that is served by a handler that can unlock a vault.
abbrev pub opens : Option Handler → Bool
opens (some Handler.unlock) = true
opens (some Handler.init) = true
opens _ = false

module _ (h : Host) where
  unfoldable pub happens : List Event → Server → Server
  happens [] s = s
  happens (Event.request a r ∷ events) s = happens events (serve h a s r).1
  happens (Event.timer io now ∷ events) s = happens events (auto_lock h.pf io now s)

  unfoldable pub may_open : List Event → Bool
  may_open [] = false
  may_open (Event.request a r ∷ events) = opens (handler_of h r) || may_open events
  may_open (Event.timer io now ∷ events) = may_open events

  serve-locked :
      (a : Answers) (s : Server) (r : Request)
      → opens (handler_of h r) ≡ false
      → is_locked s.store ≡ true
      → is_locked (serve h a s r).1.store ≡ true
  serve-locked a s r n l = elim (Bool-cases (is_locked (serve h a s r).1.store)) [
    | inl t ↦ t
    | inr f ↦ elim (serve-unlocks h a s r l f) [
      | inl (req, meta, e, b, m, v) ↦ absurd (ground (arith, e, n))
      | inr (req, e, b, v, k) ↦ absurd (ground (arith, e, n))
    ]
  ]

  happens-locked :
      (events : List Event) (s : Server)
      → may_open events ≡ false
      → is_locked s.store ≡ true
      → is_locked (happens events s).store ≡ true
  unfolding happens may_open auto_lock
  happens-locked [] s n l = l
  happens-locked (Event.request a r ∷ events) s n l =
      happens-locked events (serve h a s r).1 (ground arith) (serve-locked a s r (ground arith) l)
  happens-locked (Event.timer io now ∷ events) s n l =
      happens-locked events (auto_lock h.pf io now s) n (lock-is_locked h.pf io s.store l)

module _ {ℓ} {W : Type ℓ} (os : Os W) (paths : Paths) (h : Host) (io : Io)
    (writes : (m : Option Secrets) → (b : Bytes) × (h.pf.codec.marshal_data m ≡ ok b))
    (mkdir : io.mkdir_vault ≡ none) (write : io.write_vault ≡ Written.done)
    (before_lock : Server → W → Server × W) (events : List Event)
    (quiet : may_open h events ≡ false) where
  abbrev meanwhile : Meanwhile W
  meanwhile = record { before_lock = before_lock; before_close = λ s w. (happens h events s, w) }

  shut_down-is_locked :
      (started : Bool) (s : Server) (w : W)
      → is_locked (shut_down os paths h.pf io meanwhile started s w).0.store ≡ true
  unfolding shut_down
  shut_down-is_locked started s w =
      let t = (before_lock (record s { auto_lock_timer = none }) w).0 in
      happens-locked h events _ quiet
        (lock-ok h.pf io t.store (lock-works h.pf io t.store writes mkdir write))

  ended_with-is_locked :
      (how : Ended) (s : Server) (w : W)
      → (ended_with os paths h.pf io meanwhile how s w).0 ≡ none
      → is_locked (ended_with os paths h.pf io meanwhile how s w).1.store ≡ true
  ended_with-is_locked (Ended.served (some e)) s w n = cc
  ended_with-is_locked (Ended.served none) s w n = shut_down-is_locked true s w
  ended_with-is_locked Ended.cancelled s w n = shut_down-is_locked true s w
  ended_with-is_locked Ended.signalled s w n = shut_down-is_locked true s w

  module _ (serving : Server → W → Ended × Server × W) where
    listening-is_locked :
        (s : Server) (o : Option Error × W)
        → (listening os paths h.pf io meanwhile serving s o).0 ≡ none
        → is_locked (listening os paths h.pf io meanwhile serving s o).1.store ≡ true
    listening-is_locked s (some e, w) n = cc
    listening-is_locked s (none, w) n =
        let (how, t, v) = serving s (write_pid_file os paths w).1 in ended_with-is_locked how t v n

    prepared-is_locked :
        (s : Server) (o : Option Error × W)
        → (prepared os paths h.pf io meanwhile serving s o).0 ≡ none
        → is_locked (prepared os paths h.pf io meanwhile serving s o).1.store ≡ true
    prepared-is_locked s (some e, w) n = cc
    prepared-is_locked s (none, w) n =
        listening-is_locked s
          (create_listener os paths (cleanup_socket paths os.windows os.remove w).1) n

    -- Where Run returns no error, the vault is locked: whatever was served, whatever ended it, and
    -- whatever comes between the stop of the timer and Lock. From Lock on the server may still serve any
    -- requests but those to /unlock and /init, and timers may fire, until the HTTP server has been shut
    -- down. The vault file can be written and JSON writes every map.
    pub run-is_locked :
        (s : Server) (w : W)
        → (run os paths h.pf io meanwhile serving s w).0 ≡ none
        → is_locked (run os paths h.pf io meanwhile serving s w).1.store ≡ true
    unfolding run
    run-is_locked s w n = prepared-is_locked s (ensure_config_dir paths os.mkdir_private w) n
