-- ===== src/Daemon/RunExamples.antt =====
-- The theorems about the routes and the timer at a daemon over a small vault.
use omnivault.Base.{
  Bytes, codes, true, false, ◌≡◌, ◌≤◌, ◌⊎◌, ◌+◌, refl, Option, none, some, List, [], ◌∷◌, Map,
  lookup, bytes_eq, after_prefix, arith,
}
use omnivault.Vault.Types.{Time}
use omnivault.Vault.Interface.{ok}
use omnivault.Store.Crypto.{verify_password, derive_key, is_unlocked, new_crypto}
use omnivault.Store.Crypto as Crypto
use omnivault.Store.Disk.{new_encrypted_store, vault_exists, load_meta, load_data}
use omnivault.Store.Toy.{toy, works, old_password, one_disk, toy-Reads, toy-writes}
use omnivault.Store.Operations as Operations
use omnivault.Store.Operations.{is_locked}
use omnivault.Daemon.Protocol.{Method, Server, reset_auto_lock}
use omnivault.Daemon.Session.{handle_unlock, new_server, auto_lock}
use omnivault.Daemon.Routes.{Host, Answers, Request, Handler, handler_of, handle, serve}
use omnivault.Daemon.Unlocking.{serve-unlocks, ByPassword, ByInit}
use omnivault.Daemon.AutoLock.{Step, Reachable}
use omnivault.Config.{Paths, ensure_config_dir}
use omnivault.Daemon.Lifecycle.{Os, Ended, Meanwhile, run, create_listener, shut_down}
use omnivault.Daemon.Ending.{Event, happens, may_open, run-is_locked}
use omnivault.Daemon.Deadlines.{auto_locks}

-- The pattern that is the path itself.
abbrev exact : Map Handler → Bytes → Option Bytes
exact patterns path = elim (lookup path patterns) [ none ↦ none | some x ↦ some path ]

-- A body is the password of an unlock request.
abbrev host : Host
host = record {
  pf = toy;
  matcher = record { compile = λ p. ok (λ s. true); glob = λ p s. ok true };
  json = record {
    as_init = λ b. none;
    as_unlock = λ b. some (record { password = b });
    as_change = λ b. none;
    as_set = λ b. none;
    as_search = λ b. none;
    as_export = λ b. none;
    as_import = λ b. none;
  };
  pattern = exact;
}

abbrev answers : Answers
answers = record { io = works; ios = λ i. works; now = 7; uptime = [] }

abbrev unlock_request : Request
unlock_request = record {
  method = Method.post;
  url_path = codes "/unlock";
  prefix = [];
  body = old_password;
}

abbrev started : Server
started = new_server (new_encrypted_store one_disk) 0

abbrev opened : Server
opened = (serve host answers started unlock_request).1

serve-unlocks_example :
    ByPassword host answers started unlock_request ⊎ ByInit host answers started unlock_request
unfolding serve handle handler_of lookup handle_unlock reset_auto_lock Operations.unlock is_locked
    vault_exists load_meta new_crypto verify_password derive_key after_prefix bytes_eq Crypto.unlock
    load_data is_unlocked new_server
serve-unlocks_example = serve-unlocks host answers started unlock_request refl refl

auto_locks_example :
    (deadline : Time) × (opened.auto_lock_timer ≡ some deadline)
    × (deadline ≤ 7 + opened.auto_lock_duration)
    × Step host
        (7, opened)
        (7 + opened.auto_lock_duration, auto_lock toy works (7 + opened.auto_lock_duration) opened)
    × (is_locked (auto_lock toy works (7 + opened.auto_lock_duration) opened).store ≡ true)
unfolding serve handle handler_of lookup handle_unlock reset_auto_lock Operations.unlock is_locked
    vault_exists load_meta new_crypto verify_password derive_key after_prefix bytes_eq Crypto.unlock
    load_data is_unlocked new_server
auto_locks_example =
    auto_locks host 7 opened works toy-Reads toy-writes
      (Reachable.goes (Reachable.starts one_disk 5 0)
        (Step.serves 5 started answers unlock_request (omega arith)) refl)
      refl refl refl

-- A system that carries out everything, and has no state.
abbrev quiet : Os (Unit {0})
quiet = record {
  windows = false;
  mkdir_private = λ w dir. (none, w);
  remove = λ w path. (none, w);
  listen = λ w network address. (none, w);
  write_private = λ w path text. (none, w);
  close = λ w. (none, w);
  pid = 1;
  decimal = λ n. codes "1";
}

abbrev paths : Paths
paths = record {
  config_dir = codes "/c";
  config_file = codes "/c/config.json";
  vault_file = codes "/c/vault.enc";
  meta_file = codes "/c/vault.meta";
  socket_path = codes "/c/omnivaultd.sock";
  tcp_addr = [];
  pid_file = codes "/c/omnivaultd.pid";
  log_file = codes "/c/omnivaultd.log";
}

-- One request, and then a signal.
abbrev one_request : Server → Unit {0} → Ended × Server × Unit {0}
one_request s w = (Ended.signalled, (serve host answers s unlock_request).1, w)

abbrev status_request : Request
status_request = record { method = Method.get; url_path = codes "/status"; prefix = []; body = [] }

abbrev untouched : Server → Unit {0} → Server × Unit {0}
untouched s w = (s, w)

abbrev closing : List Event → Meanwhile (Unit {0})
closing events = record {
  before_lock = untouched;
  before_close = λ s w. (happens host events s, w);
}

abbrev late_status : List Event
late_status = Event.request answers status_request ∷ Event.timer works 9 ∷ []

run-is_locked_example :
    is_locked (run quiet paths toy works (closing late_status) one_request started tt).1.store
    ≡ true
unfolding run ensure_config_dir create_listener shut_down happens may_open lookup bytes_eq
    handler_of
run-is_locked_example =
    run-is_locked quiet paths host works toy-writes refl refl untouched late_status refl one_request
      started tt refl

-- A request for /unlock between Lock and the end of the HTTP server leaves the vault unlocked.
late_unlock :
    is_locked
      (run quiet paths toy works
        (closing (Event.request answers unlock_request ∷ []))
        one_request
        started
        tt).1.store
    ≡ false
unfolding run ensure_config_dir create_listener shut_down happens serve handle handler_of lookup
    handle_unlock reset_auto_lock Operations.unlock is_locked vault_exists load_meta new_crypto
    verify_password derive_key after_prefix bytes_eq Crypto.unlock load_data is_unlocked new_server
    Operations.lock
late_unlock = refl
