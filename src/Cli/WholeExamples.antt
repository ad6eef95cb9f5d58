-- ===== src/Cli/WholeExamples.antt =====
-- The whole program at a daemon over a vault of one secret.
use omnivault.Base.{codes, false, none, [], ◌∷◌, ◌++◌, ◌≡◌, refl, insert, bytes_eq, has_prefix}
use omnivault.Vault.Errors.{message}
use omnivault.Vault.Types.{reveal}
use omnivault.Vault.Interface.{ok, err}
use omnivault.Config.{Reading}
use omnivault.Store.Crypto.{encrypt, encrypt_with, is_unlocked}
use omnivault.Store.Disk.{save_data}
use omnivault.Store.Operations as Operations
use omnivault.Store.Operations.{is_locked, seal_secret, stamped}
use omnivault.Store.Toy.{
  toy_sound, toy_rand-Fills, works, crypto_for, sealed, old_password, one_secret,
  one_store-IsUnlocked,
}
use omnivault.Daemon.Protocol.{Server}
use omnivault.Daemon.Secrets.{secret_response}
use omnivault.DaemonClient.{is_daemon_running}
use omnivault.DaemonClient.Errors.{is_plain}
use omnivault.DaemonClient.RoundTripExamples.{socket, json, wired, dated, unlocked, kept_secret}
use omnivault.Cli.Flags.{kind}
use omnivault.Cli.Console.{State, Setting, Stdin}
use omnivault.Cli.Transfers.{Files}
use omnivault.Cli.Daemons.{Processes}
use omnivault.Cli.Main.{Exit, main}
use omnivault.Cli.SetAndGet.{saved_line}
use omnivault.Cli.WholeProgram.{main-set-get}

abbrev setting : Setting Server
setting = record {
  http = socket;
  json = json;
  client = record { socket_path = codes "/s"; tcp_addr = [] };
  windows = false;
  codec = record {
    unmarshal = λ text c. ok c;
    marshal = λ c. ok [];
    parse_duration = λ text. err (message (codes "duration"));
  };
  config_file = Reading.missing;
  texts = record {
    whole_days = λ d. 0;
    whole_hours = λ d. 0;
    whole_minutes = λ d. 0;
    decimal = λ n. codes "n";
    date = λ t. codes "d";
  };
  encoders = record {
    json = λ v. ok (codes "{}");
    yaml = λ v. ok (codes "{}");
    decimal = λ n. codes "n";
    rfc3339 = λ t. codes "t";
    date_time = λ t. codes "t";
  };
  now = 7;
}

abbrev no_files : Files
no_files = record {
  encode = λ resp. ok (codes "{}");
  decode_response = λ text. err (message (codes "json"));
  decode_list = λ text. err (message (codes "json"));
  create_error = λ name. none;
  open_input = λ name. err (message (codes "no file"));
}

abbrev no_processes : Processes Server
no_processes = record {
  executable = err (message (codes "none"));
  start = λ w exe. (err (message (codes "none")), w);
  run_server = λ w. (none, w);
  read_pid_file = λ w. err (message (codes "none"));
  atoi = λ text. err (message (codes "none"));
  signal = λ w pid. (none, w);
  remove_pid_file = λ w. (none, w);
}

abbrev console : State Server
console = record {
  world = unlocked;
  stdin = Stdin.terminal [];
  stdout = [];
  stderr = [];
  files = [];
}

main-set-get_example :
    let (exit, s1) =
      main setting no_files no_processes (codes "set" ∷ codes "b" ∷ codes "2" ∷ []) console in
    let (exit', s2) = main setting no_files no_processes (codes "get" ∷ codes "b" ∷ []) s1 in
    (exit ≡ Exit.success)
    × (exit' ≡ Exit.success)
    × (s2.stdout ≡ ([] ++ saved_line setting (codes "b")) ++ (codes "2" ++ 10 ∷ []))
unfolding is_plain bytes_eq stamped seal_secret encrypt encrypt_with secret_response Operations.set
    is_locked is_unlocked save_data insert reveal is_daemon_running kind has_prefix
main-set-get_example =
    main-set-get setting no_files no_processes dated works 7 wired toy_sound console
      (crypto_for old_password) one_secret (codes "b") (codes "2") (codes "2")
      (sealed old_password (codes "2")) (codes "2") (codes "secret saved") (codes "secret saved")
      (codes "2") kept_secret (λ w. refl) refl refl refl
      (record { same_value = refl; same_bytes = refl; same_fields = refl; same_tags = refl })
      one_store-IsUnlocked refl refl toy_rand-Fills refl refl refl refl
      (record { written = refl; read = refl }) (record { on_wire = refl; decoded = refl })
      (record { on_wire = refl; decoded = refl })
