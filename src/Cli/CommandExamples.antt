-- ===== src/Cli/CommandExamples.antt =====
-- The theorems about the commands at a daemon that keeps a list of the requests it was sent.
use omnivault.Base.{
  Bytes, codes, true, false, none, List, [], ◌∷◌, ◌++◌, ◌≡◌, ◌⊎◌, refl, has_prefix, trim_prefix,
  member, bytes_eq, insert, lookup, ◌≢◌,
}
use omnivault.Vault.Errors.{message}
use omnivault.Vault.Interface.{ok, err}
use omnivault.Config.{Reading}
use omnivault.DaemonClient.{delete_secret, is_daemon_running}
use omnivault.Cli.Console.{State, Setting, Stdin, Typed, Outcome, read_answer}
use omnivault.Cli.Secrets.{cmd_delete, is_yes}
use omnivault.Cli.Sessions.{cmd_init, cmd_passwd, status_of}
use omnivault.Cli.Flags.{parse_flags, kind, cut_at}
use omnivault.Cli.Transfers.{Files, cmd_import}
use omnivault.Cli.Piped.{cmd_init-piped}
use omnivault.Cli.PipedImport.{cmd_import-piped}
use omnivault.Cli.Daemons.{Processes}
use omnivault.Cli.Main.{Command, Exit, main}
use omnivault.Cli.Offline.{main-offline}
use omnivault.Cli.Confirmed.{cmd_delete-read_answer}
use omnivault.Cli.Passwords.{Changes, cmd_passwd-Changes}

abbrev setting : Setting (List Bytes)
setting = record {
  http = record {
    new_request_error = λ m url. none;
    perform = λ w m url body. (ok (record { status_code = 200; body = ok [] }), url ∷ w);
    dial_tcp = λ w addr. false;
    dial_unix = λ w path. true;
    socket_exists = λ w path. true;
  };
  json = record {
    marshal = λ r. ok (codes "{}");
    error_response = λ b. err (message (codes "error"));
    success_response = λ b. ok b;
    status_response = λ b. ok (record {
      running = true;
      locked = false;
      vault_exists = true;
      secret_count = 0;
      unlocked_at = 0;
      uptime = [];
    });
    search_response = λ b. err (message (codes "search"));
    export_response = λ b. err (message (codes "export"));
    import_response = λ b. err (message (codes "import"));
    list_response = λ b. err (message (codes "list"));
    secret_response = λ b. err (message (codes "secret"));
  };
  client = record { socket_path = codes "/s"; tcp_addr = [] };
  windows = false;
  codec = record {
    unmarshal = λ text c. ok c;
    marshal = λ c. ok [];
    parse_duration = λ text. err (message (codes "duration"));
  };
  config_file = Reading.missing;
  texts = record {
    whole_days = λ d. 0;
    whole_hours = λ d. 0;
    whole_minutes = λ d. 0;
    decimal = λ n. codes "n";
    date = λ t. codes "d";
  };
  encoders = record {
    json = λ v. ok (codes "{}");
    yaml = λ v. ok (codes "{}");
    decimal = λ n. codes "n";
    rfc3339 = λ t. codes "t";
    date_time = λ t. codes "t";
  };
  now = 7;
}

abbrev typing : List Typed → State (List Bytes)
typing lines = record {
  world = [];
  stdin = Stdin.terminal lines;
  stdout = [];
  stderr = [];
  files = [];
}

abbrev saying_yes : State (List Bytes)
saying_yes = typing (Typed.typed_line (codes " Yes") ∷ [])

cmd_delete-read_answer_example :
    ((cmd_delete setting (codes "k" ∷ []) saying_yes).1.world ≡ [])
    ⊎ ((answer : Bytes) × ((read_answer (codes "failed to read response") saying_yes).0
          ≡ Outcome.value answer)
        × (is_yes setting answer ≡ true)
        × ((cmd_delete setting (codes "k" ∷ []) saying_yes).1.world
            ≡ (delete_secret setting.http setting.json [] (codes "k")).1))
cmd_delete-read_answer_example = cmd_delete-read_answer setting (codes "k") [] saying_yes

abbrev entering : State (List Bytes)
entering = typing (
    Typed.typed_line (codes "old secret")
    ∷ Typed.typed_line (codes "new secret")
    ∷ Typed.typed_line (codes "new secret")
    ∷ [])

cmd_passwd-Changes_example :
    ((cmd_passwd setting entering).1.world ≡ [])
    ⊎ Changes setting (status_of setting entering).1 (cmd_passwd setting entering).1.world
cmd_passwd-Changes_example = cmd_passwd-Changes setting entering

abbrev piping : List Bytes → State (List Bytes)
piping chunks = record {
  world = [];
  stdin = Stdin.pipe chunks;
  stdout = [];
  stderr = [];
  files = [];
}

-- Both passwords on two lines, in one read.
abbrev two_lines : Bytes
two_lines = codes "new secret" ++ 10 ∷ codes "new secret" ++ 10 ∷ []

cmd_init-piped_example :
    ((cmd_init setting (piping (two_lines ∷ []))).1.world ≡ [])
    ⊎ ((cmd_init setting (piping (two_lines ∷ []))).1.world
        ≡ (status_of setting (piping (two_lines ∷ []))).1.world)
cmd_init-piped_example = cmd_init-piped setting two_lines (piping (two_lines ∷ [])) refl

abbrev one_exported : Files
one_exported = record {
  encode = λ resp. ok (codes "{}");
  decode_response = λ text. ok (
      record { path = codes "k"; value = codes "v"; fields = none; tags = none; expires_at = 0 }
      ∷ []);
  decode_list = λ text. err (message (codes "json"));
  create_error = λ name. none;
  open_input = λ name. err (message (codes "no such file"));
}

cmd_import-piped_example :
    (cmd_import setting one_exported (codes "--merge" ∷ []) (piping (codes "{}" ∷ []))).1.world ≡ []
unfolding parse_flags kind cut_at has_prefix trim_prefix member bytes_eq insert
cmd_import-piped_example =
    cmd_import-piped setting one_exported (codes "--merge" ∷ []) (codes "{}" ∷ [])
      (piping (codes "{}" ∷ [])) refl refl

abbrev no_processes : Processes (List Bytes)
no_processes = record {
  executable = err (message (codes "none"));
  start = λ w exe. (err (message (codes "none")), w);
  run_server = λ w. (none, w);
  read_pid_file = λ w. err (message (codes "none"));
  atoi = λ text. err (message (codes "none"));
  signal = λ w pid. (none, w);
  remove_pid_file = λ w. (none, w);
}

-- Nothing is behind the socket.
abbrev offline : Setting (List Bytes)
offline = record setting { http = record setting.http { socket_exists = λ w path. false } }

main-offline_example :
    let (exit, t) =
      main offline one_exported no_processes (codes "rm" ∷ codes "k" ∷ []) saying_yes in
    (exit ≢ Exit.success) × (t.world ≡ []) × (t.files ≡ [])
unfolding lookup bytes_eq is_daemon_running
main-offline_example =
    main-offline offline saying_yes refl one_exported no_processes (codes "rm") (codes "k" ∷ [])
      Command.delete refl refl
