-- ===== src/Cli/WholeProgram.antt =====
-- The whole program: a secret from the command line through the client, the daemon and the store to its
-- vault, and back. Strings of the command line are taken for their bytes here, as in ASCII they are.
use omnivault.Base.{Bytes, codes, true, false, none, some, [], ◌∷◌, ◌++◌, is_empty, ◌≡◌, ◌∙◌, ap}
use omnivault.Vault.Interface.{ok}
use omnivault.Config.{Reading}
use omnivault.Vault.Types.{Time, Secret}
use omnivault.Store.Crypto.{Crypto, IsSound, Fills}
use omnivault.Store.Disk.{Platform, Io, Secrets}
use omnivault.Store.Contents.{IsUnlocked}
use omnivault.Store.Operations as Operations
use omnivault.Store.Operations.{seal_secret, stamped}
use omnivault.Daemon.Protocol.{SetSecretRequest, Server, Body}
use omnivault.Daemon.Secrets.{requested, secret_response}
use omnivault.DaemonClient.Errors.{Carries, is_plain}
use omnivault.DaemonClient.RoundTrip.{Keeps, Sent, Received, get_secret-set_secret}
use omnivault.DaemonClient as DaemonClient
use omnivault.DaemonClient.{Answer, ClientError, is_daemon_running}
use omnivault.Cli.Flags.{Kind, kind}
use omnivault.Cli.Console.{State, Setting}
use omnivault.Cli.Transfers.{Files}
use omnivault.Cli.Daemons.{Processes}
use omnivault.Cli.Main.{Exit, exit_with, main}
use omnivault.Cli.Secrets.{cmd_get}
use omnivault.Cli.SetAndGet.{saved_line, cmd_set-done, cmd_get-done, exit-value, main-set, main-get}

-- The request of a set on the command line: a value alone.
abbrev pub value_request : Bytes → SetSecretRequest
value_request value = record { value = value; fields = none; tags = none }

module _ (os : Setting Server) (files : Files) (processes : Processes Server) (pf : Platform)
    (io : Io) (now : Time) (carries : Carries os.http os.json pf io now) where
  -- With a daemon that can be reached and whose vault is unlocked, `omnivault set path value` succeeds,
  -- and `omnivault get path` behind it succeeds and prints the value on a line, if the value is not
  -- empty, the path is plain and no flag, and there is no configuration file. The store's Set returns no
  -- error, reads of randomness fill, net/http and JSON carry the request and the replies, and the JSON of
  -- the stored secret keeps its value, fields and tags.
  pub main-set-get :
      (sound : IsSound pf.prim) (s : State Server) (c : Crypto) (m : Secrets)
      (path value j e text ack message seen : Bytes) (y : Secret)
      → ((w : Server) → is_daemon_running os.http os.json os.client os.windows w ≡ true)
      → os.config_file ≡ Reading.missing
      → kind [] path ≡ Kind.positional
      → is_empty value ≡ false
      → Keeps os.http os.json pf io now carries
          (stamped (io.clock 0) (requested (value_request value)))
          y
      → IsUnlocked s.world.store c m
      → is_empty path ≡ false
      → is_plain path ≡ true
      → Fills (io.rand 0)
      → pf.codec.marshal_secret (stamped (io.clock 0) (requested (value_request value))) ≡ ok j
      → pf.codec.unmarshal_secret j ≡ ok y
      → seal_secret pf io c (stamped (io.clock 0) (requested (value_request value))) ≡ ok e
      → (Operations.set pf io s.world.store path (some (requested (value_request value)))).0 ≡ ok tt
      → Sent os.http os.json pf io now carries (value_request value) text
      → Received os.http os.json pf io now carries os.json.success_response
          (Body.success (codes "secret saved"))
          message
          ack
      → Received os.http os.json pf io now carries os.json.secret_response
          (Body.secret (secret_response path y))
          (secret_response path y)
          seen
      → let (exit, s1) = main os files processes (codes "set" ∷ path ∷ value ∷ []) s in
        let (exit', s2) = main os files processes (codes "get" ∷ path ∷ []) s1 in
        (exit ≡ Exit.success)
        × (exit' ≡ Exit.success)
        × (s2.stdout ≡ (s.stdout ++ saved_line os path) ++ (value ++ 10 ∷ []))
  main-set-get sound s c m path value j e text ack message seen y up file k v keep u n p fills mj uj
        h w sent acked got =
      let req = value_request value in
      let (answer, r, g, _, same, none_left, _) =
        get_secret-set_secret os.http os.json pf io now carries sound s.world c m path req y j e
          text ack message seen keep u n p fills mj uj h w sent acked got in
      let s1 : State Server = record s {
        world = (DaemonClient.set_secret os.http os.json s.world path value none none).1;
        stdout = s.stdout ++ saved_line os path;
      } in
      let q = cmd_set-done os s path value message (up s.world) answer in
      let x = main-set os files processes path value s ∙ ap (exit_with os files processes) q in
      let d = cmd_get-done os s1 path r (up s1.world) k file g (ap is_empty same ∙ v) none_left in
      let z =
        main-get os files processes path s1
        ∙ exit-value os files processes (cmd_get os (path ∷ []) s1) d.0 in
      (
        ap (λ (o : Exit × State Server). o.0) x,
        ap (λ (o : Exit × State Server). (main os files processes (codes "get" ∷ path ∷ []) o.1).0)
              x
            ∙ ap (λ (o : Exit × State Server). o.0) z,
        ap
              (λ (o : Exit × State Server).
                (main os files processes (codes "get" ∷ path ∷ []) o.1).1.stdout)
              x
            ∙ ap (λ (o : Exit × State Server). o.1.stdout) z
            ∙ d.1
            ∙ ap (λ a. s1.stdout ++ (a ++ 10 ∷ [])) same,
      )
