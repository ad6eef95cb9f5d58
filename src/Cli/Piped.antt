-- ===== src/Cli/Piped.antt =====
-- What the commands read of a pipe.
use omnivault.Base.{
  Bytes, codes, not, Option-cases, List, [], ◌∷◌, ◌++◌, ◌≡◌, ◌⊎◌, inl, inr, refl, ap, ◌∙◌,
}
use mathlib.Core.Path.{subst}
use omnivault.Vault.Interface.{err}
use omnivault.Daemon.Protocol.{StatusResponse}
use omnivault.DaemonClient.{Answer, ClientError, get_status}
use omnivault.Cli.Console.{
  State, Setting, Stdin, Outcome, CommandError, eof, before_newline, read_string, after_line, print,
  read_password, password_from, call, answered, require_daemon,
}
use omnivault.Cli.Sessions.{
  cmd_init, init_running, init_checked, init_entered, init_calls, new_password, prompt, status_of,
}
use omnivault.Cli.Worlds.{continue-cases, read_result-state, require_daemon-state}
use omnivault.Cli.Passwords.{new_password-world, new_password-EnteredAt, require-either}

-- One read of the pipe takes all that came in one chunk.
read_string-single : (chunk : Bytes) → (read_string (chunk ∷ [])).1 ≡ []
unfolding read_string
read_string-single chunk = elim (Option-cases (before_newline chunk)) [
  | inl n ↦ ap (λ o. (after_line chunk [] o (err eof, [])).1) n
  | inr (line, e) ↦ ap (λ o. (after_line chunk [] o (err eof, [])).1) e
]

module _ {ℓ} {W : Type ℓ} where
  password_from-pipe :
      (m : Bytes) (chunks : List Bytes) (s : State W)
      → (password_from m (Stdin.pipe chunks) s).1.stdin ≡ Stdin.pipe (read_string chunks).1
  password_from-pipe m chunks s = ap (λ (t : State W). t.stdin) (read_result-state m _ _)

  -- A read from a pipe that has ended gives no password.
  password_from-ended :
      (m : Bytes) (s : State W) (i : Stdin) (password : Bytes)
      → i ≡ Stdin.pipe []
      → (password_from m i s).0 ≡ Outcome.value password
      → {C : Type ℓ} → C
  unfolding read_string
  password_from-ended m s i password e h =
      let ended : (password_from m (Stdin.pipe []) s).0 ≡ Outcome.value password =
        subst (λ i. (password_from m i s).0 ≡ Outcome.value password) e h in
      cc

  answered-stdin {κ} :
      {A : Type κ} (f : ClientError → CommandError) (s : State W) (r : Answer A × W)
      → (answered f s r).1.stdin ≡ s.stdin
  answered-stdin f s (Answer.done a, w) = refl
  answered-stdin f s (Answer.failed e, w) = refl
  answered-stdin f s (Answer.crashed, w) = refl

  module _ (os : Setting W) where
    open os use {http, json}

    prompt-stdin :
        (text chunk : Bytes) (s : State W)
        → s.stdin ≡ Stdin.pipe (chunk ∷ [])
        → (prompt os text s).1.stdin ≡ Stdin.pipe []
    unfolding print read_password
    prompt-stdin text chunk s e =
        let m = codes "failed to read password" in
        let t : State W = record s { stdout = s.stdout ++ text } in
        ap (λ i. (password_from m i t).1.stdin) e
        ∙ password_from-pipe m (chunk ∷ []) t
        ∙ ap Stdin.pipe (read_string-single chunk)

    prompt-ended :
        (text password : Bytes) (s : State W)
        → s.stdin ≡ Stdin.pipe []
        → (prompt os text s).0 ≡ Outcome.value password
        → {C : Type ℓ} → C
    unfolding print read_password
    prompt-ended text password s e h =
        password_from-ended (codes "failed to read password")
          (record s { stdout = s.stdout ++ text }) s.stdin password e h

    init_entered-world :
        (chunk : Bytes) (s : State W)
        → s.stdin ≡ Stdin.pipe (chunk ∷ [])
        → (init_entered os s).1.world ≡ s.world
    init_entered-world chunk s e =
        let first = codes "Enter master password (min 8 chars): " in
        let second = codes "Confirm master password: " in
        elim (continue-cases (new_password os first second s) (init_calls os)) [
          | inl k ↦ ap (λ (t : State W). t.world) k ∙ new_password-world os first second s
          | inr (password, v, k) ↦
              let (long, f, g) = new_password-EnteredAt os first second s password v in
              prompt-ended second password (prompt os first s).1 (prompt-stdin first chunk s e) g
        ]

    init_checked-world :
        (chunk : Bytes) (status : StatusResponse) (s : State W)
        → s.stdin ≡ Stdin.pipe (chunk ∷ [])
        → (init_checked os status s).1.world ≡ s.world
    init_checked-world chunk status s e =
        require-either os (λ w. w ≡ s.world) (not status.vault_exists)
          (codes "vault already exists") (λ v. init_entered os) s refl
          (init_entered-world chunk s e)

    init_running-world :
        (chunk : Bytes) (s : State W)
        → s.stdin ≡ Stdin.pipe (chunk ∷ [])
        → (init_running os s).1.world ≡ (status_of os s).1.world
    unfolding call
    init_running-world chunk s e =
        let f = CommandError.because_call (codes "failed to get status") in
        elim (continue-cases (status_of os s) (init_checked os)) [
          | inl k ↦ ap (λ (t : State W). t.world) k
          | inr (status, v, k) ↦
              ap (λ (r : Outcome (Unit {0}) × State W). r.1.world) k
              ∙ init_checked-world chunk status (status_of os s).1
                  (answered-stdin f s (get_status http json s.world) ∙ e)
        ]

    -- The init command whose standard input is a pipe that delivers all of its text in one read never
    -- sends an init request, whatever the text is: the world is left as it was, or as the call for the
    -- status left it. The reader of the first password takes the second with it.
    pub cmd_init-piped :
        (chunk : Bytes) (s : State W)
        → s.stdin ≡ Stdin.pipe (chunk ∷ [])
        → ((cmd_init os s).1.world ≡ s.world) ⊎ ((cmd_init os s).1.world ≡ (status_of os s).1.world)
    unfolding cmd_init
    cmd_init-piped chunk s e = elim (continue-cases (require_daemon os s) (λ u. init_running os)) [
      | inl k ↦ inl (ap (λ (t : State W). t.world) (k ∙ require_daemon-state os s))
      | inr (u, v, k) ↦ inr (
          ap (λ (r : Outcome (Unit {0}) × State W). r.1.world)
            (k ∙ ap (init_running os) (require_daemon-state os s))
          ∙ init_running-world chunk s e)
    ]
