-- ===== src/Cli/Worlds.antt =====
-- What the steps of a command leave of the world behind the daemon's socket.
use omnivault.Base.{Bytes, Bool, true, false, ◌≡◌, ◌⊎◌, inl, inr, refl, ap}
use omnivault.Vault.Interface.{Result, ok, err, panic}
use omnivault.DaemonClient.{Answer}
use omnivault.Cli.Console.{
  Step, State, Setting, Stdin, Outcome, CommandError, require, password_from, answer_from,
  read_result, answered, continue, require_daemon,
}

module _ {ℓ} {W : Type ℓ} where
  -- A step either ends a command, which is then left as it is, or the rest runs on its value.
  pub continue-cases {κ μ} :
      {A : Type κ} {B : Type μ} (r : Outcome A × State W) (f : A → Step W B)
      → ((continue r f).1 ≡ r.1) ⊎ ((a : A) × (r.0 ≡ Outcome.value a) × (continue r f ≡ f a r.1))
  continue-cases (Outcome.value a, s) f = inr (a, refl, refl)
  continue-cases (Outcome.stop e, s) f = inl refl
  continue-cases (Outcome.panicked, s) f = inl refl

  pub read_result-state : (m : Bytes) (r : Result Bytes) (s : State W) → (read_result m r s).1 ≡ s
  read_result-state m (ok x) s = refl
  read_result-state m (err e) s = refl
  read_result-state m panic s = refl

  pub read_result-value :
      (m : Bytes) (r : Result Bytes) (s t : State W) → (read_result m r s).0 ≡ (read_result m r t).0
  read_result-value m (ok x) s t = refl
  read_result-value m (err e) s t = refl
  read_result-value m panic s t = refl

  pub answer_from-world :
      (m : Bytes) (i : Stdin) (s : State W) → (answer_from m i s).1.world ≡ s.world
  answer_from-world m (Stdin.terminal lines) s =
      ap (λ (t : State W). t.world) (read_result-state _ _ _)
  answer_from-world m (Stdin.pipe chunks) s =
      ap (λ (t : State W). t.world) (read_result-state _ _ _)

  pub answer_from-value :
      (m : Bytes) (i : Stdin) (s t : State W) → (answer_from m i s).0 ≡ (answer_from m i t).0
  answer_from-value m (Stdin.terminal lines) s t = read_result-value _ _ _ _
  answer_from-value m (Stdin.pipe chunks) s t = read_result-value _ _ _ _

  pub password_from-world :
      (m : Bytes) (i : Stdin) (s : State W) → (password_from m i s).1.world ≡ s.world
  password_from-world m (Stdin.terminal lines) s =
      ap (λ (t : State W). t.world) (read_result-state _ _ _)
  password_from-world m (Stdin.pipe chunks) s =
      ap (λ (t : State W). t.world) (read_result-state _ _ _)

  pub require-state : (b : Bool) (m : Bytes) (s : State W) → (require b m s).1 ≡ s
  require-state true m s = refl
  require-state false m s = refl

  pub require-value :
      (b : Bool) (m : Bytes) (s : State W) (u : Unit {0})
      → (require b m s).0 ≡ Outcome.value u
      → b ≡ true
  require-value true m s u h = refl
  require-value false m s u h = cc

  pub answered-world {κ} :
      {A : Type κ} (f : _ → CommandError) (s : State W) (r : Answer A × W)
      → (answered f s r).1.world ≡ r.1
  answered-world f s (Answer.done a, w) = refl
  answered-world f s (Answer.failed e, w) = refl
  answered-world f s (Answer.crashed, w) = refl

  -- A rest that leaves the world as it is.
  pub continue-world {κ μ} :
      {A : Type κ} {B : Type μ} (r : Outcome A × State W) (f : A → Step W B)
      → ((a : A) → (s : State W) → (f a s).1.world ≡ s.world)
      → (continue r f).1.world ≡ r.1.world
  continue-world (Outcome.value a, s) f h = h a s
  continue-world (Outcome.stop e, s) f h = refl
  continue-world (Outcome.panicked, s) f h = refl

  pub require_daemon-state : (os : Setting W) (s : State W) → (require_daemon os s).1 ≡ s
  unfolding require_daemon
  require_daemon-state os s = require-state _ _ s
