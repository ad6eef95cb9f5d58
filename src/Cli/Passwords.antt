-- ===== src/Cli/Passwords.antt =====
-- cmd/omnivault/init.go: passwd and its new password.
use omnivault.Base.{
  Bytes, codes, Bool, true, false, not, ltb, ◌++◌, bytes_eq, bytes_eq→eq, ◌≡◌, ◌⊎◌, inl, inr, refl,
  ap, sym, ◌∙◌, arith,
}
use mathlib.Core.Path.{subst}
use omnivault.Daemon.Protocol.{StatusResponse}
use omnivault.DaemonClient.{change_password}
use omnivault.Cli.Console.{
  Step, State, Setting, Outcome, CommandError, give, require, print, read_password, byte_length,
  call, answered, continue, require_daemon,
}
use omnivault.Cli.Sessions.{
  cmd_passwd, passwd_running, passwd_checked, passwd_unlocked, passwd_entered, passwd_new,
  passwd_calls, first_prompt, second_prompt, new_password, same_password, confirmed, long_enough,
  prompt, status_of, say,
}
use omnivault.Cli.Worlds.{
  continue-cases, continue-world, answered-world, password_from-world, require-state, require-value,
  require_daemon-state,
}

module _ {ℓ} {W : Type ℓ} where
  pub continue-value {κ μ} :
      {A : Type κ} {B : Type μ} (r : Outcome A × State W) (f : A → Step W B) (b : B)
      → (continue r f).0 ≡ Outcome.value b
      → (a : A) × (r.0 ≡ Outcome.value a) × ((f a r.1).0 ≡ Outcome.value b)
  continue-value (Outcome.value a, s) f b h = (a, refl, h)
  continue-value (Outcome.stop e, s) f b h = cc
  continue-value (Outcome.panicked, s) f b h = cc

  module _ (os : Setting W) where
    open os use {http, json}

    pub prompt-world : (text : Bytes) (s : State W) → (prompt os text s).1.world ≡ s.world
    unfolding print read_password
    prompt-world text s =
        password_from-world (codes "failed to read password") s.stdin
          (record s { stdout = s.stdout ++ text })

    same_password-world :
        (password confirm : Bytes) (s : State W)
        → (same_password os password confirm s).1.world ≡ s.world
    same_password-world password confirm s =
        continue-world (require (bytes_eq password confirm) (codes "passwords do not match") s)
          (λ v. give password) (λ v t. refl)
        ∙ ap (λ (t : State W). t.world) (require-state _ _ s)

    confirmed-world :
        (second password : Bytes) (s : State W) → (confirmed os second password s).1.world ≡ s.world
    confirmed-world second password s =
        continue-world (prompt os second s) (same_password os password)
          (same_password-world password)
        ∙ prompt-world second s

    long_enough-world :
        (second password : Bytes) (s : State W)
        → (long_enough os second password s).1.world ≡ s.world
    long_enough-world second password s =
        continue-world
          (require (not (ltb (byte_length password) 8))
            (codes "password must be at least 8 characters") s)
          (λ u. confirmed os second password) (λ u. confirmed-world second password)
        ∙ ap (λ (t : State W). t.world) (require-state _ _ s)

    pub new_password-world :
        (first second : Bytes) (s : State W) → (new_password os first second s).1.world ≡ s.world
    new_password-world first second s =
        continue-world (prompt os first s) (long_enough os second) (long_enough-world second)
        ∙ prompt-world first s

    -- What a new password has passed.
    abbrev pub EnteredAt : (first second : Bytes) → Bytes → State W → Type 0
    EnteredAt first second password s =
        (ltb (byte_length password) 8 ≡ false)
        × ((prompt os first s).0 ≡ Outcome.value password)
        × ((prompt os second (prompt os first s).1).0 ≡ Outcome.value password)

    abbrev pub Entered : Bytes → State W → Type 0
    Entered password s = EnteredAt (first_prompt os) (second_prompt os) password s

    same_password-value :
        (password confirm q : Bytes) (s : State W)
        → (same_password os password confirm s).0 ≡ Outcome.value q
        → (password ≡ q) × (confirm ≡ q)
    same_password-value password confirm q s h =
        let (v, r, g) =
          continue-value (require (bytes_eq password confirm) (codes "passwords do not match") s)
            (λ v. give password) q h in
        let p : password ≡ q = cc in
        let same = bytes_eq→eq password confirm (require-value _ _ s v r) in (p, sym same ∙ p)

    confirmed-value :
        (second password q : Bytes) (s : State W)
        → (confirmed os second password s).0 ≡ Outcome.value q
        → (password ≡ q) × ((prompt os second s).0 ≡ Outcome.value q)
    confirmed-value second password q s h =
        let (confirm, c, g) = continue-value (prompt os second s) (same_password os password) q h in
        let (p, e) = same_password-value password confirm q (prompt os second s).1 g in
        (p, c ∙ ap Outcome.value e)

    long_enough-value :
        (second password q : Bytes) (s : State W)
        → (long_enough os second password s).0 ≡ Outcome.value q
        → (ltb (byte_length q) 8 ≡ false)
          × (password ≡ q)
          × ((prompt os second s).0 ≡ Outcome.value q)
    long_enough-value second password q s h =
        let m = codes "password must be at least 8 characters" in
        let b = not (ltb (byte_length password) 8) in
        let (u, r, g) = continue-value (require b m s) (λ u. confirmed os second password) q h in
        let (p, c) = confirmed-value second password q (require b m s).1 g in
        let long : ltb (byte_length password) 8 ≡ false = ground (arith, require-value b m s u r) in
        (
          subst (λ x. ltb (byte_length x) 8 ≡ false) p long,
          p,
          ap (λ (t : State W). (prompt os second t).0) (sym (require-state b m s)) ∙ c,
        )

    pub new_password-EnteredAt :
        (first second : Bytes) (s : State W) (password : Bytes)
        → (new_password os first second s).0 ≡ Outcome.value password
        → EnteredAt first second password s
    new_password-EnteredAt first second s password h =
        let (entry, f, g) = continue-value (prompt os first s) (long_enough os second) password h in
        let (long, p, c) = long_enough-value second entry password (prompt os first s).1 g in
        (long, f ∙ ap Outcome.value p, c)

    -- What a passwd command may do to the world after the status call.
    abbrev pub Changes : State W → W → Type ℓ
    Changes s after =
        (after ≡ s.world)
        ⊎ ((current password : Bytes) × ((prompt os (codes "Enter current password: ") s).0
              ≡ Outcome.value current)
            × Entered password (prompt os (codes "Enter current password: ") s).1
            × (after ≡ (change_password http json s.world current password).1))

    passwd_calls-world :
        (current password : Bytes) (s : State W)
        → (passwd_calls os current password s).1.world
          ≡ (change_password http json s.world current password).1
    unfolding call print
    passwd_calls-world current password s =
        let f = CommandError.because_call (codes "failed to change password") in
        let r = change_password http json s.world current password in
        continue-world (answered f s r) (λ reply. say os (codes "Password changed successfully!"))
          (λ a t. refl)
        ∙ answered-world f s r

    passwd_new-world :
        (current : Bytes) (s : State W)
        → ((passwd_new os current s).1.world ≡ s.world)
          ⊎ ((password : Bytes) × Entered password s
              × ((passwd_new os current s).1.world
                  ≡ (change_password http json s.world current password).1))
    passwd_new-world current s =
        let entry = new_password os (first_prompt os) (second_prompt os) s in
        let kept = new_password-world (first_prompt os) (second_prompt os) s in
        elim (continue-cases entry (passwd_calls os current)) [
          | inl e ↦ inl (ap (λ (t : State W). t.world) e ∙ kept)
          | inr (password, v, e) ↦ inr (
            password,
            new_password-EnteredAt (first_prompt os) (second_prompt os) s password v,
            ap (λ (r : Outcome (Unit {0}) × State W). r.1.world) e
                ∙ passwd_calls-world current password entry.1
                ∙ ap (λ w. (change_password http json w current password).1) kept,
          )
        ]

    passwd_entered-Changes : (s : State W) → Changes s (passwd_entered os s).1.world
    passwd_entered-Changes s =
        let entry = prompt os (codes "Enter current password: ") s in
        let kept = prompt-world (codes "Enter current password: ") s in
        elim (continue-cases entry (passwd_new os)) [
          | inl e ↦ inl (ap (λ (t : State W). t.world) e ∙ kept)
          | inr (current, v, e) ↦
              let whole = ap (λ (r : Outcome (Unit {0}) × State W). r.1.world) e in
              elim (passwd_new-world current entry.1) [
                | inl k ↦ inl (whole ∙ k ∙ kept)
                | inr (password, entered, k) ↦ inr (
                  current,
                  password,
                  v,
                  entered,
                  whole ∙ k ∙ ap (λ w. (change_password http json w current password).1) kept,
                )
              ]
        ]

    -- A step that is required before a rest, with what holds of both worlds.
    pub require-either :
        (P : W → Type ℓ) (b : Bool) (m : Bytes) (f : Unit {0} → Step W (Unit {0})) (s : State W)
        → P s.world
        → P (f tt s).1.world
        → P (continue (require b m s) f).1.world
    require-either P true m f s p q = q
    require-either P false m f s p q = p

    passwd_checked-Changes :
        (status : StatusResponse) (s : State W) → Changes s (passwd_checked os status s).1.world
    passwd_checked-Changes status s =
        require-either (Changes s) status.vault_exists
          (codes "vault does not exist, run: omnivault init") (λ v. passwd_unlocked os status) s
          (inl refl)
          (require-either (Changes s) (not status.locked)
            (codes "vault is locked, unlock it first with: omnivault unlock")
            (λ x. passwd_entered os) s (inl refl) (passwd_entered-Changes s))

    passwd_running-Changes :
        (s : State W) → Changes (status_of os s).1 (passwd_running os s).1.world
    passwd_running-Changes s = elim (continue-cases (status_of os s) (passwd_checked os)) [
      | inl e ↦ inl (ap (λ (t : State W). t.world) e)
      | inr (status, v, e) ↦
          subst (λ (r : Outcome (Unit {0}) × State W). Changes (status_of os s).1 r.1.world) (sym e)
            (passwd_checked-Changes status (status_of os s).1)
    ]

    -- The passwd command makes no call of the daemon but one for the status and one to change the
    -- password, and the second only with a new password of at least eight bytes that was entered at
    -- both prompts, after the current password was entered.
    pub cmd_passwd-Changes :
        (s : State W)
        → ((cmd_passwd os s).1.world ≡ s.world)
          ⊎ Changes (status_of os s).1 (cmd_passwd os s).1.world
    unfolding cmd_passwd
    cmd_passwd-Changes s = elim (continue-cases (require_daemon os s) (λ u. passwd_running os)) [
      | inl e ↦ inl (ap (λ (t : State W). t.world) (e ∙ require_daemon-state os s))
      | inr (u, v, e) ↦ inr (
          subst (λ (r : Outcome (Unit {0}) × State W). Changes (status_of os s).1 r.1.world)
            (sym (e ∙ ap (passwd_running os) (require_daemon-state os s)))
            (passwd_running-Changes s))
    ]
