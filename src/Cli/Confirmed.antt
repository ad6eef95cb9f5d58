-- ===== src/Cli/Confirmed.antt =====
-- Which calls of the daemon the commands make.
use omnivault.Base.{
  Bytes, codes, true, List, [], ◌∷◌, ◌++◌, Bool-cases, ◌≡◌, ◌⊎◌, inl, inr, refl, ap, sym, ◌∙◌,
}
use mathlib.Core.Path.{subst}
use omnivault.DaemonClient.{delete_secret}
use omnivault.Cli.Console.{
  State, Setting, Outcome, CommandError, print, read_answer, answer_from, call, answered,
  require_daemon,
}
use omnivault.Cli.Secrets.{cmd_delete, confirm_delete, if_yes, is_yes, deleted}
use omnivault.Cli.Worlds.{
  continue-cases, continue-world, answered-world, answer_from-world, answer_from-value,
  require_daemon-state,
}

module _ {ℓ} {W : Type ℓ} where
  module _ (os : Setting W) where
    open os use {http, json}

    deleted-world :
        (path : Bytes) (s : State W)
        → (deleted os path s).1.world ≡ (delete_secret http json s.world path).1
    unfolding call print
    deleted-world path s =
        continue-world (answered CommandError.call_failed s (delete_secret http json s.world path))
          (λ r. print (codes "Secret '" ++ path ++ codes "' deleted" ++ 10 ∷ [])) (λ a t. refl)
        ∙ answered-world CommandError.call_failed s (delete_secret http json s.world path)

    if_yes-world :
        (path answer : Bytes) (s : State W)
        → ((if_yes os path answer s).1.world ≡ s.world)
          ⊎ ((is_yes os answer ≡ true)
              × ((if_yes os path answer s).1.world ≡ (delete_secret http json s.world path).1))
    unfolding print
    if_yes-world path answer s = elim (Bool-cases (is_yes os answer)) [
      | inl y ↦ inr (y, rw y (deleted-world path s))
      | inr n ↦ inl (rw n)
    ]

    -- What a step may do to the world: nothing, or a deletion that was confirmed.
    abbrev Deletes : Bytes → State W → W → Type ℓ
    Deletes path s after =
        (after ≡ s.world)
        ⊎ ((answer : Bytes) × ((read_answer (codes "failed to read response") s).0
              ≡ Outcome.value answer)
            × (is_yes os answer ≡ true)
            × (after ≡ (delete_secret http json s.world path).1))

    confirm_delete-read_answer :
        (path : Bytes) (s : State W) → Deletes path s (confirm_delete os path s).1.world
    unfolding read_answer print
    confirm_delete-read_answer path s =
        let m = codes "failed to read response" in
        let asked : State W = record s {
          stdout = s.stdout ++ (codes "Delete secret '" ++ path ++ codes "'? [y/N]: ");
        } in
        let kept = answer_from-world m s.stdin asked in
        elim (continue-cases (answer_from m s.stdin asked) (if_yes os path)) [
          | inl e ↦ inl (ap (λ (t : State W). t.world) e ∙ kept)
          | inr (answer, v, e) ↦ elim (if_yes-world path answer (answer_from m s.stdin asked).1) [
            | inl k ↦ inl (ap (λ (r : Outcome (Unit {0}) × State W). r.1.world) e ∙ k ∙ kept)
            | inr (y, d) ↦ inr (
              answer,
              answer_from-value m s.stdin s asked ∙ v,
              y,
              ap (λ (r : Outcome (Unit {0}) × State W). r.1.world) e
                  ∙ d
                  ∙ ap (λ w. (delete_secret http json w path).1) kept,
            )
          ]
        ]

    -- The delete command makes no call of the daemon but a DELETE of its path, and that only after the
    -- answer y or yes, in letters of any case and with spaces around it, has been read.
    pub cmd_delete-read_answer :
        (path : Bytes) (rest : List Bytes) (s : State W)
        → ((cmd_delete os (path ∷ rest) s).1.world ≡ s.world)
          ⊎ ((answer : Bytes) × ((read_answer (codes "failed to read response") s).0
                ≡ Outcome.value answer)
              × (is_yes os answer ≡ true)
              × ((cmd_delete os (path ∷ rest) s).1.world
                  ≡ (delete_secret http json s.world path).1))
    unfolding cmd_delete
    cmd_delete-read_answer path rest s =
        elim (continue-cases (require_daemon os s) (λ u. confirm_delete os path)) [
          | inl e ↦ inl (ap (λ (t : State W). t.world) (e ∙ require_daemon-state os s))
          | inr (u, v, e) ↦
              subst (λ (r : Outcome (Unit {0}) × State W). Deletes path s r.1.world)
                (sym (e ∙ ap (confirm_delete os path) (require_daemon-state os s)))
                (confirm_delete-read_answer path s)
        ]
