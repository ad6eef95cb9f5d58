-- ===== src/Cli/PipedImport.antt =====
-- What the import command does with data from a pipe.
use omnivault.Base.{
  Bytes, codes, Bool, List, [], ◌∷◌, ◌++◌, is_empty, length, Bool-cases, ◌≡◌, inl, inr, refl, ap,
  ◌∙◌,
}
use omnivault.Vault.Interface.{Result, ok, err, panic}
use omnivault.Daemon.Protocol.{ExportedSecret}
use omnivault.Cli.Flags.{parse_flags, get_bool}
use omnivault.Cli.Console.{
  State, Setting, Stdin, Outcome, CommandError, eof, read_string, all_chunks, line_from, read_line,
  read_all, all_from, warn, continue, require_daemon,
}
use omnivault.Cli.Transfers.{
  Files, cmd_import, import_args, import_text, hint_for, list_or_error, or_list, confirm_import,
  question,
}
use omnivault.Cli.Worlds.{continue-cases, require_daemon-state}

module _ {ℓ} {W : Type ℓ} where
  line_from-ended :
      (m : Bytes) (s : State W) (i : Stdin)
      → i ≡ Stdin.pipe []
      → line_from m i s
        ≡ (Outcome.stop (CommandError.because m eof), record s { stdin = Stdin.pipe [] })
  unfolding read_string
  line_from-ended m s i e = ap (λ i. line_from m i s) e

  module _ (os : Setting W) (files : Files) where
    confirm_import-world :
        (merge : Bool) (secrets : List ExportedSecret) (s : State W)
        → s.stdin ≡ Stdin.pipe []
        → (confirm_import os files merge secrets s).1.world ≡ s.world
    unfolding warn read_line
    confirm_import-world merge secrets s e =
        let t : State W = record s {
          stderr = s.stderr ++ question os files (length secrets) merge;
        } in
        elim (Bool-cases (is_empty secrets)) [
          | inl y ↦ rw y
          | inr n ↦ rw (n, line_from-ended (codes "failed to read response") t s.stdin e)
        ]

    list_or_error-state :
        (r : Result (List ExportedSecret)) (s : State W) → (list_or_error os files r s).1 ≡ s
    list_or_error-state (ok secrets) s = refl
    list_or_error-state (err e) s = refl
    list_or_error-state panic s = refl

    or_list-state :
        (text : Bytes) (r : Result (List ExportedSecret)) (s : State W)
        → (or_list os files text r s).1 ≡ s
    or_list-state text (ok secrets) s = refl
    or_list-state text (err e) s = list_or_error-state (files.decode_list text) s
    or_list-state text panic s = refl

    import_text-world :
        (merge : Bool) (text : Bytes) (s : State W)
        → s.stdin ≡ Stdin.pipe []
        → (import_text os files merge text s).1.world ≡ s.world
    import_text-world merge text s e =
        let r = or_list os files text (files.decode_response text) s in
        let same = or_list-state text (files.decode_response text) s in
        elim (continue-cases r (confirm_import os files merge)) [
          | inl k ↦ ap (λ (t : State W). t.world) (k ∙ same)
          | inr (secrets, v, k) ↦
              ap (λ (r : Outcome (Unit {0}) × State W). r.1.world)
                (k ∙ ap (confirm_import os files merge secrets) same)
              ∙ confirm_import-world merge secrets s e
        ]

    import_args-world :
        (merge : Bool) (chunks : List Bytes) (s : State W)
        → s.stdin ≡ Stdin.pipe chunks
        → (import_args os files merge [] s).1.world ≡ s.world
    unfolding warn read_all
    import_args-world merge chunks s e =
        let m = codes "failed to read input" in
        ap
          (λ i.
            (continue (all_from m i (record s { stderr = s.stderr ++ hint_for os files i }))
              (import_text os files merge)).1.world)
          e
        ∙ import_text-world merge (all_chunks chunks)
            (record s {
              stdin = Stdin.pipe [];
              stderr = s.stderr ++ hint_for os files (Stdin.pipe chunks);
            })
            refl

    -- The import command that reads its secrets from a pipe never sends an import request, whatever the
    -- pipe delivers and however it is cut into reads: the answer that it then asks for would have to
    -- come from the same pipe, which has ended.
    pub cmd_import-piped :
        (args chunks : List Bytes) (s : State W)
        → (parse_flags args (codes "merge" ∷ [])).args ≡ []
        → s.stdin ≡ Stdin.pipe chunks
        → (cmd_import os files args s).1.world ≡ s.world
    unfolding cmd_import
    cmd_import-piped args chunks s a e =
        let flags = parse_flags args (codes "merge" ∷ []) in
        let merge = get_bool flags (codes "merge") in
        elim (continue-cases (require_daemon os s) (λ u. import_args os files merge flags.args)) [
          | inl k ↦ ap (λ (t : State W). t.world) (k ∙ require_daemon-state os s)
          | inr (u, v, k) ↦
              ap (λ (r : Outcome (Unit {0}) × State W). r.1.world)
                (k
                  ∙ ap (import_args os files merge flags.args) (require_daemon-state os s)
                  ∙ ap (λ xs. import_args os files merge xs s) a)
              ∙ import_args-world merge chunks s e
        ]
