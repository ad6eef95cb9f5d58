-- ===== src/Providers/Examples.antt =====
-- The theorems about the providers at small maps.
use omnivault.Base.{codes, none, some, [], ◌∷◌}
use omnivault.Vault.Types.{Secret, new_secret}
use omnivault.Vault.Contract.{Contract}
use omnivault.Providers.Memory as Memory
use omnivault.Providers.Env as Env
use omnivault.Providers.Env.{Os}
use omnivault.Providers.Env.Laws as EnvLaws
use omnivault.Providers.Env.Laws.{read_only_refuses}

abbrev labelled : Secret
labelled = record (new_secret (codes "v")) {
  value_bytes = some [];
  fields = some ((codes "f", codes "1") ∷ (codes "g", codes "2") ∷ []);
}

abbrev two_secrets : Memory.Provider
two_secrets =
    Memory.new_with_secrets (λ i. 7) ((codes "db/a", codes "1") ∷ (codes "x", codes "2") ∷ [])

-- A system that takes every name and value.
abbrev accepting : Os
accepting = record { setenv_error = λ name value. none; unsetenv_error = λ name. none }
