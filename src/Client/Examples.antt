-- ===== src/Client/Examples.antt =====
-- The theorems about the client over the memory provider, and at a small registry.
use omnivault.Base.{
  ℕ, Bytes, before, keys, delete, codes, false, some, [], ◌∷◌, ◌≡◌, refl, bytes_eq,
}
use omnivault.Vault.Types.{new_secret}
use omnivault.Vault.Interface.{Result, ok, err}
use omnivault.Providers.Memory as Memory
use omnivault.Providers.Memory.{memory_vault}
use omnivault.Vault.Reference as Reference
use omnivault.Client.{
  Registry, register_provider, unregister_provider, registered_schemes, vault_from_uri,
  unknown_scheme,
}
use omnivault.Client.Registered.{vault_from_uri-register}

abbrev one_secret : Memory.Provider
one_secret = record { secrets = some ((codes "x", new_secret (codes "1")) ∷ []); closed = false }

abbrev answers_one : Bytes → Unit {0} → Result ℕ × Unit {0}
answers_one uri s = (ok 1, s)

abbrev answers_two : Bytes → Unit {0} → Result ℕ × Unit {0}
answers_two uri s = (ok 2, s)

abbrev no_factories : Registry ℕ (Unit {0})
no_factories = []

vault_from_uri-register_example :
    (vault_from_uri
        (register_provider
          (codes "op")
          answers_two
          (register_provider (codes "op") answers_one no_factories))
        (codes "op://v")
        tt
      ≡ (ok 2, tt))
    × (vault_from_uri (unregister_provider (codes "op") no_factories) (codes "op://v") tt
        ≡ (err (unknown_scheme [] (codes "op")), tt))
unfolding bytes_eq Reference.scheme before registered_schemes unregister_provider keys delete
vault_from_uri-register_example =
    vault_from_uri-register answers_one answers_two no_factories (codes "op") (codes "op://v") tt
      refl
