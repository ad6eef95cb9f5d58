-- ===== src/CustomProvider/Examples.antt =====
-- The theorem about the example provider at a program of two secrets, and the example's own output.
use omnivault.Base.{codes, ◌∷◌, ◌++◌, ◌≡◌, refl, before, lookup, bytes_eq, insert}
use omnivault.Vault.Types.{reveal, field_or_empty}
use omnivault.Vault.Interface.{ok}
use omnivault.Vault.Reference.{scheme, path, fragment, after_separator, without_fragment}
use omnivault.Client.{World, new_client, new_provider}
use omnivault.Resolver.{register, resolve, resolve_secret}
use omnivault.CustomProvider as CustomProvider
use omnivault.CustomProvider.{new_custom_provider, custom_vault}
use omnivault.CustomProvider.Program.{line, shown, stored, read_back, env_source, main}
use omnivault.Providers.Env.{Os}

-- What the example prints.
main-prints :
    {F D K : Type 0} (w : World F D K) (os : Os) (s : F)
    → main w os (λ i. 5) s
      ≡ ok (
          line (codes "Provider: ") (codes "my-custom-vault")
          ++ line (codes "Password: ") (codes "super-secret-password")
          ++ line (codes "Username: ") (codes "admin")
          ++ line (codes "Host: ") (codes "db.example.com")
          ++ 10 ∷ line (codes "Resolved via URI: ") (codes "super-secret-password"))
unfolding main new_client new_provider env_source stored read_back shown CustomProvider.set
    CustomProvider.get lookup bytes_eq insert field_or_empty resolve resolve_secret register scheme
    path fragment after_separator without_fragment before reveal
main-prints w os s = refl
