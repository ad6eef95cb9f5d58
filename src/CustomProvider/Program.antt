-- ===== src/CustomProvider/Program.antt =====
-- examples/custom_provider/main.go: its main, as what it prints or the error that ends it.
use omnivault.Base.{Bytes, codes, Option, none, some, [], ◌∷◌, ◌++◌}
use omnivault.Vault.Types.{Secret, new_secret, field_or_empty}
use omnivault.Vault.Interface.{Result, ok, err, panic, ◌>>=◌, Clock}
use omnivault.Providers.Env.{Os, env_vault}
use omnivault.Client.{World, Built, Held, ProviderConfig, new_client}
use omnivault.Client.Delegates as Delegates
use omnivault.Resolver.{Resolver, Source, source, new_resolver, register, resolve}
use omnivault.CustomProvider.{CustomProvider, new_custom_provider, custom_vault}

-- The secret that the example stores.
abbrev pub database_secret : Secret
database_secret = record (new_secret (codes "super-secret-password")) {
  fields = some ((codes "username", codes "admin") ∷ (codes "host", codes "db.example.com") ∷ []);
}

abbrev pub database_path : Bytes
database_path = codes "database/password"

abbrev pub line : Bytes → Bytes → Bytes
line label value = label ++ value ++ 10 ∷ []

-- What is printed of the secret; reading a nil one panics.
unfoldable pub shown : CustomProvider → Option Secret → Result Bytes
shown p none = panic
shown p (some s) = ok (
    line (codes "Provider: ") (Delegates.name custom_vault p)
    ++ line (codes "Password: ") s.value
    ++ line (codes "Username: ") (field_or_empty s.fields (codes "username"))
    ++ line (codes "Host: ") (field_or_empty s.fields (codes "host")))

-- The example stores through the client, and reads through it and through a resolver that has an
-- environment provider too.
unfoldable pub stored : Clock → CustomProvider → Result (Unit {0}) × CustomProvider
stored clock p = Delegates.set custom_vault p clock database_path (some database_secret)

abbrev pub example_resolver : Source → CustomProvider → Resolver
example_resolver env p =
    register (codes "env") env (register (codes "custom") (source custom_vault p) new_resolver)

unfoldable pub read_back : Result Source → CustomProvider → Result Bytes
read_back from_env p = Delegates.get custom_vault p database_path >>= λ secret.
    shown p secret >>= λ text. from_env >>= λ env.
    resolve (example_resolver env p) (codes "custom://database/password") >>= λ value.
    ok (text ++ 10 ∷ line (codes "Resolved via URI: ") value)

abbrev pub after_set : Result Source → Result (Unit {0}) × CustomProvider → Result Bytes
after_set env (ok u, p) = read_back env p
after_set env (err e, p) = err e
after_set env (panic, p) = panic

module _ {F D K : Type 0} (w : World F D K) (os : Os) (clock : Clock) where
  abbrev pub held_env : Result (Held w CustomProvider) × F → Result Source
  held_env (ok (Held.built (Built.env p)), s) = ok (source (env_vault os) p)
  held_env (ok v, s) = panic
  held_env (err e, s) = panic
  held_env (panic, s) = panic

  -- The environment provider, taken out of a client; a nil client would panic.
  unfoldable pub env_source : F → Result Source
  env_source s = held_env (
      new_client w clock
        (record {
          provider = codes "env";
          custom_vault = none;
          provider_config = ProviderConfig.other;
        })
        s)

  -- The client holds the vault that it was given.
  abbrev pub with_client : Result (Held w CustomProvider) × F → Result Bytes
  with_client (ok (Held.custom p), s) = after_set (env_source s) (stored clock p)
  with_client (ok (Held.built b), s) = panic
  with_client (err e, s) = err e
  with_client (panic, s) = panic

  unfoldable pub main : F → Result Bytes
  main s = with_client (
      new_client w clock
        (record {
          provider = [];
          custom_vault =
              some (new_custom_provider (codes "my-custom-vault") (codes "api-key-12345"));
          provider_config = ProviderConfig.other;
        })
        s)
