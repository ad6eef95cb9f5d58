-- ===== src/Resolver/Examples.antt =====
-- The theorems about the resolver at small registries.
use omnivault.Base.{
  ℕ, Bytes, codes, none, some, [], ◌∷◌, Map, lookup, insert, bytes_eq, ◌≡◌, ◌≢◌, refl, arith,
  before, before-none-Lacks,
}
use omnivault.Vault.Types.{Secret, new_secret, reveal}
use omnivault.Vault.Errors.{suffixed, sentinel, Sentinel}
use omnivault.Vault.Interface.{ok, err}
use omnivault.Vault.Reference.{scheme, path, fragment}
use omnivault.Providers.Memory as Memory
use omnivault.Providers.Memory.Laws.{memory-Contract, new-IsOpen}
use omnivault.Resolver.{
  Source, source, Resolver, register, resolve, resolve_secret, resolve_string, resolve_map,
  resolve_map_loop, is_secret_ref,
}
use omnivault.Resolver.Routing.{resolve-set}
use omnivault.Resolver.Strings.{resolve_string_host_port}
use omnivault.Resolver.Batches.{resolve_map-ok, resolved_or}

-- A secret with a field.
abbrev token : Secret
token = record (new_secret (codes "t")) { fields = some ((codes "user", codes "ann") ∷ []) }

-- A provider that answers every path with that secret.
abbrev tokens : Source
tokens = record { get = λ p. ok (some token); close = ok tt }

abbrev registry : Resolver
registry = (codes "tok", tokens) ∷ []

cons_ne : (b : ℕ) (s : Bytes) → (b ∷ s) ≢ []
cons_ne b s = λ h. cc h

resolve-set_example :
    resolve
      (register
        (codes "mem")
        (source Memory.memory_vault (Memory.set Memory.new (λ i. 5) (codes "x") (some token)).1)
        [])
      (codes "mem://x")
    ≡ ok (codes "t")
unfolding lookup reveal Memory.stamped Memory.copy_secret Memory.copy_map before
resolve-set_example =
    resolve-set memory-Contract [] Memory.new (λ i. 5) (codes "mem") (codes "x") token (cons_ne _ _)
      (before-none-Lacks b':' (codes "mem") refl) (before-none-Lacks b'#' (codes "mem") refl)
      (before-none-Lacks b'#' (codes "x") refl) new-IsOpen ((refl, tt), tt)

resolve_string_host_port_example :
    resolve_string registry (codes "localhost:8080")
    ≡ err (suffixed (sentinel Sentinel.provider_not_registered) (codes "localhost"))
unfolding lookup bytes_eq before
resolve_string_host_port_example =
    resolve_string_host_port registry (codes "localhost") (codes "8080") (cons_ne _ _)
      (before-none-Lacks b':' (codes "localhost") refl) (ground arith) refl

abbrev settings : Map Bytes
settings = (codes "user", codes "ann") ∷ (codes "token", codes "tok://a") ∷ []

abbrev resolved_settings : Map Bytes
resolved_settings = (codes "user", codes "ann") ∷ (codes "token", codes "t") ∷ []

resolve_map-ok_example :
    lookup (codes "token") resolved_settings
    ≡ resolved_or registry (lookup (codes "token") settings) none
unfolding resolve_map resolve_map_loop resolve_string is_secret_ref resolve resolve_secret lookup
    insert bytes_eq scheme before path fragment reveal
resolve_map-ok_example =
    resolve_map-ok registry settings resolved_settings (codes "token") (refl, (refl, tt)) refl
