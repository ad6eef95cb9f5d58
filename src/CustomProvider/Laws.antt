-- ===== src/CustomProvider/Laws.antt =====
-- examples/custom_provider/main.go against the contract of providers.
use omnivault.Base.{
  Bytes, true, ◌≡◌, ◌≢◌, refl, Option, none, some, arith, lookup, bytes_eq, if◌then◌else◌,
  lookup-insert, lookup-delete,
}
use omnivault.Vault.Types.{Secret}
use omnivault.Vault.Errors.{Error, Sentinel, error_is}
use omnivault.Vault.Interface.{ok, err, Clock}
use omnivault.Vault.Contract.{Contract, is_some}
use omnivault.CustomProvider.{CustomProvider, not_found, get, set, remove, exists, custom_vault}

-- No nil secret is stored.
unfoldable pub IsFilled : CustomProvider → Type 0
IsFilled p = (k : Bytes) → lookup k p.secrets ≢ some none

unfoldable pub view : CustomProvider → Bytes → Option Secret
view p path = elim (lookup path p.secrets) [ none ↦ none | some s ↦ s ]

get_found :
    (p : CustomProvider) (k : Bytes) (x : Secret)
    → IsFilled p
    → view p k ≡ some x
    → get p k ≡ ok (some x)
unfolding get view
get_found p k x h e = ground arith

get_missing :
    (p : CustomProvider) (k : Bytes)
    → IsFilled p
    → view p k ≡ none
    → (e : Error) × (get p k ≡ err e) × (error_is e Sentinel.secret_not_found ≡ true)
unfolding get view error_is IsFilled
get_missing p k h e = (not_found p k, ground (arith, h k), refl)

exists_view : (p : CustomProvider) (k : Bytes) → IsFilled p → exists p k ≡ ok (is_some (view p k))
unfolding exists view IsFilled
exists_view p k h = ground (arith, h k)

set_done :
    (p : CustomProvider) (c : Clock) (k : Bytes) (x : Secret)
    → IsFilled p
    → IsFilled (set p c k (some x)).1
unfolding set IsFilled
set_done p c k x h q e = ground (arith, h q, lookup-insert k q (some x) p.secrets)

set_view :
    (p : CustomProvider) (c : Clock) (k : Bytes) (x : Secret) (q : Bytes)
    → view (set p c k (some x)).1 q ≡ (if bytes_eq k q then some x else view p q)
unfolding set view
set_view p c k x q = ground (arith, lookup-insert k q (some x) p.secrets)

remove_done : (p : CustomProvider) (k : Bytes) → IsFilled p → IsFilled (remove p k).1
unfolding remove IsFilled
remove_done p k h q e = ground (arith, h q, lookup-delete k q p.secrets)

remove_view :
    (p : CustomProvider) (k q : Bytes)
    → view (remove p k).1 q ≡ (if bytes_eq k q then none else view p q)
unfolding remove view
remove_view p k q = ground (arith, lookup-delete k q p.secrets)

-- The example provider keeps the contract of a provider while no nil secret has been stored: Get, Set,
-- Delete and Exists are those of a map from paths to secrets, in which Set stores the secret as it is.
pub custom-Contract : Contract custom_vault IsFilled (λ k x. Unit) view (λ c k x. x)
unfolding set remove
custom-Contract = record {
  get_found = get_found;
  get_missing = get_missing;
  exists_view = exists_view;
  set_done = λ s c p x h _. (refl, set_done s c p x h);
  set_view = λ s c p x q h _. set_view s c p x q;
  remove_done = λ s p x h _. (refl, remove_done s p h);
  remove_view = λ s p x q h _. remove_view s p q;
}
