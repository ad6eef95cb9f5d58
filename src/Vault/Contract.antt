-- ===== src/Vault/Contract.antt =====
-- What the documentation of the interface Vault promises of every provider, stated against an
-- abstract map from paths to secrets.
use omnivault.Base.{Bytes, Bool, true, false, Option, none, some, ◌≡◌, bytes_eq, if◌then◌else◌}
use omnivault.Vault.Types.{Secret}
use omnivault.Vault.Errors.{Error, error_is, Sentinel}
use omnivault.Vault.Interface.{Vault, ok, err, Clock}

abbrev pub is_some {ℓ} : {A : Type ℓ} → Option A → Bool
is_some none = false
is_some (some a) = true

-- `view` is the abstract map, `stored` what a write of a secret makes of it, `Ready` the states in
-- which the provider can be used and `Accepts` the writes that it can carry out.
pub record Contract {ℓ} {S : Type ℓ} (v : Vault S) (Ready : S → Type 0)
    (Accepts : Bytes → Secret → Type 0) (view : S → Bytes → Option Secret)
    (stored : Clock → Bytes → Secret → Secret) : Type ℓ where
  pub get_found :
      (s : S) (p : Bytes) (x : Secret) → Ready s → view s p ≡ some x → v.get s p ≡ ok (some x)
  pub get_missing :
      (s : S) (p : Bytes)
      → Ready s
      → view s p ≡ none
      → (e : Error) × (v.get s p ≡ err e) × (error_is e Sentinel.secret_not_found ≡ true)
  pub exists_view : (s : S) (p : Bytes) → Ready s → v.exists s p ≡ ok (is_some (view s p))
  pub set_done :
      (s : S) (c : Clock) (p : Bytes) (x : Secret)
      → Ready s
      → Accepts p x
      → ((v.set s c p (some x)).0 ≡ ok tt) × Ready (v.set s c p (some x)).1
  pub set_view :
      (s : S) (c : Clock) (p : Bytes) (x : Secret) (q : Bytes)
      → Ready s
      → Accepts p x
      → view (v.set s c p (some x)).1 q ≡ (if bytes_eq p q then some (stored c p x) else view s q)
  pub remove_done :
      (s : S) (p : Bytes) (x : Secret)
      → Ready s
      → Accepts p x
      → ((v.remove s p).0 ≡ ok tt) × Ready (v.remove s p).1
  pub remove_view :
      (s : S) (p : Bytes) (x : Secret) (q : Bytes)
      → Ready s
      → Accepts p x
      → view (v.remove s p).1 q ≡ (if bytes_eq p q then none else view s q)
