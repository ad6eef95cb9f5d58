-- ===== src/Vault/Interface.antt =====
-- vault/interface.go: what a provider offers. A call may return a value, return an error, or panic.
use omnivault.Base.{ℕ, Bytes, Bool, Option, List, ◌≡◌, refl, ◌⊎◌, inl, inr}
use omnivault.Vault.Types.{Time, Secret}
use omnivault.Vault.Errors.{Error}

pub data Result {ℓ} (A : Type ℓ) : Type ℓ where
  ok : A → Result A
  err : Error → Result A
  panic : Result A

infixl 5 ◌>>=◌
abbrev pub ◌>>=◌ {ℓ κ} : {V : Type ℓ} {W : Type κ} → Result V → (V → Result W) → Result W
ok v >>= next = next v
err e >>= next = err e
panic >>= next = panic

-- The successive readings that one call takes of time.Now.
abbrev pub Clock : Type 0
Clock = ℕ → Time

pub record Capabilities : Type 0 where
  pub read : Bool
  pub write : Bool
  pub delete : Bool
  pub list : Bool
  pub versioning : Bool
  pub rotation : Bool
  pub binary : Bool
  pub multi_field : Bool
  pub batch : Bool
  pub watch : Bool

-- The interface Vault over a provider's state `S`. A nil *Secret is `none`.
pub record Vault {ℓ} (S : Type ℓ) : Type ℓ where
  pub get : S → Bytes → Result (Option Secret)
  pub set : S → Clock → Bytes → Option Secret → Result (Unit {0}) × S
  pub remove : S → Bytes → Result (Unit {0}) × S
  pub exists : S → Bytes → Result Bool
  pub list_paths : S → Bytes → Result (List Bytes)
  pub name : S → Bytes
  pub capabilities : S → Capabilities
  pub close : S → Result (Unit {0}) × S

pub Result-cases {ℓ} :
    {A : Type ℓ} (r : Result A) → ((a : A) × (r ≡ ok a)) ⊎ ((e : Error) × (r ≡ err e)) ⊎ (r ≡ panic)
Result-cases (ok a) = inl (a, refl)
Result-cases (err e) = inr (inl (e, refl))
Result-cases panic = inr (inr refl)

-- Inversion of a chain that succeeds.
pub >>=-eq-ok {ℓ κ} :
    {V : Type ℓ} {W : Type κ} (r : Result V) (next : V → Result W) {w : W}
    → (r >>= next) ≡ ok w
    → (v : V) × (r ≡ ok v) × (next v ≡ ok w)
>>=-eq-ok (ok v) next h = (v, refl, h)
>>=-eq-ok (err e) next h = cc
>>=-eq-ok panic next h = cc
