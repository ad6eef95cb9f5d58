-- ===== src/Store/Chains.antt =====
-- Inversion of the chains that the methods of the store are written with.
use omnivault.Base.{Bytes, Option, none, some, ◌≡◌, refl}
use omnivault.Vault.Interface.{Result, ok, err, panic}
use omnivault.Store.Disk.{Store, Outcome, then_do, needs, needs_plain}
use omnivault.Store.Operations.{deref_or}

abbrev pub Done : Outcome → Type 0
Done o = o.0 ≡ ok tt

pub needs-Done {ℓ} :
    {A : Type ℓ} (m : Bytes) (r : Result A) (s : Store) (f : A → Outcome)
    → Done (needs m r s f)
    → (a : A) × (r ≡ ok a) × (needs m r s f ≡ f a)
needs-Done m (ok a) s f h = (a, refl, refl)
needs-Done m (err e) s f h = cc
needs-Done m panic s f h = cc

pub needs_plain-Done {ℓ} :
    {A : Type ℓ} (r : Result A) (s : Store) (f : A → Outcome)
    → Done (needs_plain r s f)
    → (a : A) × (r ≡ ok a) × (needs_plain r s f ≡ f a)
needs_plain-Done (ok a) s f h = (a, refl, refl)
needs_plain-Done (err e) s f h = cc
needs_plain-Done panic s f h = cc

pub deref_or-Done {ℓ} :
    {A : Type ℓ} (o : Option A) (s : Store) (f : A → Outcome)
    → Done (deref_or o s f)
    → (a : A) × (o ≡ some a) × (deref_or o s f ≡ f a)
deref_or-Done none s f h = cc
deref_or-Done (some a) s f h = (a, refl, refl)

pub then_do-Done :
    (m : Bytes) (o : Outcome) (f : Store → Outcome)
    → Done (then_do m o f)
    → Done o × (then_do m o f ≡ f o.1)
then_do-Done m (ok u, s) f h = (refl, refl)
then_do-Done m (err e, s) f h = cc
then_do-Done m (panic, s) f h = cc
