-- ===== src/Resolver/Routing.antt =====
-- resolver.go: which provider Resolve asks, and for what.
use omnivault.Base.{
  Bytes, true, false, ◌≡◌, ◌≢◌, refl, ◌∙◌, Option, none, some, arith, lookup, [], ◌∷◌, List,
  bytes_eq_self, if◌then◌else◌, lookup-insert_self, Lacks, is_empty, Bool-cases, inl, inr,
}
use omnivault.Vault.Types.{Secret, reveal, get_field}
use omnivault.Vault.Errors.{Error, error_is, Sentinel, sentinel, suffixed}
use omnivault.Vault.Interface.{Vault, ok, err, Clock}
use omnivault.Vault.Contract.{Contract}
use omnivault.Vault.Reference.{scheme, path, fragment}
use omnivault.Vault.Reference.Parts.{reference, parts-reference, parts-reference_plain}
use omnivault.Resolver.{Source, source, Resolver, register, resolve}

is_empty_ne {ℓ} : {A : Type ℓ} (s : List A) → s ≢ [] → is_empty s ≡ false
is_empty_ne [] h = absurd (h refl)
is_empty_ne (c ∷ s) h = refl

-- A text with the parts `s`, `p` and `f` resolves to what the secret at `p` of the provider of `s`
-- has under `f`, or reveals if `f` is empty.
resolve_parts :
    (r : Resolver) (v : Source) (uri s p f : Bytes) (x : Secret)
    → s ≢ []
    → (scheme uri ≡ s) × (path uri ≡ p) × (fragment uri ≡ f)
    → v.get p ≡ ok (some x)
    → resolve (register s v r) uri ≡ ok (if is_empty f then reveal x else get_field x f)
unfolding resolve reveal register
resolve_parts r v uri s p f x h e g = ground (arith, is_empty_ne s h, lookup-insert_self s v r)

-- scheme://path#field resolves to that field of the secret at `path` of the provider registered
-- for the scheme, whatever else is registered, if neither the scheme nor the field is empty, the
-- scheme holds no ':', and the path and the field hold no '#'.
pub resolve-register_field :
    (r : Resolver) (v : Source) (s p f : Bytes) (x : Secret)
    → s ≢ []
    → f ≢ []
    → Lacks b':' s
    → Lacks b'#' p
    → Lacks b'#' f
    → v.get p ≡ ok (some x)
    → resolve (register s v r) (reference s p (some f)) ≡ ok (get_field x f)
resolve-register_field r v s p f x hs hf ls lp lf g = ground (
  arith,
  is_empty_ne f hf,
  resolve_parts r v (reference s p (some f)) s p f x hs (parts-reference s p f ls lp lf) g,
)

resolve-register_plain :
    (r : Resolver) (v : Source) (s p : Bytes) (x : Secret)
    → s ≢ []
    → Lacks b':' s
    → Lacks b'#' s
    → Lacks b'#' p
    → v.get p ≡ ok (some x)
    → resolve (register s v r) (reference s p none) ≡ ok (reveal x)
resolve-register_plain r v s p x hs ls lh lp g =
    resolve_parts r v (reference s p none) s p [] x hs (parts-reference_plain s p ls lh lp) g

-- What is written through a provider that keeps the contract of providers is what a reference to
-- it resolves to: after a Set at `p` that the provider accepts, scheme://p resolves to the value
-- of the secret that Set stores, if the scheme is not empty, holds no ':' and no '#', and the path
-- holds no '#'.
pub resolve-set {ℓ} :
    {S : Type ℓ} {v : Vault S} {Ready : S → Type 0} {Accepts : Bytes → Secret → Type 0}
    {view : S → Bytes → Option Secret} {stored : Clock → Bytes → Secret → Secret}
    (law : Contract v Ready Accepts view stored) (r : Resolver) (t : S) (c : Clock) (s p : Bytes)
    (x : Secret)
    → s ≢ []
    → Lacks b':' s
    → Lacks b'#' s
    → Lacks b'#' p
    → Ready t
    → Accepts p x
    → resolve (register s (source v (v.set t c p (some x)).1) r) (reference s p none)
      ≡ ok (reveal (stored c p x))
resolve-set {v} {view} law r t c s p x hs ls lh lp h a =
    let after = (v.set t c p (some x)).1 in
    resolve-register_plain r (source v after) s p _ hs ls lh lp (
      law.get_found after p _ (law.set_done t c p x h a).1
        (law.set_view t c p x p h a ∙ ground (arith, bytes_eq_self p)))

-- A reference whose scheme has no provider fails with ErrProviderNotRegistered, and a text that has
-- no scheme with ErrInvalidSecretRef; no provider is asked.
pub resolve_refusals :
    (r : Resolver) (uri : Bytes)
    → lookup (scheme uri) r ≡ none
    → (e : Error) × (resolve r uri ≡ err e)
      × (error_is e (
            if is_empty (scheme uri)
            then Sentinel.invalid_secret_ref
            else Sentinel.provider_not_registered)
          ≡ true)
unfolding resolve error_is
resolve_refusals r uri h = elim (Bool-cases (is_empty (scheme uri))) [
  | inl e ↦ (suffixed (sentinel Sentinel.invalid_secret_ref) uri, ground arith, ground arith)
  | inr e ↦ (
    suffixed (sentinel Sentinel.provider_not_registered) (scheme uri),
    ground arith,
    ground arith,
  )
]
