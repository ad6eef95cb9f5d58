-- ===== src/Resolver/Strings.antt =====
-- IsSecretRef and ResolveString: which texts are taken for references.
use omnivault.Base.{
  ◌≤◌, Bytes, false, ◌≡◌, ◌≢◌, refl, none, arith, lookup, [], ◌∷◌, ◌++◌, List, length,
  length-append, Lacks, is_empty, ltb, before-none,
}
use omnivault.Vault.Errors.{Sentinel, sentinel, suffixed}
use omnivault.Vault.Interface.{ok, err}
use omnivault.Vault.Reference.{scheme}
use omnivault.Vault.Reference.Parts.{scheme-append}
use omnivault.Resolver.{Resolver, resolve, is_secret_ref, resolve_string}

is_empty_ne {ℓ} : {A : Type ℓ} (s : List A) → s ≢ [] → is_empty s ≡ false
is_empty_ne [] h = absurd (h refl)
is_empty_ne (c ∷ s) h = refl

-- A text with no ':' is returned as it is.
pub resolve_string_plain : (r : Resolver) (s : Bytes) → Lacks b':' s → resolve_string r s ≡ ok s
unfolding resolve_string scheme
resolve_string_plain r s h = ground (arith, before-none b':' s h)

is_secret_ref-colon :
    (h rest : Bytes)
    → h ≢ []
    → Lacks b':' h
    → is_secret_ref (h ++ b':' ∷ rest) ≡ ltb 2 (length rest)
unfolding is_secret_ref
is_secret_ref-colon h rest hn hl =
    ground (arith, scheme-append h rest hl, is_empty_ne h hn, length-append h (b':' ∷ rest))

-- A text `host:rest` with at least three bytes behind its first ':' is taken for a reference, also
-- where no "://" stands in it: unless `host` is a registered scheme, ResolveString fails.
pub resolve_string_host_port :
    (r : Resolver) (h rest : Bytes)
    → h ≢ []
    → Lacks b':' h
    → 3 ≤ length rest
    → lookup h r ≡ none
    → resolve_string r (h ++ b':' ∷ rest)
      ≡ err (suffixed (sentinel Sentinel.provider_not_registered) h)
unfolding resolve_string resolve
resolve_string_host_port r h rest hn hl len miss =
    ground (arith, is_secret_ref-colon h rest hn hl, scheme-append h rest hl, is_empty_ne h hn)
