-- ===== src/Resolver.antt =====
-- resolver.go: secret references routed to providers by their scheme. The resolver calls only Get and
-- Close of a provider, so a registered provider is what these two answer in its present state. A
-- range over the registered providers visits the entries of the map in the order of the list.
pub mod Routing
pub mod Batches
pub mod Strings
mod Examples
use omnivault.Base.{
  ℕ, suc, ◌+◌, Bytes, codes, Bool, true, false, not, ◌&&◌, Option, none, some, List, [], ◌∷◌, ◌++◌,
  Map, lookup, insert, delete, keys, is_empty, ltb, length, if◌then◌else◌,
}
use omnivault.Vault.Types.{Secret, new_secret, reveal, get_field}
use omnivault.Vault.Errors.{Error, Sentinel, sentinel, prefixed, suffixed}
use omnivault.Vault.Interface.{Vault, Result, ok, err, panic, ◌>>=◌}
use omnivault.Vault.Reference.{scheme, path, fragment}

pub record Source : Type 0 where
  pub get : Bytes → Result (Option Secret)
  pub close : Result (Unit {0})

-- A provider of the interface Vault, in a state.
abbrev pub source {ℓ} : {S : Type ℓ} → Vault S → S → Source
source v s = record { get = v.get s; close = (v.close s).0 }

abbrev pub Resolver : Type 0
Resolver = Map Source

abbrev pub new_resolver : Resolver
new_resolver = []

unfoldable pub register : Bytes → Source → Resolver → Resolver
unfolding insert
register s v r = insert s v r

unfoldable pub unregister : Bytes → Resolver → Resolver
unfolding delete
unregister s r = delete s r

unfoldable pub get : Resolver → Bytes → Option Source
unfolding lookup
get r s = lookup s r

unfoldable pub schemes : Resolver → List Bytes
unfolding keys
schemes r = keys r

-- The secret that is returned for a fragment: that field alone, with the metadata.
abbrev pub field_secret : Secret → Bytes → Secret
field_secret s f = record (new_secret (get_field s f)) { metadata = s.metadata }

abbrev pub select : Bytes → Option Secret → Option Secret
select f none = none
select f (some s) = if is_empty f then some s else some (field_secret s f)

-- What is done with the provider of the scheme, if there is one.
abbrev pub fetch : Option Source → Bytes → Result (Option Secret)
fetch none uri = err (suffixed (sentinel Sentinel.provider_not_registered) (scheme uri))
fetch (some v) uri = do s ← v.get (path uri); ok (select (fragment uri) s)

unfoldable pub resolve_secret : Resolver → Bytes → Result (Option Secret)
unfolding lookup
resolve_secret r uri =
    if is_empty (scheme uri)
    then err (suffixed (sentinel Sentinel.invalid_secret_ref) uri)
    else fetch (lookup (scheme uri) r) uri

-- Reveal of a nil secret panics.
abbrev pub reveal_result : Option Secret → Result Bytes
reveal_result none = panic
reveal_result (some s) = ok (reveal s)

unfoldable pub resolve : Resolver → Bytes → Result Bytes
unfolding resolve_secret
resolve r uri = do s ← resolve_secret r uri; reveal_result s

-- An error panics.
unfoldable pub must_resolve : Resolver → Bytes → Result Bytes
unfolding resolve
must_resolve r uri = elim (resolve r uri) [ ok v ↦ ok v | err e ↦ panic | panic ↦ panic ]

-- fmt.Errorf("failed to resolve %s: %w", what, err)
abbrev pub while_resolving {ℓ} : {A : Type ℓ} → Bytes → Result A → Result A
while_resolving what (ok a) = ok a
while_resolving what (err e) = err (prefixed (codes "failed to resolve " ++ what) e)
while_resolving what panic = panic

unfoldable pub resolve_all_loop : Resolver → List Bytes → Map Bytes → Result (Map Bytes)
unfolding resolve insert
resolve_all_loop r [] results = ok results
resolve_all_loop r (uri ∷ uris) results =
    while_resolving uri (resolve r uri) >>= λ v. resolve_all_loop r uris (insert uri v results)

unfoldable pub resolve_all : Resolver → List Bytes → Result (Map Bytes)
unfolding resolve_all_loop
resolve_all r uris = resolve_all_loop r uris []

unfoldable pub is_secret_ref : Bytes → Bool
unfolding scheme
is_secret_ref s = not (is_empty (scheme s)) && ltb (length (scheme s) + 3) (length s)

unfoldable pub resolve_string : Resolver → Bytes → Result Bytes
unfolding is_secret_ref resolve
resolve_string r s = if is_secret_ref s then resolve r s else ok s

unfoldable pub resolve_map_loop : Resolver → Map Bytes → Map Bytes → Result (Map Bytes)
unfolding resolve_string insert
resolve_map_loop r [] result = ok result
resolve_map_loop r ((k, v) ∷ m) result =
    while_resolving k (resolve_string r v) >>= λ x. resolve_map_loop r m (insert k x result)

unfoldable pub resolve_map : Resolver → Map Bytes → Result (Map Bytes)
unfolding resolve_map_loop
resolve_map r m = resolve_map_loop r m []

-- `lastErr`: the error of the last provider that failed to close.
abbrev pub later_error : Result (Unit {0}) → Result (Unit {0}) → Result (Unit {0})
later_error last (ok u) = last
later_error last (err e) = err e
later_error last panic = panic

unfoldable pub close_loop : Resolver → Result (Unit {0}) → Result (Unit {0})
close_loop [] last = last
close_loop ((s, v) ∷ r) last = close_loop r (later_error last v.close)

unfoldable pub close : Resolver → Result (Unit {0})
unfolding close_loop
close r = close_loop r (ok tt)
