-- ===== src/Resolver/Batches.antt =====
-- resolver.go: ResolveAll and ResolveMap.
use omnivault.Base.{
  Bytes, codes, ◌≡◌, Option, none, some, arith, Map, lookup, insert, IsMap, [], ◌∷◌, ◌++◌, List,
  bytes_eq_iff, if◌then◌else◌, lookup-insert, member, inl, inr,
}
use omnivault.Vault.Errors.{Error, prefixed}
use omnivault.Vault.Interface.{Result, Result-cases, ok, err, panic}
use omnivault.Resolver.{
  Resolver, resolve, resolve_string, resolve_all, resolve_all_loop, resolve_map, resolve_map_loop,
}

-- The value of a call that returned.
abbrev pub value_of {ℓ} : {A : Type ℓ} → Result A → Option A
value_of (ok a) = some a
value_of (err e) = none
value_of panic = none

resolve_all_loop-ok :
    (r : Resolver) (uris : List Bytes) (results m : Map Bytes) (k : Bytes)
    → resolve_all_loop r uris results ≡ ok m
    → lookup k m ≡ (if member k uris then value_of (resolve r k) else lookup k results)
unfolding resolve_all_loop member
resolve_all_loop-ok r [] results m k h = ground arith
resolve_all_loop-ok r (uri ∷ uris) results m k h = elim (Result-cases (resolve r uri)) [
  | inl (x, e) ↦ ground (
    arith,
    resolve_all_loop-ok r uris (insert uri x results) m k,
    lookup-insert uri k x results,
    bytes_eq_iff uri k,
  )
  | inr (inl (x, e)) ↦ ground arith
  | inr (inr e) ↦ ground arith
]

-- If ResolveAll succeeds, its result has the value of each reference asked for, and no other key.
pub resolve_all-ok :
    (r : Resolver) (uris : List Bytes) (m : Map Bytes) (k : Bytes)
    → resolve_all r uris ≡ ok m
    → lookup k m ≡ (if member k uris then value_of (resolve r k) else none)
unfolding resolve_all lookup
resolve_all-ok r uris m k h = resolve_all_loop-ok r uris [] m k h

-- Every reference of the list resolves.
abbrev pub AllResolve : Resolver → List Bytes → Type 0
AllResolve r [] = Unit
AllResolve r (uri ∷ uris) = ((v : Bytes) × (resolve r uri ≡ ok v)) × AllResolve r uris

resolve_all_loop-err :
    (r : Resolver) (before : List Bytes) (uri : Bytes) (rest : List Bytes) (results : Map Bytes)
    (e : Error)
    → AllResolve r before
    → resolve r uri ≡ err e
    → resolve_all_loop r (before ++ uri ∷ rest) results
      ≡ err (prefixed (codes "failed to resolve " ++ uri) e)
unfolding resolve_all_loop
resolve_all_loop-err r [] uri rest results e h f = ground arith
resolve_all_loop-err r (u ∷ before) uri rest results e ((v, g), hs) f =
    ground (arith, resolve_all_loop-err r before uri rest (insert u v results) e hs f)

-- ResolveAll fails at the first reference that fails, with its error, and resolves none behind it.
pub resolve_all-err :
    (r : Resolver) (before : List Bytes) (uri : Bytes) (rest : List Bytes) (e : Error)
    → AllResolve r before
    → resolve r uri ≡ err e
    → resolve_all r (before ++ uri ∷ rest) ≡ err (prefixed (codes "failed to resolve " ++ uri) e)
unfolding resolve_all
resolve_all-err r before uri rest e h f = resolve_all_loop-err r before uri rest [] e h f

-- The value of a text that ResolveString may be given, or the one that is there already.
abbrev pub resolved_or : Resolver → Option Bytes → Option Bytes → Option Bytes
resolved_or r none old = old
resolved_or r (some v) old = value_of (resolve_string r v)

resolve_map_loop-ok :
    (r : Resolver) (m result out : Map Bytes) (k : Bytes)
    → IsMap m
    → resolve_map_loop r m result ≡ ok out
    → lookup k out ≡ resolved_or r (lookup k m) (lookup k result)
unfolding resolve_map_loop lookup
resolve_map_loop-ok r [] result out k d h = ground arith
resolve_map_loop-ok r ((j, v) ∷ m) result out k d h = elim (Result-cases (resolve_string r v)) [
  | inl (x, e) ↦ ground (
    arith,
    resolve_map_loop-ok r m (insert j x result) out k,
    lookup-insert j k x result,
    bytes_eq_iff j k,
  )
  | inr (inl (x, e)) ↦ ground arith
  | inr (inr e) ↦ ground arith
]

-- If ResolveMap succeeds, its result has the keys of the map that it was given, whose keys are
-- distinct, each with the resolved text, in whatever order the map was visited.
pub resolve_map-ok :
    (r : Resolver) (m out : Map Bytes) (k : Bytes)
    → IsMap m
    → resolve_map r m ≡ ok out
    → lookup k out ≡ resolved_or r (lookup k m) none
unfolding resolve_map lookup
resolve_map-ok r m out k d h = resolve_map_loop-ok r m [] out k d h
