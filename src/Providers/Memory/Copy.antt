-- ===== src/Providers/Memory/Copy.antt =====
-- copySecret of providers/memory/memory.go on maps whose keys are distinct.
use omnivault.Base.{
  Bytes, false, ◌≡◌, refl, sym, Option, none, some, arith, Map, lookup, insert, IsMap, [], ◌∷◌,
  ◌++◌, append_assoc, append-nil, ◌∙◌, bytes_eq, bytes_eq_iff, if◌then◌else◌,
}
use omnivault.Vault.Types.{Secret, has_bytes, reveal}
use omnivault.Providers.Memory.{copy_entries, copy_map, copy_secret}

module _ {ℓ} {V : Type ℓ} where
  -- Every key of the first map is missing in the second.
  Apart : Map V → Map V → Type ℓ
  Apart [] out = Unit
  Apart ((k, v) ∷ m) out = (lookup k out ≡ none) × Apart m out

  insert_fresh :
      (k : Bytes) (v : V) (m : Map V) → lookup k m ≡ none → insert k v m ≡ m ++ (k, v) ∷ []
  unfolding lookup insert
  insert_fresh k v [] h = refl
  insert_fresh k v ((j, w) ∷ m) h = ground (arith, insert_fresh k v m)

  lookup-append_none :
      (k j : Bytes) (v : V) (m : Map V)
      → lookup k m ≡ none
      → bytes_eq j k ≡ false
      → lookup k (m ++ (j, v) ∷ []) ≡ none
  unfolding lookup
  lookup-append_none k j v [] h e = ground arith
  lookup-append_none k j v ((i, w) ∷ m) h e = ground (arith, lookup-append_none k j v m)

  Apart-append :
      (m : Map V) (j : Bytes) (v : V) (out : Map V)
      → lookup j m ≡ none
      → Apart m out
      → Apart m (out ++ (j, v) ∷ [])
  unfolding Apart lookup
  Apart-append [] j v out h a = tt
  Apart-append ((k, w) ∷ m) j v out h a = ground (
    arith,
    lookup-append_none k j v out a.0,
    Apart-append m j v out,
    bytes_eq_iff k j,
    bytes_eq_iff j k,
  )

  copy_entries-append : (m out : Map V) → IsMap m → Apart m out → copy_entries m out ≡ out ++ m
  unfolding copy_entries Apart
  copy_entries-append [] out h a = sym (append-nil out)
  copy_entries-append ((k, v) ∷ m) out h a = rw (insert_fresh k v out a.0) (
      copy_entries-append m (out ++ (k, v) ∷ []) h.1 (Apart-append m k v out h.0 a.1)
      ∙ append_assoc out ((k, v) ∷ []) m)

  Apart-nil : (m : Map V) → Apart m []
  unfolding Apart lookup
  Apart-nil [] = tt
  Apart-nil ((k, v) ∷ m) = (refl, Apart-nil m)

  pub copy_entries_same : (m : Map V) → IsMap m → copy_entries m [] ≡ m
  copy_entries_same m h = copy_entries-append m [] h (Apart-nil m)

-- A map of strings that may be nil, with distinct keys.
abbrev pub IsMap? : Option (Map Bytes) → Type 0
IsMap? none = Unit
IsMap? (some m) = IsMap m

pub copy_map_same : (m : Option (Map Bytes)) → IsMap? m → copy_map m ≡ m
unfolding copy_map
copy_map_same none h = refl
copy_map_same (some m) h = ground (arith, copy_entries_same m h)

-- Copying keeps all that can be read of a secret whose maps have distinct keys: the copy is the
-- secret itself, but that an empty slice of bytes becomes nil.
pub copy_secret_same :
    (s : Secret)
    → IsMap? s.fields
    → IsMap? s.metadata.tags
    → copy_secret s ≡ record s { value_bytes = if has_bytes s then s.value_bytes else none }
unfolding copy_secret
copy_secret_same s f t = ground (arith, copy_map_same s.fields f, copy_map_same s.metadata.tags t)

-- A copy reveals the same value, as text and as bytes.
pub reveal-copy_secret : (s : Secret) → reveal (copy_secret s) ≡ reveal s
unfolding reveal copy_secret
reveal-copy_secret s = ground arith
