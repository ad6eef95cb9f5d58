-- ===== src/Providers/Memory/Listing.antt =====
-- What List returns, and the invariant of the map that it ranges over.
use omnivault.Base.{
  member-keys, suc, insert, Bytes, true, false, ◌&&◌, ◌≡◌, refl, Option, none, some, arith, Map,
  has_key, keys, IsMap, [], ◌∷◌, bytes_eq_iff, List, IsMap-insert, IsMap-delete, has_prefix, member,
}
use omnivault.Vault.Types.{Secret}
use omnivault.Vault.Interface.{ok, Clock}
use omnivault.Providers.Memory.{
  initial_secret, Provider, entries, set, remove, list_paths, close, clear, stamped, matching,
  add_secrets, new_with_secrets,
}

member-matching :
    (k prefix : Bytes) (paths : List Bytes)
    → member k (matching prefix paths) ≡ (member k paths && has_prefix k prefix)
unfolding matching member
member-matching k prefix [] = refl
member-matching k prefix (p ∷ paths) =
    ground (arith, bytes_eq_iff p k, member-matching k prefix paths)

-- The list of an open provider holds a path exactly if a secret is stored at it and it begins with
-- the prefix.
pub member-list_paths :
    (p : Provider) (prefix k : Bytes)
    → p.closed ≡ false
    → (paths : List Bytes) × (list_paths p prefix ≡ ok paths)
      × (member k paths ≡ (has_key k (entries p.secrets) && has_prefix k prefix))
unfolding list_paths
member-list_paths p prefix k h = (
  matching prefix (keys (entries p.secrets)),
  ground arith,
  rw (member-matching k prefix (keys (entries p.secrets)), member-keys k (entries p.secrets)),
)

-- The keys of the map are distinct, and only a closed provider has lost its map.
pub record IsValid (p : Provider) : Type 0 where
  pub distinct : IsMap (entries p.secrets)
  pub lost : p.secrets ≡ none → p.closed ≡ true

add_secrets-IsMap :
    (clock : Clock) (m : Map Bytes) (out : Map Secret) → IsMap out → IsMap (add_secrets clock m out)
unfolding add_secrets
add_secrets-IsMap clock [] out h = h
add_secrets-IsMap clock ((k, v) ∷ m) out h =
    add_secrets-IsMap (λ i. clock (suc i)) m (insert k (initial_secret (clock 0) k v) out)
      (IsMap-insert k (initial_secret (clock 0) k v) out h)

pub new_with_secrets-IsValid : (clock : Clock) (m : Map Bytes) → IsValid (new_with_secrets clock m)
unfolding new_with_secrets
new_with_secrets-IsValid clock m = record {
  distinct = add_secrets-IsMap clock m [] tt;
  lost = λ e. cc;
}

set-IsValid :
    (p : Provider) (c : Clock) (k : Bytes) (x : Option Secret) → IsValid p → IsValid (set p c k x).1
unfolding set
set-IsValid p c k none v = ground arith
set-IsValid p c k (some x) v =
    ground (arith, IsMap-insert k (stamped c k x) (entries p.secrets) v.distinct)

remove-IsValid : (p : Provider) (k : Bytes) → IsValid p → IsValid (remove p k).1
unfolding remove
remove-IsValid p k v = ground (arith, IsMap-delete k (entries p.secrets) v.distinct)

-- Every operation that changes the provider keeps it well formed: the keys stay distinct, and only
-- a closed provider is without a map.
pub operations-IsValid :
    (p : Provider) (c : Clock) (k : Bytes) (x : Option Secret)
    → IsValid p
    → IsValid (set p c k x).1 × IsValid (remove p k).1 × IsValid (close p).1 × IsValid (clear p)
unfolding close clear
operations-IsValid p c k x v =
    (set-IsValid p c k x v, remove-IsValid p k v, ground arith, ground arith)
