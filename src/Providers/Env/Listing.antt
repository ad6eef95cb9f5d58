-- ===== src/Providers/Env/Listing.antt =====
-- What List returns: the names behind the configured prefix.
use omnivault.Base.{
  Bytes, Bool, true, ◌&&◌, ◌||◌, ◌≡◌, refl, arith, Map, has_key, [], ◌∷◌, ◌++◌, List, bytes_eq,
  bytes_eq_iff, if◌then◌else◌, has_prefix, trim_prefix, trim_prefix-append, before-append, Lacks,
  member, Bool-cases, inl, inr,
}
use omnivault.Vault.Interface.{ok}
use omnivault.Providers.Env.{Provider, environ_lines, name_of_line, list_lines, list_paths, exists}
use omnivault.Providers.Env.Laws.{bytes_eq-append}

-- No name of the environment holds '='.
abbrev pub NamesLack : Map Bytes → Type 0
NamesLack [] = Unit
NamesLack ((k, v) ∷ m) = Lacks b'=' k × NamesLack m

name_of_line_lem : (k v : Bytes) → Lacks b'=' k → name_of_line (k ++ b'=' ∷ v) ≡ k
unfolding name_of_line
name_of_line_lem k v h = ground (arith, before-append b'=' k v h)

has_prefix-append_both : (p s q : Bytes) → has_prefix (p ++ s) (p ++ q) ≡ has_prefix s q
unfolding has_prefix
has_prefix-append_both [] s q = refl
has_prefix-append_both (c ∷ p) s q = ground (arith, has_prefix-append_both p s q)

-- A name that has the prefix `p ++ q` is `p` and a rest that has the prefix `q`.
split_name :
    (name p q : Bytes)
    → has_prefix name (p ++ q) ≡ true
    → (rest : Bytes) × (name ≡ p ++ rest) × (has_prefix rest q ≡ true)
unfolding has_prefix
split_name name [] q h = (name, refl, h)
split_name [] (d ∷ p) q h = cc
split_name (c ∷ name) (d ∷ p) q h =
    let r = split_name name p q (ground arith) in (r.0, ground (arith, r.1), r.2)

has_key-cons :
    (k j v : Bytes) (m : Map Bytes) → has_key k ((j, v) ∷ m) ≡ (bytes_eq j k || has_key k m)
unfolding has_key
has_key-cons k j v m = ground arith

list_lines-cons :
    (p full n v : Bytes) (lines : List Bytes)
    → Lacks b'=' n
    → list_lines p full ((n ++ b'=' ∷ v) ∷ lines) ≡ (
        if has_prefix n full
        then trim_prefix n p ∷ list_lines p full lines
        else list_lines p full lines)
unfolding list_lines
list_lines-cons p full n v lines h = ground (arith, name_of_line_lem n v h)

-- One line: whether it is listed as `k` says whether its name is `p ++ k`.
member-line :
    (p q n k : Bytes) (rest : List Bytes) (later : Bool)
    → member k rest ≡ (later && has_prefix k q)
    → member k (if has_prefix n (p ++ q) then trim_prefix n p ∷ rest else rest)
      ≡ ((bytes_eq n (p ++ k) || later) && has_prefix k q)
unfolding member
member-line p q n k rest later ih = elim (Bool-cases (has_prefix n (p ++ q))) [
  | inl e ↦ listed (split_name n p q e) e
  | inr e ↦ ground (arith, bytes_eq_iff n (p ++ k), has_prefix-append_both p k q)
]
  where
    listed :
        ((r : Bytes) × (n ≡ p ++ r) × (has_prefix r q ≡ true))
        → has_prefix n (p ++ q) ≡ true
        → member k (if has_prefix n (p ++ q) then trim_prefix n p ∷ rest else rest)
          ≡ ((bytes_eq n (p ++ k) || later) && has_prefix k q)
    listed (r, e, h) t =
        ground (arith, trim_prefix-append p r, bytes_eq-append p r k, bytes_eq_iff r k)

member-list_lines :
    (p q k : Bytes) (m : Map Bytes)
    → NamesLack m
    → member k (list_lines p (p ++ q) (environ_lines m)) ≡ (has_key (p ++ k) m && has_prefix k q)
unfolding environ_lines
member-list_lines p q k [] h = unfold list_lines member has_key in refl
member-list_lines p q k ((n, v) ∷ m) h =
    rw (list_lines-cons p (p ++ q) n v (environ_lines m) h.0, has_key-cons (p ++ k) n v m)
      (member-line p q n k (list_lines p (p ++ q) (environ_lines m)) (has_key (p ++ k) m)
        (member-list_lines p q k m h.1))

-- Where no variable's name holds '=', List returns a path exactly if Exists reports it and it begins
-- with the prefix asked for: the configured prefix is put in front of a path to find its variable,
-- and taken off the name of a variable to list it.
pub member-env_list_paths :
    (p : Provider) (q k : Bytes)
    → NamesLack p.environ
    → (paths : List Bytes) × (found : Bool) × (list_paths p q ≡ ok paths)
      × (exists p k ≡ ok found)
      × (member k paths ≡ (found && has_prefix k q))
unfolding list_paths exists
member-env_list_paths p q k h = (
  list_lines p.config.prefix (p.config.prefix ++ q) (environ_lines p.environ),
  has_key (p.config.prefix ++ k) p.environ,
  refl,
  refl,
  member-list_lines p.config.prefix q k p.environ h,
)
