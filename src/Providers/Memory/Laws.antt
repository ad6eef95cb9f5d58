-- ===== src/Providers/Memory/Laws.antt =====
-- providers/memory/memory.go against the contract of providers, and after Close.
use omnivault.Base.{
  Bytes, codes, true, false, ◌≡◌, refl, Option, none, some, arith, lookup, bytes_eq, if◌then◌else◌,
  lookup-insert, lookup-delete, ap, ◌∙◌, insert, delete, has_key, Bool-cases, inl, inr,
}
use mathlib.Core.Path.{subst}
use omnivault.Vault.Types.{Secret, Time, has_bytes}
use omnivault.Vault.Errors.{Error, Sentinel, error_is}
use omnivault.Vault.Interface.{ok, err, Clock}
use omnivault.Vault.Contract.{Contract, is_some}
use omnivault.Providers.Memory.{
  Provider, new, failure, entries, copy_secret, get, set, remove, exists, list_paths, close,
  stamped, memory_vault, or_now,
}
use omnivault.Providers.Memory.Copy.{IsMap?, copy_secret_same}

-- The maps of a secret have distinct keys, as every Go map has.
abbrev pub HasMaps : Secret → Type 0
HasMaps x = IsMap? x.fields × IsMap? x.metadata.tags

-- A secret as the provider keeps it: its slice of bytes is nil if it is empty.
abbrev pub IsKept : Secret → Type 0
IsKept x = HasMaps x × ((if has_bytes x then x.value_bytes else none) ≡ x.value_bytes)

-- The provider is open and has its map, of secrets as it keeps them.
pub record IsOpen (p : Provider) : Type 0 where
  pub open_now : p.closed ≡ false
  pub has_map : is_some p.secrets ≡ true
  pub all_kept : (k : Bytes) (x : Secret) → lookup k (entries p.secrets) ≡ some x → IsKept x

pub new-IsOpen : IsOpen new
unfolding lookup
new-IsOpen = record { open_now = refl; has_map = refl; all_kept = λ k x e. absurd (cc e) }

-- The secret that a Set of `x` at `path` keeps: that of the caller, stamped.
abbrev pub kept : Clock → Bytes → Secret → Secret
kept clock path x = record x {
  value_bytes = if has_bytes x then x.value_bytes else none;
  metadata = record x.metadata {
    created_at = if is_some x.metadata.created_at then x.metadata.created_at else some (clock 0);
    modified_at = some (clock 1);
    provider = codes "memory";
    path = path;
  };
}

-- The map from paths to secrets of the provider.
abbrev pub view : Provider → Bytes → Option Secret
view p path = lookup path (entries p.secrets)

copy-IsKept : (x : Secret) → IsKept x → copy_secret x ≡ x
copy-IsKept x (m, b) = copy_secret_same x m.0 m.1 ∙ ap (λ v. record x { value_bytes = v }) b

pub or_now_lem : (t : Option Time) (now : Time) → or_now t now ≡ (if is_some t then t else some now)
or_now_lem none now = refl
or_now_lem (some t) now = refl

stamped_lem : (c : Clock) (k : Bytes) (x : Secret) → HasMaps x → stamped c k x ≡ kept c k x
unfolding stamped
stamped_lem c k x m =
    ap
      (λ (y : Secret). record y {
        metadata = record y.metadata {
          created_at = or_now y.metadata.created_at (c 0);
          modified_at = some (c 1);
          provider = codes "memory";
          path = k;
        };
      })
      (copy_secret_same x m.0 m.1)
    ∙ rw (or_now_lem x.metadata.created_at (c 0)) refl

kept-IsKept : (c : Clock) (k : Bytes) (x : Secret) → HasMaps x → IsKept (kept c k x)
kept-IsKept c k x m = (m, ground arith)

get_found :
    (p : Provider) (k : Bytes) (x : Secret) → IsOpen p → view p k ≡ some x → get p k ≡ ok (some x)
unfolding get
get_found p k x h e = ground (arith, h.open_now, copy-IsKept x (h.all_kept k x e))

get_missing :
    (p : Provider) (k : Bytes)
    → IsOpen p
    → view p k ≡ none
    → (e : Error) × (get p k ≡ err e) × (error_is e Sentinel.secret_not_found ≡ true)
unfolding get error_is
get_missing p k h e =
    (failure (codes "Get") k Sentinel.secret_not_found, ground (arith, h.open_now), refl)

exists_view : (p : Provider) (k : Bytes) → IsOpen p → exists p k ≡ ok (is_some (view p k))
unfolding exists has_key
exists_view p k h = ground (arith, h.open_now)

set-open :
    (p : Provider) (c : Clock) (k : Bytes) (x : Secret)
    → IsOpen p
    → HasMaps x
    → set p c k (some x)
      ≡ (ok tt, record p { secrets = some (insert k (kept c k x) (entries p.secrets)) })
unfolding set
set-open p c k x h m = ground (arith, h.open_now, h.has_map, stamped_lem c k x m)

insert-IsKept :
    (p : Provider) (c : Clock) (k q : Bytes) (x y : Secret)
    → IsOpen p
    → HasMaps x
    → lookup q (insert k (kept c k x) (entries p.secrets)) ≡ some y
    → IsKept y
insert-IsKept p c k q x y h m e = elim (Bool-cases (bytes_eq k q)) [
  | inl t ↦
      let same : kept c k x ≡ y =
        ground (arith, lookup-insert k q (kept c k x) (entries p.secrets)) in
      subst IsKept same (kept-IsKept c k x m)
  | inr n ↦ h.all_kept q y (ground (arith, lookup-insert k q (kept c k x) (entries p.secrets)))
]

set_done :
    (p : Provider) (c : Clock) (k : Bytes) (x : Secret)
    → IsOpen p
    → HasMaps x
    → ((set p c k (some x)).0 ≡ ok tt) × IsOpen (set p c k (some x)).1
set_done p c k x h m = rw (set-open p c k x h m) (
  refl,
  record { open_now = h.open_now; has_map = refl; all_kept = λ q y. insert-IsKept p c k q x y h m },
)

set_view :
    (p : Provider) (c : Clock) (k : Bytes) (x : Secret) (q : Bytes)
    → IsOpen p
    → HasMaps x
    → view (set p c k (some x)).1 q ≡ (if bytes_eq k q then some (kept c k x) else view p q)
set_view p c k x q h m =
    rw (set-open p c k x h m) (lookup-insert k q (kept c k x) (entries p.secrets))

entries-remove :
    (p : Provider) (k : Bytes)
    → IsOpen p
    → entries (remove p k).1.secrets ≡ delete k (entries p.secrets)
unfolding remove
entries-remove p k h = ground (arith, h.open_now, h.has_map)

remove_view :
    (p : Provider) (k q : Bytes)
    → IsOpen p
    → view (remove p k).1 q ≡ (if bytes_eq k q then none else view p q)
remove_view p k q h = ap (lookup q) (entries-remove p k h) ∙ lookup-delete k q (entries p.secrets)

remove-IsKept :
    (p : Provider) (k q : Bytes) (y : Secret) → IsOpen p → view (remove p k).1 q ≡ some y → IsKept y
remove-IsKept p k q y h e = elim (Bool-cases (bytes_eq k q)) [
  | inl t ↦ absurd (ground (arith, remove_view p k q h))
  | inr n ↦ h.all_kept q y (ground (arith, remove_view p k q h))
]

remove_done :
    (p : Provider) (k : Bytes) → IsOpen p → ((remove p k).0 ≡ ok tt) × IsOpen (remove p k).1
unfolding remove
remove_done p k h = (
  ground (arith, h.open_now),
  record {
    open_now = ground (arith, h.open_now);
    has_map = ground (arith, h.open_now, h.has_map);
    all_kept = λ q y. remove-IsKept p k q y h;
  },
)

-- The in-memory provider keeps the contract: while it is open and keeps its secrets with a nil for an
-- empty slice of bytes, as every Set leaves them, Get, Set, Delete and Exists are those of its map from
-- paths to secrets. Set keeps the value, the fields and all metadata of the secret but the times of
-- creation, if there is none, and change, the provider and the path; maps have distinct keys.
pub memory-Contract : Contract memory_vault IsOpen (λ k x. HasMaps x) view kept
memory-Contract = record {
  get_found = get_found;
  get_missing = get_missing;
  exists_view = exists_view;
  set_done = set_done;
  set_view = set_view;
  remove_done = λ s p x h _. remove_done s p h;
  remove_view = λ s p x q h _. remove_view s p q h;
}

-- After Close, each of the five calls fails with ErrClosed whatever its arguments, also with a nil
-- secret, and a Set or a Delete leaves the provider as it is.
pub closed_refuses :
    (p : Provider) (c : Clock) (k : Bytes) (x : Option Secret)
    → let q = (close p).1 in
      (get q k ≡ err (failure (codes "Get") k Sentinel.closed))
      × (set q c k x ≡ (err (failure (codes "Set") k Sentinel.closed), q))
      × (remove q k ≡ (err (failure (codes "Delete") k Sentinel.closed), q))
      × (exists q k ≡ err (failure (codes "Exists") k Sentinel.closed))
      × (list_paths q k ≡ err (failure (codes "List") k Sentinel.closed))
unfolding close get set remove exists list_paths
closed_refuses p c k none = (refl, refl, refl, refl, refl)
closed_refuses p c k (some x) = (refl, refl, refl, refl, refl)
