-- ===== src/Providers/Sql/Stamps.antt =====
-- providers/sqlstore/sqlstore.go: what Set keeps of a secret.
use omnivault.Base.{
  codes, Bytes, Option, none, some, List, [], ◌∷◌, ◌≡◌, ◌≢◌, refl, ap, Map, IsMap, if◌then◌else◌,
}
use omnivault.Vault.Types.{Any, Time, Secret, has_bytes}
use omnivault.Vault.Contract.{is_some}
use omnivault.Providers.Memory.Copy.{IsMap?, copy_map_same, copy_entries_same}
use omnivault.Providers.Memory.Laws.{or_now_lem}
use omnivault.Providers.Sql.Parts.{copy_extra, slice_of, stamped}

abbrev HasExtra : Option (Map Any) → Type 0
HasExtra none = Unit
HasExtra (some m) = IsMap m

-- The maps of the secret have distinct keys, as every Go map has, and its labels are no empty slice.
pub record IsPlain (s : Secret) : Type 0 where
  pub fields : IsMap? s.fields
  pub tags : IsMap? s.metadata.tags
  pub extra : HasExtra s.metadata.extra
  pub labels : s.metadata.labels ≢ some []

copy_extra_same : (m : Option (Map Any)) → HasExtra m → copy_extra m ≡ m
copy_extra_same none h = refl
copy_extra_same (some m) h = ap some (copy_entries_same m h)

slice_of_same : (l : Option (List Bytes)) → l ≢ some [] → slice_of l ≡ l
slice_of_same none h = refl
slice_of_same (some []) h = absurd (h refl)
slice_of_same (some (x ∷ xs)) h = refl

-- The secret of the caller, stamped; an empty slice of bytes becomes nil.
abbrev pub kept : Time → Bytes → Secret → Secret
kept now path s = record s {
  value_bytes = if has_bytes s then s.value_bytes else none;
  metadata = record s.metadata {
    created_at = if is_some s.metadata.created_at then s.metadata.created_at else some now;
    modified_at = some now;
    provider = codes "sql";
    path = path;
  };
}

pub stamped-kept :
    (now : Time) (path : Bytes) (s : Secret) → IsPlain s → stamped now path s ≡ kept now path s
unfolding stamped
stamped-kept now path s h =
    rw
      (
        copy_map_same s.fields h.fields,
        copy_map_same s.metadata.tags h.tags,
        copy_extra_same s.metadata.extra h.extra,
        slice_of_same s.metadata.labels h.labels,
        or_now_lem s.metadata.created_at now,
      )
      refl
