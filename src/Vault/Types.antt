-- ===== src/Vault/Types.antt =====
-- vault/types.go: Secret and Metadata, with their field access. A nil map, slice or pointer is `none`.
-- A time.Time is the count of nanoseconds since the zero time; a Timestamp is the time that it wraps.
pub mod Fields
use omnivault.Base.{
  ℕ, Bytes, codes, Bool, true, false, ◌||◌, Option, none, some, List, [], ◌∷◌, ltb, length, Map,
  lookup, insert, bytes_eq, is_empty, if◌then◌else◌,
}

abbrev pub Time : Type 0
Time = ℕ

-- A value of an `any` field, kept as the text that encoding/json writes for it.
abbrev pub Any : Type 0
Any = Bytes

pub record Metadata : Type 0 where
  pub created_at : Option Time
  pub modified_at : Option Time
  pub expires_at : Option Time
  pub version : Bytes
  pub tags : Option (Map Bytes)
  pub labels : Option (List Bytes)
  pub provider : Bytes
  pub path : Bytes
  pub extra : Option (Map Any)

-- The zero value of the struct.
abbrev pub no_metadata : Metadata
no_metadata = record {
  created_at = none;
  modified_at = none;
  expires_at = none;
  version = [];
  tags = none;
  labels = none;
  provider = [];
  path = [];
  extra = none;
}

pub record Secret : Type 0 where
  pub value : Bytes
  pub value_bytes : Option Bytes
  pub fields : Option (Map Bytes)
  pub metadata : Metadata

-- &Secret{Value: v}
abbrev pub new_secret : Bytes → Secret
new_secret v = record { value = v; value_bytes = none; fields = none; metadata = no_metadata }

-- The bytes of a slice that may be nil; its length is 0 then.
abbrev pub slice : Option Bytes → Bytes
slice none = []
slice (some b) = b

-- name == "" || name == "value"
unfoldable pub is_value_name : Bytes → Bool
unfolding bytes_eq
is_value_name name = is_empty name || bytes_eq name (codes "value")

-- The string at a key of a map that may be nil: "" if it is not there.
unfoldable pub field_or_empty : Option (Map Bytes) → Bytes → Bytes
unfolding lookup
field_or_empty none name = []
field_or_empty (some m) name = elim (lookup name m) [ none ↦ [] | some v ↦ v ]

unfoldable pub get_field : Secret → Bytes → Bytes
unfolding is_value_name field_or_empty
get_field s name = if is_value_name name then s.value else field_or_empty s.fields name

abbrev pub map_or_empty : Option (Map Bytes) → Map Bytes
map_or_empty none = []
map_or_empty (some m) = m

unfoldable pub set_field : Secret → Bytes → Bytes → Secret
unfolding is_value_name insert
set_field s name value =
    if is_value_name name
    then record s { value = value }
    else record s { fields = some (insert name value (map_or_empty s.fields)) }

-- len(s.ValueBytes) > 0
abbrev pub has_bytes : Secret → Bool
has_bytes s = ltb 0 (length (slice s.value_bytes))

unfoldable pub reveal : Secret → Bytes
reveal s = if has_bytes s then slice s.value_bytes else s.value

-- `Bytes` of the source; a string and the slice of its bytes are the same list here.
unfoldable pub secret_bytes : Secret → Bytes
secret_bytes s = if has_bytes s then slice s.value_bytes else s.value

-- What a Secret prints as, whatever the verb.
abbrev pub redacted : Bytes
redacted = codes "[REDACTED]"

unfoldable pub format_secret : Secret → ℕ → Bytes
format_secret s verb = redacted

unfoldable pub go_string : Secret → Bytes
go_string s = redacted

unfoldable pub log_value : Secret → Bytes
log_value s = redacted
