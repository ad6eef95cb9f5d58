-- ===== src/Output/Writer.antt =====
-- internal/output/writer.go: what is written for a secret, a list, a status and a search. A string is
-- the list of its code points. The encoders of JSON and YAML and the formats of numbers and times are
-- the record `Encoders`; a write to the output does not fail.
pub mod Orders
use omnivault.Base.{
  ℕ, Bytes, codes, Bool, true, false, not, ◌&&◌, Option, none, some, List, [], ◌∷◌, ◌++◌, Map,
  lookup, keys, sort_strings, is_empty, bytes_eq, ◌==◌, if◌then◌else◌,
}
use omnivault.Vault.Types.{Time}
use omnivault.Vault.Interface.{Result, ok}
use omnivault.Output.{shell_safe_key, shell_quote, shell_export}
use omnivault.Output.Format.{Format}
use omnivault.Daemon.Protocol.{SecretResponse, SecretListItem, StatusResponse}

-- What the encoders are given; `not_running` is the map with "running": false.
pub data Value : Type 0 where
  secret : SecretResponse → Value
  field : Bytes → Bytes → Value
  listing : List SecretListItem → ℕ → Value
  status : StatusResponse → Value
  not_running : Value
  search : List Bytes → ℕ → Value

pub record Encoders : Type 0 where
  pub json : Value → Result Bytes
  pub yaml : Value → Result Bytes
  pub decimal : ℕ → Bytes
  pub rfc3339 : Time → Bytes
  pub date_time : Time → Bytes

-- fmt.Fprintln
abbrev pub line : Bytes → Bytes
line s = s ++ 10 ∷ []

abbrev pub fields_of : Option (Map Bytes) → Map Bytes
fields_of none = []
fields_of (some m) = m

-- m[k], which is empty for a missing key.
abbrev pub or_empty : Option Bytes → Bytes
or_empty none = []
or_empty (some v) = v

abbrev pub field_value : Map Bytes → Bytes → Bytes
field_value m k = or_empty (lookup k m)

unfoldable pub sorted_keys : Map Bytes → List Bytes
sorted_keys m = sort_strings (keys m)

-- One line for each key.
unfoldable pub write_fields : (Bytes → Bytes → Bytes) → Map Bytes → List Bytes → Bytes
write_fields f m [] = []
write_fields f m (k ∷ ks) = line (f k (field_value m k)) ++ write_fields f m ks

abbrev pub if_value : Bytes → Bytes → Bytes
if_value value written = if is_empty value then [] else line written

abbrev pub text_field : Bytes → Bytes → Bytes
text_field k v = k ++ codes ": " ++ v

unfoldable pub write_text_secret : SecretResponse → Bytes
unfolding sorted_keys
write_text_secret s =
    let m = fields_of s.fields in
    if_value s.value s.value ++ write_fields text_field m (sorted_keys m)

abbrev pub shell_field : Bytes → Bytes → Bytes → Bytes
shell_field prefix k v =
    codes "export " ++ (prefix ++ b'_' ∷ shell_safe_key k) ++ b'=' ∷ shell_quote v

unfoldable pub write_shell_secret : SecretResponse → Bytes
unfolding sorted_keys
write_shell_secret s =
    let m = fields_of s.fields in
    if_value s.value (shell_export s.path s.value)
    ++ write_fields (shell_field (shell_safe_key s.path)) m (sorted_keys m)

abbrev pub only : SecretResponse → Bytes → Bytes
only s name =
    if bytes_eq name (codes "value") then s.value else field_value (fields_of s.fields) name

unfoldable pub joined : List Bytes → Bytes
joined [] = []
joined (x ∷ []) = x
joined (x ∷ y ∷ xs) = x ++ codes ", " ++ joined (y ∷ xs)

unfoldable pub pairs : Map Bytes → List Bytes
pairs [] = []
pairs ((k, v) ∷ m) = (k ++ b'=' ∷ v) ∷ pairs m

abbrev pub kind_text : SecretListItem → Bytes
kind_text item =
    if item.has_value && item.has_fields
    then codes " (value+fields)"
    else if item.has_fields
    then codes " (fields)"
    else []

abbrev pub bracketed : List Bytes → Bytes
bracketed xs = codes " [" ++ joined xs ++ codes "]"

unfoldable pub format_list_item : SecretListItem → Bool → Bytes
unfolding joined pairs
format_list_item item show_full_tags =
    item.path
    ++ kind_text item
    ++ (if is_empty item.tags
        then []
        else if show_full_tags && not (is_empty (fields_of item.tags_map))
        then bracketed (sort_strings (pairs (fields_of item.tags_map)))
        else bracketed item.tags)

module _ (enc : Encoders) where
  open enc use {json, yaml, decimal, rfc3339, date_time}

  -- The switch on the format, where a shell is treated as text.
  abbrev pub encoded : Format → Value → Bytes → Result Bytes
  encoded Format.json value written = json value
  encoded Format.yaml value written = yaml value
  encoded Format.shell value written = ok written
  encoded Format.text value written = ok written

  unfoldable pub write_field_value : Format → SecretResponse → Bytes → Result Bytes
  write_field_value Format.json s name = json (Value.field name (only s name))
  write_field_value Format.yaml s name = yaml (Value.field name (only s name))
  write_field_value Format.shell s name = ok (line (shell_export name (only s name)))
  write_field_value Format.text s name = ok (line (only s name))

  abbrev pub write_whole : Format → SecretResponse → Result Bytes
  write_whole Format.json s = json (Value.secret s)
  write_whole Format.yaml s = yaml (Value.secret s)
  write_whole Format.shell s = ok (write_shell_secret s)
  write_whole Format.text s = ok (write_text_secret s)

  unfoldable pub write_secret : Format → SecretResponse → Bytes → Result Bytes
  unfolding write_field_value
  write_secret format s name =
      if is_empty name then write_whole format s else write_field_value format s name

  abbrev pub dated : Bytes → Time → Bytes
  dated label t = if t == 0 then [] else line (label ++ rfc3339 t)

  unfoldable pub write_item_metadata : SecretListItem → Bytes
  write_item_metadata item =
      dated (codes "  Created: ") item.created_at
      ++ dated (codes "  Updated: ") item.updated_at
      ++ dated (codes "  Expires: ") item.expires_at

  unfoldable pub write_items : Bool → List SecretListItem → Bytes
  unfolding format_list_item write_item_metadata
  write_items show_metadata [] = []
  write_items show_metadata (item ∷ items) =
      line (format_list_item item show_metadata)
      ++ (if show_metadata then write_item_metadata item else [])
      ++ write_items show_metadata items

  unfoldable pub write_text_list : List SecretListItem → ℕ → Bool → Bytes
  write_text_list items count show_metadata =
      if count == 0
      then line (codes "No secrets found")
      else write_items show_metadata items ++ 10 ∷ line (decimal count ++ codes " secret(s)")

  unfoldable pub write_list : Format → List SecretListItem → ℕ → Bool → Result Bytes
  unfolding write_text_list
  write_list format items count show_metadata =
      encoded format (Value.listing items count) (write_text_list items count show_metadata)

  abbrev pub unlocked_text : StatusResponse → Bytes
  unlocked_text s =
      line (codes "Vault: unlocked")
      ++ line (codes "Secrets: " ++ decimal s.secret_count)
      ++ (if s.unlocked_at == 0
          then []
          else line (codes "Unlocked at: " ++ date_time s.unlocked_at))

  unfoldable pub write_text_status : StatusResponse → Bytes
  write_text_status s =
      line (codes "Daemon: running")
      ++ line (codes "Uptime: " ++ s.uptime)
      ++ (if not s.vault_exists
          then line (codes "Vault: not initialized")
          else if s.locked
          then line (codes "Vault: locked")
          else unlocked_text s)

  -- The callers give a status exactly if the daemon is running, which is what `none` is for.
  unfoldable pub write_status : Format → Option StatusResponse → Result Bytes
  unfolding write_text_status
  write_status format none = encoded format Value.not_running (line (codes "Daemon: not running"))
  write_status format (some s) = encoded format (Value.status s) (write_text_status s)

  unfoldable pub lines : List Bytes → Bytes
  lines [] = []
  lines (x ∷ xs) = line x ++ lines xs

  unfoldable pub write_text_search : List Bytes → ℕ → Bytes
  unfolding lines
  write_text_search paths count =
      if count == 0
      then line (codes "No secrets found matching pattern")
      else lines paths ++ 10 ∷ line (decimal count ++ codes " secret(s) found")

  unfoldable pub write_search : Format → List Bytes → ℕ → Result Bytes
  unfolding write_text_search
  write_search format paths count =
      encoded format (Value.search paths count) (write_text_search paths count)
