-- ===== src/Vault/Types/Fields.antt =====
-- vault/types.go: GetField after SetField.
use omnivault.Base.{Bytes, ◌≡◌, some, arith, insert, bytes_eq, lookup-insert, if◌then◌else◌}
use omnivault.Vault.Types.{
  Secret, is_value_name, field_or_empty, get_field, set_field, map_or_empty,
}

field_or_empty-insert :
    (s : Secret) (name other value : Bytes)
    → field_or_empty (some (insert name value (map_or_empty s.fields))) other
      ≡ (if bytes_eq name other then value else field_or_empty s.fields other)
unfolding field_or_empty
field_or_empty-insert s name other value =
    ground (arith, lookup-insert name other value (map_or_empty s.fields))

-- After SetField(name, value), GetField reads `value` under every name that stands for the same
-- field ("" and "value" both stand for the main value), and what it read before under every other.
pub get_field-set_field :
    (s : Secret) (name other value : Bytes)
    → get_field (set_field s name value) other ≡ (
        if is_value_name name
        then (if is_value_name other then value else get_field s other)
        else if is_value_name other
        then get_field s other
        else if bytes_eq name other
        then value
        else get_field s other)
unfolding get_field set_field
get_field-set_field s name other value = ground (arith, field_or_empty-insert s name other value)
