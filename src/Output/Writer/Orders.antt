-- ===== src/Output/Writer/Orders.antt =====
-- internal/output/writer.go: the order in which a range visits the fields of a secret.
use omnivault.Base.{
  Bytes, some, List, [], ◌∷◌, Map, lookup, keys, sort_strings, sort_strings-perm, Perm, ◌≡◌, refl,
  ap, ◌∙◌,
}
use omnivault.Output.{shell_safe_key}
use omnivault.Output.Format.{Format}
use omnivault.Output.Writer.{
  Encoders, sorted_keys, write_fields, write_text_secret, write_shell_secret, write_secret,
  write_field_value, text_field, shell_field,
}
use omnivault.Daemon.Protocol.{SecretResponse}

write_fields-same :
    (f : Bytes → Bytes → Bytes) (m n : Map Bytes) (ks : List Bytes)
    → ((k : Bytes) → lookup k m ≡ lookup k n)
    → write_fields f m ks ≡ write_fields f n ks
unfolding write_fields
write_fields-same f m n [] h = refl
write_fields-same f m n (k ∷ ks) h = rw (h k, write_fields-same f m n ks h)

write_fields-perm :
    (f : Bytes → Bytes → Bytes) (m n : Map Bytes)
    → Perm (keys m) (keys n)
    → ((k : Bytes) → lookup k m ≡ lookup k n)
    → write_fields f m (sorted_keys m) ≡ write_fields f n (sorted_keys n)
unfolding sorted_keys
write_fields-perm f m n p h =
    ap (write_fields f m) (sort_strings-perm p) ∙ write_fields-same f m n (sort_strings (keys n)) h

-- Two secrets that differ only in the order of their fields, as two ranges over one map may give them,
-- are written as the same text and as the same shell variables, and each field of them likewise.
pub write_secret-perm :
    (enc : Encoders) (s : SecretResponse) (m n : Map Bytes) (name : Bytes)
    → Perm (keys m) (keys n)
    → ((k : Bytes) → lookup k m ≡ lookup k n)
    → (write_secret enc Format.text (record s { fields = some m }) name
        ≡ write_secret enc Format.text (record s { fields = some n }) name)
      × (write_secret enc Format.shell (record s { fields = some m }) name
          ≡ write_secret enc Format.shell (record s { fields = some n }) name)
unfolding write_secret write_text_secret write_shell_secret write_field_value
write_secret-perm enc s m n name p h = (
  rw (write_fields-perm text_field m n p h, h name),
  rw (write_fields-perm (shell_field (shell_safe_key s.path)) m n p h, h name),
)
