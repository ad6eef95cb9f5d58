-- ===== src/Output/Examples.antt =====
-- The theorems about the output at a small key, value and secret.
use omnivault.Base.{
  ℕ, Bytes, Map, lookup, keys, bytes_eq_iff, arith, none, codes, true, List, [], ◌∷◌, ◌++◌, some,
  ◌≡◌, ◌≢◌,
}
use mathlib.Core.List.Perm as Perm
use omnivault.Vault.Interface.{ok}
use omnivault.Daemon.Protocol.{SecretResponse}
use omnivault.Output.Format.{Format}
use omnivault.Output.Writer.{Encoders, write_secret}
use omnivault.Output.Writer.Orders.{write_secret-perm}
use omnivault.Output.{shell_export}
use omnivault.Output.Words.{Quoting, read_word, is_name, shell_export-read_word}

key_ne : codes "2fa-key" ≢ []
key_ne h = cc h

shell_export-read_word_example :
    (name word : List ℕ) × (shell_export (codes "2fa-key") (codes "it's")
      ≡ codes "export " ++ (name ++ b'=' ∷ word))
    × (is_name name ≡ true)
    × (read_word Quoting.plain word ≡ some (codes "it's"))
shell_export-read_word_example = shell_export-read_word (codes "2fa-key") (codes "it's") key_ne

abbrev two_fields : Map Bytes
two_fields = (codes "a", codes "1") ∷ (codes "b", codes "2") ∷ []

abbrev swapped : Map Bytes
swapped = (codes "b", codes "2") ∷ (codes "a", codes "1") ∷ []

lookup-swapped : (k : Bytes) → lookup k two_fields ≡ lookup k swapped
unfolding lookup
lookup-swapped k = ground (arith, bytes_eq_iff (codes "a") k, bytes_eq_iff (codes "b") k)

abbrev encoders : Encoders
encoders = record {
  json = λ v. ok (codes "{}");
  yaml = λ v. ok (codes "{}");
  decimal = λ n. codes "n";
  rfc3339 = λ t. codes "t";
  date_time = λ t. codes "t";
}

abbrev response : SecretResponse
response = record {
  path = codes "db";
  value = codes "v";
  fields = none;
  tags = none;
  created_at = 1;
  updated_at = 1;
  expires_at = 0;
}

write_secret-perm_example :
    (write_secret encoders Format.text (record response { fields = some two_fields }) []
      ≡ write_secret encoders Format.text (record response { fields = some swapped }) [])
    × (write_secret encoders Format.shell (record response { fields = some two_fields }) []
        ≡ write_secret encoders Format.shell (record response { fields = some swapped }) [])
unfolding keys
write_secret-perm_example =
    write_secret-perm encoders response two_fields swapped [] (Perm.swap (codes "b") (codes "a") [])
      lookup-swapped
