-- ===== src/Cli/Examples.antt =====
-- The theorems about the command line at small inputs.
use omnivault.Base.{codes, member, has_prefix, bytes_eq, List, [], ◌∷◌, none, ◌≡◌, arith}
use omnivault.Vault.Errors.{message}
use omnivault.Vault.Interface.{ok, err}
use omnivault.Cli.Flags.{no_flags, parse_flags}
use omnivault.Cli.Flags.Written.{Item, write, apply, parse_flags-write}
use omnivault.Config as Config
use omnivault.Expiry.{Texts}
use omnivault.Daemon.Protocol.{SecretResponse}

abbrev items : List Item
items =
    Item.equals (codes "out") (codes "a=b")
    ∷ Item.pair (codes "tag") (codes "x")
    ∷ Item.toggle (codes "force")
    ∷ Item.argument (codes "p")
    ∷ []

parse_flags-write_example : parse_flags (write items) (codes "force" ∷ []) ≡ apply items no_flags
unfolding member bytes_eq has_prefix
parse_flags-write_example = parse_flags-write (codes "force" ∷ []) items (ground arith)

abbrev texts : Texts
texts = record {
  whole_days = λ d. 0;
  whole_hours = λ d. 0;
  whole_minutes = λ d. 0;
  decimal = λ n. codes "n";
  date = λ t. codes "d";
}

abbrev codec : Config.Codec
codec = record {
  unmarshal = λ text c. ok c;
  marshal = λ c. ok [];
  parse_duration = λ text. err (message (codes "duration"));
}

abbrev expiring : SecretResponse
expiring = record {
  path = codes "k";
  value = codes "v";
  fields = none;
  tags = none;
  created_at = 1;
  updated_at = 1;
  expires_at = 5;
}
