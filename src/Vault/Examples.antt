-- ===== src/Vault/Examples.antt =====
-- The theorems about references and timestamps at small inputs.
use omnivault.Base.{ℕ, Bytes, codes, [], ◌∷◌, refl, ap, ◌/◌, ◌*◌, arith}
use omnivault.Vault.Types.{Time}
use omnivault.Vault.Errors.{message}
use omnivault.Vault.Interface.{Result, ok, err}
use omnivault.Vault.Timestamps.{TimeCodec, IsRfc3339, second}

-- A codec that writes the count of seconds.
abbrev seconds_of : Bytes → Result Time
seconds_of [] = err (message (codes "no time"))
seconds_of (n ∷ rest) = ok (n * second)

abbrev plain_codec : TimeCodec
plain_codec = record {
  format = λ t. t / second ∷ [];
  parse = seconds_of;
  marshal_string = λ s. ok s;
  unmarshal_string = λ s. ok s;
}

plain_codec-IsRfc3339 : IsRfc3339 plain_codec
plain_codec-IsRfc3339 = record {
  parse-format = λ t h. refl;
  format_whole = λ t. ap (λ (n : ℕ). n ∷ []) (omega arith);
  quoted = λ t. (t / second ∷ [], refl, refl);
}
