-- ===== src/Providers/Env/Laws.antt =====
-- providers/env/env.go against the contract of providers.
use omnivault.Base.{
  Bytes, codes, true, false, ◌≡◌, refl, Option, none, some, arith, lookup, [], ◌∷◌, ◌++◌, bytes_eq,
}
use omnivault.Vault.Types.{Secret, reveal}
use omnivault.Vault.Errors.{Sentinel}
use omnivault.Vault.Interface.{err, Clock}
use omnivault.Vault.Contract.{Contract}
use omnivault.Providers.Env.{Provider, Os, failure, variable, secret_of, set, remove}

pub bytes_eq-append : (p k q : Bytes) → bytes_eq (p ++ k) (p ++ q) ≡ bytes_eq k q
unfolding bytes_eq
bytes_eq-append [] k q = refl
bytes_eq-append (c ∷ p) k q = ground (arith, bytes_eq-append p k q)

-- Writing is allowed, with the given prefix.
pub record IsWritable (prefix : Bytes) (p : Provider) : Type 0 where
  pub allowed : p.config.allow_write ≡ true
  pub prefixed_by : p.config.prefix ≡ prefix

unfoldable pub view : Provider → Bytes → Option Secret
view p path = elim (lookup (variable p path) p.environ) [
  | none ↦ none
  | some value ↦ some (secret_of path value)
]

module _ (os : Os) (prefix : Bytes) where
  -- The operating system takes the name and the value.
  abbrev pub Accepts : Bytes → Secret → Type 0
  Accepts path s =
      (os.setenv_error (prefix ++ path) (reveal s) ≡ none)
      × (os.unsetenv_error (prefix ++ path) ≡ none)

  -- Where writing is not allowed, Set and Delete fail with ErrReadOnly and change no variable.
  pub read_only_refuses :
      (p : Provider) (c : Clock) (k : Bytes) (x : Option Secret)
      → p.config.allow_write ≡ false
      → (set os p c k x ≡ (err (failure (codes "Set") k Sentinel.read_only), p))
        × (remove os p k ≡ (err (failure (codes "Delete") k Sentinel.read_only), p))
  unfolding set remove
  read_only_refuses p c k none h = ground arith
  read_only_refuses p c k (some x) h = ground arith
