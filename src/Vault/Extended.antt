-- ===== src/Vault/Extended.antt =====
-- vault/interface.go: the interfaces that a provider may implement beyond Vault. None of the
-- repository's providers does.
use omnivault.Base.{Bytes, Bool, Option, List, Map}
use omnivault.Vault.Types.{Time, Secret}
use omnivault.Vault.Interface.{Vault, Result, Clock}

pub record Version : Type 0 where
  pub id : Bytes
  pub created_at : Option Time
  pub current : Bool

pub record ExtendedVault {ℓ} (S : Type ℓ) : Type ℓ where
  pub vault : Vault S
  pub get_version : S → Bytes → Bytes → Result (Option Secret)
  pub list_versions : S → Bytes → Result (List Version)
  pub rotate : S → Clock → Bytes → Result (Option Secret) × S

pub record BatchVault {ℓ} (S : Type ℓ) : Type ℓ where
  pub vault : Vault S
  pub get_batch : S → List Bytes → Result (Map (Option Secret))
  pub set_batch : S → Clock → Map (Option Secret) → Result (Unit {0}) × S
  pub delete_batch : S → List Bytes → Result (Unit {0}) × S
