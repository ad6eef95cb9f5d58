-- ===== src/Client/Delegates.antt =====
-- client.go: the record Client and its methods that pass a call on to its vault. The logger is left out.
use omnivault.Base.{Bytes, Bool, Option, List}
use omnivault.Vault.Types.{Secret}
use omnivault.Vault.Interface.{Vault, Result, Clock, Capabilities}
use omnivault.Client.{Config}

pub record Client (V D : Type 0) : Type 0 where
  pub vault : V
  pub config : Config V D

module _ {ℓ} {S : Type ℓ} (v : Vault S) where
  abbrev pub get : S → Bytes → Result (Option Secret)
  get c path = v.get c path

  abbrev pub set : S → Clock → Bytes → Option Secret → Result (Unit {0}) × S
  set c clock path secret = v.set c clock path secret

  abbrev pub remove : S → Bytes → Result (Unit {0}) × S
  remove c path = v.remove c path

  abbrev pub exists : S → Bytes → Result Bool
  exists c path = v.exists c path

  abbrev pub list_paths : S → Bytes → Result (List Bytes)
  list_paths c prefix = v.list_paths c prefix

  abbrev pub name : S → Bytes
  name c = v.name c

  abbrev pub capabilities : S → Capabilities
  capabilities c = v.capabilities c

  abbrev pub close : S → Result (Unit {0}) × S
  close c = v.close c
