-- ===== src/Store/Provider.antt =====
-- internal/store/encrypted.go: EncryptedStore as a provider of the interface Vault, and the methods that
-- this takes. `io` is what the system answers to a call; its clock is that of the call.
use omnivault.Base.{Bytes, codes, Option, some}
use omnivault.Vault.Types.{Time, Secret}
use omnivault.Vault.Interface.{Vault, Result, ok, err, panic, Clock}
use omnivault.Store.Disk.{Platform, Io, Store}
use omnivault.Store.Operations as Operations
use omnivault.Store.Operations.{exists, list_paths, capabilities}

abbrev pub name : Bytes
name = codes "encrypted"

abbrev pub unlock_time : Store → Time
unlock_time s = s.unlock_time

-- Get returns a pointer to the secret, which is not nil.
abbrev pub pointer : Result Secret → Result (Option Secret)
pointer (ok x) = ok (some x)
pointer (err e) = err e
pointer panic = panic

module _ (pf : Platform) (io : Io) where
  -- Close locks the vault.
  abbrev pub close : Store → Result (Unit {0}) × Store
  close s = Operations.lock pf io s

  abbrev pub timed : Clock → Io
  timed clock = record io { clock = clock }

  abbrev pub store_vault : Vault Store
  store_vault = record {
    get = λ s path. pointer (Operations.get pf s path);
    set = λ s clock path x. Operations.set pf (timed clock) s path x;
    remove = λ s path. Operations.remove pf io s path;
    exists = exists;
    list_paths = list_paths;
    name = λ s. name;
    capabilities = λ s. capabilities;
    close = close;
  }
