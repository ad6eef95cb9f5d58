-- ===== src/Daemon/Examples.antt =====
-- The theorems about the daemon at a vault of one secret.
use omnivault.Base.{
  codes, true, false, none, some, List, [], ◌∷◌, lookup, bytes_eq, after_prefix, ◌≡◌, refl,
  trim_prefix,
}
use omnivault.Vault.Interface.{ok}
use omnivault.Store.Crypto.{is_unlocked}
use omnivault.Vault.Errors.{Error, message, prefixed}
use omnivault.Store.Disk.{Io, Store, new_encrypted_store}
use omnivault.Store.Operations.{is_locked}
use omnivault.Store.Toy.{
  toy, works, crypto_for, sealed, old_password, new_password, one_secret, one_disk, one_store,
  one_store-IsUnlocked,
}
use omnivault.Daemon.Protocol.{
  Method, UnlockRequest, ChangePasswordRequest, SearchRequest, ImportRequest, ExportedSecret,
  Server, locked_reply,
}
use omnivault.Daemon.Session.{internal_error, handle_password, handle_lock}
use omnivault.Daemon.Secrets.{handle_secrets, handle_secret}
use omnivault.Daemon.Bulk.{
  Matcher, handle_search, handle_export, handle_import, import_loop, no_counts,
}
use omnivault.Daemon.Guards.{locked_requests_refused}
use omnivault.Daemon.Locking.{handle_lock-unsaved}
use omnivault.Daemon.Importing.{Holds, import_loop-merge}

abbrev server : Store → Server
server s = record { store = s; auto_lock_duration = 900; auto_lock_timer = none }

abbrev locked_server : Server
locked_server = server (new_encrypted_store one_disk)

-- A matcher that finds every pattern in every path.
abbrev matcher : Matcher
matcher = record { compile = λ p. ok (λ s. true); glob = λ p s. ok true }

abbrev search_all : SearchRequest
search_all = record { pattern = codes "*"; regex = false }

abbrev import_nothing : ImportRequest
import_nothing = record { secrets = []; merge = false }

abbrev change_request : ChangePasswordRequest
change_request = record { old_password = old_password; new_password = new_password }

locked_requests_refused_example :
    (handle_secrets toy works 7 locked_server Method.get [] ≡ (locked_reply, locked_server))
    × (handle_secret toy works 7 locked_server Method.delete (codes "/secret/a") none
        ≡ (locked_reply, locked_server))
    × (handle_search toy 7 matcher locked_server Method.post (some search_all)
        ≡ (locked_reply, locked_server))
    × (handle_export toy 7 locked_server Method.post none ≡ (locked_reply, locked_server))
    × (handle_import toy 7 (λ i. works) locked_server Method.post (some import_nothing)
        ≡ (locked_reply, locked_server))
    × (handle_password toy works 7 locked_server Method.post (some change_request)
        ≡ (locked_reply, locked_server))
unfolding is_locked trim_prefix after_prefix
locked_requests_refused_example =
    locked_requests_refused toy matcher works (λ i. works) 7 locked_server Method.delete []
      (codes "/secret/a") none search_all none import_nothing change_request refl refl refl

abbrev unlock_request : UnlockRequest
unlock_request = record { password = old_password }

abbrev disk_full : Error
disk_full = message (codes "disk full")

abbrev full_disk : Io
full_disk = record works { mkdir_vault = some disk_full }

abbrev dirty_server : Server
dirty_server = server (record one_store { dirty = true })

handle_lock-unsaved_example :
    ((handle_lock toy full_disk 7 dirty_server Method.post).0
      ≡ internal_error (prefixed (codes "failed to save data") disk_full))
    × (is_locked (handle_lock toy full_disk 7 dirty_server Method.post).1.store ≡ false)
    × ((handle_lock toy full_disk 7 dirty_server Method.post).1.auto_lock_timer ≡ none)
unfolding is_unlocked
handle_lock-unsaved_example =
    handle_lock-unsaved toy full_disk 7 dirty_server (crypto_for old_password) disk_full refl refl
      refl refl

abbrev imports : List ExportedSecret
imports =
    record { path = codes "a"; value = codes "2"; fields = none; tags = none; expires_at = 0 }
    ∷ record { path = codes "b"; value = codes "3"; fields = none; tags = none; expires_at = 9 }
    ∷ []

import_loop-merge_example :
    Holds
      (crypto_for old_password)
      (codes "a")
      (sealed old_password (codes "1"))
      (import_loop toy true (λ i. works) imports no_counts one_store).1
unfolding lookup bytes_eq
import_loop-merge_example =
    import_loop-merge toy (λ i. works) imports no_counts one_store (crypto_for old_password)
      (codes "a") (sealed old_password (codes "1")) (one_secret, one_store-IsUnlocked, refl)
