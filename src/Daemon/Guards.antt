-- ===== src/Daemon/Guards.antt =====
-- The requests that need an unlocked vault, at a locked one; and what /unlock needs to unlock it.
use omnivault.Base.{
  ℕ, Bytes, codes, true, false, ◌≡◌, refl, ◌∙◌, ap, Option, none, some, arith, is_empty,
  trim_prefix, ltb, length, if◌then◌else◌, not, Bool-cases, inl, inr,
}
use mathlib.Core.Path.{subst}
use omnivault.Vault.Types.{Time}
use omnivault.Store.Disk.{Platform, Io, Store, VaultMeta, vault_exists}
use omnivault.Store.Operations as Operations
use omnivault.Store.Operations.{is_locked}
use omnivault.Store.Crypto.{verify_password}
use omnivault.Store.Sessions.{crypto_of}
use omnivault.Store.Password.{unlock-verified}
use omnivault.Daemon.Protocol.{
  Method, UnlockRequest, ChangePasswordRequest, SetSecretRequest, SearchRequest, ExportRequest,
  ImportRequest, Server, locked_reply, reset_auto_lock,
}
use omnivault.Daemon.Session.{handle_unlock, handle_password}
use omnivault.Daemon.Secrets.{handle_secrets, handle_secret}
use omnivault.Daemon.Bulk.{Matcher, handle_search, handle_export, handle_import}

-- While the vault is locked, each of the requests that read or write secrets is refused with 403 and
-- changes neither the store nor the timer: listing, every method on a secret with a path, and a
-- search, an export, an import and a change to a password of at least eight bytes that decode.
pub locked_requests_refused :
    (pf : Platform) (mt : Matcher) (io : Io) (ios : ℕ → Io) (now : Time) (s : Server) (m : Method)
    (prefix url : Bytes) (set : Option SetSecretRequest) (search : SearchRequest)
    (export : Option ExportRequest) (import : ImportRequest) (change : ChangePasswordRequest)
    → is_locked s.store ≡ true
    → is_empty (trim_prefix url (codes "/secret/")) ≡ false
    → ltb (length change.new_password) 8 ≡ false
    → (handle_secrets pf io now s Method.get prefix ≡ (locked_reply, s))
      × (handle_secret pf io now s m url set ≡ (locked_reply, s))
      × (handle_search pf now mt s Method.post (some search) ≡ (locked_reply, s))
      × (handle_export pf now s Method.post export ≡ (locked_reply, s))
      × (handle_import pf now ios s Method.post (some import) ≡ (locked_reply, s))
      × (handle_password pf io now s Method.post (some change) ≡ (locked_reply, s))
unfolding handle_secrets handle_secret handle_search handle_export handle_import handle_password
locked_requests_refused pf mt io ios now s m prefix url set search export import change l p n =
    (ground arith, ground arith, ground arith, ground arith, ground arith, ground arith)

handle_unlock-store :
    (pf : Platform) (io : Io) (now : Time) (s : Server) (req : UnlockRequest)
    → (handle_unlock pf io now s Method.post (some req)).1.store ≡ (
        if not (vault_exists io s.store)
        then s.store
        else (Operations.unlock pf io s.store req.password).1)
unfolding handle_unlock reset_auto_lock
handle_unlock-store pf io now s req = ground arith

-- An unlock request unlocks a locked vault only if its password verifies against the metadata that
-- the store then holds.
pub handle_unlock-verified :
    (pf : Platform) (io : Io) (now : Time) (s : Server) (m : Method) (body : Option UnlockRequest)
    → is_locked s.store ≡ true
    → is_locked (handle_unlock pf io now s m body).1.store ≡ false
    → (req : UnlockRequest) × (meta : VaultMeta) × (body ≡ some req)
      × ((handle_unlock pf io now s m body).1.store.meta ≡ some meta)
      × (verify_password pf.prim (crypto_of meta) req.password meta.verification ≡ true)
unfolding handle_unlock
handle_unlock-verified pf io now s Method.post none l u = absurd (ground arith)
handle_unlock-verified pf io now s Method.post (some req) l u =
    let e = handle_unlock-store pf io now s req in
    elim (Bool-cases (vault_exists io s.store)) [
      | inr n ↦ absurd (ground (arith, e))
      | inl y ↦
          let f : (handle_unlock pf io now s Method.post (some req)).1.store
              ≡ (Operations.unlock pf io s.store req.password).1 =
            ground (arith, e) in
          let v =
            unlock-verified pf io s.store req.password l
              (subst (λ (t : Store). is_locked t ≡ false) f u) in
          (req, v.0, refl, ap (λ (t : Store). t.meta) f ∙ v.1, v.2)
    ]
handle_unlock-verified pf io now s _ body l u = absurd (ground arith)
