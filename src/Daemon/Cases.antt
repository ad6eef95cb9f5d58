-- ===== src/Daemon/Cases.antt =====
-- Case analysis of a handler: what holds at each of its returns holds of its result.
use omnivault.Base.{Bool, true, false, ◌≡◌, refl, Option, none, some, if◌then◌else◌}
use omnivault.Vault.Errors.{Error}
use omnivault.Vault.Interface.{ok, err, panic}
use omnivault.Store.Disk.{Store, Outcome}
use omnivault.Daemon.Protocol.{
  Method, Reply, crashed, Server, method_not_allowed, invalid_body, with_store,
}
use omnivault.Daemon.Session.{if_post, if_get, decoded, answered}

module _ (P : Reply × Server → Type 0) where
  pub at_if :
      (b : Bool) (x y : Reply × Server)
      → (b ≡ true → P x)
      → (b ≡ false → P y)
      → P (if b then x else y)
  at_if true x y h k = h refl
  at_if false x y h k = k refl

  pub at_post :
      (m : Method) (s : Server) (next : Reply × Server)
      → P (method_not_allowed, s)
      → P next
      → P (if_post m s next)
  at_post Method.post s next h k = k
  at_post Method.get s next h k = h
  at_post Method.put s next h k = h
  at_post Method.delete s next h k = h
  at_post Method.other s next h k = h

  pub at_get :
      (m : Method) (s : Server) (next : Reply × Server)
      → P (method_not_allowed, s)
      → P next
      → P (if_get m s next)
  at_get Method.get s next h k = k
  at_get Method.post s next h k = h
  at_get Method.put s next h k = h
  at_get Method.delete s next h k = h
  at_get Method.other s next h k = h

  pub at_decoded {ℓ} :
      {R : Type ℓ} (body : Option R) (s : Server) (next : R → Reply × Server)
      → P (invalid_body, s)
      → ((r : R) → body ≡ some r → P (next r))
      → P (decoded body s next)
  at_decoded none s next h k = h
  at_decoded (some r) s next h k = k r refl

  pub at_answered :
      (s : Server) (o : Outcome) (failed : Error → Reply) (next : Server → Reply × Server)
      → ((t : Store) → o ≡ (ok tt, t) → P (next (with_store s t)))
      → ((e : Error) (t : Store) → o ≡ (err e, t) → P (failed e, with_store s t))
      → ((t : Store) → o ≡ (panic, t) → P (crashed, with_store s t))
      → P (answered s o failed next)
  at_answered s (ok u, t) failed next h k l = h t refl
  at_answered s (err e, t) failed next h k l = k e t refl
  at_answered s (panic, t) failed next h k l = l t refl
