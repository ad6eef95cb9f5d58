-- ===== src/Client/Laws.antt =====
-- What a client answers, over any provider that keeps the contract, and which factory a URI reaches.
use omnivault.Base.{
  Bytes, false, Option, some, lookup-insert, lookup-delete, bytes_eq_self, is_empty, ◌≡◌, ◌≢◌, ◌∙◌,
  sym, bytes_eq_ne,
}
use omnivault.Vault.Types.{Secret, new_secret, reveal}
use omnivault.Vault.Interface.{Vault, Result, ok, err, Clock}
use omnivault.Vault.Contract.{Contract}
use omnivault.Client.{
  get_value, set_value, Registry, register_provider, unregister_provider, registered_schemes,
  vault_from_uri, unknown_scheme, scheme_of,
}

module _ {ℓ} {S : Type ℓ} (v : Vault S) (Ready : S → Type 0) (Accepts : Bytes → Secret → Type 0)
    (view : S → Bytes → Option Secret) (stored : Clock → Bytes → Secret → Secret)
    (contract : Contract v Ready Accepts view stored) where
  get_value-found :
      (s : S) (p : Bytes) (x : Secret)
      → Ready s
      → view s p ≡ some x
      → get_value v s p ≡ ok (reveal x)
  unfolding get_value
  get_value-found s p x r h = rw (contract.get_found s p x r h)

  -- Over a provider that keeps the contract, in a state where it can be used and for a value that it
  -- can write: SetValue succeeds, GetValue of the path from there answers the value of what was
  -- stored, and GetValue of another path that has a secret answers what it answered before.
  pub get_value-set_value :
      (s : S) (clock : Clock) (path value other : Bytes) (y : Secret)
      → Ready s
      → Accepts path (new_secret value)
      → path ≢ other
      → view s other ≡ some y
      → ((set_value v s clock path value).0 ≡ ok tt)
        × (get_value v (set_value v s clock path value).1 path
            ≡ ok (reveal (stored clock path (new_secret value))))
        × (get_value v (set_value v s clock path value).1 other ≡ get_value v s other)
  unfolding set_value
  get_value-set_value s clock path value other y r a n h =
      let x = new_secret value in
      let (done, ready) = contract.set_done s clock path x r a in
      let t = (v.set s clock path (some x)).1 in
      (
        done,
        get_value-found t path (stored clock path x) ready
            (rw (contract.set_view s clock path x path r a, bytes_eq_self path)),
        get_value-found t other y ready
              (rw (contract.set_view s clock path x other r a, bytes_eq_ne path other n) h)
            ∙ sym (get_value-found s other y r h),
      )

module _ {ℓ} {V : Type ℓ} {F : Type 0} where
  -- A URI whose scheme is not empty reaches the factory that was registered last for the scheme, with
  -- the URI and the state of its world; when that is unregistered, the scheme is unknown.
  pub vault_from_uri-register :
      (r : Registry V F) (factory : Bytes → F → Result V × F) (uri : Bytes) (s : F)
      → is_empty (scheme_of uri) ≡ false
      → (vault_from_uri (register_provider (scheme_of uri) factory r) uri s ≡ factory uri s)
        × (vault_from_uri (unregister_provider (scheme_of uri) r) uri s ≡ (
          err (
              unknown_scheme
                (registered_schemes (unregister_provider (scheme_of uri) r))
                (scheme_of uri)),
          s,
        ))
  unfolding vault_from_uri register_provider unregister_provider registered_schemes
  vault_from_uri-register r factory uri s h =
      let u = scheme_of uri in
      (
        rw (h, lookup-insert u u factory r, bytes_eq_self u),
        rw (h, lookup-delete u u r, bytes_eq_self u),
      )
