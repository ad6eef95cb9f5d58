-- ===== src/Client/Registered.antt =====
-- VaultFromURI over the registry: which factory a URI reaches.
use omnivault.Base.{
  Bytes, false, ◌≡◌, arith, is_empty, bytes_eq, if◌then◌else◌, insert, lookup-insert,
  lookup-delete_self, bytes_eq_self,
}
use omnivault.Vault.Interface.{Result, err}
use omnivault.Client.{
  Registry, scheme_of, unknown_scheme, register_provider, unregister_provider, registered_schemes,
  vault_from_uri,
}

-- A URI whose scheme is not empty reaches the factory that was registered last for its scheme,
-- whatever is registered for other schemes, and fails with ErrUnknownScheme after the scheme is
-- unregistered.
pub vault_from_uri-register {ℓ} :
    {V : Type ℓ} {F : Type 0} (f g : Bytes → F → Result V × F) (r : Registry V F) (t uri : Bytes)
    (s : F)
    → is_empty (scheme_of uri) ≡ false
    → (vault_from_uri (register_provider t g (register_provider (scheme_of uri) f r)) uri s
        ≡ (if bytes_eq t (scheme_of uri) then g uri s else f uri s))
      × (vault_from_uri (unregister_provider (scheme_of uri) r) uri s ≡ (
        err (
            unknown_scheme
              (registered_schemes (unregister_provider (scheme_of uri) r))
              (scheme_of uri)),
        s,
      ))
unfolding vault_from_uri register_provider unregister_provider
vault_from_uri-register f g r t uri s h = (
  ground (
    arith,
    h,
    lookup-insert t (scheme_of uri) g (insert (scheme_of uri) f r),
    lookup-insert (scheme_of uri) (scheme_of uri) f r,
    bytes_eq_self (scheme_of uri),
  ),
  ground (arith, h, lookup-delete_self (scheme_of uri) r),
)
