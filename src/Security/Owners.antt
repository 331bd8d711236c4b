-- ===== src/Security/Owners.antt =====
-- What the owner lock of `RESCS_API_KEY_OWNER` guarantees.
use rescs.Prelude.{String, string_eq, ◌≡◌, false, Option, none, ◌⊎◌, arith, is_empty, ◌↔◌}
use rescs.Errors.{ok, err, unauthorized}
use rescs.Security.{enforce_owner, scoped_query_owner, assert_principal_is_owner}

-- With a lock, a write is made for the locked owner or refused, a listing is filtered by the locked
-- owner or refused, and another owner's resource is refused; a request that names no owner
-- is served as the locked one.
pub lock_confines :
    (requested : Option String) (principal lock owner : String)
    → is_empty lock ≡ false
    → ((enforce_owner requested principal lock ≡ ok lock)
        ⊎ (enforce_owner requested principal lock ≡ err unauthorized))
      × ((scoped_query_owner requested principal lock ≡ ok lock)
          ⊎ (scoped_query_owner requested principal lock ≡ err unauthorized))
      × (enforce_owner none principal lock ≡ ok lock)
      × ((assert_principal_is_owner owner lock ≡ ok tt) ↔ (owner ≡ lock))
unfolding enforce_owner scoped_query_owner assert_principal_is_owner
lock_confines requested principal lock owner locked = (
  ground arith,
  ground arith,
  ground arith,
  (
    λ h. ground (arith, string_eq.beq_iff owner lock),
    λ h. ground (arith, string_eq.beq_iff owner lock),
  ),
)
