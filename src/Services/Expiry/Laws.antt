-- ===== src/Services/Expiry/Laws.antt =====
-- What `resolve_expiry` accepts.
use rescs.Prelude.{ℕ, ◌+◌, ◌*◌, ◌≤◌, ◌<◌, ◌≡◌, arith, Option, none, some, ◌⊎◌}
use rescs.Prelude.Int.{ℤ}
use rescs.Errors.{ok}
use rescs.Domain.{Datetime}
use rescs.Services.Common.{Settings}
use rescs.Services.Expiry.{resolve_at, max_ttl, second}

-- An expiry that is accepted lies after the instant at which it was resolved, and no further from
-- it than the maximum, unless that is 0.
pub resolve_at_bounds :
    (now : ℕ) (expires_at : Option Datetime) (ttl : Option ℤ) (settings : Option Settings) (m : ℕ)
    → resolve_at now expires_at ttl settings ≡ ok (some m)
    → (now < m) × ((max_ttl settings ≡ 0) ⊎ (m ≤ now + max_ttl settings * second))
unfolding resolve_at
resolve_at_bounds now expires_at (some ttl) settings m h = ground arith
resolve_at_bounds now (some t) none settings m h = ground arith
resolve_at_bounds now none none settings m h = ground arith
