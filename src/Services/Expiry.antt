-- ===== src/Services/Expiry.antt =====
-- src/rescs/services/expiry.py
pub mod Laws
use rescs.Prelude.{ℕ, ◌+◌, ◌-◌, ◌*◌, Option, none, some, leb, if◌then◌else◌, nat_eq}
use rescs.Prelude.Int.{ℤ, clip, lt_ℕ}
use rescs.Errors.{Result, ok, err, invalid_request}
use rescs.Action.{Action, raise, lift, ◌>>=◌}
use rescs.Domain.{Datetime, ensure_utc}
use rescs.World.{Runtime, World, utcnow}
use rescs.Services.Common.{Settings, exceeds}

-- One second, in microseconds.
abbrev pub second : ℕ
second = 1000000

abbrev pub max_ttl : Option Settings → ℕ
max_ttl none = 31536000
max_ttl (some s) = s.max_ttl_seconds

-- The last test: `(moment - now).total_seconds() > max_ttl`.
unfoldable pub within_ttl : ℕ → ℕ → ℕ → Result (Option ℕ)
within_ttl now limit moment =
    if exceeds (moment - now) (limit * second) then err invalid_request else ok (some moment)

-- What follows the reading of the clock.
unfoldable pub resolve_at : ℕ → Option Datetime → Option ℤ → Option Settings → Result (Option ℕ)
unfolding within_ttl
resolve_at now expires_at (some ttl) settings =
    if lt_ℕ ttl 1
    then err invalid_request
    else within_ttl now (max_ttl settings) (now + clip ttl * second)
resolve_at now (some t) none settings =
    if leb (ensure_utc t) now
    then err invalid_request
    else within_ttl now (max_ttl settings) (ensure_utc t)
resolve_at now none none settings = ok none

unfoldable pub resolve_expiry :
    Runtime → Option Datetime → Option ℤ → Option Settings → Action World (Option ℕ)
unfolding utcnow
resolve_expiry rt (some t) (some ttl) settings = raise invalid_request
resolve_expiry rt expires_at ttl settings = do
  now ← utcnow rt
  lift (resolve_at now expires_at ttl settings)
