-- ===== src/Tests/Small.antt =====
-- Tags, etags, expiries, pagination, audit events, owners, devices and the rate limiter.
use Prim.Native.String.{◌++◌}
use text.Mathlib.Text.{starts_with}
use mathlib.Core.List.Perm
use rescs.Prelude.{
  String, ◌≡◌, ◌↔◌, ◌⊎◌, refl, true, some, none, ◌+◌, ◌*◌, ◌≤◌, ◌<◌, [], ◌∷◌, length, map, strip,
  arith, string_eq,
}
use rescs.Prelude.Int.{pos, negsuc}
use rescs.Errors.{ok, err, unauthorized, value_error}
use rescs.RateLimit.{Limits, Request, dispatch, passed}
use rescs.Config.{validate_bulk_batch}
use rescs.Dict.{get, set, filter_items}
use rescs.Domain.{object, end_fields}
use rescs.Domain.Tags.{normalize_tags, member}
use rescs.Domain.Tags.Laws.{AreDistinct, normalize_tags-set}
use rescs.Services.Common.{clamp_pagination, max_limit, content_etag}
use rescs.Services.Common.Laws.{clamp_pagination_bounds, content_etag-perm}
use rescs.Services.Expiry.{resolve_at, max_ttl, second}
use rescs.Services.Expiry.Laws.{resolve_at_bounds}
use rescs.Security.{
  enforce_owner, scoped_query_owner, assert_principal_is_owner, validate_device_namespace,
  validate_device_owner, device_scope,
}
use rescs.Security.Owners.{lock_confines}
use rescs.Security.Devices.{validate_device_namespace_scoped, validate_device_owner_confused}
use rescs.RateLimit.Window.{serve, recent, serve-within_limit}
use rescs.Tests.Data.{runtime, settings}

tags_run : normalize_tags (" red" ∷ "blue " ∷ "red" ∷ []) ≡ "red" ∷ "blue" ∷ []
unfolding normalize_tags member strip
tags_run = refl

normalize_tags-set_example :
    AreDistinct (normalize_tags (" red" ∷ " " ∷ "red" ∷ []))
    × ((t : String)
        → member t (normalize_tags (" red" ∷ " " ∷ "red" ∷ []))
          ≡ member t (map strip (" red" ∷ " " ∷ "red" ∷ [])))
normalize_tags-set_example = normalize_tags-set (" red" ∷ " " ∷ "red" ∷ [])

clamp_pagination_bounds_example :
    let (l, o) = clamp_pagination (pos 900) (negsuc 3) in
    (1 ≤ l) × (l ≤ max_limit) × (clamp_pagination (pos l) (pos o) ≡ (l, o))
clamp_pagination_bounds_example = clamp_pagination_bounds (pos 900) (negsuc 3)

content_etag-perm_example :
    content_etag runtime (object end_fields) (object end_fields) ("a" ∷ "b" ∷ [])
    ≡ content_etag runtime (object end_fields) (object end_fields) ("b" ∷ "a" ∷ [])
content_etag-perm_example =
    content_etag-perm runtime (object end_fields) (object end_fields) (Perm.swap "b" "a" [])

resolved : resolve_at 1000 none (some (pos 30)) (some settings) ≡ ok (some 30001000)
unfolding resolve_at
resolved = refl

resolve_at_bounds_example :
    (1000 < 30001000)
    × ((max_ttl (some settings) ≡ 0) ⊎ (30001000 ≤ 1000 + max_ttl (some settings) * second))
resolve_at_bounds_example =
    resolve_at_bounds 1000 none (some (pos 30)) (some settings) 30001000 resolved

lock_confines_example :
    ((enforce_owner (some "bob") "ann" "ann" ≡ ok "ann")
      ⊎ (enforce_owner (some "bob") "ann" "ann" ≡ err unauthorized))
    × ((scoped_query_owner (some "bob") "ann" "ann" ≡ ok "ann")
        ⊎ (scoped_query_owner (some "bob") "ann" "ann" ≡ err unauthorized))
    × (enforce_owner none "ann" "ann" ≡ ok "ann")
    × ((assert_principal_is_owner "bob" "ann" ≡ ok tt) ↔ (◌≡◌ {A = String} "bob" "ann"))
lock_confines_example = lock_confines (some "bob") "ann" "ann" "bob" refl

namespace_run : validate_device_namespace "notes" "dev1" ≡ ok "personal.device.dev1.notes"
unfolding validate_device_namespace
namespace_run = refl

validate_device_namespace_scoped_example :
    starts_with "personal.device.dev1.notes" (device_scope "dev1" ++ ".") ≡ true
validate_device_namespace_scoped_example =
    validate_device_namespace_scoped "notes" "dev1" "personal.device.dev1.notes" namespace_run

validate_device_owner_confused_example :
    validate_device_owner (some (device_scope "dev12")) "dev1" ≡ ok (some (device_scope "dev12"))
validate_device_owner_confused_example = validate_device_owner_confused "dev1" "2"

serve-within_limit_example : length (recent 30 (serve 2 "k" (10 ∷ 20 ∷ 30 ∷ []) [] []).0) ≤ 2
unfolding get
serve-within_limit_example = serve-within_limit 2 "k" (10 ∷ 20 ∷ 30 ∷ []) [] refl (omega arith)

abbrev limits : Limits
limits = record {
  enabled = true;
  general_per_minute = 0;
  writes_per_minute = 1;
  uploads_per_minute = 0;
}

abbrev write : Request
write = record { path = "/api/v1/records"; method = "POST"; api_key = none }

dispatch_run : dispatch (λ s. s) limits write 5 [] ≡ (some (passed 0), ("anon:writes", 5 ∷ []) ∷ [])
unfolding dispatch get set filter_items
dispatch_run = refl

batch_run : validate_bulk_batch (pos 1001) ≡ err value_error
unfolding validate_bulk_batch
batch_run = refl
