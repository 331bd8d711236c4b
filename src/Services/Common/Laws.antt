-- ===== src/Services/Common/Laws.antt =====
-- Pagination, etags and the audit trail.
use mathlib.Core.List.{Perm}
use rescs.Prelude.{
  ◌≤◌, String, List, ◌≡◌, ap, arith, text_leb, true, none, some, string_eq, refl, ◌+◌,
  if◌then◌else◌,
}
use text.Mathlib.TextEquality.{IsScalar-prop}
use rescs.Prelude.Int.{ℤ, pos}
use rescs.Prelude.TextOrder.{text_leb_total, text_leb_trans, text_leb_antisymm}
use rescs.Domain.{Json}
use rescs.Memory.Store.Sorting.{IsTotal, sort-eq_of_perm}
use rescs.Dict.Laws.{get-set_self}
use rescs.Dict.{get}
use rescs.World.{Runtime}
use rescs.Services.Common.{
  clamp_pagination, max_limit, content_etag, Service, LogEntry, World, audited, ok, event_of, Error,
  Action, Result, on_error, handle, pure, err,
}

-- Whatever integers a client sends, the limit is from 1 to 500, and clamping what was clamped
-- changes nothing.
pub clamp_pagination_bounds :
    (limit offset : ℤ)
    → let (l, o) = clamp_pagination limit offset in
      (1 ≤ l) × (l ≤ max_limit) × (clamp_pagination (pos l) (pos o) ≡ (l, o))
unfolding clamp_pagination
clamp_pagination_bounds limit offset = (omega arith, omega arith, ground arith)

text_leb-IsTotal : IsTotal text_leb
text_leb-IsTotal = record { total = text_leb_total; trans = text_leb_trans }

texts_set : IsSet (List String)
texts_set = hlevel IsScalar-prop

-- The order of the tags does not change the etag of a record.
pub content_etag-perm :
    (rt : Runtime) (value metadata : Json) {tags shuffled : List String}
    → Perm tags shuffled
    → content_etag rt value metadata tags ≡ content_etag rt value metadata shuffled
unfolding content_etag
content_etag-perm rt value metadata p =
    ap (λ t. rt.sha256_text (rt.canonical value metadata t))
      (sort-eq_of_perm text_leb text_leb-IsTotal text_leb_antisymm texts_set p)

module _ (rt : Runtime) (svc : Service) (e : LogEntry) (w : World) where
  -- Logging never raises, whatever the audit repository answers, and changes no repository but its
  -- own.
  pub audited_silent :
      ((audited rt svc e w).0 ≡ ok tt)
      × ((audited rt svc e w).1.records ≡ w.records)
      × ((audited rt svc e w).1.files ≡ w.files)
      × ((audited rt svc e w).1.sessions ≡ w.sessions)
      × ((audited rt svc e w).1.blobs ≡ w.blobs)
  unfolding audited
  audited_silent = ground arith

  -- With an audit service, and an id that no event has, one event is added under that id, with what
  -- the caller said.
  pub audited_event :
      svc.audits ≡ true
      → get (rt.uuid w.uuids) w.events ≡ none
      → get (rt.uuid w.uuids) (audited rt svc e w).1.events
        ≡ some (event_of rt e (rt.uuid w.uuids) (rt.clock w.ticks))
  unfolding audited
  audited_event on free = ground (
    arith,
    get-set_self (rt.uuid w.uuids) (event_of rt e (rt.uuid w.uuids) (rt.clock w.ticks)) w.events,
  )

  -- Logging reads the clock once, whether the event can be appended or not.
  pub audited-ticks : (audited rt svc e w).1.ticks ≡ w.ticks + (if svc.audits then 1 else 0)
  unfolding audited
  audited-ticks = ground arith

settle-eq-ok :
    {A : Type 0} (h : Error → Action World (Unit {0})) (p : Result A × World) (a : A)
    → (handle p pure (λ e w. (err e, (h e w).1))).0 ≡ ok a
    → (p.0 ≡ ok a) × (handle p pure (λ e w. (err e, (h e w).1)) ≡ p)
settle-eq-ok h (ok b, w) a e = (e, refl)
settle-eq-ok h (err c, w) a e = ground arith

-- A `try` that returned has run its body and nothing else.
pub on_error-eq-ok :
    {A : Type 0} (h : Error → Action World (Unit {0})) (m : Action World A) (w : World) (a : A)
    → (on_error h m w).0 ≡ ok a
    → ((m w).0 ≡ ok a) × (on_error h m w ≡ m w)
on_error-eq-ok h m w a e = settle-eq-ok h (m w) a e

settle_ok :
    {A : Type 0} (h : Error → Action World (Unit {0})) (p : Result A × World) (a : A)
    → p.0 ≡ ok a
    → handle p pure (λ e w. (err e, (h e w).1)) ≡ p
settle_ok h (ok b, w) a e = refl
settle_ok h (err c, w) a e = ground arith

pub on_error_ok :
    {A : Type 0} (h : Error → Action World (Unit {0})) (m : Action World A) (w : World) (a : A)
    → (m w).0 ≡ ok a
    → on_error h m w ≡ m w
on_error_ok h m w a e = settle_ok h (m w) a e
