-- ===== src/Services/Audit.antt =====
-- `InMemoryAuditRepository` of src/rescs/repositories/memory.py, but for `append`, and the methods of
-- `AuditService` of src/rescs/services/audit.py that hand over to it.
pub mod Pruning
use rescs.Prelude.{
  String, ◌==◌, string_eq, nat_eq, ℕ, Bool, true, false, not, ◌&&◌, ◌||◌, Option, none, some, List,
  filter, drop, take, leb, ltb, length, text_leb,
}
use rescs.Prelude.Int.{ℤ}
use rescs.Errors.{ok}
use rescs.Action.{Action, gets}
use rescs.Dict.{filter_items, values, count}
use rescs.Domain.{AuditData, Page, Datetime, ensure_utc}
use rescs.Memory.Store.{sort}
use rescs.Memory.Records.{is_wanted}
use rescs.World.{World}
use rescs.Services.Common.{clamp_pagination}

abbrev pub is_since : Option Datetime → ℕ → Bool
is_since none moment = true
is_since (some since) moment = leb (ensure_utc since) moment

-- The arguments of `list`, but for the page.
pub record AuditFilter : Type 0 where
  pub owner : Option String
  pub operation : Option String
  pub since : Option Datetime

-- The test of `list`.
unfoldable pub event_matches : AuditFilter → AuditData → Bool
event_matches f e =
    is_wanted f.owner e.owner && is_wanted f.operation e.operation && is_since f.since e.timestamp

-- `key=lambda e: (ensure_utc(e.timestamp), e.id)`
abbrev pub by_time : AuditData → AuditData → Bool
by_time a b = ltb a.timestamp b.timestamp || (a.timestamp == b.timestamp && text_leb a.id b.id)

-- `InMemoryAuditRepository.list`
unfoldable pub list_events : AuditFilter → ℕ → ℕ → Action World (Page AuditData)
unfolding event_matches
list_events f limit offset = gets λ w.
    let found = sort by_time (filter (event_matches f) (values w.events)) in
    record {
      items = take limit (drop offset found);
      total = length found;
      limit = limit;
      offset = offset;
    }

-- `AuditService.list`
unfoldable pub list : AuditFilter → ℤ → ℤ → Action World (Page AuditData)
unfolding list_events clamp_pagination
list f limit offset = let (l, o) = clamp_pagination limit offset in list_events f l o

abbrev pub is_before : ℕ → AuditData → Bool
is_before moment e = ltb e.timestamp moment

-- `prune_before` of the repository and of the service.
unfoldable pub prune_before : Datetime → Action World ℕ
prune_before cutoff w =
    let moment = ensure_utc cutoff in
    (
      ok (count (is_before moment) w.events),
      record w { events = filter_items (λ _ e. not (is_before moment e)) w.events },
    )
