-- ===== src/Services/Audit/Pruning.antt =====
-- What `prune_before` removes.
use rescs.Prelude.{String, string_eq, ◌+◌, ◌≡◌, not, some, [], ◌∷◌, length, arith, Bool, ◌↔◌, false}
use rescs.Errors.{ok}
use rescs.Dict.{Dict, get, count, filter_items, IsUnique}
use rescs.Dict.Laws.{get-filter}
use rescs.Domain.{AuditData, Datetime, ensure_utc}
use rescs.World.{World}
use rescs.Services.Audit.{prune_before, is_before}

count-filter :
    (p : AuditData → Bool) (d : Dict String AuditData)
    → length d ≡ count p d + length (filter_items (λ _ e. not (p e)) d)
unfolding count filter_items
count-filter p [] = ground arith
count-filter p ((k, e) ∷ d) = ground (arith, count-filter p d)

-- Where no id is listed twice, `prune_before` returns the number of the events that are older than the
-- cutoff, there are so many fewer after it, and an event is found by an id after it exactly if it
-- was found by it before and is not older than the cutoff.
pub prune_before_lem :
    (cutoff : Datetime) (id : String) (e : AuditData) (w : World)
    → IsUnique w.events
    → let (n, w') = prune_before cutoff w in
      (n ≡ ok (count (is_before (ensure_utc cutoff)) w.events))
      × (length w.events ≡ count (is_before (ensure_utc cutoff)) w.events + length w'.events)
      × ((get id w'.events ≡ some e)
          ↔ ((get id w.events ≡ some e) × (is_before (ensure_utc cutoff) e ≡ false)))
unfolding prune_before
prune_before_lem cutoff id e w unique = ground (
  arith,
  count-filter (is_before (ensure_utc cutoff)) w.events,
  get-filter (λ _ e. not (is_before (ensure_utc cutoff) e)) id w.events unique,
)
