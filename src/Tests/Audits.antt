-- ===== src/Tests/Audits.antt =====
-- The audit events.
use rescs.Prelude.{◌≡◌, ◌↔◌, ◌+◌, some, false, [], ◌∷◌, length, refl, string_eq}
use rescs.Errors.{ok}
use rescs.Dict.{get, count}
use rescs.Domain.{AuditData, naive, ensure_utc}
use rescs.World.{World}
use rescs.Services.Audit.{prune_before, is_before}
use rescs.Services.Audit.Pruning.{prune_before_lem}
use rescs.Services.Common.{event_of}
use rescs.Services.Records.Audited.{success_entry}
use rescs.Tests.Data.{runtime, world, first_record}

abbrev old_event : AuditData
old_event = event_of runtime (success_entry "record.create" first_record) "x" 10

abbrev new_event : AuditData
new_event = event_of runtime (success_entry "record.put" first_record) "y" 20

abbrev logged_world : World
logged_world = record world { events = ("x", old_event) ∷ ("y", new_event) ∷ [] }

prune_before_lem_example :
    let (n, w') = prune_before (naive 20) logged_world in
    (n ≡ ok (count (is_before (ensure_utc (naive 20))) logged_world.events))
    × (length logged_world.events
        ≡ count (is_before (ensure_utc (naive 20))) logged_world.events + length w'.events)
    × ((get "x" w'.events ≡ some old_event) ↔ (
        (get "x" logged_world.events ≡ some old_event)
        × (is_before (ensure_utc (naive 20)) old_event ≡ false)))
unfolding get
prune_before_lem_example = prune_before_lem (naive 20) "x" old_event logged_world (refl, (refl, tt))
