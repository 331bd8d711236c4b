-- ===== src/Tests/Stores.antt =====
-- The store.
use rescs.Prelude.{
  ◌≡◌, ◌≢◌, ◌⊎◌, refl, true, some, none, ◌==◌, string_eq, pair_eq, arith, All, length, ◌-◌, sym,
  filter, List, [], ◌∷◌,
}
use Prim.Native.Nat.{min}
use rescs.Errors.{ok, err, conflict, not_found, is_ok}
use mathlib.Core.List.{Perm}
use rescs.Dict.{values, count, get, set, contains}
use rescs.Domain.{RecordData}
use rescs.Memory.Store.{
  empty_store, create, update, delete, fetch, get_by_natural_key, find_by_idempotency_key, page,
  count_items,
}
use rescs.Memory.Store.Invariant.{IsIndexed}
use rescs.Memory.Store.Reach.{Reach, start, next, creates, Reach-IsIndexed, Reach-no_key_error}
use rescs.Memory.Store.Effects.{
  fetch-create, create_atomic, fetch-delete, fetch-update, update_not_atomic, delete-update_orphans,
}
use rescs.Memory.Store.Abstract.{Call, view, updates, deletes, finds_name, finds_key}
use rescs.Memory.Store.Refinement.{run_store, run_maps, run_store-eq-run_maps}
use rescs.Memory.Store.Pages.{page_lem, walk, walk_lem, InOrder}
use rescs.Memory.Records.{record_item}
use rescs.Tests.Data.{first_record, second_record, one_store, two_store}

pub one_store-Reach : Reach one_store
one_store-Reach = next start (creates first_record (some ("default", "k")) empty_store)

pub two_store-Reach : Reach two_store
two_store-Reach = next one_store-Reach (creates second_record (some ("default", "l")) one_store)

Reach-IsIndexed_example : IsIndexed two_store
Reach-IsIndexed_example = Reach-IsIndexed two_store-Reach

Reach-no_key_error_example :
    (is_ok (get_by_natural_key "default" "k" two_store).0 ≡ true)
    × (is_ok (find_by_idempotency_key "k" two_store).0 ≡ true)
Reach-no_key_error_example = Reach-no_key_error "default" "k" two_store-Reach

texts_differ : first_record.id ≢ second_record.id
texts_differ h = ground (arith, string_eq.beq_iff "a" "b")

second_created : (create second_record (some ("default", "l")) one_store).0 ≡ ok second_record
unfolding create get set
second_created = refl

fetch-create_example :
    let s' = (create second_record (some ("default", "l")) one_store).1 in
    (get "b" one_store.items ≡ none)
    × (get ("default", "l") one_store.namespace_keys ≡ none)
    × (fetch "b" s' ≡ (ok second_record, s'))
    × (get_by_natural_key "default" "l" s' ≡ (ok (some second_record), s'))
    × (get "a" s'.items ≡ get "a" one_store.items)
fetch-create_example =
    fetch-create second_record "default" "l" "a" one_store second_created
      (λ h. texts_differ (sym h))

create_atomic_example :
    ((create second_record (some ("default", "k")) one_store).0 ≡ ok second_record)
    ⊎ (create second_record (some ("default", "k")) one_store ≡ (err conflict, one_store))
create_atomic_example = create_atomic second_record (some ("default", "k")) one_store

fetch-delete_example :
    let s' = (delete "a" two_store).1 in
    (fetch "a" s' ≡ (err not_found, s'))
    × (get ("default", "k") s'.namespace_keys ≢ some "a")
    × (get "k" s'.idempotency ≢ some "a")
    × (get "b" s'.items ≡ get "b" two_store.items)
fetch-delete_example =
    fetch-delete "a" "b" "default" "k" two_store (Reach-IsIndexed two_store-Reach) texts_differ

abbrev greedy : RecordData
greedy = record second_record { idempotency_key = some "once" }

two_listed : contains "b" two_store.items ≡ true
unfolding create get set
two_listed = refl

fetch-update_example :
    let s' = (update second_record (some ("default", "m")) two_store).1 in
    (fetch "b" s' ≡ (ok second_record, s'))
    × (get_by_natural_key "default" "m" s' ≡ (ok (some second_record), s'))
    × (get "a" s'.items ≡ get "a" two_store.items)
fetch-update_example =
    fetch-update second_record "default" "m" "a" two_store two_listed (λ h. texts_differ (sym h))

once_taken : get "once" two_store.idempotency ≡ some "a"
unfolding create get set
once_taken = refl

update_not_atomic_example :
    ((update greedy (some ("default", "l")) two_store).0 ≡ err conflict)
    × (get "b" (update greedy (some ("default", "l")) two_store).1.items ≡ some greedy)
update_not_atomic_example =
    update_not_atomic greedy (some ("default", "l")) "once" "a" two_store two_listed refl once_taken
      texts_differ

first_named : get_by_natural_key "default" "k" two_store ≡ (ok (some first_record), two_store)
unfolding create get set get_by_natural_key
first_named = refl

delete-update_orphans_example :
    let s' = (delete "b" (update second_record (some ("default", "k")) two_store).1).1 in
    (get_by_natural_key "default" "k" s' ≡ (ok none, s')) × (fetch "a" s' ≡ (ok first_record, s'))
delete-update_orphans_example =
    delete-update_orphans second_record first_record "default" "k" two_store
      (Reach-IsIndexed two_store-Reach) two_listed first_named (λ h. texts_differ (sym h))

page_lem_example :
    let p = λ (r : RecordData). r.owner == "ann" in
    All (λ x. p x ≡ true) (page p 1 0 two_store)
    × InOrder (page p 1 0 two_store)
    × (length (page p 1 0 two_store) ≡ min 1 (count_items p two_store - 0))
page_lem_example = page_lem (λ (r : RecordData). r.owner == "ann") 1 0 two_store

-- Two pages of one record each hold both records of the owner.
owned_count : count_items (λ (r : RecordData). r.owner == "ann") two_store ≡ 2
unfolding count_items count create set get
owned_count = refl

walk_lem_example :
    let p = λ (r : RecordData). r.owner == "ann" in
    Perm (walk p 1 2 0 two_store) (filter p (values two_store.items))
    × InOrder (walk p 1 2 0 two_store)
walk_lem_example =
    walk_lem (λ (r : RecordData). r.owner == "ann") 1 2 two_store (omega (arith, owned_count))

abbrev calls : List (Call RecordData)
calls =
    finds_name "default" "k"
    ∷ updates (record second_record { idempotency_key = some "once" }) (some ("default", "k"))
    ∷ finds_name "default" "k"
    ∷ deletes "a"
    ∷ finds_key "once"
    ∷ []

run_store-eq-run_maps_example :
    ((run_store calls two_store).0 ≡ (run_maps calls (view two_store)).0)
    × (view (run_store calls two_store).1 ≡ (run_maps calls (view two_store)).1)
run_store-eq-run_maps_example =
    run_store-eq-run_maps calls two_store (Reach-IsIndexed two_store-Reach)
