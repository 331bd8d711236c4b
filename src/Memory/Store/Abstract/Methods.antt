-- ===== src/Memory/Store/Abstract/Methods.antt =====
-- Each method of `_InMemoryStore` that changes the store or finds an item does what the maps do.
use rescs.Prelude.{
  String, ◌==◌, string_eq, pair_eq, ◌≡◌, refl, ◌∙◌, ap, Option, none, some, arith, if◌then◌else◌,
  truthy, Option-cases, Bool-cases, inl, inr,
}
use rescs.Errors.{Result, ok, err, conflict, not_found}
use rescs.Dict.{get, set, contains}
use rescs.Dict.Laws.{get-set, get-pop}
use rescs.Memory.Store.{
  Item, Store, Natural, create, update, delete, fetch, move, index_key, is_taken,
}
use rescs.Memory.Store.Invariant.{IsIndexed}
use rescs.Memory.Store.Abstract.Lookups.{get-claim, get-dropped, get-move, is_used-eq-is_taken}
use rescs.Memory.Store.Abstract.{
  Maps, view, with_key, is_foreign, call_maps, creates, updates, deletes, fetches,
}

-- What a method answers, with the item if it returns one.
abbrev pub shown : {T : Type 0} → Result T × Store T → Result (Option T) × Store T
shown (ok item, s) = (ok (some item), s)
shown (err e, s) = (err e, s)

abbrev pub cleared : {T : Type 0} → Result (Unit {0}) × Store T → Result (Option T) × Store T
cleared (ok _, s) = (ok none, s)
cleared (err e, s) = (err e, s)

maps_ext :
    {T : Type 0} (m n : Maps T)
    → ((id : String) → m.item_of id ≡ n.item_of id)
    → ((name : String × String) → m.id_at name ≡ n.id_at name)
    → ((key : String) → m.id_for key ≡ n.id_for key)
    → m ≡ n
maps_ext m n f g h =
    λ j. record { item_of = λ id. f id j; id_at = λ name. g name j; id_for = λ key. h key j }

module _ {T : Type 0} ⦃i : Item T⦄ where
  -- The answer and the view of a call are those of the maps.
  abbrev pub Agrees : Result (Option T) × Store T → Result (Option T) × Maps T → Type 0
  Agrees p q = (p.0 ≡ q.0) × (view p.1 ≡ q.1)

  pub create-Agrees :
      (item : T) (natural : Natural) (s : Store T)
      → Agrees (shown (create item natural s)) (call_maps (creates item natural) (view s))
  unfolding create call_maps
  create-Agrees item natural s = elim (Bool-cases (contains (i.id item) s.items)) [
    | inl there ↦ rw there (refl, refl)
    | inr absent ↦ elim (Bool-cases (is_taken natural s.namespace_keys)) [
      | inl taken ↦ rw (absent, is_used-eq-is_taken natural s.namespace_keys, taken) (refl, refl)
      | inr free ↦
          let key = truthy (i.idempotency_key item) in
          elim (Bool-cases (is_taken key s.idempotency)) [
            | inl used ↦
                rw
                  (
                    absent,
                    is_used-eq-is_taken natural s.namespace_keys,
                    free,
                    is_used-eq-is_taken key s.idempotency,
                    used,
                  )
                  (refl, refl)
            | inr unused ↦
                rw
                  (
                    absent,
                    is_used-eq-is_taken natural s.namespace_keys,
                    free,
                    is_used-eq-is_taken key s.idempotency,
                    unused,
                  )
                  (
                    refl,
                    maps_ext _ _ (λ id. get-set (i.id item) id item s.items)
                        (get-claim natural (i.id item) s.namespace_keys)
                        (get-claim key (i.id item) s.idempotency),
                  )
          ]
    ]
  ]

  pub delete-Agrees :
      (id : String) (s : Store T)
      → IsIndexed s
      → Agrees (cleared (delete id s)) (call_maps (deletes id) (view s))
  unfolding delete call_maps
  delete-Agrees id s h = elim (Bool-cases (contains id s.items)) [
    | inl there ↦ rw there (
      refl,
      maps_ext _ _ (λ other. get-pop id other s.items)
          (λ name. get-dropped id s.namespace_keys name h.unique_names)
          (λ key. get-dropped id s.idempotency key h.unique_idempotency),
    )
    | inr absent ↦ rw absent (refl, refl)
  ]

  pub fetch-Agrees :
      (id : String) (s : Store T) → Agrees (shown (fetch id s)) (call_maps (fetches id) (view s))
  unfolding fetch call_maps
  fetch-Agrees id s = elim (Option-cases (get id s.items)) [
    | inl absent ↦
        let same : fetch id s ≡ (err not_found, s) = ground (arith, absent) in
        rw same (ground (arith, absent), refl)
    | inr (item, found) ↦
        let same : fetch id s ≡ (ok item, s) = ground (arith, found) in
        rw same (ground (arith, found), refl)
  ]

  index_key-Agrees :
      (item : T) (key : Option String) (s : Store T)
      → ((shown (index_key item key s)).0 ≡ (
          if is_foreign key (i.id item) (λ k. get k s.idempotency)
          then err conflict
          else ok (some item)))
        × ((index_key item key s).1.items ≡ s.items)
        × ((index_key item key s).1.namespace_keys ≡ s.namespace_keys)
        × ((k : String)
            → get k (index_key item key s).1.idempotency ≡ (
                if is_foreign key (i.id item) (λ k. get k s.idempotency)
                then get k s.idempotency
                else with_key key (i.id item) (λ k. get k s.idempotency) k))
  unfolding index_key
  index_key-Agrees item none s = (refl, refl, refl, λ k. refl)
  index_key-Agrees item (some key) s = elim (Option-cases (get key s.idempotency)) [
    | inl absent ↦
        let same : index_key item (some key) s
            ≡ (ok item, record s { idempotency = set key (i.id item) s.idempotency }) =
          ground (arith, absent) in
        rw same (
          ground (arith, absent),
          refl,
          refl,
          λ k. ground (arith, absent, get-set key k (i.id item) s.idempotency),
        )
    | inr (old, found) ↦ elim (Bool-cases (old == i.id item)) [
      | inl own ↦
          let same : index_key item (some key) s
              ≡ (ok item, record s { idempotency = set key (i.id item) s.idempotency }) =
            ground (arith, found, own) in
          rw same (
            ground (arith, found, own),
            refl,
            refl,
            λ k. ground (arith, found, own, get-set key k (i.id item) s.idempotency),
          )
      | inr foreign ↦
          let same : index_key item (some key) s ≡ (err conflict, s) =
            ground (arith, found, foreign) in
          rw same (ground (arith, found, foreign), refl, refl, λ k. ground (arith, found, foreign))
    ]
  ]

  pub shown-state : (p : Result T × Store T) → (shown p).1 ≡ p.1
  shown-state (ok item, s) = refl
  shown-state (err e, s) = refl

  pub update-Agrees :
      (item : T) (natural : Natural) (s : Store T)
      → IsIndexed s
      → Agrees (shown (update item natural s)) (call_maps (updates item natural) (view s))
  unfolding update call_maps
  update-Agrees item natural s h = elim (Bool-cases (contains (i.id item) s.items)) [
    | inl there ↦
        let key = truthy (i.idempotency_key item) in
        let written : Store T = record s {
          items = set (i.id item) item s.items;
          namespace_keys = move natural (i.id item) s.namespace_keys;
        } in
        let (answer, items, names, keys) = index_key-Agrees item key written in
        rw there (
          answer,
          rw (shown-state (index_key item key written)) (
              maps_ext _ _ (λ id. ap (λ d. get id d) items ∙ get-set (i.id item) id item s.items)
                (λ name.
                  ap (λ d. get name d) names
                  ∙ get-move natural (i.id item) s.namespace_keys name h.unique_names)
                keys),
        )
    | inr absent ↦ rw absent (refl, refl)
  ]
