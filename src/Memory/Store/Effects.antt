-- ===== src/Memory/Store/Effects.antt =====
-- What each method of `_InMemoryStore` does to the lookups that follow.
use rescs.Prelude.{
  String, ◌==◌, string_eq, pair_eq, ◌≡◌, not, none, some, arith, ==-refl, ◌≢◌, ◌⊎◌, refl, ◌&&◌,
  Option-cases, inl, inr,
}
use rescs.Errors.{ok, err, conflict, not_found}
use rescs.Dict.{get, contains, filter_items, set}
use rescs.Dict.Laws.{get-set, get-pop, get-filter, get-set_self}
use rescs.Memory.Store.{
  Item, Store, Natural, create, delete, fetch, get_by_natural_key, update, true, truthy, index_key,
  Option, move,
}
use rescs.Prelude.{inl, inr}
use rescs.Memory.Store.Invariant.{IsIndexed, update-IsIndexed}

module _ {T : Type 0} ⦃i : Item T⦄ where
  -- A `create` that returns has found the id and the natural key free, and after it the item is
  -- found by its id and by its natural key; another id finds what it found before.
  pub fetch-create :
      (item : T) (namespace key other : String) (s : Store T)
      → (create item (some (namespace, key)) s).0 ≡ ok item
      → i.id item ≢ other
      → let s' = (create item (some (namespace, key)) s).1 in
        (get (i.id item) s.items ≡ none)
        × (get (namespace, key) s.namespace_keys ≡ none)
        × (fetch (i.id item) s' ≡ (ok item, s'))
        × (get_by_natural_key namespace key s' ≡ (ok (some item), s'))
        × (get other s'.items ≡ get other s.items)
  unfolding create fetch get_by_natural_key
  fetch-create item namespace key other s h differ = ground (
    arith,
    get-set (i.id item) (i.id item) item s.items,
    get-set (namespace, key) (namespace, key) (i.id item) s.namespace_keys,
    get-set (i.id item) other item s.items,
    ==-refl (i.id item),
    ==-refl {A = String × String} (namespace, key),
    string_eq.beq_iff (i.id item) other,
  )

  -- A `create` returns the item, or it raises `ConflictError` and leaves the store as it was.
  pub create_atomic :
      (item : T) (natural : Natural) (s : Store T)
      → ((create item natural s).0 ≡ ok item) ⊎ (create item natural s ≡ (err conflict, s))
  unfolding create
  create_atomic item natural s = ground arith

  -- After `delete`, whether it returned or raised, no lookup of the store leads to the id, by itself
  -- or through an index, and another id finds what it found before.
  pub fetch-delete :
      (id other namespace key : String) (s : Store T)
      → IsIndexed s
      → id ≢ other
      → let s' = (delete id s).1 in
        (fetch id s' ≡ (err not_found, s'))
        × (get (namespace, key) s'.namespace_keys ≢ some id)
        × (get key s'.idempotency ≢ some id)
        × (get other s'.items ≡ get other s.items)
  unfolding delete fetch
  fetch-delete id other namespace key s h differ = ground (
    arith,
    get-pop id id s.items,
    get-pop id other s.items,
    ==-refl id,
    string_eq.beq_iff id other,
    get-filter (λ _ v. not (v == id)) (namespace, key) s.namespace_keys h.unique_names,
    get-filter (λ _ v. not (v == id)) key s.idempotency h.unique_idempotency,
    h.names (namespace, key) id,
    h.keys key id,
  )

  -- The end of `update` writes to the index of idempotency keys alone.
  pub index_key_keeps :
      (item : T) (key : Option String) (s : Store T)
      → ((index_key item key s).1.items ≡ s.items)
        × ((index_key item key s).1.namespace_keys ≡ s.namespace_keys)
  unfolding index_key
  index_key_keeps item none s = (refl, refl)
  index_key_keeps item (some k) s = ground arith

  -- An `update` of an item whose id is there: afterwards the item is found by its id and by its
  -- natural key, even if the idempotency key is refused, and another id finds what it found before.
  pub fetch-update :
      (item : T) (namespace key other : String) (s : Store T)
      → contains (i.id item) s.items ≡ true
      → i.id item ≢ other
      → let s' = (update item (some (namespace, key)) s).1 in
        (fetch (i.id item) s' ≡ (ok item, s'))
        × (get_by_natural_key namespace key s' ≡ (ok (some item), s'))
        × (get other s'.items ≡ get other s.items)
  unfolding update fetch get_by_natural_key
  fetch-update item namespace key other s there differ = ground (
    arith,
    get-set (i.id item) (i.id item) item s.items,
    get-set (i.id item) other item s.items,
    get-set (namespace, key) (namespace, key) (i.id item)
        (filter_items (λ k v. not (v == i.id item && not (k == (namespace, key))))
          s.namespace_keys),
    ==-refl (i.id item),
    ==-refl {A = String × String} (namespace, key),
    string_eq.beq_iff (i.id item) other,
    index_key_keeps item (truthy (i.idempotency_key item)) (record s {
      items = set (i.id item) item s.items;
      namespace_keys = move (some (namespace, key)) (i.id item) s.namespace_keys;
    }),
  )

  -- An `update` whose idempotency key belongs to another item raises `ConflictError`, and has
  -- replaced the item all the same.
  pub update_not_atomic :
      (item : T) (natural : Natural) (k owner : String) (s : Store T)
      → contains (i.id item) s.items ≡ true
      → truthy (i.idempotency_key item) ≡ some k
      → get k s.idempotency ≡ some owner
      → owner ≢ i.id item
      → ((update item natural s).0 ≡ err conflict)
        × (get (i.id item) (update item natural s).1.items ≡ some item)
  unfolding update
  update_not_atomic item natural k owner s there key taken ne = ground (
    arith,
    get-set (i.id item) (i.id item) item s.items,
    ==-refl (i.id item),
    string_eq.beq_iff owner (i.id item),
  )

  -- The natural key that leads to an item has its id in the index.
  name_of_named :
      (namespace key : String) (victim : T) (s : Store T)
      → IsIndexed s
      → get_by_natural_key namespace key s ≡ (ok (some victim), s)
      → (get (namespace, key) s.namespace_keys ≡ some (i.id victim))
        × (get (i.id victim) s.items ≡ some victim)
  unfolding get_by_natural_key
  name_of_named namespace key victim s h named =
      elim (Option-cases (get (namespace, key) s.namespace_keys)) [
        | inl unnamed ↦ ground (arith)
        | inr (id, found) ↦ ground (arith, h.own_id id victim)
      ]

  -- An `update` to the natural key of another item takes the key over, and a `delete` of the updated
  -- item then frees it: the natural key that led to the other item leads to nothing, while that item
  -- is still stored.
  pub delete-update_orphans :
      (item victim : T) (namespace key : String) (s : Store T)
      → IsIndexed s
      → contains (i.id item) s.items ≡ true
      → get_by_natural_key namespace key s ≡ (ok (some victim), s)
      → i.id item ≢ i.id victim
      → let s' = (delete (i.id item) (update item (some (namespace, key)) s).1).1 in
        (get_by_natural_key namespace key s' ≡ (ok none, s'))
        × (fetch (i.id victim) s' ≡ (ok victim, s'))
  unfolding delete fetch get_by_natural_key
  delete-update_orphans item victim namespace key s h there named ne =
      let moved = (update item (some (namespace, key)) s).1 in
      let (own, found, others) = fetch-update item namespace key (i.id victim) s there ne in
      let valid = update-IsIndexed item (some (namespace, key)) s h in
      let (name, _) = name_of_named namespace key item moved valid found in
      let (_, stored) = name_of_named namespace key victim s h named in
      ground (
        arith,
        name,
        others,
        stored,
        get-filter (λ _ v. not (v == i.id item)) (namespace, key) moved.namespace_keys
            valid.unique_names,
        get-pop (i.id item) (i.id victim) moved.items,
        ==-refl (i.id item),
        string_eq.beq_iff (i.id item) (i.id victim),
      )

  -- `update` makes the natural key lead to the item, also where it then raises.
  pub update_names :
      (item : T) (namespace key : String) (s : Store T)
      → contains (i.id item) s.items ≡ true
      → let s' = (update item (some (namespace, key)) s).1 in
        get_by_natural_key namespace key s' ≡ (ok (some item), s')
  unfolding update get_by_natural_key
  update_names item namespace key s there = ground (
    arith,
    get-set_self (i.id item) item s.items,
    get-set_self (namespace, key) (i.id item)
        (filter_items (λ k v. not (v == i.id item && not (k == (namespace, key))))
          s.namespace_keys),
    index_key_keeps item (truthy (i.idempotency_key item)) (record s {
      items = set (i.id item) item s.items;
      namespace_keys = move (some (namespace, key)) (i.id item) s.namespace_keys;
    }),
  )

  -- `update` writes the item whenever there is one with its id, also where it then raises.
  pub update_writes :
      (item : T) (namespace key : String) (s : Store T)
      → contains (i.id item) s.items ≡ true
      → get (i.id item) (update item (some (namespace, key)) s).1.items ≡ some item
  unfolding update
  update_writes item namespace key s there = ground (
    arith,
    get-set_self (i.id item) item s.items,
    index_key_keeps item (truthy (i.idempotency_key item)) (record s {
      items = set (i.id item) item s.items;
      namespace_keys = move (some (namespace, key)) (i.id item) s.namespace_keys;
    }),
  )

  index_key_cases :
      (item : T) (key : Option String) (s : Store T)
      → ((index_key item key s).0 ≡ ok item) ⊎ ((index_key item key s).0 ≡ err conflict)
  unfolding index_key
  index_key_cases item none s = inl refl
  index_key_cases item (some k) s = ground arith

  -- `update` returns its argument or raises one of two errors.
  pub update_cases :
      (item : T) (natural : Natural) (s : Store T)
      → ((update item natural s).0 ≡ ok item)
        ⊎ (((update item natural s).0 ≡ err conflict) ⊎ ((update item natural s).0 ≡ err not_found))
  unfolding update
  update_cases item natural s = ground (
    arith,
    index_key_cases item (truthy (i.idempotency_key item)) (record s {
      items = set (i.id item) item s.items;
      namespace_keys = move natural (i.id item) s.namespace_keys;
    }),
  )

  -- The idempotency key of an item, if it has one, leads to it.
  pub record IsKeyed (item : T) (s : Store T) : Type 0 where
    pub at_key :
        (k : String)
        → truthy (i.idempotency_key item) ≡ some k
        → get k s.idempotency ≡ some (i.id item)

  index_key_keyed :
      (item : T) (key : Option String) (s : Store T) (k : String)
      → (index_key item key s).0 ≡ ok item
      → key ≡ some k
      → get k (index_key item key s).1.idempotency ≡ some (i.id item)
  unfolding index_key
  index_key_keyed item none s k done given = ground arith
  index_key_keyed item (some j) s k done given = ground (
    arith,
    get-set j k (i.id item) s.idempotency,
    get-set_self k (i.id item) s.idempotency,
    ==-refl k,
  )

  -- An `update` that returned leaves the idempotency key with the item.
  pub update-IsKeyed :
      (item : T) (natural : Natural) (s : Store T)
      → (update item natural s).0 ≡ ok item
      → IsKeyed item (update item natural s).1
  unfolding update
  update-IsKeyed item natural s done = record {
    at_key = λ k given. ground (
      arith,
      index_key_keyed item (truthy (i.idempotency_key item))
          (record s {
            items = set (i.id item) item s.items;
            namespace_keys = move natural (i.id item) s.namespace_keys;
          })
          k,
    );
  }

  -- And an `update` of an item that has its key does return.
  pub update_returns :
      (item : T) (natural : Natural) (s : Store T)
      → contains (i.id item) s.items ≡ true
      → IsKeyed item s
      → (update item natural s).0 ≡ ok item
  unfolding update index_key
  update_returns item natural s there keyed =
      elim (Option-cases (truthy (i.idempotency_key item))) [
        | inl without ↦ ground arith
        | inr (k, given) ↦ ground (arith, keyed.at_key k given, ==-refl (i.id item))
      ]
