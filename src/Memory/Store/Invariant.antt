-- ===== src/Memory/Store/Invariant.antt =====
-- The invariant of `_InMemoryStore`, and that every method keeps it, whether it returns or raises.
use rescs.Prelude.{
  String, ◌==◌, string_eq, pair_eq, ◌≡◌, Bool, true, not, Option, none, some, inl, inr, arith,
  Bool-cases, Equality, ==-refl,
}
use rescs.Dict.{Dict, get, set, contains, filter_items, IsUnique, pop}
use rescs.Dict.Laws.{get-set, get-pop, get-filter, set-IsUnique, filter-IsUnique}
use rescs.Memory.Store.{
  Item, Store, claim, delete, index_key, drop_natural, Natural, move, update, create, truthy,
}

-- Every id of an index belongs to an item.
abbrev pub Leads : {K T : Type 0} ⦃e : Equality K⦄ → Dict K String → Dict String T → Type 0
Leads {K} d items = (k : K) (id : String) → get k d ≡ some id → contains id items ≡ true

module _ {T : Type 0} ⦃i : Item T⦄ where
  -- No id and no key is listed twice, an item stands under its own id, and the indexes lead to items.
  pub record IsIndexed (s : Store T) : Type 0 where
    pub unique_items : IsUnique s.items
    pub unique_names : IsUnique s.namespace_keys
    pub unique_idempotency : IsUnique s.idempotency
    pub own_id : (id : String) (item : T) → get id s.items ≡ some item → i.id item ≡ id
    pub names : Leads s.namespace_keys s.items
    pub keys : Leads s.idempotency s.items

contains-set :
    {T : Type 0} (id : String) (item : T) (items : Dict String T)
    → contains id (set id item items) ≡ true
contains-set id item items = ground (arith, get-set id id item items, ==-refl id)

module _ {K T : Type 0} ⦃e : Equality K⦄ where
  -- A write of an item leaves every index as good as it was.
  Leads-set :
      (id : String) (item : T) (d : Dict K String) (items : Dict String T)
      → Leads d items
      → Leads d (set id item items)
  Leads-set id item d items h k j found = ground (arith, get-set id j item items, h k j found)

  -- So does an entry for an item that is there.
  Leads-claim :
      (key : Option K) (id : String) (d : Dict K String) (items : Dict String T)
      → contains id items ≡ true
      → Leads d items
      → Leads (claim key id d) items
  Leads-claim none id d items there h k j found = h k j found
  Leads-claim (some key) id d items there h k j found = elim (Bool-cases (key == k)) [
    | inl same ↦ ground (arith, same, get-set key k id d)
    | inr differ ↦ ground (arith, differ, get-set key k id d, h k j)
  ]

  Leads-filter :
      (p : K → String → Bool) (d : Dict K String) (items : Dict String T)
      → IsUnique d
      → Leads d items
      → Leads (filter_items p d) items
  Leads-filter p d items u h k j found = ground (arith, get-filter p k d u, h k j)

  -- Removing an item and every entry that leads to it.
  Leads-delete :
      (id : String) (d : Dict K String) (items : Dict String T)
      → IsUnique d
      → Leads d items
      → Leads (filter_items (λ _ v. not (v == id)) d) (pop id items)
  Leads-delete id d items u h k j found = ground (
    arith,
    get-filter (λ _ v. not (v == id)) k d u,
    get-pop id j items,
    h k j,
    string_eq.beq_iff j id,
    string_eq.beq_iff id j,
  )

module _ {K : Type 0} ⦃e : Equality K⦄ where
  claim-IsUnique :
      (key : Option K) (id : String) (d : Dict K String) → IsUnique d → IsUnique (claim key id d)
  claim-IsUnique none id d u = u
  claim-IsUnique (some k) id d u = set-IsUnique k id d u

move-IsUnique :
    (natural : Natural) (id : String) (d : Dict (String × String) String)
    → IsUnique d
    → IsUnique (move natural id d)
unfolding move
move-IsUnique none id d u = u
move-IsUnique (some k) id d u = set-IsUnique k id _ (filter-IsUnique _ d u)

module _ {T : Type 0} ⦃i : Item T⦄ where
  own_id-set :
      (item : T) (items : Dict String T)
      → ((id : String) (x : T) → get id items ≡ some x → i.id x ≡ id)
      → (id : String) (x : T) → get id (set (i.id item) item items) ≡ some x
      → i.id x ≡ id
  own_id-set item items h id x found =
      ground (arith, get-set (i.id item) id item items, h id x, string_eq.beq_iff (i.id item) id)

  -- The store that `create` makes.
  created : T → Natural → Store T → Store T
  created item natural s = record {
    items = set (i.id item) item s.items;
    namespace_keys = claim natural (i.id item) s.namespace_keys;
    idempotency = claim (truthy (i.idempotency_key item)) (i.id item) s.idempotency;
  }

  created-IsIndexed :
      (item : T) (natural : Natural) (s : Store T)
      → IsIndexed s
      → IsIndexed (created item natural s)
  unfolding created
  created-IsIndexed item natural s h = record {
    unique_items = set-IsUnique (i.id item) item s.items h.unique_items;
    unique_names = claim-IsUnique natural (i.id item) s.namespace_keys h.unique_names;
    unique_idempotency =
        claim-IsUnique (truthy (i.idempotency_key item)) (i.id item) s.idempotency
          h.unique_idempotency;
    own_id = own_id-set item s.items h.own_id;
    names =
        Leads-claim natural (i.id item) s.namespace_keys _ (contains-set (i.id item) item s.items)
          (Leads-set (i.id item) item s.namespace_keys s.items h.names);
    keys =
        Leads-claim (truthy (i.idempotency_key item)) (i.id item) s.idempotency _
          (contains-set (i.id item) item s.items)
          (Leads-set (i.id item) item s.idempotency s.items h.keys);
  }

  -- `create` keeps the invariant, whether it stores the item or raises.
  pub create-IsIndexed :
      (item : T) (natural : Natural) (s : Store T)
      → IsIndexed s
      → IsIndexed (create item natural s).1
  unfolding create created
  create-IsIndexed item natural s h = ground (arith, created-IsIndexed item natural s h)

  -- The state in which `update` looks at the idempotency key.
  written : T → Natural → Store T → Store T
  written item natural s = record s {
    items = set (i.id item) item s.items;
    namespace_keys = move natural (i.id item) s.namespace_keys;
  }

  Leads-move :
      (natural : Natural) (id : String) (item : T) (d : Dict (String × String) String)
      (items : Dict String T)
      → IsUnique d
      → Leads d items
      → Leads (move natural id d) (set id item items)
  unfolding move
  Leads-move none id item d items u h = Leads-set id item d items h
  Leads-move (some k) id item d items u h =
      Leads-claim (some k) id _ _ (contains-set id item items)
        (Leads-set id item _ items (Leads-filter _ d items u h))

  written-IsIndexed :
      (item : T) (natural : Natural) (s : Store T)
      → IsIndexed s
      → IsIndexed (written item natural s)
  unfolding written
  written-IsIndexed item natural s h = record {
    unique_items = set-IsUnique (i.id item) item s.items h.unique_items;
    unique_names = move-IsUnique natural (i.id item) s.namespace_keys h.unique_names;
    unique_idempotency = h.unique_idempotency;
    own_id = own_id-set item s.items h.own_id;
    names = Leads-move natural (i.id item) item s.namespace_keys s.items h.unique_names h.names;
    keys = Leads-set (i.id item) item s.idempotency s.items h.keys;
  }

  keyed-IsIndexed :
      (id key : String) (s : Store T)
      → IsIndexed s
      → contains id s.items ≡ true
      → IsIndexed (record s { idempotency = set key id s.idempotency })
  keyed-IsIndexed id key s h there = record {
    unique_items = h.unique_items;
    unique_names = h.unique_names;
    unique_idempotency = set-IsUnique key id s.idempotency h.unique_idempotency;
    own_id = h.own_id;
    names = h.names;
    keys = Leads-claim (some key) id s.idempotency s.items there h.keys;
  }

  index_key-IsIndexed :
      (item : T) (key : Option String) (s : Store T)
      → IsIndexed s
      → contains (i.id item) s.items ≡ true
      → IsIndexed (index_key item key s).1
  unfolding index_key
  index_key-IsIndexed item none s h there = h
  index_key-IsIndexed item (some k) s h there =
      ground (arith, keyed-IsIndexed (i.id item) k s h there)

  -- `update` keeps the invariant, also where it raises after it has written the item.
  pub update-IsIndexed :
      (item : T) (natural : Natural) (s : Store T)
      → IsIndexed s
      → IsIndexed (update item natural s).1
  unfolding update written
  update-IsIndexed item natural s h = ground (
    arith,
    index_key-IsIndexed item (truthy (i.idempotency_key item)) (written item natural s)
        (written-IsIndexed item natural s h) (contains-set (i.id item) item s.items),
  )

  deleted-IsIndexed :
      (id : String) (s : Store T)
      → IsIndexed s
      → IsIndexed (record {
        items = pop id s.items;
        namespace_keys = filter_items (λ _ v. not (v == id)) s.namespace_keys;
        idempotency = filter_items (λ _ v. not (v == id)) s.idempotency;
      })
  deleted-IsIndexed id s h = record {
    unique_items = filter-IsUnique _ s.items h.unique_items;
    unique_names = filter-IsUnique _ s.namespace_keys h.unique_names;
    unique_idempotency = filter-IsUnique _ s.idempotency h.unique_idempotency;
    own_id = λ k x found. ground (arith, get-pop id k s.items, h.own_id k x);
    names = Leads-delete id s.namespace_keys s.items h.unique_names h.names;
    keys = Leads-delete id s.idempotency s.items h.unique_idempotency h.keys;
  }

  -- `delete` keeps the invariant.
  pub delete-IsIndexed : (id : String) (s : Store T) → IsIndexed s → IsIndexed (delete id s).1
  unfolding delete
  delete-IsIndexed id s h = ground (arith, deleted-IsIndexed id s h)

  -- `drop_natural` keeps the invariant.
  pub drop_natural-IsIndexed :
      (namespace key : String) (s : Store T)
      → IsIndexed s
      → IsIndexed (drop_natural namespace key s).1
  unfolding drop_natural
  drop_natural-IsIndexed namespace key s h = record {
    unique_items = h.unique_items;
    unique_names = filter-IsUnique _ s.namespace_keys h.unique_names;
    unique_idempotency = h.unique_idempotency;
    own_id = h.own_id;
    names = Leads-filter _ s.namespace_keys s.items h.unique_names h.names;
    keys = h.keys;
  }
