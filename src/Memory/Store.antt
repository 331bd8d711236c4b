-- ===== src/Memory/Store.antt =====
-- `_InMemoryStore` of src/rescs/repositories/memory.py: items by id, and the indexes that lead from
-- a natural key and from an idempotency key to an id. Its lock makes each method one step.
pub mod Invariant
pub mod Reach
pub mod Sorting
pub mod Pages
pub mod Effects
pub mod Abstract
pub mod Refinement
use rescs.Prelude.{
  String, ◌==◌, string_eq, nat_eq, pair_eq, ℕ, Bool, true, false, not, ◌&&◌, ◌||◌, Option, none,
  some, List, [], ◌∷◌, take, drop, filter, ltb, if◌then◌else◌, is_some, truthy, text_leb,
}
use rescs.Errors.{Result, ok, err, conflict, not_found, key_error}
use rescs.Action.{Action}
use rescs.Dict.{Dict, get, set, pop, contains, filter_items, values, count}

-- What the store asks of an item: `T` is a record or a file.
pub record Item (T : Type 0) : Type 0 where
  pub id : T → String
  pub idempotency_key : T → Option String
  pub updated_at : T → ℕ

pub record Store (T : Type 0) : Type 0 where
  pub items : Dict String T
  pub namespace_keys : Dict (String × String) String
  pub idempotency : Dict String String

-- A natural key: the arguments `namespace` and `key`, if neither is `None`.
abbrev pub Natural : Type 0
Natural = Option (String × String)

abbrev pub empty_store : {T : Type 0} → Store T
empty_store = record { items = []; namespace_keys = []; idempotency = [] }

-- The key is listed: `None` is not, and neither is an empty idempotency key.
abbrev pub is_taken : {K : Type 0} ⦃e : rescs.Prelude.Equality K⦄ → Option K → Dict K String → Bool
is_taken none d = false
is_taken (some k) d = contains k d

-- `d[k] = id` if there is a key.
abbrev pub claim :
    {K : Type 0} ⦃e : rescs.Prelude.Equality K⦄ → Option K → String → Dict K String → Dict K String
claim none id d = d
claim (some k) id d = set k id d

-- The loop of `update` that drops the other natural keys of an item, and the entry that follows.
unfoldable pub move :
    Natural → String → Dict (String × String) String → Dict (String × String) String
move none id d = d
move (some natural) id d =
    set natural id (filter_items (λ k v. not (v == id && not (k == natural))) d)

-- The item that an index entry leads to; a dangling id raises `KeyError`.
abbrev pub follow : {T : Type 0} → Option String → Dict String T → Result (Option T)
follow none items = ok none
follow (some id) items = elim (get id items) [ none ↦ err key_error | some item ↦ ok (some item) ]

-- Python's stable sort, by insertion.
unfoldable pub insert_sorted : {T : Type 0} → (T → T → Bool) → T → List T → List T
insert_sorted before x [] = x ∷ []
insert_sorted before x (y ∷ ys) =
    let rest = insert_sorted before x ys in if before x y then x ∷ y ∷ ys else y ∷ rest

unfoldable pub sort : {T : Type 0} → (T → T → Bool) → List T → List T
sort before [] = []
sort before (x ∷ xs) = insert_sorted before x (sort before xs)

module _ {T : Type 0} ⦃i : Item T⦄ where
  unfoldable pub create : T → Natural → Action (Store T) T
  create item natural s =
      if contains (i.id item) s.items
      then (err conflict, s)
      else if is_taken natural s.namespace_keys
      then (err conflict, s)
      else if is_taken (truthy (i.idempotency_key item)) s.idempotency
      then (err conflict, s)
      else (
        ok item,
        record {
          items = set (i.id item) item s.items;
          namespace_keys = claim natural (i.id item) s.namespace_keys;
          idempotency = claim (truthy (i.idempotency_key item)) (i.id item) s.idempotency;
        },
      )

  -- The end of `update`, with the item written: the idempotency key may still be refused.
  unfoldable pub index_key : T → Option String → Action (Store T) T
  index_key item none s = (ok item, s)
  index_key item (some k) s = elim (get k s.idempotency) [
    | none ↦ (ok item, record s { idempotency = set k (i.id item) s.idempotency })
    | some old ↦
        if old == i.id item
        then (ok item, record s { idempotency = set k (i.id item) s.idempotency })
        else (err conflict, s)
  ]

  unfoldable pub update : T → Natural → Action (Store T) T
  unfolding index_key move
  update item natural s =
      if contains (i.id item) s.items
      then index_key item (truthy (i.idempotency_key item)) (record s {
        items = set (i.id item) item s.items;
        namespace_keys = move natural (i.id item) s.namespace_keys;
      })
      else (err not_found, s)

  -- `page`, which sorts by the time of the last update and the id.
  abbrev pub by_update : T → T → Bool
  by_update a b =
      ltb (i.updated_at a) (i.updated_at b)
      || (i.updated_at a == i.updated_at b && text_leb (i.id a) (i.id b))

  unfoldable pub page : (T → Bool) → ℕ → ℕ → Store T → List T
  page predicate limit offset s =
      take limit (drop offset (sort by_update (filter predicate (values s.items))))

module _ {T : Type 0} where
  unfoldable pub delete : String → Action (Store T) (Unit {0})
  delete id s =
      if contains id s.items
      then (
        ok tt,
        record {
          items = pop id s.items;
          namespace_keys = filter_items (λ _ v. not (v == id)) s.namespace_keys;
          idempotency = filter_items (λ _ v. not (v == id)) s.idempotency;
        },
      )
      else (err not_found, s)

  unfoldable pub fetch : String → Action (Store T) T
  fetch id s = elim (get id s.items) [ none ↦ (err not_found, s) | some item ↦ (ok item, s) ]

  unfoldable pub get_by_natural_key : String → String → Action (Store T) (Option T)
  get_by_natural_key namespace key s = (follow (get (namespace, key) s.namespace_keys) s.items, s)

  unfoldable pub drop_natural : String → String → Action (Store T) (Unit {0})
  drop_natural namespace key s =
      (ok tt, record s { namespace_keys = pop (namespace, key) s.namespace_keys })

  unfoldable pub find_by_idempotency_key : String → Action (Store T) (Option T)
  find_by_idempotency_key key s = (follow (get key s.idempotency) s.items, s)

  unfoldable pub count_items : (T → Bool) → Store T → ℕ
  count_items predicate s = count predicate s.items
