-- ===== src/Memory/Store/Reach.antt =====
-- The stores that the methods of `_InMemoryStore` can make, in whatever order they are called.
use rescs.Prelude.{
  string_eq, pair_eq, String, ◌≡◌, refl, true, arith, Option-cases, inl, inr, Equality,
}
use rescs.Errors.{is_ok}
use rescs.Dict.{get, Dict}
use rescs.Memory.Store.{
  Item, Store, Natural, create, update, delete, drop_natural, empty_store, get_by_natural_key,
  find_by_idempotency_key, follow,
}
use rescs.Memory.Store.Invariant.{
  IsIndexed, create-IsIndexed, update-IsIndexed, delete-IsIndexed, drop_natural-IsIndexed, Leads,
}

follow-is_ok :
    {K T : Type 0} ⦃e : Equality K⦄ (k : K) (d : Dict K String) (items : Dict String T)
    → Leads d items
    → is_ok (follow (get k d) items) ≡ true
follow-is_ok k d items leads = elim (Option-cases (get k d)) [
  | inl absent ↦ rw absent refl
  | inr (id, found) ↦ rw found (ground (arith, leads k id found))
]

module _ {T : Type 0} ⦃i : Item T⦄ where
  -- One call of a method, which returns or raises.
  pub data Step : Store T → Store T → Type 0 where
    creates : (item : T) (natural : Natural) (s : Store T) → Step s (create item natural s).1
    updates : (item : T) (natural : Natural) (s : Store T) → Step s (update item natural s).1
    deletes : (id : String) (s : Store T) → Step s (delete id s).1
    drops : (namespace key : String) (s : Store T) → Step s (drop_natural namespace key s).1

  pub data Reach : Store T → Type 0 where
    start : Reach empty_store
    next : {s t : Store T} → Reach s → Step s t → Reach t

  pub IsIndexed-empty : IsIndexed (empty_store {T = T})
  unfolding get
  IsIndexed-empty = record {
    unique_items = tt;
    unique_names = tt;
    unique_idempotency = tt;
    own_id = λ id item found. ground arith;
    names = λ k id found. ground arith;
    keys = λ k id found. ground arith;
  }

  Step-IsIndexed : {s t : Store T} → Step s t → IsIndexed s → IsIndexed t
  Step-IsIndexed (creates item natural s) h = create-IsIndexed item natural s h
  Step-IsIndexed (updates item natural s) h = update-IsIndexed item natural s h
  Step-IsIndexed (deletes id s) h = delete-IsIndexed id s h
  Step-IsIndexed (drops namespace key s) h = drop_natural-IsIndexed namespace key s h

  -- In every store that calls of `create`, `update`, `delete` and `drop_natural` make from the empty
  -- one, returning or raising, no key is listed twice, each item stands under its own id, and each
  -- id of an index belongs to an item.
  pub Reach-IsIndexed : {s : Store T} → Reach s → IsIndexed s
  Reach-IsIndexed start = IsIndexed-empty
  Reach-IsIndexed (next r step) = Step-IsIndexed step (Reach-IsIndexed r)

  IsIndexed-is_ok :
      (namespace key : String) (s : Store T)
      → IsIndexed s
      → (is_ok (get_by_natural_key namespace key s).0 ≡ true)
        × (is_ok (find_by_idempotency_key key s).0 ≡ true)
  unfolding get_by_natural_key find_by_idempotency_key
  IsIndexed-is_ok namespace key s h = (
    follow-is_ok (namespace, key) s.namespace_keys s.items h.names,
    follow-is_ok key s.idempotency s.items h.keys,
  )

  -- In every store that calls of `create`, `update`, `delete` and `drop_natural` make from the
  -- empty one, the lookups through an index never raise `KeyError`.
  pub Reach-no_key_error :
      {s : Store T} (namespace key : String)
      → Reach s
      → (is_ok (get_by_natural_key namespace key s).0 ≡ true)
        × (is_ok (find_by_idempotency_key key s).0 ≡ true)
  Reach-no_key_error {s} namespace key r = IsIndexed-is_ok namespace key s (Reach-IsIndexed r)
