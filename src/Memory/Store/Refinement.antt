-- ===== src/Memory/Store/Refinement.antt =====
-- `_InMemoryStore` does what the three finite maps do.
use rescs.Prelude.{
  String, string_eq, pair_eq, ◌≡◌, refl, Option, none, some, List, [], ◌∷◌, arith, Option-cases,
  inl, inr,
}
use rescs.Errors.{Result, ok, err}
use rescs.Dict.{Dict, get}
use rescs.Memory.Store.{
  Item, Store, create, update, delete, fetch, get_by_natural_key, find_by_idempotency_key, follow,
}
use mathlib.Core.Path.{subst, ap₂}
use rescs.Memory.Store.Invariant.{IsIndexed, create-IsIndexed, update-IsIndexed, delete-IsIndexed}
use rescs.Memory.Store.Abstract.{
  Maps, view, led, Call, call_maps, creates, updates, deletes, fetches, finds_name, finds_key,
}
use rescs.Memory.Store.Abstract.Methods.{
  shown, cleared, Agrees, create-Agrees, delete-Agrees, fetch-Agrees, update-Agrees, shown-state,
}

module _ {T : Type 0} ⦃i : Item T⦄ where
  abbrev pub call_store : Call T → Store T → Result (Option T) × Store T
  call_store (creates item natural) s = shown (create item natural s)
  call_store (updates item natural) s = shown (update item natural s)
  call_store (deletes id) s = cleared (delete id s)
  call_store (fetches id) s = shown (fetch id s)
  call_store (finds_name namespace key) s = get_by_natural_key namespace key s
  call_store (finds_key key) s = find_by_idempotency_key key s

  cleared-state : (p : Result (Unit {0}) × Store T) → (cleared p).1 ≡ p.1
  cleared-state (ok _, s) = refl
  cleared-state (err e, s) = refl

  follow-eq-led :
      (o : Option String) (items : Dict String T) → follow o items ≡ led o (λ id. get id items)
  follow-eq-led none items = refl
  follow-eq-led (some id) items = refl

  call-Agrees :
      (c : Call T) (s : Store T) → IsIndexed s → Agrees (call_store c s) (call_maps c (view s))
  unfolding call_maps get_by_natural_key find_by_idempotency_key
  call-Agrees (creates item natural) s h = create-Agrees item natural s
  call-Agrees (updates item natural) s h = update-Agrees item natural s h
  call-Agrees (deletes id) s h = delete-Agrees id s h
  call-Agrees (fetches id) s h = fetch-Agrees id s
  call-Agrees (finds_name namespace key) s h =
      (follow-eq-led (get (namespace, key) s.namespace_keys) s.items, refl)
  call-Agrees (finds_key key) s h = (follow-eq-led (get key s.idempotency) s.items, refl)

  fetch-IsIndexed : (id : String) (s : Store T) → IsIndexed s → IsIndexed (fetch id s).1
  unfolding fetch
  fetch-IsIndexed id s h = elim (Option-cases (get id s.items)) [
    | inl absent ↦ ground (arith, absent, h)
    | inr (item, found) ↦ ground (arith, found, h)
  ]

  call-IsIndexed : (c : Call T) (s : Store T) → IsIndexed s → IsIndexed (call_store c s).1
  unfolding get_by_natural_key find_by_idempotency_key
  call-IsIndexed (creates item natural) s h =
      rw (shown-state (create item natural s)) (create-IsIndexed item natural s h)
  call-IsIndexed (updates item natural) s h =
      rw (shown-state (update item natural s)) (update-IsIndexed item natural s h)
  call-IsIndexed (deletes id) s h = rw (cleared-state (delete id s)) (delete-IsIndexed id s h)
  call-IsIndexed (fetches id) s h = rw (shown-state (fetch id s)) (fetch-IsIndexed id s h)
  call-IsIndexed (finds_name namespace key) s h = h
  call-IsIndexed (finds_key key) s h = h

  -- The answers of a sequence of calls, and what they leave.
  abbrev pub run_store : List (Call T) → Store T → List (Result (Option T)) × Store T
  run_store [] s = ([], s)
  run_store (c ∷ cs) s = (
    (call_store c s).0 ∷ (run_store cs (call_store c s).1).0,
    (run_store cs (call_store c s).1).1,
  )

  abbrev pub run_maps : List (Call T) → Maps T → List (Result (Option T)) × Maps T
  run_maps [] m = ([], m)
  run_maps (c ∷ cs) m =
      ((call_maps c m).0 ∷ (run_maps cs (call_maps c m).1).0, (run_maps cs (call_maps c m).1).1)

  run_from :
      (cs : List (Call T)) (s : Store T) (m : Maps T)
      → IsIndexed s
      → view s ≡ m
      → ((run_store cs s).0 ≡ (run_maps cs m).0) × (view (run_store cs s).1 ≡ (run_maps cs m).1)
  run_from [] s m h same = (refl, same)
  run_from (c ∷ cs) s m h same =
      let (answer, seen) =
        subst (λ n. Agrees (call_store c s) (call_maps c n)) same (call-Agrees c s h) in
      let (rest, last) =
        run_from cs (call_store c s).1 (call_maps c m).1 (call-IsIndexed c s h) seen in
      (ap₂ (λ a rest. a ∷ rest) answer rest, last)

  -- The store refines three maps without an order: whatever calls of `create`, `update`, `delete`,
  -- `fetch`, `get_by_natural_key` and `find_by_idempotency_key` are made, in any order, on a store where
  -- no key is listed twice, each item stands under its own id and each id of an index belongs to an
  -- item, each call answers what the maps answer, a raise included, and the lookups of the store that
  -- is left are those of the maps that are left.
  pub run_store-eq-run_maps :
      (cs : List (Call T)) (s : Store T)
      → IsIndexed s
      → ((run_store cs s).0 ≡ (run_maps cs (view s)).0)
        × (view (run_store cs s).1 ≡ (run_maps cs (view s)).1)
  run_store-eq-run_maps cs s h = run_from cs s (view s) h refl
