-- ===== src/Memory/Store/Abstract.antt =====
-- The store as three finite maps, without an order: what `_InMemoryStore` promises to its callers.
pub mod Lookups
pub mod Methods
use rescs.Prelude.{
  Equality, String, ◌==◌, string_eq, pair_eq, ◌≡◌, Bool, Option, none, some, if◌then◌else◌, is_some,
  false, not, truthy,
}
use rescs.Errors.{Result, ok, err, conflict, not_found, key_error}
use rescs.Dict.{get}
use rescs.Memory.Store.{Item, Store, Natural}

pub record Maps (T : Type 0) : Type 0 where
  pub item_of : String → Option T
  pub id_at : String × String → Option String
  pub id_for : String → Option String

abbrev pub view : {T : Type 0} → Store T → Maps T
view s = record {
  item_of = λ id. get id s.items;
  id_at = λ name. get name s.namespace_keys;
  id_for = λ key. get key s.idempotency;
}

-- A map with one value more, and without the values that are an id.
abbrev pub with_value : {K V : Type 0} ⦃e : Equality K⦄ → K → V → (K → Option V) → K → Option V
with_value k v m j = if k == j then some v else m j

abbrev pub unless_id : String → Option String → Option String
unless_id id none = none
unless_id id (some other) = if other == id then none else some other

abbrev pub is_used : {K : Type 0} → Option K → (K → Option String) → Bool
is_used none m = false
is_used (some k) m = is_some (m k)

abbrev pub with_key :
    {K : Type 0} ⦃e : Equality K⦄ → Option K → String → (K → Option String) → K → Option String
with_key none id m = m
with_key (some k) id m = with_value k id m

-- An item is alone under its natural key: the others that led to it are gone.
abbrev pub renamed :
    Natural → String → (String × String → Option String) → String × String → Option String
renamed none id m = m
renamed (some name) id m = with_value name id (λ k. unless_id id (m k))

-- Another item has the key.
abbrev pub is_foreign : Option String → String → (String → Option String) → Bool
is_foreign none id m = false
is_foreign (some key) id m = elim (m key) [ none ↦ false | some other ↦ not (other == id) ]

abbrev pub led : {T : Type 0} → Option String → (String → Option T) → Result (Option T)
led none items = ok none
led (some id) items = elim (items id) [ none ↦ err key_error | some item ↦ ok (some item) ]

-- A call of a method of the store.
pub data Call (T : Type 0) : Type 0 where
  creates : T → Natural → Call T
  updates : T → Natural → Call T
  deletes : String → Call T
  fetches : String → Call T
  finds_name : String → String → Call T
  finds_key : String → Call T

module _ {T : Type 0} ⦃i : Item T⦄ where
  -- What each call answers and does. An `update` writes the item even if its idempotency key is
  -- refused.
  unfoldable pub call_maps : Call T → Maps T → Result (Option T) × Maps T
  call_maps (creates item natural) m =
      if is_some (m.item_of (i.id item))
      then (err conflict, m)
      else if is_used natural m.id_at
      then (err conflict, m)
      else if is_used (truthy (i.idempotency_key item)) m.id_for
      then (err conflict, m)
      else (
        ok (some item),
        record {
          item_of = with_value (i.id item) item m.item_of;
          id_at = with_key natural (i.id item) m.id_at;
          id_for = with_key (truthy (i.idempotency_key item)) (i.id item) m.id_for;
        },
      )
  call_maps (updates item natural) m =
      if is_some (m.item_of (i.id item))
      then (
        (if is_foreign (truthy (i.idempotency_key item)) (i.id item) m.id_for
            then err conflict
            else ok (some item)),
        record {
          item_of = with_value (i.id item) item m.item_of;
          id_at = renamed natural (i.id item) m.id_at;
          id_for = λ k.
              if is_foreign (truthy (i.idempotency_key item)) (i.id item) m.id_for
              then m.id_for k
              else with_key (truthy (i.idempotency_key item)) (i.id item) m.id_for k;
        },
      )
      else (err not_found, m)
  call_maps (deletes id) m =
      if is_some (m.item_of id)
      then (
        ok none,
        record {
          item_of = λ other. if id == other then none else m.item_of other;
          id_at = λ name. unless_id id (m.id_at name);
          id_for = λ key. unless_id id (m.id_for key);
        },
      )
      else (err not_found, m)
  call_maps (fetches id) m =
      (elim (m.item_of id) [ none ↦ err not_found | some item ↦ ok (some item) ], m)
  call_maps (finds_name namespace key) m = (led (m.id_at (namespace, key)) m.item_of, m)
  call_maps (finds_key key) m = (led (m.id_for key) m.item_of, m)
