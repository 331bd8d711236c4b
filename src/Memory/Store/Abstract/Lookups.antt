-- ===== src/Memory/Store/Abstract/Lookups.antt =====
-- The lookups after each change of an index of `_InMemoryStore`, as the maps have them.
use rescs.Prelude.{
  Equality, String, ◌==◌, string_eq, pair_eq, ◌≡◌, refl, Bool, false, not, Option, none, some,
  arith, Option-cases, Bool-cases, inl, inr, ◌&&◌,
}
use rescs.Dict.{Dict, get, set, filter_items, IsUnique}
use rescs.Dict.Laws.{get-set, get-filter}
use rescs.Memory.Store.{Natural, claim, move, is_taken}
use rescs.Memory.Store.Abstract.{with_value, with_key, unless_id, renamed, is_used}

pub get-claim :
    {K : Type 0} ⦃e : Equality K⦄ (key : Option K) (id : String) (d : Dict K String) (k : K)
    → get k (claim key id d) ≡ with_key key id (λ j. get j d) k
get-claim none id d k = refl
get-claim (some key) id d k = get-set key k id d

pub get-dropped :
    {K : Type 0} ⦃e : Equality K⦄ (id : String) (d : Dict K String) (k : K)
    → IsUnique d
    → get k (filter_items (λ _ v. not (v == id)) d) ≡ unless_id id (get k d)
get-dropped id d k u = elim (Option-cases (get k d)) [
  | inl absent ↦ ground (arith, absent, get-filter (λ _ v. not (v == id)) k d u)
  | inr (other, found) ↦ ground (arith, found, get-filter (λ _ v. not (v == id)) k d u)
]

module _ {K : Type 0} ⦃e : Equality K⦄ where
  -- An id under a new key, with the other keys of the id dropped.
  get-renamed :
      (name k : K) (id : String) (d : Dict K String)
      → IsUnique d
      → get k (set name id (filter_items (λ j v. not (v == id && not (j == name))) d))
        ≡ with_value name id (λ j. unless_id id (get j d)) k
  get-renamed name k id d u =
      let p : K → String → Bool = λ j v. not (v == id && not (j == name)) in
      elim (Bool-cases (name == k)) [
        | inl same ↦ ground (arith, same, get-set name k id (filter_items p d))
        | inr differ ↦
            let apart : (k == name) ≡ false =
              ground (arith, differ, e.beq_iff name k, e.beq_iff k name) in
            elim (Option-cases (get k d)) [
              | inl absent ↦
                  ground (
                    arith,
                    differ,
                    absent,
                    get-set name k id (filter_items p d),
                    get-filter p k d u,
                  )
              | inr (other, found) ↦ ground (
                arith,
                differ,
                apart,
                found,
                get-set name k id (filter_items p d),
                get-filter p k d u,
              )
            ]
      ]

pub get-move :
    (natural : Natural) (id : String) (d : Dict (String × String) String) (k : String × String)
    → IsUnique d
    → get k (move natural id d) ≡ renamed natural id (λ j. get j d) k
unfolding move
get-move none id d k u = refl
get-move (some name) id d k u = get-renamed name k id d u

pub is_used-eq-is_taken :
    {K : Type 0} ⦃e : Equality K⦄ (k : Option K) (d : Dict K String)
    → is_used k (λ j. get j d) ≡ is_taken k d
is_used-eq-is_taken none d = refl
is_used-eq-is_taken (some k) d = refl
