-- ===== src/Dict/Laws.antt =====
-- What `get` returns after each update of a dict, and that the updates keep the keys unique.
use rescs.Prelude.{
  Equality, ◌==◌, ==→≡, ◌≡◌, refl, Bool, Option, none, some, [], ◌∷◌, arith, if◌then◌else◌,
  Bool-cases, inl, inr,
}
use rescs.Dict.{Dict, get, set, pop, filter_items, IsUnique}

-- The value of a key after a filter.
abbrev pub kept {ℓ} : {K V : Type ℓ} → (K → V → Bool) → K → Option V → Option V
kept p k none = none
kept p k (some v) = if p k v then some v else none

module _ {ℓ} {K V : Type ℓ} ⦃e : Equality K⦄ where
  pub get-set :
      (k j : K) (v : V) (d : Dict K V) → get j (set k v d) ≡ (if k == j then some v else get j d)
  unfolding get set
  get-set k j v [] = refl
  get-set k j v ((i, w) ∷ d) =
      ground (arith, e.beq_iff k j, e.beq_iff i k, e.beq_iff i j, get-set k j v d)

  pub get-set_self : (k : K) (v : V) (d : Dict K V) → get k (set k v d) ≡ some v
  get-set_self k v d = ground (arith, get-set k k v d, (e.beq_iff k k).1 refl)

  pub get-pop : (k j : K) (d : Dict K V) → get j (pop k d) ≡ (if k == j then none else get j d)
  unfolding get filter_items
  get-pop k j [] = ground arith
  get-pop k j ((i, w) ∷ d) =
      ground (arith, e.beq_iff k j, e.beq_iff i k, e.beq_iff i j, get-pop k j d)

  pub get-filter_none :
      (p : K → V → Bool) (j : K) (d : Dict K V) → get j d ≡ none → get j (filter_items p d) ≡ none
  unfolding get filter_items
  get-filter_none p j [] h = refl
  get-filter_none p j ((i, w) ∷ d) h = ground (arith, get-filter_none p j d)

  pub get-filter :
      (p : K → V → Bool) (j : K) (d : Dict K V)
      → IsUnique d
      → get j (filter_items p d) ≡ kept p j (get j d)
  unfolding get filter_items
  get-filter p j [] u = refl
  get-filter p j ((i, w) ∷ d) u = elim (Bool-cases (i == j)) [
    | inl same ↦ ground (
      arith,
      ==→≡ i j same,
      same,
      get-filter p j d u.1,
      get-filter_none p i d u.0,
      get-filter_none p j d,
    )
    | inr differ ↦ ground (arith, differ, get-filter p j d u.1)
  ]

  pub filter-IsUnique : (p : K → V → Bool) (d : Dict K V) → IsUnique d → IsUnique (filter_items p d)
  unfolding filter_items
  filter-IsUnique p [] u = tt
  filter-IsUnique p ((i, w) ∷ d) u =
      ground (arith, filter-IsUnique p d u.1, get-filter_none p i d u.0)

  pub set-IsUnique : (k : K) (v : V) (d : Dict K V) → IsUnique d → IsUnique (set k v d)
  unfolding set get
  set-IsUnique k v [] u = (refl, tt)
  set-IsUnique k v ((i, w) ∷ d) u =
      ground (arith, set-IsUnique k v d u.1, get-set k i v d, e.beq_iff i k, e.beq_iff k i)
