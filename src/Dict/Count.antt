-- ===== src/Dict/Count.antt =====
-- How many values of a dict pass a test, after each update.
use rescs.Prelude.{Equality, ◌≡◌, refl, Bool, true, false, ℕ, ◌+◌, none, some, [], ◌∷◌, arith}
use rescs.Dict.{Dict, get, set, pop, filter_items, IsUnique, count}

-- 1 if the test passes.
abbrev pub bit : Bool → ℕ
bit true = 1
bit false = 0

module _ {ℓ} {K V : Type ℓ} ⦃e : Equality K⦄ where
  pub count-set_new :
      (p : V → Bool) (k : K) (v : V) (d : Dict K V)
      → get k d ≡ none
      → count p (set k v d) ≡ count p d + bit (p v)
  unfolding get set count
  count-set_new p k v [] h = ground arith
  count-set_new p k v ((i, w) ∷ d) h = ground (arith, count-set_new p k v d)

  pub count-set :
      (p : V → Bool) (k : K) (v old : V) (d : Dict K V)
      → get k d ≡ some old
      → count p (set k v d) + bit (p old) ≡ count p d + bit (p v)
  unfolding get set count
  count-set p k v old [] h = ground arith
  count-set p k v old ((i, w) ∷ d) h = ground (arith, count-set p k v old d)

  pub count-pop_absent : (p : V → Bool) (k : K) (d : Dict K V) → get k d ≡ none → pop k d ≡ d
  unfolding get filter_items
  count-pop_absent p k [] h = refl
  count-pop_absent p k ((i, w) ∷ d) h = ground (arith, count-pop_absent p k d)

  pub count-pop :
      (p : V → Bool) (k : K) (old : V) (d : Dict K V)
      → IsUnique d
      → get k d ≡ some old
      → count p (pop k d) + bit (p old) ≡ count p d
  unfolding get filter_items count
  count-pop p k old [] u h = ground arith
  count-pop p k old ((i, w) ∷ d) u h =
      ground (arith, count-pop p k old d u.1, e.beq_iff i k, count-pop_absent p k d)
