-- ===== src/Memory/Store/Sorting.antt =====
-- `sort`, the model of Python's `sorted`: what it returns, and when the order of its input does not
-- matter.
use mathlib.Core.List.{Perm, Permᴰ}
use mathlib.Core.List.Perm
use mathlib.Core.Logic.{∥∥₁_elim}
use rescs.Prelude.{
  ◌≡◌, refl, ◌∙◌, Bool, true, false, List, [], ◌∷◌, arith, All, ◌+◌, Bool-cases, inl, inr, length,
}
use rescs.Memory.Store.{insert_sorted, sort}

-- What the sort asks of a test.
pub record IsTotal {T : Type 0} (before : T → T → Bool) : Type 0 where
  pub total : (a b : T) → before a b ≡ false → before b a ≡ true
  pub trans : (a b c : T) → before a b ≡ true → before b c ≡ true → before a c ≡ true

-- Each element comes before all that follow it.
abbrev pub IsSorted : {T : Type 0} → (T → T → Bool) → List T → Type 0
IsSorted before [] = Unit
IsSorted before (x ∷ xs) = All (λ y. before x y ≡ true) xs × IsSorted before xs

module _ {T : Type 0} (before : T → T → Bool) where
  pub insert_sorted-perm : (x : T) (xs : List T) → Perm (insert_sorted before x xs) (x ∷ xs)
  unfolding insert_sorted
  insert_sorted-perm x [] = Perm.refl (x ∷ [])
  insert_sorted-perm x (y ∷ ys) = elim (Bool-cases (before x y)) [
    | inl first ↦ rw first (Perm.refl (x ∷ y ∷ ys))
    | inr later ↦ rw later (Perm.trans (Perm.cons y (insert_sorted-perm x ys)) (Perm.swap x y ys))
  ]

  -- The sorted list has the same elements.
  pub sort-perm : (xs : List T) → Perm (sort before xs) xs
  unfolding sort
  sort-perm [] = Perm.refl []
  sort-perm (x ∷ xs) =
      Perm.trans (insert_sorted-perm x (sort before xs)) (Perm.cons x (sort-perm xs))

  insert_sorted-All :
      (P : T → Type 0) (x : T) (xs : List T) → P x → All P xs → All P (insert_sorted before x xs)
  unfolding insert_sorted
  insert_sorted-All P x [] p h = (p, tt)
  insert_sorted-All P x (y ∷ ys) p h = ground (arith, insert_sorted-All P x ys p h.1)

  pub sort-All : (P : T → Type 0) (xs : List T) → All P xs → All P (sort before xs)
  unfolding sort
  sort-All P [] h = tt
  sort-All P (x ∷ xs) h = insert_sorted-All P x (sort before xs) h.0 (sort-All P xs h.1)

  length-insert_sorted : (x : T) (xs : List T) → length (insert_sorted before x xs) ≡ length xs + 1
  unfolding insert_sorted
  length-insert_sorted x [] = omega arith
  length-insert_sorted x (y ∷ ys) = ground (arith, length-insert_sorted x ys)

  pub length-sort : (xs : List T) → length (sort before xs) ≡ length xs
  unfolding sort
  length-sort [] = refl
  length-sort (x ∷ xs) = omega (arith, length-insert_sorted x (sort before xs), length-sort xs)

  module _ (t : IsTotal before) where
    All-before :
        (x y : T) (ys : List T)
        → before x y ≡ true
        → All (λ z. before y z ≡ true) ys
        → All (λ z. before x z ≡ true) ys
    All-before x y [] h k = tt
    All-before x y (z ∷ zs) h k = (t.trans x y z h k.0, All-before x y zs h k.1)

    insert_sorted-IsSorted :
        (x : T) (xs : List T) → IsSorted before xs → IsSorted before (insert_sorted before x xs)
    unfolding insert_sorted
    insert_sorted-IsSorted x [] h = (tt, tt)
    insert_sorted-IsSorted x (y ∷ ys) h = elim (Bool-cases (before x y)) [
      | inl first ↦ rw first ((first, All-before x y ys first h.0), h)
      | inr later ↦ rw later (
        insert_sorted-All (λ z. before y z ≡ true) x ys (t.total x y later) h.0,
        insert_sorted-IsSorted x ys h.1,
      )
    ]

    pub sort-IsSorted : (xs : List T) → IsSorted before (sort before xs)
    unfolding sort
    sort-IsSorted [] = tt
    sort-IsSorted (x ∷ xs) = insert_sorted-IsSorted x (sort before xs) (sort-IsSorted xs)

    module _ (antisymm : (a b : T) → before a b ≡ true → before b a ≡ true → a ≡ b) where
      insert_sorted_comm :
          (x y : T) (zs : List T)
          → insert_sorted before x (insert_sorted before y zs)
            ≡ insert_sorted before y (insert_sorted before x zs)
      unfolding insert_sorted
      insert_sorted_comm x y [] = ground (arith, antisymm x y, t.total x y, t.total y x)
      insert_sorted_comm x y (z ∷ zs) = ground (
        arith,
        antisymm x y,
        t.total x y,
        t.total y x,
        t.trans x y z,
        t.trans y x z,
        insert_sorted_comm x y zs,
      )

      sort-Permᴰ : {xs ys : List T} → Permᴰ xs ys → sort before xs ≡ sort before ys
      unfolding sort
      sort-Permᴰ Permᴰ.nil = refl
      sort-Permᴰ (Permᴰ.cons {a = a} {b = b} {l₁ = l} {l₂ = m} e p) = rw (e, sort-Permᴰ p) refl
      sort-Permᴰ (Permᴰ.swap {a = a} {b = b} {l = l} e f) =
          rw (← e, ← f) (insert_sorted_comm a b (sort before l))
      sort-Permᴰ (Permᴰ.trans p q) = sort-Permᴰ p ∙ sort-Permᴰ q

      -- For a total order that is antisymmetric the order of the input does not matter.
      pub sort-eq_of_perm :
          {xs ys : List T} → IsSet (List T) → Perm xs ys → sort before xs ≡ sort before ys
      sort-eq_of_perm {xs} {ys} set p =
          ∥∥₁_elim p (set (sort before xs) (sort before ys)) (λ q. sort-Permᴰ q)
