-- ===== src/Memory/Store/Pages.antt =====
-- The pages of a listing.
use Prim.Native.Nat.{min}
use mathlib.Core.List.{Perm}
use rescs.Prelude.{
  ◌≡◌, Bool, true, List, [], ◌∷◌, ◌++◌, arith, All, ℕ, zero, suc, ◌+◌, ◌-◌, length, filter, take,
  drop, sym, refl, ap, ◌∙◌, ◌*◌, ◌≤◌, ◌<◌, ◌⊎◌, text_leb,
}
use rescs.Prelude.Slices.{
  length-take, length-drop, drop-drop, take-add, take_whole, All-take, All-drop,
}
use rescs.Prelude.TextOrder.{text_leb_total, text_leb_trans}
use rescs.Dict.{values, count}
use rescs.Memory.Store.{Item, Store, sort, by_update, page, count_items}
use rescs.Memory.Store.Sorting.{IsTotal, IsSorted, length-sort, sort-perm, sort-All, sort-IsSorted}

pub filter-All : {T : Type 0} (p : T → Bool) (xs : List T) → All (λ x. p x ≡ true) (filter p xs)
filter-All p [] = tt
filter-All p (x ∷ xs) = ground (arith, filter-All p xs)

module _ {T : Type 0} (before : T → T → Bool) where
  IsSorted-take : (n : ℕ) (xs : List T) → IsSorted before xs → IsSorted before (take n xs)
  IsSorted-take zero xs h = tt
  IsSorted-take (suc n) [] h = tt
  IsSorted-take (suc n) (x ∷ xs) h = (All-take _ n xs h.0, IsSorted-take n xs h.1)

  IsSorted-drop : (n : ℕ) (xs : List T) → IsSorted before xs → IsSorted before (drop n xs)
  IsSorted-drop zero xs h = h
  IsSorted-drop (suc n) [] h = tt
  IsSorted-drop (suc n) (x ∷ xs) h = IsSorted-drop n xs h.1

module _ {T : Type 0} ⦃i : Item T⦄ where
  by_update-IsTotal : IsTotal {T = T} by_update
  by_update-IsTotal = record {
    total = λ a b h. ground (arith, text_leb_total (i.id a) (i.id b));
    trans = λ a b c h k. ground (arith, text_leb_trans (i.id a) (i.id b) (i.id c));
  }

  -- The order of the listings: an item that was updated earlier comes first, and of two that were
  -- updated at the same time the one with the lesser id.
  abbrev pub Precedes : T → T → Type 0
  Precedes a b =
      (i.updated_at a < i.updated_at b)
      ⊎ ((i.updated_at a ≡ i.updated_at b) × (text_leb (i.id a) (i.id b) ≡ true))

  abbrev pub InOrder : List T → Type 0
  InOrder [] = Unit
  InOrder (x ∷ xs) = All (Precedes x) xs × InOrder xs

  by_update-Precedes : (a b : T) → by_update a b ≡ true → Precedes a b
  by_update-Precedes a b h = ground arith

  All-Precedes : (x : T) (xs : List T) → All (λ y. by_update x y ≡ true) xs → All (Precedes x) xs
  All-Precedes x [] h = tt
  All-Precedes x (y ∷ ys) h = (by_update-Precedes x y h.0, All-Precedes x ys h.1)

  IsSorted-InOrder : (xs : List T) → IsSorted by_update xs → InOrder xs
  IsSorted-InOrder [] h = tt
  IsSorted-InOrder (x ∷ xs) h = (All-Precedes x xs h.0, IsSorted-InOrder xs h.1)

  -- A page, of a listing of live items or of deleted ones, holds items that pass the test, ordered
  -- by the time of the last update and then by the id, and as many of them as the limit and the
  -- offset leave of the total that is reported beside it.
  pub page_lem :
      (p : T → Bool) (limit offset : ℕ) (s : Store T)
      → All (λ x. p x ≡ true) (page p limit offset s)
        × InOrder (page p limit offset s)
        × (length (page p limit offset s) ≡ min limit (count_items p s - offset))
  unfolding page count_items count
  page_lem p limit offset s =
      let found = filter p (values s.items) in
      let sorted = sort by_update found in
      (
        All-take _ limit (drop offset sorted)
            (All-drop _ offset sorted (sort-All by_update _ found (filter-All p (values s.items)))),
        IsSorted-InOrder (take limit (drop offset sorted)) (
            IsSorted-take by_update limit (drop offset sorted) (
              IsSorted-drop by_update offset sorted
                (sort-IsSorted by_update by_update-IsTotal found))),
        omega (
          arith,
          length-take limit (drop offset sorted),
          length-drop offset sorted,
          length-sort by_update found,
        ),
      )

  -- The page at an offset, followed by the page of the same store that begins where it ends, is the
  -- page of both limits together.
  page-append :
      (p : T → Bool) (limit next offset : ℕ) (s : Store T)
      → page p limit offset s ++ page p next (offset + limit) s ≡ page p (limit + next) offset s
  unfolding page
  page-append p limit next offset s =
      let sorted = sort by_update (filter p (values s.items)) in
      rw (← drop-drop offset limit sorted) (sym (take-add limit next (drop offset sorted)))

  page-empty : (p : T → Bool) (offset : ℕ) (s : Store T) → page p 0 offset s ≡ []
  unfolding page
  page-empty p offset s = refl

  -- What a client reads with pages of one limit from an offset on, each page at the offset where the
  -- last one ended.
  unfoldable pub walk : (T → Bool) → ℕ → ℕ → ℕ → Store T → List T
  walk p limit zero offset s = []
  walk p limit (suc pages) offset s = page p limit offset s ++ walk p limit pages (offset + limit) s

  walk-page :
      (p : T → Bool) (limit pages offset : ℕ) (s : Store T)
      → walk p limit pages offset s ≡ page p (pages * limit) offset s
  unfolding walk
  walk-page p limit zero offset s =
      sym (page-empty p offset s) ∙ ap (λ n. page p n offset s) (omega arith)
  walk-page p limit (suc pages) offset s =
      ap (λ l. page p limit offset s ++ l) (walk-page p limit pages (offset + limit) s)
      ∙ page-append p limit (pages * limit) offset s
      ∙ ap (λ n. page p n offset s) (omega arith)

  whole_page :
      (p : T → Bool) (limit : ℕ) (s : Store T)
      → count_items p s ≤ limit
      → page p limit 0 s ≡ sort by_update (filter p (values s.items))
  unfolding page count_items count
  whole_page p limit s enough =
      let sorted = sort by_update (filter p (values s.items)) in
      take_whole limit sorted (omega (arith, length-sort by_update (filter p (values s.items))))

  -- Pages of one limit that are read one after another from the start, of a store that does not
  -- change, until their limits add up to the total that is reported: together they hold each item
  -- that passes the test exactly once, ordered by the time of the last update and then by the id.
  pub walk_lem :
      (p : T → Bool) (limit pages : ℕ) (s : Store T)
      → count_items p s ≤ pages * limit
      → Perm (walk p limit pages 0 s) (filter p (values s.items)) × InOrder (walk p limit pages 0 s)
  walk_lem p limit pages s enough =
      let found = filter p (values s.items) in
      rw (walk-page p limit pages 0 s ∙ whole_page p (pages * limit) s enough) (
        sort-perm by_update found,
        IsSorted-InOrder (sort by_update found) (sort-IsSorted by_update by_update-IsTotal found),
      )
