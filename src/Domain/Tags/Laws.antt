-- ===== src/Domain/Tags/Laws.antt =====
-- What the tags of a stored item look like.
use rescs.Prelude.{
  String, ◌==◌, string_eq, ==→≡, ==-refl, ◌≡◌, refl, ◌≤◌, true, false, List, [], ◌∷◌, arith, length,
  All, map, not, ◌&&◌, strip, Bool-cases, inl, inr,
}
use rescs.Errors.{ok}
use rescs.Domain.Tags.{
  max_tags, member, normalize_from, normalize_tags, is_valid_tag, validate_each, validate_tags,
}

-- No tag stands twice.
abbrev pub AreDistinct : List String → Type 0
AreDistinct [] = Unit
AreDistinct (t ∷ ts) = (member t ts ≡ false) × AreDistinct ts

-- What has been seen is not listed again.
normalize_from-fresh :
    (t : String) (seen raws : List String)
    → member t seen ≡ true
    → member t (normalize_from seen raws) ≡ false
unfolding member normalize_from
normalize_from-fresh t seen [] h = refl
normalize_from-fresh t seen (raw ∷ raws) h = elim (Bool-cases (strip raw == t)) [
  | inl same ↦ ground (arith, ==→≡ (strip raw) t same, normalize_from-fresh t seen raws h)
  | inr differ ↦ ground (
    arith,
    differ,
    normalize_from-fresh t seen raws h,
    normalize_from-fresh t (strip raw ∷ seen) raws,
  )
]

normalize_from-AreDistinct : (seen raws : List String) → AreDistinct (normalize_from seen raws)
unfolding member normalize_from
normalize_from-AreDistinct seen [] = tt
normalize_from-AreDistinct seen (raw ∷ raws) = ground (
  arith,
  normalize_from-AreDistinct seen raws,
  normalize_from-AreDistinct (strip raw ∷ seen) raws,
  normalize_from-fresh (strip raw) (strip raw ∷ seen) raws,
  ==-refl (strip raw),
)

-- A text is listed exactly when it is a stripped raw tag and has not been seen.
normalize_from-member :
    (t : String) (seen raws : List String)
    → member t (normalize_from seen raws) ≡ (member t (map strip raws) && not (member t seen))
unfolding member normalize_from
normalize_from-member t seen [] = refl
normalize_from-member t seen (raw ∷ raws) = elim (Bool-cases (strip raw == t)) [
  | inl same ↦ ground (
    arith,
    ==→≡ (strip raw) t same,
    ==-refl t,
    normalize_from-member t seen raws,
    normalize_from-member t (strip raw ∷ seen) raws,
  )
  | inr differ ↦ ground (
    arith,
    differ,
    normalize_from-member t seen raws,
    normalize_from-member t (strip raw ∷ seen) raws,
  )
]

-- The normalised tags have no repetition, and hold a text exactly when it is the stripped form of
-- one of the tags that were given: a tag of blanks is kept too, as the empty text.
pub normalize_tags-set :
    (raws : List String)
    → AreDistinct (normalize_tags raws)
      × ((t : String) → member t (normalize_tags raws) ≡ member t (map strip raws))
unfolding normalize_tags member
normalize_tags-set raws =
    (normalize_from-AreDistinct [] raws, λ t. ground (arith, normalize_from-member t [] raws))

validate_each-All :
    (tags : List String) → validate_each tags ≡ ok tt → All (λ t. is_valid_tag t ≡ true) tags
unfolding validate_each
validate_each-All [] h = tt
validate_each-All (t ∷ ts) h = ground (arith, validate_each-All ts)

pub validate_tags-All :
    (tags : List String)
    → validate_tags tags ≡ ok tt
    → (length tags ≤ max_tags) × All (λ t. is_valid_tag t ≡ true) tags
unfolding validate_tags
validate_tags-All tags h = ground (arith, validate_each-All tags)
