-- ===== src/Domain/Tags.antt =====
-- `normalize_tags` and `validate_tags` of src/rescs/domain.py.
pub mod Laws
use Prim.Native.String
use rescs.Prelude.{
  String, ◌==◌, string_eq, ℕ, Bool, true, false, not, ◌&&◌, ◌||◌, List, [], ◌∷◌, ltb, leb,
  if◌then◌else◌, length, is_empty, strip, matches_word,
}
use rescs.Errors.{Result, ok, err, invalid_request}

abbrev pub max_tags : ℕ
max_tags = 50

abbrev pub max_tag_length : ℕ
max_tag_length = 64

-- `tag in seen`
unfoldable pub member : String → List String → Bool
member tag [] = false
member tag (t ∷ ts) = t == tag || member tag ts

-- The loop of `normalize_tags`, with the tags seen so far.
unfoldable pub normalize_from : List String → List String → List String
normalize_from seen [] = []
normalize_from seen (raw ∷ raws) =
    let skipped = normalize_from seen raws in
    let added = strip raw ∷ normalize_from (strip raw ∷ seen) raws in
    if member (strip raw) seen then skipped else added

unfoldable pub normalize_tags : List String → List String
unfolding normalize_from
normalize_tags tags = normalize_from [] tags

-- The test in the loop of `validate_tags`.
unfoldable pub is_valid_tag : String → Bool
is_valid_tag tag =
    not (is_empty tag || ltb max_tag_length (String.count tag) || not (matches_word tag))

unfoldable pub validate_each : List String → Result (Unit {0})
validate_each [] = ok tt
validate_each (tag ∷ tags) = if is_valid_tag tag then validate_each tags else err invalid_request

unfoldable pub validate_tags : List String → Result (Unit {0})
unfolding validate_each
validate_tags tags = if ltb max_tags (length tags) then err invalid_request else validate_each tags
