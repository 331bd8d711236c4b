-- ===== src/Api/Names.antt =====
-- The file name in the header of a download.
use Prim.Native.Char.{Char}
use Prim.Native.String
use Prim.Native.String.count as clauses
use rescs.Prelude.{
  String, nat_eq, ◌≡◌, refl, true, false, Bool, Bool-cases, inl, inr, some, ℕ, zero, suc, ◌≤◌, ◌&&◌,
  arith, is_empty, is_space, strip, strip_left, strip_right, before_stripped,
}
use rescs.Api.Files.{is_safe_char, keep_safe, take_text, name_of, safe_name}

-- Every character of a text is safe.
abbrev pub all_safe : String → Bool
all_safe String.[] = true
all_safe (String.◌∷◌ c s) = is_safe_char c && all_safe s

all_safe-keep_safe : (s : String) → all_safe (keep_safe s) ≡ true
unfolding keep_safe
all_safe-keep_safe String.[] = refl
all_safe-keep_safe (String.◌∷◌ c s) = ground (arith, all_safe-keep_safe s)

all_safe-strip_left : (s : String) → all_safe s ≡ true → all_safe (strip_left s) ≡ true
unfolding strip_left
all_safe-strip_left String.[] h = refl
all_safe-strip_left (String.◌∷◌ c s) h = ground (arith, h, all_safe-strip_left s)

all_safe-before_stripped :
    (c : Char) (s : String)
    → is_safe_char c ≡ true
    → all_safe s ≡ true
    → all_safe (before_stripped c s) ≡ true
unfolding before_stripped
all_safe-before_stripped c String.[] h k = elim (Bool-cases (is_space c)) [
  | inl space ↦ rw space refl
  | inr other ↦ rw other (ground (arith, h))
]
all_safe-before_stripped c (String.◌∷◌ d s) h k = ground (arith, h, k)

all_safe-strip_right : (s : String) → all_safe s ≡ true → all_safe (strip_right s) ≡ true
unfolding strip_right
all_safe-strip_right String.[] h = refl
all_safe-strip_right (String.◌∷◌ c s) h =
    all_safe-before_stripped c (strip_right s) (ground (arith, h))
      (all_safe-strip_right s (ground (arith, h)))

all_safe-take_text : (n : ℕ) (s : String) → all_safe s ≡ true → all_safe (take_text n s) ≡ true
unfolding take_text
all_safe-take_text zero s h = refl
all_safe-take_text (suc n) String.[] h = refl
all_safe-take_text (suc n) (String.◌∷◌ c s) h = ground (arith, h, all_safe-take_text n s)

all_safe-name_of :
    (s other : String)
    → all_safe s ≡ true
    → all_safe other ≡ true
    → all_safe (name_of (some s) other) ≡ true
all_safe-name_of String.[] other h k = k
all_safe-name_of (String.◌∷◌ c s) other h k = h

count-nil : String.count String.[] ≡ 0
count-nil = λ i. clauses.nil i

count-cons : (c : Char) (s : String) → String.count (String.◌∷◌ c s) ≡ suc (String.count s)
count-cons c s = λ i. clauses.cons c s i

count-take_text-le : (n : ℕ) (s : String) → String.count (take_text n s) ≤ n
unfolding take_text
count-take_text-le zero s = rw count-nil (omega arith)
count-take_text-le (suc n) String.[] = rw count-nil (omega arith)
count-take_text-le (suc n) (String.◌∷◌ c s) =
    rw (count-cons c (take_text n s)) (omega (arith, count-take_text-le n s))

is_empty-name_of :
    (s other : String) → is_empty other ≡ false → is_empty (name_of (some s) other) ≡ false
is_empty-name_of String.[] other h = h
is_empty-name_of (String.◌∷◌ c s) other h = refl

is_empty-take_text :
    (n : ℕ) (s : String) → is_empty s ≡ false → is_empty (take_text (suc n) s) ≡ false
unfolding take_text
is_empty-take_text n String.[] h = h
is_empty-take_text n (String.◌∷◌ c s) h = refl

download_safe : all_safe "download" ≡ true
unfolding is_safe_char
download_safe = refl

-- Whatever the name of a file is, the name that `content_disposition` puts between quotes in the header
-- is not empty, has at most 180 characters, and has no quote, no backslash, no line end and no other
-- control character below the space.
pub safe_name_lem :
    (raw : String)
    → (all_safe (safe_name raw) ≡ true)
      × (is_empty (safe_name raw) ≡ false)
      × (String.count (safe_name raw) ≤ 180)
unfolding safe_name strip
safe_name_lem raw =
    let stripped =
      all_safe-strip_right (strip_left (keep_safe raw))
        (all_safe-strip_left (keep_safe raw) (all_safe-keep_safe raw)) in
    let name = name_of (some (strip (keep_safe raw))) "download" in
    (
      all_safe-take_text 180 name
          (all_safe-name_of (strip (keep_safe raw)) "download" stripped download_safe),
      is_empty-take_text 179 name (is_empty-name_of (strip (keep_safe raw)) "download" refl),
      count-take_text-le 180 name,
    )
