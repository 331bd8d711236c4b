-- ===== src/Prelude/Text.antt =====
-- Python's operations on `str` that the program uses.
use Prim.Native.Char.{code, Char}
use Prim.Native.Nat.{Ordering}
use Prim.Native.String
use Prim.Native.String.{String}
use mathlib.Core.Bool.{Bool, true, false, ◌&&◌, ◌||◌}
use mathlib.Core.Option.{Option, none, some}
use rescs.Prelude.Tests.{leb, if◌then◌else◌}
use rescs.Prelude.Eq.{◌==◌, nat_eq}

-- `not s`
abbrev pub is_empty : String → Bool
is_empty String.[] = true
is_empty (String.◌∷◌ _ _) = false

-- `s` if it is a text that is not empty: what `if s:` tests of an optional text.
abbrev pub truthy : Option String → Option String
truthy none = none
truthy (some String.[]) = none
truthy (some (String.◌∷◌ c s)) = some (String.◌∷◌ c s)

-- `a <= b`, by code points
abbrev pub text_leb : String → String → Bool
text_leb a b = elim (String.compare a b) [ Ordering.gt ↦ false | _ ↦ true ]

-- `str.isspace` of one character
unfoldable pub is_space : Char → Bool
is_space c =
    let n = code c in
    (leb 9 n && leb n 13)
    || (leb 28 n && leb n 32)
    || (leb 0x2000 n && leb n 0x200a)
    || (leb 0x2028 n && leb n 0x2029)
    || (n == 0x85 || n == 0xa0 || n == 0x1680 || n == 0x202f)
    || (n == 0x205f || n == 0x3000)

unfoldable pub strip_left : String → String
strip_left String.[] = String.[]
strip_left (String.◌∷◌ c s) = let rest = strip_left s in if is_space c then rest else String.◌∷◌ c s

-- A character in front of a stripped text: a space at the end is dropped.
unfoldable pub before_stripped : Char → String → String
before_stripped c String.[] = if is_space c then String.[] else String.◌∷◌ c String.[]
before_stripped c (String.◌∷◌ d s) = String.◌∷◌ c (String.◌∷◌ d s)

unfoldable pub strip_right : String → String
strip_right String.[] = String.[]
strip_right (String.◌∷◌ c s) = before_stripped c (strip_right s)

-- `s.strip()`
unfoldable pub strip : String → String
unfolding strip_left strip_right before_stripped is_space
strip s = strip_right (strip_left s)

-- A character of the class `[A-Za-z0-9._-]`.
unfoldable pub is_word_char : Char → Bool
is_word_char c =
    let n = code c in
    (leb 65 n && leb n 90)
    || (leb 97 n && leb n 122)
    || (leb 48 n && leb n 57)
    || (n == 46 || n == 95 || n == 45)

-- After the first character of `^[A-Za-z0-9._-]+$`: more of the class, up to the end of the text or
-- a line feed that ends it. Python's `$` matches before such a line feed too.
unfoldable pub word_tail : String → Bool
unfolding is_word_char
word_tail String.[] = true
word_tail (String.◌∷◌ c String.[]) = is_word_char c || code c == 10
word_tail (String.◌∷◌ c (String.◌∷◌ d s)) = is_word_char c && word_tail (String.◌∷◌ d s)

-- `re.compile(r"^[A-Za-z0-9._-]+$").match(s)`
unfoldable pub matches_word : String → Bool
unfolding word_tail
matches_word String.[] = false
matches_word (String.◌∷◌ c s) = is_word_char c && word_tail s
