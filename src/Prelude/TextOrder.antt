-- ===== src/Prelude/TextOrder.antt =====
-- `<=` on texts is a total order.
use Prim.Native.Char.{Char, code}
use Prim.Native.Nat.{compare as compare_ℕ}
use Prim.Native.String
use Prim.Native.String.compare as clauses
use text.Mathlib.TextEquality.{Char-path}
use mathlib.Core.Path.{◌≡◌, refl, ap₂}
use mathlib.Core.Bool.{true, false, ◌||◌, ◌&&◌}
use native.Mathlib.Omega.{arith}
use Prim.Native.String.{String}
use rescs.Prelude.Tests.{ltb}
use rescs.Prelude.Eq.{◌==◌, nat_eq}
use rescs.Prelude.Text.{text_leb}

compare-nil_nil : String.compare String.[] String.[] ≡ compare_ℕ 0 0
compare-nil_nil = λ i. clauses.nil-nil i

compare-nil_cons :
    (d : Char) (t : String) → String.compare String.[] (String.◌∷◌ d t) ≡ compare_ℕ 0 1
compare-nil_cons d t = λ i. clauses.nil-cons d t i

compare-cons_nil :
    (c : Char) (s : String) → String.compare (String.◌∷◌ c s) String.[] ≡ compare_ℕ 1 0
compare-cons_nil c s = λ i. clauses.cons-nil c s i

compare-cons_cons :
    (c d : Char) (s t : String)
    → String.compare (String.◌∷◌ c s) (String.◌∷◌ d t)
      ≡ String.then (compare_ℕ (code c) (code d)) (String.compare s t)
compare-cons_cons c d s t = λ i. clauses.cons-cons c d s t i

text_leb-nil : (t : String) → text_leb String.[] t ≡ true
text_leb-nil String.[] = refl
text_leb-nil (String.◌∷◌ d t) = ground (arith, compare-nil_cons d t)

text_leb-cons_nil : (c : Char) (s : String) → text_leb (String.◌∷◌ c s) String.[] ≡ false
text_leb-cons_nil c s = ground (arith, compare-cons_nil c s)

text_leb-cons :
    (c d : Char) (s t : String)
    → text_leb (String.◌∷◌ c s) (String.◌∷◌ d t)
      ≡ (ltb (code c) (code d) || (code c == code d && text_leb s t))
text_leb-cons c d s t = ground (arith, compare-cons_cons c d s t)

pub text_leb_total : (a b : String) → text_leb a b ≡ false → text_leb b a ≡ true
text_leb_total String.[] b h = ground (arith, text_leb-nil b)
text_leb_total (String.◌∷◌ c s) String.[] h = text_leb-nil (String.◌∷◌ c s)
text_leb_total (String.◌∷◌ c s) (String.◌∷◌ d t) h =
    ground (arith, text_leb-cons c d s t, text_leb-cons d c t s, text_leb_total s t)

pub text_leb_trans :
    (a b c : String) → text_leb a b ≡ true → text_leb b c ≡ true → text_leb a c ≡ true
text_leb_trans String.[] b c h k = text_leb-nil c
text_leb_trans (String.◌∷◌ x s) String.[] c h k = ground (arith, text_leb-cons_nil x s)
text_leb_trans (String.◌∷◌ x s) (String.◌∷◌ y t) String.[] h k =
    ground (arith, text_leb-cons_nil y t)
text_leb_trans (String.◌∷◌ x s) (String.◌∷◌ y t) (String.◌∷◌ z u) h k = ground (
  arith,
  text_leb-cons x y s t,
  text_leb-cons y z t u,
  text_leb-cons x z s u,
  text_leb_trans s t u,
)

pub text_leb_antisymm : (a b : String) → text_leb a b ≡ true → text_leb b a ≡ true → a ≡ b
text_leb_antisymm String.[] String.[] h k = refl
text_leb_antisymm String.[] (String.◌∷◌ d t) h k = ground (arith, text_leb-cons_nil d t)
text_leb_antisymm (String.◌∷◌ c s) String.[] h k = ground (arith, text_leb-cons_nil c s)
text_leb_antisymm (String.◌∷◌ c s) (String.◌∷◌ d t) h k =
    ap₂ String.◌∷◌ (Char-path c d (ground (arith, text_leb-cons c d s t, text_leb-cons d c t s))) (
      text_leb_antisymm s t (ground (arith, text_leb-cons c d s t, text_leb-cons d c t s))
        (ground (arith, text_leb-cons c d s t, text_leb-cons d c t s)))
