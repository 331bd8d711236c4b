-- ===== src/Prelude/Eq.antt =====
-- Python's `==` on the types that the program compares, as an interface.
use Prim.Native.Nat.{ℕ, compare, Ordering}
use Prim.Native.String.{String}
use mathlib.Core.Path.{◌≡◌, refl, ap}
use mathlib.Core.Logic.{◌≢◌, ◌↔◌, inl, inr}
use mathlib.Core.Bool.{Bool, true, false, ◌&&◌}
use native.Mathlib.Omega.{arith}
use text.Mathlib.Text.{◌==◌ as str_eq}
use text.Mathlib.TextEquality.{eq_iff}
use rescs.Prelude.Tests.{Bool-cases}

infix 50 ◌==◌
pub record Equality {ℓ} (K : Type ℓ) : Type ℓ where
  pub beq : K → K → Bool
  pub beq_iff : (j k : K) → (beq j k ≡ true) ↔ (j ≡ k)

-- `a == b`
abbrev pub ◌==◌ {ℓ} : {A : Type ℓ} ⦃e : Equality A⦄ → A → A → Bool
◌==◌ ⦃e⦄ = e.beq

abbrev pub nat_beq : ℕ → ℕ → Bool
nat_beq a b = elim (compare a b) [ Ordering.eq ↦ true | _ ↦ false ]

pub nat_beq_iff : (a b : ℕ) → (nat_beq a b ≡ true) ↔ (a ≡ b)
nat_beq_iff a b = (λ h. ground arith, λ h. ground arith)

instance abbrev pub nat_eq : Equality ℕ
nat_eq = record { beq = nat_beq; beq_iff = nat_beq_iff }

instance abbrev pub string_eq : Equality String
string_eq = record { beq = str_eq; beq_iff = eq_iff }

module _ {ℓ} {A : Type ℓ} ⦃e : Equality A⦄ where
  pub ==-refl : (a : A) → (a == a) ≡ true
  ==-refl a = (e.beq_iff a a).1 refl

  pub ==→≡ : (a b : A) → (a == b) ≡ true → a ≡ b
  ==→≡ a b = (e.beq_iff a b).0

  pub ≡→== : (a b : A) → a ≡ b → (a == b) ≡ true
  ≡→== a b = (e.beq_iff a b).1

  pub ==-false : (a b : A) → a ≢ b → (a == b) ≡ false
  ==-false a b h = elim (Bool-cases (a == b)) [
    | inl same ↦ absurd (h (==→≡ a b same))
    | inr differ ↦ differ
  ]

module _ {ℓ} {A B : Type ℓ} ⦃e : Equality A⦄ ⦃f : Equality B⦄ where
  abbrev pub pair_beq : A × B → A × B → Bool
  pair_beq p q = e.beq p.0 q.0 && f.beq p.1 q.1

  pub pair_beq_iff : (p q : A × B) → (pair_beq p q ≡ true) ↔ (p ≡ q)
  pair_beq_iff p q = (
    λ h. ground (arith, e.beq_iff p.0 q.0, f.beq_iff p.1 q.1),
    λ h. ground (
      arith,
      e.beq_iff p.0 q.0,
      f.beq_iff p.1 q.1,
      ap (λ (r : A × B). r.0) h,
      ap (λ (r : A × B). r.1) h,
    ),
  )

  instance abbrev pub pair_eq : Equality (A × B)
  pair_eq = record { beq = pair_beq; beq_iff = pair_beq_iff }
