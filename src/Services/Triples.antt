-- ===== src/Services/Triples.antt =====
-- Total Hoare triples for actions: what holds after a return, and what holds after a raise.
use rescs.Prelude.{Bool, true, false, if◌then◌else◌}
use rescs.Errors.{Error, Result, ok, err}
use rescs.Action.{Action, pure, raise, handle, ◌>>=◌}
use rescs.World.{World}
use rescs.Services.Common.{on_error}
use rescs.Services.Keeps.{Keeps}

-- `Q` of the result and the world after a return, `R` of the world after a raise.
abbrev pub Meets :
    {A : Type 0} → (A → World → Type 0) → (World → Type 0) → Result A × World → Type 0
Meets Q R (ok a, w) = Q a w
Meets Q R (err e, w) = R w

pub record Triple {A : Type 0} (P : World → Type 0) (m : Action World A) (Q : A → World → Type 0)
    (R : World → Type 0) : Type 0 where
  pub run : (w : World) → P w → Meets Q R (m w)

Meets-handle :
    {A B : Type 0} (p : Result A × World) (k : A → Action World B) (h : Error → Action World B)
    (Q : A → World → Type 0) (R : World → Type 0) (S : B → World → Type 0) (T : World → Type 0)
    → Meets Q R p
    → ((a : A) → Triple (Q a) (k a) S T)
    → ((e : Error) → Triple R (h e) S T)
    → Meets S T (handle p k h)
Meets-handle (ok a, w) k h Q R S T held on off = (on a).run w held
Meets-handle (err e, w) k h Q R S T held on off = (off e).run w held

pub Triple-handle :
    {A B : Type 0} {P : World → Type 0} {m : Action World A} {Q : A → World → Type 0}
    {R : World → Type 0} (k : A → Action World B) (h : Error → Action World B)
    {S : B → World → Type 0} {T : World → Type 0}
    → Triple P m Q R
    → ((a : A) → Triple (Q a) (k a) S T)
    → ((e : Error) → Triple R (h e) S T)
    → Triple P (λ w. handle (m w) k h) S T
Triple-handle {m} {Q} {R} k h {S} {T} first on off = record {
  run = λ w held. Meets-handle (m w) k h Q R S T (first.run w held) on off;
}

pub Triple-bind :
    {A B : Type 0} {P : World → Type 0} {m : Action World A} {Q : A → World → Type 0}
    {R : World → Type 0} {k : A → Action World B} {S : B → World → Type 0}
    → Triple P m Q R
    → ((a : A) → Triple (Q a) (k a) S R)
    → Triple P (m >>= k) S R
Triple-bind {k} first rest = Triple-handle k raise first rest (λ e. record { run = λ w h. h })

pub Triple-on_error :
    {A : Type 0} {P : World → Type 0} {m : Action World A} {Q : A → World → Type 0}
    {R T : World → Type 0} (h : Error → Action World (Unit {0}))
    → Triple P m Q R
    → ((e : Error) (w : World) → R w → T (h e w).1)
    → Triple P (on_error h m) Q T
Triple-on_error h body handler =
    Triple-handle pure (λ e v. (err e, (h e v).1)) body (λ a. record { run = λ w g. g })
      (λ e. record { run = handler e })

pub Meets-both :
    {A : Type 0} (P : World → Type 0) (p : Result A × World) → P p.1 → Meets (λ _. P) P p
Meets-both P (ok a, w) h = h
Meets-both P (err e, w) h = h

both-Meets : {A : Type 0} (P : World → Type 0) (p : Result A × World) → Meets (λ _. P) P p → P p.1
both-Meets P (ok a, w) h = h
both-Meets P (err e, w) h = h

pub Keeps-Triple :
    {A : Type 0} {P : World → Type 0} {m : Action World A} → Keeps P m → Triple P m (λ _. P) P
Keeps-Triple {P} {m} h = record { run = λ w g. Meets-both P (m w) (h.keeps w g) }

pub Triple-Keeps :
    {A : Type 0} {P : World → Type 0} {m : Action World A} → Triple P m (λ _. P) P → Keeps P m
Triple-Keeps {P} {m} h = record { keeps = λ w g. both-Meets P (m w) (h.run w g) }

pub Triple-pure :
    {A : Type 0} {P R : World → Type 0} {Q : A → World → Type 0} (a : A)
    → ((w : World) → P w → Q a w)
    → Triple P (pure {S = World} a) Q R
Triple-pure a h = record { run = h }

pub Triple-raise :
    {A : Type 0} {P R : World → Type 0} {Q : A → World → Type 0} (e : Error)
    → ((w : World) → P w → R w)
    → Triple P (raise {S = World} {A = A} e) Q R
Triple-raise e h = record { run = h }

pub Triple-if :
    {A : Type 0} {P R : World → Type 0} {Q : A → World → Type 0} (b : Bool) {m n : Action World A}
    → Triple P m Q R
    → Triple P n Q R
    → Triple P (if b then m else n) Q R
Triple-if true first second = first
Triple-if false first second = second

Meets-weaken :
    {A : Type 0} (Q Q' : A → World → Type 0) (R R' : World → Type 0) (p : Result A × World)
    → ((a : A) (w : World) → Q a w → Q' a w)
    → ((w : World) → R w → R' w)
    → Meets Q R p
    → Meets Q' R' p
Meets-weaken Q Q' R R' (ok a, w) on off h = on a w h
Meets-weaken Q Q' R R' (err e, w) on off h = off w h

pub Triple-weaken :
    {A : Type 0} {P P' : World → Type 0} {m : Action World A} {Q Q' : A → World → Type 0}
    {R R' : World → Type 0}
    → ((w : World) → P' w → P w)
    → ((a : A) (w : World) → Q a w → Q' a w)
    → ((w : World) → R w → R' w)
    → Triple P m Q R
    → Triple P' m Q' R'
Triple-weaken {m} {Q} {Q'} {R} {R'} before on off t = record {
  run = λ w h. Meets-weaken Q Q' R R' (m w) on off (t.run w (before w h));
}
