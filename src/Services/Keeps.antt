-- ===== src/Services/Keeps.antt =====
-- What an action keeps of the world, whether it returns or raises, put together from its parts.
use mathlib.Core.Path.{subst, sym, ap}
use rescs.Prelude.{Bool, true, false, if◌then◌else◌, ◌≡◌, arith, refl}
use rescs.Errors.{Error, Result, ok, err}
use rescs.Action.{Action, pure, raise, lift, handle, raise_if, ◌>>=◌}
use rescs.World.{World}
use rescs.Services.Common.{on_error}
use rescs.Services.Common.Laws.{on_error-eq-ok}

-- Where `P` holds before, it holds after.
pub record Keeps {A : Type 0} (P : World → Type 0) (m : Action World A) : Type 0 where
  pub keeps : (w : World) → P w → P (m w).1

module _ {P : World → Type 0} {A B : Type 0} where
  pub Keeps-handle :
      (p : Result A × World) (k : A → Action World B) (h : Error → Action World B)
      → P p.1
      → ((a : A) → Keeps P (k a))
      → ((e : Error) → Keeps P (h e))
      → P (handle p k h).1
  Keeps-handle (ok a, w) k h held on off = (on a).keeps w held
  Keeps-handle (err e, w) k h held on off = (off e).keeps w held

  pub Keeps-bind :
      {m : Action World A} {k : A → Action World B}
      → Keeps P m
      → ((a : A) → Keeps P (k a))
      → Keeps P (m >>= k)
  Keeps-bind {m} {k} first rest = record {
    keeps =
        λ w h. Keeps-handle (m w) k raise (first.keeps w h) rest (λ e. record { keeps = λ v g. g });
  }

module _ {P : World → Type 0} {A : Type 0} where
  pub Keeps-lift : (r : Result A) → Keeps P (lift {S = World} r)
  Keeps-lift r = record { keeps = λ w h. h }

  pub Keeps-pure : (a : A) → Keeps P (pure {S = World} a)
  Keeps-pure a = record { keeps = λ w h. h }

  pub Keeps-raise : (e : Error) → Keeps P (raise {S = World} {A = A} e)
  Keeps-raise e = record { keeps = λ w h. h }

  pub Keeps-if :
      (b : Bool) {m n : Action World A} → Keeps P m → Keeps P n → Keeps P (if b then m else n)
  Keeps-if true first second = first
  Keeps-if false first second = second

  pub Keeps-on_error :
      {h : Error → Action World (Unit {0})} {m : Action World A}
      → ((e : Error) → Keeps P (h e))
      → Keeps P m
      → Keeps P (on_error h m)
  Keeps-on_error {h} {m} handler body = record {
    keeps = λ w held.
        Keeps-handle (m w) pure (λ e v. (err e, (h e v).1)) (body.keeps w held)
          (λ a. record { keeps = λ v g. g }) (λ e. record { keeps = (handler e).keeps });
  }

module _ {P : World → Type 0} where
  pub Keeps-raise_if : (b : Bool) (e : Error) → Keeps P (raise_if {S = World} b e)
  Keeps-raise_if true e = record { keeps = λ w h. h }
  Keeps-raise_if false e = record { keeps = λ w h. h }

-- Where the action returns, `P` holds after it.
pub record Ends {A : Type 0} (P : World → Type 0) (m : Action World A) : Type 0 where
  pub ends : (w : World) (a : A) → (m w).0 ≡ ok a → P (m w).1

Ends-handle :
    {A B : Type 0} (P : World → Type 0) (p : Result A × World) (k : A → Action World B) (b : B)
    → ((a : A) → p.0 ≡ ok a → (k a p.1).0 ≡ ok b → P (k a p.1).1)
    → (handle p k raise).0 ≡ ok b
    → P (handle p k raise).1
Ends-handle P (ok a, w) k b on h = on a refl h
Ends-handle P (err e, w) k b on h = ground arith

module _ {P : World → Type 0} {A B : Type 0} where
  -- The last part sees to it.
  pub Ends-after :
      (m : Action World A) {k : A → Action World B} → ((a : A) → Ends P (k a)) → Ends P (m >>= k)
  Ends-after m {k} rest = record {
    ends = λ w b h. Ends-handle P (m w) k b (λ a e. (rest a).ends (m w).1 b) h;
  }

  -- The first part sees to it, and the rest keeps it.
  pub Ends-then :
      {m : Action World A} {k : A → Action World B}
      → Ends P m
      → ((a : A) → Keeps P (k a))
      → Ends P (m >>= k)
  Ends-then {m} {k} first rest = record {
    ends = λ w b h. Ends-handle P (m w) k b (λ a e _. (rest a).keeps (m w).1 (first.ends w a e)) h;
  }

-- The first part sees to `P`, and the rest turns it into `Q`.
pub Ends-carried :
    {P Q : World → Type 0} {A B : Type 0} {m : Action World A} (k : A → Action World B)
    → Ends P m
    → ((a : A) (w : World) → P w → Q (k a w).1)
    → Ends Q (m >>= k)
Ends-carried {Q} {m} k first rest = record {
  ends = λ w b h. Ends-handle Q (m w) k b (λ a e _. rest a (m w).1 (first.ends w a e)) h;
}

module _ {P : World → Type 0} {A : Type 0} where
  pub Ends-on_error :
      (h : Error → Action World (Unit {0})) {m : Action World A} → Ends P m → Ends P (on_error h m)
  Ends-on_error h {m} body = record {
    ends = λ w a done.
        let (ran, same) = on_error-eq-ok h m w a done in
        subst P (sym (ap (λ x. x.1) same)) (body.ends w a ran);
  }
