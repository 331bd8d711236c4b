-- ===== src/Action.antt =====
-- A method that reads and changes an object of type `S`, and may raise.
use rescs.Prelude.{Bool, true, false}
use rescs.Errors.{Error, Result, ok, err}

abbrev pub Action : Type 0 → Type 0 → Type 0
Action S A = S → Result A × S

module _ {S : Type 0} {A : Type 0} where
  abbrev pub pure : A → Action S A
  pure a s = (ok a, s)

  abbrev pub raise : Error → Action S A
  raise e s = (err e, s)

  abbrev pub gets : (S → A) → Action S A
  gets f s = (ok (f s), s)

  -- A function that does not change the object.
  abbrev pub lift : Result A → Action S A
  lift r s = (r, s)

module _ {S A B : Type 0} where
  -- `try: m except Exception as e: h e` around `m`, with `k` for what follows a success.
  abbrev pub handle :
      (Result A × S) → (A → S → Result B × S) → (Error → S → Result B × S) → Result B × S
  handle (ok a, s) k h = k a s
  handle (err e, s) k h = h e s

  infixl 5 ◌>>=◌ ◌>>◌
  abbrev pub ◌>>=◌ : Action S A → (A → Action S B) → Action S B
  ◌>>=◌ m f s = handle (m s) f raise

  abbrev pub ◌>>◌ : Action S A → Action S B → Action S B
  m >> k = m >>= λ _. k

-- `if b: raise e`
abbrev pub raise_if : {S : Type 0} → Bool → Error → Action S (Unit {0})
raise_if true e = raise e
raise_if false e = pure tt
