-- ===== src/Dict.antt =====
-- Python's `dict`, in insertion order, as the repositories of repositories/memory.py use it.
pub mod Laws
pub mod Count
use rescs.Prelude.{
  Equality, ◌==◌, ◌≡◌, Bool, true, false, not, Option, none, some, List, [], ◌∷◌, ℕ, length, filter,
  if◌then◌else◌, is_some,
}

abbrev pub Dict {ℓ} : Type ℓ → Type ℓ → Type ℓ
Dict K V = List (K × V)

-- `d.values()`
unfoldable pub values {ℓ} : {K V : Type ℓ} → Dict K V → List V
values [] = []
values ((k, v) ∷ d) = v ∷ values d

-- `{k: v for k, v in d.items() if p(k, v)}`
unfoldable pub filter_items {ℓ} : {K V : Type ℓ} → (K → V → Bool) → Dict K V → Dict K V
filter_items p [] = []
filter_items p ((k, v) ∷ d) = let rest = filter_items p d in if p k v then (k, v) ∷ rest else rest

-- `sum(1 for v in d.values() if p(v))`
unfoldable pub count {ℓ} : {K V : Type ℓ} → (V → Bool) → Dict K V → ℕ
unfolding values
count p d = length (filter p (values d))

module _ {ℓ} {K V : Type ℓ} ⦃e : Equality K⦄ where
  -- `d.get(k)`
  unfoldable pub get : K → Dict K V → Option V
  get k [] = none
  get k ((j, v) ∷ d) = if j == k then some v else get k d

  -- `k in d`
  abbrev pub contains : K → Dict K V → Bool
  contains k d = is_some (get k d)

  -- `d[k] = v`: a key that is there keeps its place
  unfoldable pub set : K → V → Dict K V → Dict K V
  set k v [] = (k, v) ∷ []
  set k v ((j, w) ∷ d) = if j == k then (j, v) ∷ d else (j, w) ∷ set k v d

  -- `del d[k]`, `d.pop(k, None)`
  abbrev pub pop : K → Dict K V → Dict K V
  pop k = filter_items (λ j _. not (j == k))

  -- No key is listed twice.
  abbrev pub IsUnique : Dict K V → Type ℓ
  IsUnique [] = Unit
  IsUnique ((k, _) ∷ d) = (get k d ≡ none) × IsUnique d
