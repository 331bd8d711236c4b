-- ===== src/Services/Records/Bulk/Answers.antt =====
-- What `bulk` answers.
use rescs.Prelude.{String, ℕ, ◌+◌, ◌≤◌, ◌≡◌, List, [], ◌∷◌, length, map, inl, inr, arith}
use rescs.Errors.{ok, Error, Result-cases}
use rescs.World.{Runtime, World}
use rescs.Services.Common.{Service}
use rescs.Services.Common.Laws.{audited_silent}
use rescs.Services.Records.Bulk.{
  Outcome, done, failed, Operation, caught, apply, attempt, attempt_all, bulk, batch_max,
  bulk_entry,
}

abbrev pub index_of : Outcome → ℕ
index_of (done index _ _) = index
index_of (failed index _) = index

-- The indexes of a number of results, from one on.
abbrev pub numbered : ℕ → List Operation → List ℕ
numbered index [] = []
numbered index (_ ∷ operations) = index ∷ numbered (index + 1) operations

caught_index :
    (index : ℕ) (e : Error) (r : Outcome) (w : World)
    → (caught index e w).0 ≡ ok r
    → index_of r ≡ index
unfolding caught
caught_index index e r w h = ground arith

module _ (rt : Runtime) (svc : Service) (actor : String) where
  apply_index :
      (index : ℕ) (operation : Operation) (r : Outcome) (w : World)
      → (apply rt svc actor index operation w).0 ≡ ok r
      → index_of r ≡ index
  unfolding apply
  apply_index index operation r w h = ground arith

  attempt_index :
      (index : ℕ) (operation : Operation) (r : Outcome) (w : World)
      → (attempt rt svc actor index operation w).0 ≡ ok r
      → index_of r ≡ index
  unfolding attempt
  attempt_index index operation r w h =
      elim (Result-cases (apply rt svc actor index operation w).0) [
        | inl (a, ran) ↦ ground (arith, ran, apply_index index operation a w ran)
        | inr (e, raised) ↦
            ground (arith, raised, caught_index index e r (apply rt svc actor index operation w).1)
      ]

  attempt_all_indices :
      (index : ℕ) (operations : List Operation) (results : List Outcome) (w : World)
      → (attempt_all rt svc actor index operations w).0 ≡ ok results
      → map index_of results ≡ numbered index operations
  unfolding attempt_all
  attempt_all_indices index [] results w h = ground arith
  attempt_all_indices index (operation ∷ operations) results w h =
      let first = attempt rt svc actor index operation w in
      elim (Result-cases first.0) [
        | inr (e, raised) ↦ ground (arith, raised)
        | inl (r, ran) ↦
            elim (Result-cases (attempt_all rt svc actor (index + 1) operations first.1).0) [
              | inr (e, raised) ↦ ground (arith, ran, raised)
              | inl (rs, rest) ↦
                  let step : results ≡ r ∷ rs = ground (arith, ran, rest) in
                  ground (
                    arith,
                    step,
                    attempt_index index operation r w ran,
                    attempt_all_indices (index + 1) operations rs first.1 rest,
                  )
            ]
      ]

  -- A batch that is answered has no more operations than the settings allow, and the answer has one
  -- result for each of them, in their order and with their index, whatever became of it.
  pub bulk_answers :
      (operations : List Operation) (results : List Outcome) (w : World)
      → (bulk rt svc operations actor w).0 ≡ ok results
      → (length operations ≤ batch_max svc.settings)
        × (map index_of results ≡ numbered 0 operations)
  unfolding bulk
  bulk_answers operations results w h =
      elim (Result-cases (attempt_all rt svc actor 0 operations w).0) [
        | inr (e, raised) ↦ ground (arith, raised)
        | inl (rs, ran) ↦ ground (
          arith,
          ran,
          attempt_all_indices 0 operations rs w ran,
          audited_silent rt svc (bulk_entry actor) (attempt_all rt svc actor 0 operations w).1,
        )
      ]
