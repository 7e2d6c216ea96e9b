-- ===== src/Recommendation/Repo/Failures.antt =====
-- What the operations of the repository leave when they fail.
use laburi_to.Base.{ℤ, String, ◌≡◌, refl, List, Bool-cases, inl, inr}
use laburi_to.Errors.{GoError, Result, ok, err, is, no_rows}
use laburi_to.Recommendation.Models.{BatchStatus, Candidate, status_valid}
use laburi_to.Database.Schema.{with_sequences, BatchRow, Tables}
use laburi_to.Database.Connection.{
  Connection, Keeps, Keeps-call, Keeps-bind, Keeps-pure, Keeps-raise, Keeps-on_error, call, pure,
  idle,
}
use laburi_to.Database.Triples.{
  Triple, OnError, Triple-Keeps, Triple-call, Triple-on_error, Triple-transaction, Triple-bind,
  Triple-then,
}
use laburi_to.Database.Batches.{claim_row, get_batch_row}
use laburi_to.Database.InFlight.{IsOpen, claim_row-IsOpen, transition_row-err}
use laburi_to.Recommendation.Repo.{
  get_batch, reread, claimed, claim_batch, transition_batch, complete_steps, complete_batch,
}

module _ (P : Tables → Type 0) where
  -- A transition that fails leaves the tables as they were.
  pub transition_batch-err :
      (i : ℤ) (status : BatchStatus) → Triple P (transition_batch i status) (OnError P)
  unfolding transition_batch
  transition_batch-err i status = elim (Bool-cases (status_valid status)) [
    | inl e ↦ rw e (
        Triple-bind P P (OnError P) _ _
          (Triple-on_error P _ _ (Triple-call P _ (transition_row-err i status))) (λ e' t h. h)
          (λ row. record { at = λ c h. unfold pure in tt }))
    | inr e ↦ rw e (Triple-Keeps P _ (Keeps-raise P _))
  ]

  -- So does the replacement of a set, but for the sequences.
  pub complete_batch-err :
      {F : Type 0} (format : F → String) (i : ℤ) (candidates : List (Candidate F))
      → ((t after : Tables) → P t → P (with_sequences t after))
      → Triple P (complete_batch format i candidates) (OnError P)
  unfolding complete_batch idle
  complete_batch-err format i candidates k =
      Triple-then P P (OnError P) _ _ (Keeps-on_error P _ _ (Keeps-call P _ (λ t h. h)))
        (λ e t h. h) (λ _. Triple-transaction P (complete_steps format i candidates) k)

-- A claim, successful or not, leaves every batch in flight that was.
reread-Keeps : (P : Tables → Type 0) (i : ℤ) → Keeps P (reread i)
unfolding reread get_batch get_batch_row
reread-Keeps P i =
    Keeps-bind P _ _
      (Keeps-bind P _ _ (Keeps-on_error P _ _ (Keeps-call P _ (λ t k. k))) λ row. Keeps-pure P _)
      λ _. Keeps-raise P _

claimed-IsOpen :
    (i j : ℤ) (r : Result BatchRow) (c : Connection)
    → IsOpen i c.tables
    → IsOpen i (claimed j (r, c)).1.tables
unfolding claimed
claimed-IsOpen i j (ok row) c h = h
claimed-IsOpen i j (err e) c h = elim (Bool-cases (is e no_rows)) [
  | inl k ↦ rw k ((reread-Keeps (IsOpen i) j).at c h)
  | inr k ↦ rw k h
]

pub claim_batch-IsOpen : (i j : ℤ) → Keeps (IsOpen i) (claim_batch j)
unfolding claim_batch
claim_batch-IsOpen i j = record {
  at = λ c h.
      let called : Keeps (IsOpen i) (call (claim_row j)) =
        Keeps-call (IsOpen i) (claim_row j) (λ t k. claim_row-IsOpen i j t k) in
      let (r, after) = call (claim_row j) c in claimed-IsOpen i j r after (called.at c h);
}

failed_with :
    {A : Type 0} (P : Tables → Type 0) {e : GoError} (r : Result A) (t : Tables)
    → r ≡ err e
    → OnError P r t
    → P t
failed_with P (ok a) t h k = cc
failed_with P (err _) t h k = k

-- A replacement that returns an error, wherever it fails, leaves every batch and every
-- recommendation as it was.
pub complete_batch_atomic :
    {F : Type 0} (format : F → String) (i : ℤ) (candidates : List (Candidate F)) (c : Connection)
    (e : GoError)
    → (complete_batch format i candidates c).0 ≡ err e
    → ((complete_batch format i candidates c).1.tables.batches ≡ c.tables.batches)
      × ((complete_batch format i candidates c).1.tables.recommendations ≡ c.tables.recommendations)
complete_batch_atomic format i candidates c e h = failed_with _ _ _ h (
    (complete_batch-err
        (λ t. (t.batches ≡ c.tables.batches) × (t.recommendations ≡ c.tables.recommendations))
        format i candidates (λ t n k. k)).at
      c (refl, refl))
