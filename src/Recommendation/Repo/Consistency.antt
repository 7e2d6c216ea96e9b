-- ===== src/Recommendation/Repo/Consistency.antt =====
-- Every write of the repository keeps the database consistent, whichever of its calls fail.
use laburi_to.Base.{ℤ, String, Option, none, some, List, [], ◌∷◌, Bool-cases, inl, inr}
use laburi_to.Errors.{Result, ok, err, is, no_rows, wrap}
use laburi_to.Recommendation.Models.{BatchStatus, Subject, Candidate, subject_valid, status_valid}
use laburi_to.Database.Schema.{Tables, IsConsistent, BatchRow}
use laburi_to.Database.Batches.{
  claim_row, delete_others_for_employee, delete_others_for_job_position,
}
use laburi_to.Database.Connection.{
  on_error, transaction, Connection, Keeps, keeps_rules, Keeps-transaction, idle, call, Keeps-bind,
}
use laburi_to.Database.Preservation.{
  create_batch_row-IsConsistent, transition_row-IsConsistent, claim_row-IsConsistent,
  get_batch_row-IsConsistent, insert_recommendation-IsConsistent, delete_batches-IsConsistent,
  with_sequences-IsConsistent,
}
use laburi_to.Recommendation.Repo.{
  create_batch, get_batch, claim_batch, claimed, transition_batch, prune, prune_subject, reread,
  insert_all, complete_steps, complete_batch,
}

ruleset row_rules = (
  keeps_rules, create_batch_row-IsConsistent, transition_row-IsConsistent, claim_row-IsConsistent,
  get_batch_row-IsConsistent, insert_recommendation-IsConsistent, delete_batches-IsConsistent,
)

idle-IsConsistent : (t : Tables) → IsConsistent t → IsConsistent (idle t).1
unfolding idle
idle-IsConsistent t v = v

pub create_batch-Keeps : (subject : Subject) → Keeps IsConsistent (create_batch subject)
unfolding create_batch
create_batch-Keeps subject = elim (Bool-cases (subject_valid subject)) [
  | inl e ↦ rw e (search row_rules)
  | inr e ↦ rw e (search row_rules)
]

pub get_batch-Keeps : (i : ℤ) → Keeps IsConsistent (get_batch i)
unfolding get_batch
get_batch-Keeps i = search row_rules

pub transition_batch-Keeps :
    (i : ℤ) (status : BatchStatus) → Keeps IsConsistent (transition_batch i status)
unfolding transition_batch
transition_batch-Keeps i status = elim (Bool-cases (status_valid status)) [
  | inl e ↦ rw e (search row_rules)
  | inr e ↦ rw e (search row_rules)
]

reread-Keeps : (i : ℤ) → Keeps IsConsistent (reread i)
unfolding reread
reread-Keeps i = search (row_rules, get_batch-Keeps)

claimed-keeps :
    (i : ℤ) (r : Result BatchRow) (c : Connection)
    → IsConsistent c.tables
    → IsConsistent (claimed i (r, c)).1.tables
unfolding claimed
claimed-keeps i (ok row) c v = v
claimed-keeps i (err e) c v = elim (Bool-cases (is e no_rows)) [
  | inl h ↦ rw h ((reread-Keeps i).at c v)
  | inr h ↦ rw h v
]

pub claim_batch-Keeps : (i : ℤ) → Keeps IsConsistent (claim_batch i)
unfolding claim_batch
claim_batch-Keeps i = record {
  at = λ c v.
      let called : Keeps IsConsistent (call (claim_row i)) = search row_rules in
      let (r, after) = call (claim_row i) c in claimed-keeps i r after (called.at c v);
}

prune_subject-Keeps :
    (employee_id job_position_id : Option ℤ) (i : ℤ)
    → Keeps IsConsistent (prune_subject employee_id job_position_id i)
unfolding prune_subject delete_others_for_employee delete_others_for_job_position
prune_subject-Keeps (some e) j i = search row_rules
prune_subject-Keeps none (some j) i = search row_rules
prune_subject-Keeps none none i = search row_rules

pub prune-Keeps : (row : BatchRow) (i : ℤ) → Keeps IsConsistent (prune row i)
unfolding prune
prune-Keeps row i = prune_subject-Keeps row.employee_id row.job_position_id i

module _ {F : Type 0} (format : F → String) where
  pub insert_all-Keeps :
      (i : ℤ) (candidates : List (Candidate F))
      → Keeps IsConsistent (insert_all format i candidates)
  unfolding insert_all
  insert_all-Keeps i [] = search row_rules
  insert_all-Keeps i (candidate ∷ rest) =
      Keeps-bind IsConsistent _ _ (search row_rules) (λ _. insert_all-Keeps i rest)

  complete_steps-Keeps :
      (i : ℤ) (candidates : List (Candidate F))
      → Keeps IsConsistent (complete_steps format i candidates)
  unfolding complete_steps
  complete_steps-Keeps i candidates = Keeps-bind IsConsistent _ _ (search row_rules) λ row.
      Keeps-bind IsConsistent _ _ (insert_all-Keeps i candidates) λ _.
        Keeps-bind IsConsistent _ _ (prune-Keeps row i) λ _.
          Keeps-bind IsConsistent _ _ (search (row_rules, idle-IsConsistent)) λ _. search row_rules

  pub complete_batch-Keeps :
      (i : ℤ) (candidates : List (Candidate F))
      → Keeps IsConsistent (complete_batch format i candidates)
  unfolding complete_batch
  complete_batch-Keeps i candidates =
      Keeps-bind IsConsistent (on_error wrap (call idle))
        (λ _. transaction (complete_steps format i candidates))
        (search (row_rules, idle-IsConsistent))
        (λ _.
          Keeps-transaction IsConsistent with_sequences-IsConsistent
            (complete_steps format i candidates) (complete_steps-Keeps i candidates))
