-- ===== src/Recommendation/Repo/Progress.antt =====
-- Where no call fails: the operations of the repository succeed on a batch in flight.
use laburi_to.Base.{
  ℤ, String, ◌≡◌, refl, Bool, true, false, not, ◌&&◌, Option, none, some, [], find-keep, ◌∙◌, arith,
}
use laburi_to.Errors.{wrap}
use laburi_to.Recommendation.Models.{
  SubjectType, employee, job_position, exclusive, BatchStatus, completed, failed, status_valid,
}
use laburi_to.Database.Schema.{
  BatchRow, Tables, has_id, in_flight, row_checked, of_employee, of_job_position,
}
use laburi_to.Database.Connection.{call, on_error, idle}
use laburi_to.Database.Batches.{
  transition_row, delete_batches, delete_others_for_employee, delete_others_for_job_position,
}
use laburi_to.Database.Total.{
  Total, Total-call, Total-pure, Total-on_error, Total-transaction, Total-bind,
}
use laburi_to.Database.Closing.{IsActive, HasStatus, transition_row-closes, claim_row-claims}
use laburi_to.Recommendation.Repo.{
  batch_from_database, missing_batch, claim_batch, claimed, transition_batch, prune, prune_subject,
  insert_all, complete_steps, complete_batch,
}

closing_row :
    (i : ℤ) (status : BatchStatus)
    → status_valid status ≡ true
    → in_flight status ≡ false
    → Total
        (IsActive i)
        (on_error missing_batch (call (transition_row i status)))
        (λ row t. HasStatus i status t × (row_checked row ≡ true))
closing_row i status known closed =
    Total-on_error (IsActive i) (λ row t. HasStatus i status t × (row_checked row ≡ true)) _ _
      (Total-call (IsActive i) (λ row t. HasStatus i status t × (row_checked row ≡ true)) _
        (λ t a. transition_row-closes i t status known closed a))

-- A batch in flight is closed by a transition to `failed`.
pub transition_batch-closes :
    (i : ℤ) → Total (IsActive i) (transition_batch i failed) (λ _ t. HasStatus i failed t)
unfolding transition_batch status_valid in_flight
transition_batch-closes i =
    Total-bind (IsActive i) (λ row t. HasStatus i failed t × (row_checked row ≡ true))
      (λ _ t. HasStatus i failed t) _ _ (closing_row i failed refl refl)
      λ row.
        Total-pure (λ t. HasStatus i failed t × (row_checked row ≡ true))
          (λ _ t. HasStatus i failed t) _ (λ t h. h.0)

pub claim_batch-claims : (i : ℤ) → Total (IsActive i) (claim_batch i) (λ _ t. IsActive i t)
unfolding claim_batch claimed
claim_batch-claims i = record {
  at = λ t a.
      let claim = Total-call (IsActive i) (λ _ t'. IsActive i t') _ (claim_row-claims i) in
      let (row, after, e, post) = claim.at t a in (batch_from_database row, after, rw e refl, post);
}

deleted-HasStatus :
    (i : ℤ) (status : BatchStatus) (mine : BatchRow → Bool) (t : Tables)
    → HasStatus i status t
    → HasStatus i status (delete_batches (λ r. mine r && not (has_id i r)) t).1
unfolding delete_batches
deleted-HasStatus i status mine t h = record {
  row = h.row;
  found =
      find-keep (has_id i) (λ (r : BatchRow). not (mine r && not (has_id i r))) t.batches
        (λ x e. ground arith)
      ∙ h.found;
  is_status = h.is_status;
}

delete-Total :
    (i : ℤ) (status : BatchStatus) (mine : BatchRow → Bool)
    → Total
        (HasStatus i status)
        (on_error wrap (call (delete_batches (λ r. mine r && not (has_id i r)))))
        (λ _ t. HasStatus i status t)
unfolding delete_batches
delete-Total i status mine =
    Total-on_error (HasStatus i status) (λ _ t. HasStatus i status t) _ _
      (Total-call (HasStatus i status) (λ _ t. HasStatus i status t) _
        (λ t h. (
          tt,
          (delete_batches (λ r. mine r && not (has_id i r)) t).1,
          refl,
          deleted-HasStatus i status mine t h,
        )))

-- The pruning finds the subject of a checked row.
prune_subject-Total :
    (i : ℤ) (status : BatchStatus) (type : SubjectType) (e j : Option ℤ)
    → exclusive type e j ≡ true
    → Total (HasStatus i status) (prune_subject e j i) (λ _ t. HasStatus i status t)
unfolding prune_subject delete_others_for_employee delete_others_for_job_position exclusive
prune_subject-Total i status employee (some e) none h = delete-Total i status (of_employee e)
prune_subject-Total i status job_position none (some j) h =
    delete-Total i status (of_job_position j)
prune_subject-Total i status _ _ _ h = cc

checked_subject :
    (row : BatchRow)
    → row_checked row ≡ true
    → exclusive row.subject_type row.employee_id row.job_position_id ≡ true
unfolding row_checked
checked_subject row h = ground arith

prune-Total :
    (i : ℤ) (row : BatchRow)
    → Total
        (λ t. HasStatus i completed t × (row_checked row ≡ true))
        (prune row i)
        (λ _ t. HasStatus i completed t)
unfolding prune
prune-Total i row = record {
  at = λ t h.
      (prune_subject-Total i completed row.subject_type row.employee_id row.job_position_id
          (checked_subject row h.1)).at
        t h.0;
}

idle-Total : (P : Tables → Type 0) → Total P (on_error wrap (call idle)) (λ _ t. P t)
unfolding idle
idle-Total P =
    Total-on_error P (λ _ t. P t) _ _ (Total-call P (λ _ t. P t) _ (λ t h. (tt, t, refl, h)))

-- A batch in flight is completed by the replacement of its subject's set by the empty one.
pub complete_batch-closes_empty :
    {F : Type 0} (format : F → String) (i : ℤ)
    → Total (IsActive i) (complete_batch format i []) (λ _ t. HasStatus i completed t)
unfolding complete_batch complete_steps insert_all in_flight status_valid
complete_batch-closes_empty format i =
    let closed = λ (t : Tables). HasStatus i completed t in
    Total-bind (IsActive i) (λ _ t. IsActive i t) (λ _ t. closed t) _ _ (idle-Total (IsActive i))
      λ _.
        Total-transaction (IsActive i) (λ _ t. closed t) _
          (Total-bind (IsActive i) (λ row t. closed t × (row_checked row ≡ true)) (λ _ t. closed t)
            _ _ (closing_row i completed refl refl)
            λ row.
              let mid = λ (t : Tables). closed t × (row_checked row ≡ true) in
              Total-bind mid (λ _ t. mid t) (λ _ t. closed t) _ _
                (Total-pure mid (λ _ t. mid t) tt (λ t h. h))
                λ _.
                  Total-bind mid (λ _ t. closed t) (λ _ t. closed t) _ _ (prune-Total i row)
                    λ _.
                      Total-bind closed (λ _ t. closed t) (λ _ t. closed t) _ _ (idle-Total closed)
                        λ _. Total-pure closed (λ _ t. closed t) _ (λ t h. h))
