-- ===== src/Recommendation/Worker/Closing.antt =====
-- What becomes of a batch in flight whose message is handled while no scoring is available, which
-- is the deployed scorer, and no call of the database fails.
use laburi_to.Base.{
  ℤ, String, ◌≡◌, refl, true, false, Option, none, some, List, [], ◌∷◌, Option-cases, inl, inr, ◌⊎◌,
  find-some, int_beq_iff, int_eq, arith,
}
use laburi_to.Errors.{
  GoError, Result, ok, err, error_of, is, sentinel, wrap, scoring_unavailable, subject_not_found,
}
use laburi_to.Scoring.Models.{Pair}
use laburi_to.Scoring.Scorer.{Scorer, MeetsContract}
use laburi_to.Recommendation.Models.{
  Batch, SubjectType, employee, job_position, completed, failed, exclusive, batch_subject_id,
  single_subject,
}
use laburi_to.Recommendation.Events.{Codec, JobRequestedEvent, decode_job_requested_event}
use laburi_to.Recommendation.Candidates.{
  pairs_for_employee, pairs_for_job_position, missing_subject,
}
use laburi_to.Database.Schema.{Tables, BatchRow, has_id, row_checked, in_flight}
use laburi_to.Database.Connection.{Connection, call, called, answered, on_error, pure, raise, ◌>>=◌}
use laburi_to.Database.Batches.{the_row}
use laburi_to.Database.Profiles.{
  get_employee_scoring_profile, list_employee_scoring_profiles,
  get_active_job_position_requirements, list_active_job_position_requirements,
}
use laburi_to.Database.Closing.{IsActive, HasStatus, checked_of}
use laburi_to.Database.Total.{Total, Total-bind, Total-on_error, Total-pure, calm}
use laburi_to.Recommendation.Repo.{batch_from_database}
use laburi_to.Recommendation.Repo.Progress.{
  transition_batch-closes, complete_batch-closes_empty, claim_batch-claims,
}
use laburi_to.Recommendation.Worker.{
  acknowledges, is_terminal, pairs_of, resolve_subject, resolve_candidates, scoring_available,
  complete_empty, fail_without_scoring, evaluate, work, process_batch, decoded, batch_id_of, handle,
}
use laburi_to.Recommendation.Worker.Redelivery.{get_batch-found}
use laburi_to.Recommendation.Worker.Retry.{acknowledges-scoring_unavailable}

-- The message is acknowledged and its batch is completed or failed.
abbrev pub IsSettled : ℤ → Result (Unit {0}) × Connection → Type 0
IsSettled i r =
    (acknowledges (error_of r.0) ≡ true)
    × (HasStatus i completed r.1.tables ⊎ HasStatus i failed r.1.tables)

-- Either the subject is gone or its pairs are known, and nothing has changed.
abbrev IsResolved : Tables → Result (List Pair) × Connection → Type 0
IsResolved t r =
    (r ≡ (err (sentinel subject_not_found), calm t))
    ⊎ ((pairs : List Pair) × (r ≡ (ok pairs, calm t)))

reading_calm :
    {A B : Type 0} (look : Tables → Option A) (list : Tables → B) (h : A → B → List Pair)
    (t : Tables)
    → IsResolved t (
        (on_error missing_subject (call (λ t'. (the_row (look t'), t'))) >>= λ a.
        on_error wrap (call (λ t'. (ok (list t'), t'))) >>= λ b. pure (h a b))
          (calm t))
unfolding call called answered on_error pure ◌>>=◌ the_row missing_subject is
reading_calm look list h t = elim (Option-cases (look t)) [
  | inl e ↦ rw e (inl refl)
  | inr (a, e) ↦ rw e (inr (h a (list t), refl))
]

pairs_of_calm :
    (type : SubjectType) (e j : Option ℤ) (b : Batch) (t : Tables)
    → exclusive type e j ≡ true
    → IsResolved t (resolve_subject type (single_subject type e j) (calm t))
unfolding resolve_subject pairs_of exclusive pairs_for_employee pairs_for_job_position
    get_employee_scoring_profile list_active_job_position_requirements
    get_active_job_position_requirements list_employee_scoring_profiles single_subject
pairs_of_calm employee (some i) none b t h = reading_calm _ _ _ t
pairs_of_calm job_position none (some i) b t h = reading_calm _ _ _ t
pairs_of_calm _ _ _ b t h = cc

resolve_candidates-calm :
    (row : BatchRow) (t : Tables)
    → row_checked row ≡ true
    → IsResolved t (resolve_candidates (batch_from_database row) (calm t))
unfolding resolve_candidates batch_from_database batch_subject_id row_checked
resolve_candidates-calm row t h =
    pairs_of_calm row.subject_type row.employee_id row.job_position_id (batch_from_database row) t
      (ground arith)

in_flight-is_terminal :
    (row : BatchRow) → in_flight row.status ≡ true → is_terminal row.status ≡ false
unfolding in_flight is_terminal
in_flight-is_terminal row h = ground arith

module _ {F : Type 0} (format : F → String) (scorer : Scorer F) (codec : Codec) (i : ℤ) where
  complete_empty-Total :
      (batch : Batch)
      → batch.id ≡ i
      → Total
          (IsActive i)
          (complete_empty format scorer codec batch)
          (λ _ t. HasStatus i completed t)
  unfolding complete_empty
  complete_empty-Total batch same = rw same (
      Total-bind (IsActive i) (λ _ t. IsActive i t) (λ _ t. HasStatus i completed t) _ _
        (claim_batch-claims i)
        λ _.
          Total-bind (IsActive i) (λ _ t. HasStatus i completed t) (λ _ t. HasStatus i completed t)
            _ _
            (Total-on_error (IsActive i) (λ _ t. HasStatus i completed t) _ _
              (complete_batch-closes_empty format i))
            λ _.
              Total-pure (λ t. HasStatus i completed t) (λ _ t. HasStatus i completed t) tt
                (λ t h. h))

  complete_empty-settles :
      (batch : Batch) (t : Tables)
      → batch.id ≡ i
      → IsActive i t
      → IsSettled i (complete_empty format scorer codec batch (calm t))
  unfolding acknowledges
  complete_empty-settles batch t same a =
      let (_, after, e, post) = (complete_empty-Total batch same).at t a in rw e (refl, inl post)

  fail_without_scoring-settles :
      (batch : Batch) (e : GoError) (t : Tables)
      → batch.id ≡ i
      → is e scoring_unavailable ≡ true
      → IsActive i t
      → IsSettled i (fail_without_scoring format scorer codec batch e (calm t))
  unfolding fail_without_scoring on_error ◌>>=◌ raise
  fail_without_scoring-settles batch e t same u a =
      let (row, after, equal, post) = (transition_batch-closes i).at t a in
      rw same (rw equal (acknowledges-scoring_unavailable e u, inr post))

  module _ (contract : MeetsContract scorer) (e : GoError)
      (missing : scoring_available scorer ≡ some e) where
    verdict : is e scoring_unavailable ≡ true
    unfolding scoring_available
    verdict = contract.unavailability e (ground arith)

    work-settles :
        (batch : Batch) (pairs : List Pair) (t : Tables)
        → batch.id ≡ i
        → IsActive i t
        → IsSettled i (work format scorer codec batch (ok pairs, calm t))
    unfolding work evaluate
    work-settles batch [] t same a = complete_empty-settles batch t same a
    work-settles batch (pair ∷ pairs) t same a =
        rw missing (fail_without_scoring-settles batch e t same verdict a)

    resolved-settles :
        (batch : Batch) (t : Tables)
        → batch.id ≡ i
        → IsActive i t
        → IsResolved t (resolve_candidates batch (calm t))
        → IsSettled i (work format scorer codec batch (resolve_candidates batch (calm t)))
    unfolding work is
    resolved-settles batch t same a (inl gone) = rw gone (complete_empty-settles batch t same a)
    resolved-settles batch t same a (inr (pairs, known)) =
        rw known (work-settles batch pairs t same a)

    process_batch-settles :
        (row : BatchRow) (t : Tables)
        → row.id ≡ i
        → row_checked row ≡ true
        → in_flight row.status ≡ true
        → IsActive i t
        → IsSettled i (process_batch format scorer codec (batch_from_database row) (calm t))
    unfolding process_batch batch_from_database
    process_batch-settles row t same checked active a = rw (in_flight-is_terminal row active) (
        resolved-settles (batch_from_database row) t same a (resolve_candidates-calm row t checked))

-- While a scorer that keeps its contract is unavailable and no call of the database fails, the
-- message of a batch in flight is acknowledged and leaves its batch completed or failed: no batch
-- is stuck.
pub handle_closes :
    {F : Type 0} (format : F → String) (scorer : Scorer F) (codec : Codec) (body : String)
    (event : JobRequestedEvent) (e : GoError) (t : Tables)
    → MeetsContract scorer
    → scoring_available scorer ≡ some e
    → decode_job_requested_event codec body ≡ ok event
    → IsActive event.batch_id t
    → IsSettled event.batch_id (handle format scorer codec body (calm t))
unfolding handle decoded batch_id_of ◌>>=◌
handle_closes format scorer codec body event e t contract missing d a =
    let same =
      (int_beq_iff a.row.id event.batch_id).0
        (unfold has_id in find-some (has_id event.batch_id) t.batches a.row a.found) in
    let checked = checked_of event.batch_id t a.row a.consistent a.found in
    rw d (
      rw (get_batch-found event.batch_id t a.row a.found) (
        process_batch-settles format scorer codec event.batch_id contract e missing a.row t same
          checked a.active a))
