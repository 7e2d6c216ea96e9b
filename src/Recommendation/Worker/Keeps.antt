-- ===== src/Recommendation/Worker/Keeps.antt =====
-- What the operations of the repository keep, the handling of a message keeps.
use laburi_to.Base.{ℤ, String, Option, none, some, List, [], ◌∷◌, Bool-cases, inl, inr}
use laburi_to.Errors.{GoError, Result, ok, err, is, subject_not_found}
use laburi_to.Scoring.Models.{Pair, Outcome}
use laburi_to.Scoring.Scorer.{Scorer}
use laburi_to.Recommendation.Models.{
  SubjectType, employee, job_position, other, Batch, failed, batch_subject_id, Candidate,
}
use laburi_to.Recommendation.Events.{Codec, decode_job_requested_event}
use laburi_to.Recommendation.Candidates.{pairs_for_employee, pairs_for_job_position}
use laburi_to.Database.Profiles.{
  get_employee_scoring_profile, list_employee_scoring_profiles,
  get_active_job_position_requirements, list_active_job_position_requirements,
}
use laburi_to.Database.Batches.{get_batch_row}
use laburi_to.Database.Schema.{Tables}
use laburi_to.Database.Connection.{
  Connection, Keeps, Keeps-call, Keeps-pure, Keeps-bind, Keeps-raise, Keeps-on_error, call, pure,
  on_error, ◌>>=◌,
}
use laburi_to.Recommendation.Repo.{get_batch, claim_batch, transition_batch, complete_batch}
use laburi_to.Recommendation.Worker.{
  pairs_of, resolve_subject, resolve_candidates, complete_empty, fail_batch, store_results,
  evaluate, work, process_batch, decoded, handle, scoring_available, is_terminal, candidates_from,
  batch_id_of,
}

-- The reads return the tables as they were.
module _ (P : Tables → Type 0) where
  reading-Keeps :
      {A B C : Type 0} (f g : GoError → GoError) (first : Tables → Result A)
      (second : Tables → Result B) (h : A → B → C)
      → Keeps P (
          on_error f (call (λ t. (first t, t))) >>= λ a.
          on_error g (call (λ t. (second t, t))) >>= λ b. pure (h a b))
  reading-Keeps f g first second h =
      Keeps-bind P _ _ (Keeps-on_error P _ _ (Keeps-call P _ (λ t k. k))) λ a.
        Keeps-bind P _ _ (Keeps-on_error P _ _ (Keeps-call P _ (λ t k. k)))
          λ b. Keeps-pure P (h a b)

  pub get_batch-Keeps_any : (i : ℤ) → Keeps P (get_batch i)
  unfolding get_batch get_batch_row
  get_batch-Keeps_any i =
      Keeps-bind P _ _ (Keeps-on_error P _ _ (Keeps-call P _ (λ t k. k))) λ row. Keeps-pure P _

  pairs_of-Keeps : (type : SubjectType) (i : ℤ) → Keeps P (pairs_of type i)
  unfolding pairs_of pairs_for_employee pairs_for_job_position get_employee_scoring_profile
      list_active_job_position_requirements get_active_job_position_requirements
      list_employee_scoring_profiles
  pairs_of-Keeps employee i = reading-Keeps _ _ _ _ _
  pairs_of-Keeps job_position i = reading-Keeps _ _ _ _ _
  pairs_of-Keeps (other _) i = Keeps-raise P _

  resolve_subject-Keeps : (type : SubjectType) (r : Result ℤ) → Keeps P (resolve_subject type r)
  unfolding resolve_subject
  resolve_subject-Keeps type (err e) = Keeps-raise P e
  resolve_subject-Keeps type (ok i) = pairs_of-Keeps type i

  pub resolve_candidates-Keeps : (batch : Batch) → Keeps P (resolve_candidates batch)
  unfolding resolve_candidates
  resolve_candidates-Keeps batch = resolve_subject-Keeps batch.subject_type (batch_subject_id batch)

module _ {F : Type 0} (format : F → String) (scorer : Scorer F) (codec : Codec)
    (P : Tables → Type 0) (claims : (i : ℤ) → Keeps P (claim_batch i))
    (fails : (i : ℤ) → Keeps P (transition_batch i failed))
    (completes : (i : ℤ) (candidates : List (Candidate F))
      → Keeps P (complete_batch format i candidates)) where
  complete_empty-Keeps : (batch : Batch) → Keeps P (complete_empty format scorer codec batch)
  unfolding complete_empty
  complete_empty-Keeps batch =
      Keeps-bind P _ _ (claims batch.id)
        λ _. Keeps-bind P _ _ (Keeps-on_error P _ _ (completes batch.id [])) λ _. Keeps-pure P tt

  fail_batch-Keeps : (i : ℤ) (cause : GoError) → Keeps P (fail_batch format scorer codec i cause)
  unfolding fail_batch
  fail_batch-Keeps i cause = record { at = λ c h. (fails i).at c h }

  store_results-Keeps :
      (batch : Batch) (r : Result (List (Outcome F)))
      → Keeps P (store_results format scorer codec batch r)
  unfolding store_results
  store_results-Keeps batch (err e) = fail_batch-Keeps batch.id _
  store_results-Keeps batch (ok results) =
      Keeps-bind P _ _ (Keeps-on_error P _ _ (completes batch.id (candidates_from results)))
        λ _. Keeps-pure P tt

  evaluate-Keeps :
      (batch : Batch) (pairs : List Pair) (verdict : Option GoError)
      → Keeps P (evaluate format scorer codec batch pairs verdict)
  unfolding evaluate
  evaluate-Keeps batch pairs (some e) =
      Keeps-bind P _ _ (Keeps-on_error P _ _ (fails batch.id)) λ _. Keeps-raise P e
  evaluate-Keeps batch pairs none =
      Keeps-bind P _ _ (claims batch.id) λ _. store_results-Keeps batch (scorer.score_all pairs)

  work-keeps :
      (batch : Batch) (r : Result (List Pair)) (c : Connection)
      → P c.tables
      → P (work format scorer codec batch (r, c)).1.tables
  unfolding work
  work-keeps batch (ok []) c h = (complete_empty-Keeps batch).at c h
  work-keeps batch (ok (pair ∷ pairs)) c h =
      (evaluate-Keeps batch (pair ∷ pairs) (scoring_available scorer)).at c h
  work-keeps batch (err e) c h = elim (Bool-cases (is e subject_not_found)) [
    | inl gone ↦ rw gone ((complete_empty-Keeps batch).at c h)
    | inr there ↦ rw there h
  ]

  pub process_batch-Keeps : (batch : Batch) → Keeps P (process_batch format scorer codec batch)
  unfolding process_batch
  process_batch-Keeps batch = elim (Bool-cases (is_terminal batch.status)) [
    | inl closed ↦ record { at = λ c h. rw closed h }
    | inr open_still ↦ record {
      at = λ c h.
          let (r, after) = resolve_candidates batch c in
          rw open_still (work-keeps batch r after ((resolve_candidates-Keeps P batch).at c h));
    }
  ]

  decoded-Keeps : (r : Result ℤ) → Keeps P (decoded format scorer codec r)
  unfolding decoded
  decoded-Keeps (err e) = Keeps-raise P e
  decoded-Keeps (ok i) = Keeps-bind P _ _ (get_batch-Keeps_any P i) process_batch-Keeps

  pub handle-Keeps : (body : String) → Keeps P (handle format scorer codec body)
  unfolding handle
  handle-Keeps body = decoded-Keeps (batch_id_of (decode_job_requested_event codec body))
