-- ===== src/Database/Batches.antt =====
-- The statements of sql/queries/recommendations.sql that write recommendation_batches and
-- recommendations, with the constraints of sql/schema/0007_recommendations.sql that they meet.
use laburi_to.Base.{
  ℤ, pos, String, ◌+◌, Bool, true, false, not, ◌&&◌, ◌||◌, Option, none, some, List, [], ◌∷◌, ◌++◌,
  ◌==◌, int_eq, any, find, keep, overwrite, if◌then◌else◌,
}
use laburi_to.Errors.{Result, ok, err, sentinel, pq_error, no_rows}
use laburi_to.Recommendation.Models.{SubjectType, BatchStatus, pending, processing}
use laburi_to.Database.Schema.{
  BatchRow, RecommendationRow, Tables, in_flight, holds, has_id, of_employee, of_job_position,
  row_checked, employee_exists, job_position_exists, batch_exists,
}
use laburi_to.Database.Connection.{Query}

abbrev pub shares : Option ℤ → Option ℤ → Bool
shares none column = false
shares (some i) column = holds i column

-- A row that one of the two partial unique indexes holds under a key of `row`.
unfoldable pub collides : BatchRow → BatchRow → Bool
collides row r =
    (shares row.employee_id r.employee_id || shares row.job_position_id r.job_position_id)
    && in_flight r.status

unfoldable pub others : ℤ → List BatchRow → List BatchRow
others i rows = keep (λ r. not (has_id i r)) rows

-- The SQLSTATE with which writing `row` beside the other rows is refused: the checks come first,
-- then the unique indexes.
unfoldable pub refusal : BatchRow → List BatchRow → Option String
refusal row rows =
    if row_checked row
    then if in_flight row.status && any (collides row) (others row.id rows)
      then some "23505"
      else none
    else some "23514"

unfoldable pub subject_exists : BatchRow → Tables → Bool
subject_exists row t = elim row.employee_id [
  | some i ↦ employee_exists i t
  | none ↦ elim row.job_position_id [ some i ↦ job_position_exists i t | none ↦ true ]
]

pub record CreateBatchParams : Type 0 where
  pub subject_type : SubjectType
  pub employee_id : Option ℤ
  pub job_position_id : Option ℤ

-- the row that the defaults of the table and its sequence complete
unfoldable pub new_batch_row : CreateBatchParams → Tables → BatchRow
new_batch_row arg t = record {
  id = pos t.next_batch_id;
  subject_type = arg.subject_type;
  employee_id = arg.employee_id;
  job_position_id = arg.job_position_id;
  status = pending;
  created_at = t.now;
  updated_at = t.now;
}

unfoldable pub inserted : Option String → BatchRow → Tables → Result BatchRow × Tables
unfolding subject_exists
inserted (some state) row t = (err (pq_error state), t)
inserted none row t =
    if subject_exists row t
    then (ok row, record t { batches = t.batches ++ row ∷ [] })
    else (err (pq_error "23503"), t)

-- CreateRecommendationBatch. The sequence advances also when the row is refused.
unfoldable pub create_batch_row : CreateBatchParams → Query BatchRow
unfolding inserted subject_exists new_batch_row
create_batch_row arg t =
    let row = new_batch_row arg t in
    inserted (refusal row t.batches) row (record t { next_batch_id = t.next_batch_id + 1 })

unfoldable pub updated : Option String → BatchRow → Tables → Result BatchRow × Tables
updated (some state) row t = (err (pq_error state), t)
updated none row t = (ok row, record t { batches = overwrite (has_id row.id) row t.batches })

-- SET status = …, updated_at = now() at the row found
abbrev pub restamped : BatchStatus → Tables → BatchRow → BatchRow
restamped status t row = record row { status = status; updated_at = t.now }

unfoldable pub update_found : Option BatchRow → BatchStatus → Tables → Result BatchRow × Tables
unfolding updated
update_found none status t = (err (sentinel no_rows), t)
update_found (some row) status t =
    updated (refusal (restamped status t row) t.batches) (restamped status t row) t

-- TransitionRecommendationBatch
unfoldable pub transition_row : ℤ → BatchStatus → Query BatchRow
unfolding update_found updated
transition_row i status t = update_found (find (has_id i) t.batches) status t

-- ClaimRecommendationBatch
unfoldable pub claim_row : ℤ → Query BatchRow
unfolding update_found updated
claim_row i t = update_found (find (λ r. has_id i r && in_flight r.status) t.batches) processing t

-- the one row of a `:one` query
unfoldable pub the_row {ℓ} : {A : Type ℓ} → Option A → Result A
the_row none = err (sentinel no_rows)
the_row (some row) = ok row

-- GetRecommendationBatch
unfoldable pub get_batch_row : ℤ → Query BatchRow
unfolding the_row
get_batch_row i t = (the_row (find (has_id i) t.batches), t)

pub record InsertRecommendationParams : Type 0 where
  pub batch_id : ℤ
  pub employee_id : ℤ
  pub job_position_id : ℤ
  pub score : Option String

-- recommendations_unique_pair_per_batch
unfoldable pub same_pair : InsertRecommendationParams → RecommendationRow → Bool
same_pair arg r =
    r.batch_id == arg.batch_id
    && r.employee_id == arg.employee_id
    && r.job_position_id == arg.job_position_id

unfoldable pub new_recommendation_row : InsertRecommendationParams → Tables → RecommendationRow
new_recommendation_row arg t = record {
  id = pos t.next_recommendation_id;
  batch_id = arg.batch_id;
  employee_id = arg.employee_id;
  job_position_id = arg.job_position_id;
  score = arg.score;
  created_at = t.now;
}

-- The SQLSTATE of a refused insert: the unique index comes before the foreign keys.
unfoldable pub insert_refusal : InsertRecommendationParams → Tables → Option String
insert_refusal arg t =
    if any (same_pair arg) t.recommendations
    then some "23505"
    else if batch_exists arg.batch_id t.batches
        && employee_exists arg.employee_id t
        && job_position_exists arg.job_position_id t
    then none
    else some "23503"

unfoldable pub recommended :
    Option String → RecommendationRow → Tables → Result RecommendationRow × Tables
recommended (some state) row t = (err (pq_error state), t)
recommended none row t = (ok row, record t { recommendations = t.recommendations ++ row ∷ [] })

-- InsertRecommendation
unfoldable pub insert_recommendation : InsertRecommendationParams → Query RecommendationRow
unfolding same_pair recommended insert_refusal new_recommendation_row
insert_recommendation arg t =
    recommended (insert_refusal arg t) (new_recommendation_row arg t)
      (record t { next_recommendation_id = t.next_recommendation_id + 1 })

-- DELETE of the batches that a test selects, with ON DELETE CASCADE of their recommendations
unfoldable pub delete_batches : (BatchRow → Bool) → Query (Unit {0})
delete_batches doomed t = (
  ok tt,
  record t {
    batches = keep (λ r. not (doomed r)) t.batches;
    recommendations =
        keep (λ r. not (batch_exists r.batch_id (keep doomed t.batches))) t.recommendations;
  },
)

-- DeleteOtherBatchesForEmployee
unfoldable pub delete_others_for_employee : ℤ → ℤ → Query (Unit {0})
unfolding delete_batches
delete_others_for_employee employee_id i =
    delete_batches (λ r. of_employee employee_id r && not (has_id i r))

-- DeleteOtherBatchesForJobPosition
unfoldable pub delete_others_for_job_position : ℤ → ℤ → Query (Unit {0})
unfolding delete_batches
delete_others_for_job_position job_position_id i =
    delete_batches (λ r. of_job_position job_position_id r && not (has_id i r))
