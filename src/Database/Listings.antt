-- ===== src/Database/Listings.antt =====
-- The statements of sql/queries/recommendations.sql that read batches of a subject, and the sets of
-- recommendations with the rows that they join. Identifiers are primary keys, so a join by
-- identifier is the first row that has it.

pub mod Order
pub mod Matches
use laburi_to.Base.{
  ℕ, ℤ, pos, negsuc, String, Bool, true, false, ◌&&◌, ◌||◌, Option, none, some, List, [], ◌∷◌, ◌==◌,
  int_eq, if◌then◌else◌, ltb, int_ltb, any, find, keep, length, take, drop,
}
use laburi_to.Errors.{Result, ok, err, pq_error}
use laburi_to.Recommendation.Models.{completed}
use laburi_to.Database.Schema.{
  BatchRow, RecommendationRow, EmployeeRow, JobPositionRow, Tables, of_employee, of_job_position,
}
use laburi_to.Database.Connection.{Query}
use laburi_to.Database.Batches.{the_row}
use laburi_to.Database.Profiles.{is_active}

unfoldable pub is_completed : BatchRow → Bool
is_completed r = elim r.status [ completed ↦ true | _ ↦ false ]

-- ORDER BY created_at DESC, id DESC: whether `a` comes before `b`
unfoldable pub newer : BatchRow → BatchRow → Bool
newer a b =
    if ltb b.created_at a.created_at
    then true
    else if ltb a.created_at b.created_at
    then false
    else int_ltb b.id a.id

later_of : BatchRow → Option BatchRow → BatchRow
later_of r none = r
later_of r (some best) = if newer r best then r else best

-- … LIMIT 1
unfoldable pub newest : List BatchRow → Option BatchRow
unfolding later_of
newest [] = none
newest (r ∷ rows) = some (later_of r (newest rows))

-- GetCurrentBatchByEmployee
unfoldable pub get_current_batch_by_employee : ℤ → Query BatchRow
get_current_batch_by_employee i t = (the_row (newest (keep (of_employee i) t.batches)), t)

-- GetCurrentBatchByJobPosition
unfoldable pub get_current_batch_by_job_position : ℤ → Query BatchRow
get_current_batch_by_job_position i t = (the_row (newest (keep (of_job_position i) t.batches)), t)

unfoldable pub last_completed_of_employee : ℤ → Tables → Option BatchRow
last_completed_of_employee i t = newest (keep (λ r. of_employee i r && is_completed r) t.batches)

unfoldable pub last_completed_of_job_position : ℤ → Tables → Option BatchRow
last_completed_of_job_position i t =
    newest (keep (λ r. of_job_position i r && is_completed r) t.batches)

-- GetLastCompletedBatchByEmployee
unfoldable pub get_last_completed_batch_by_employee : ℤ → Query BatchRow
get_last_completed_batch_by_employee i t = (the_row (last_completed_of_employee i t), t)

-- GetLastCompletedBatchByJobPosition
unfoldable pub get_last_completed_batch_by_job_position : ℤ → Query BatchRow
get_last_completed_batch_by_job_position i t = (the_row (last_completed_of_job_position i t), t)

-- A recommendation of a batch with its active job position.
pub record JobMatch : Type 0 where
  pub recommendation : RecommendationRow
  pub job : JobPositionRow

-- … and with its employee
pub record EmployeeMatch : Type 0 where
  pub recommendation : RecommendationRow
  pub employee : EmployeeRow

unfoldable pub active_job : ℤ → Tables → Option JobPositionRow
active_job i t = find (λ j. j.id == i && is_active j) t.job_positions

with_job : RecommendationRow → Option JobPositionRow → List JobMatch → List JobMatch
with_job r none rest = rest
with_job r (some job) rest = record { recommendation = r; job = job } ∷ rest

job_matches_from : Tables → List RecommendationRow → List JobMatch
unfolding with_job
job_matches_from t [] = []
job_matches_from t (r ∷ rows) =
    with_job r (active_job r.job_position_id t) (job_matches_from t rows)

-- recommendations JOIN job_positions WHERE batch_id = $1 AND deleted_at IS NULL
unfoldable pub job_matches : ℤ → Tables → List JobMatch
unfolding job_matches_from
job_matches i t = job_matches_from t (keep (λ r. r.batch_id == i) t.recommendations)

with_employee :
    RecommendationRow
    → Option EmployeeRow
    → Option JobPositionRow
    → List EmployeeMatch
    → List EmployeeMatch
with_employee r (some e) (some job) rest = record { recommendation = r; employee = e } ∷ rest
with_employee r _ _ rest = rest

employee_matches_from : Tables → List RecommendationRow → List EmployeeMatch
unfolding with_employee
employee_matches_from t [] = []
employee_matches_from t (r ∷ rows) =
    with_employee r (find (λ e. e.id == r.employee_id) t.employees) (active_job r.job_position_id t)
      (employee_matches_from t rows)

-- recommendations JOIN employees JOIN job_positions WHERE batch_id = $1 AND deleted_at IS NULL
unfoldable pub employee_matches : ℤ → Tables → List EmployeeMatch
unfolding employee_matches_from
employee_matches i t = employee_matches_from t (keep (λ r. r.batch_id == i) t.recommendations)

-- CountJobRecommendationsForEmployee
unfoldable pub count_job_recommendations_for_employee : ℤ → Query ℕ
count_job_recommendations_for_employee i t = (ok (length (job_matches i t)), t)

-- CountEmployeeRecommendationsForJobPosition
unfoldable pub count_employee_recommendations_for_job_position : ℤ → Query ℕ
count_employee_recommendations_for_job_position i t = (ok (length (employee_matches i t)), t)

-- LIMIT and OFFSET, which PostgreSQL refuses when negative
unfoldable pub window {ℓ} : {A : Type ℓ} → ℤ → ℤ → List A → Result (List A)
window (pos limit) (pos offset) rows = ok (take limit (drop offset rows))
window (negsuc _) _ rows = err (pq_error "2201W")
window (pos _) (negsuc _) rows = err (pq_error "2201X")

-- `below` is the order of NUMERIC on the text of its values.
module _ (below : String → String → Bool) where
  -- score DESC NULLS LAST: whether the first comes strictly before the second
  unfoldable pub score_above : Option String → Option String → Bool
  score_above (some a) (some b) = below b a
  score_above (some _) none = true
  score_above none _ = false

  -- the second key, a time, descends, and the identifier of the recommendation ascends
  unfoldable pub listed_before : Option String → ℕ → ℤ → Option String → ℕ → ℤ → Bool
  unfolding score_above
  listed_before score time i score' time' i' =
      if score_above score score'
      then true
      else if score_above score' score
      then false
      else if ltb time' time
      then true
      else if ltb time time'
      then false
      else int_ltb i i'

  unfoldable pub job_before : JobMatch → JobMatch → Bool
  job_before a b =
      listed_before a.recommendation.score a.job.created_at a.recommendation.id
        b.recommendation.score b.job.created_at b.recommendation.id

  unfoldable pub employee_before : EmployeeMatch → EmployeeMatch → Bool
  employee_before a b =
      listed_before a.recommendation.score a.employee.updated_at a.recommendation.id
        b.recommendation.score b.employee.updated_at b.recommendation.id

module _ {ℓ} {A : Type ℓ} (before : A → A → Bool) where
  unfoldable pub placed : A → List A → List A
  placed x [] = x ∷ []
  placed x (y ∷ ys) = let rest = placed x ys in if before y x then y ∷ rest else x ∷ y ∷ ys

  -- ORDER BY
  unfoldable pub ordered : List A → List A
  unfolding placed
  ordered [] = []
  ordered (x ∷ xs) = placed x (ordered xs)

module _ (below : String → String → Bool) where
  -- ListJobRecommendationsForEmployee
  unfoldable pub list_job_recommendations_for_employee : ℤ → ℤ → ℤ → Query (List JobMatch)
  list_job_recommendations_for_employee i limit offset t =
      (window limit offset (ordered (job_before below) (job_matches i t)), t)

  -- ListEmployeeRecommendationsForJobPosition
  unfoldable pub list_employee_recommendations_for_job_position :
      ℤ → ℤ → ℤ → Query (List EmployeeMatch)
  list_employee_recommendations_for_job_position i limit offset t =
      (window limit offset (ordered (employee_before below) (employee_matches i t)), t)

-- r.batch_id = (the identifier of the last completed batch), which is not true where there is none
unfoldable pub in_batch : Option BatchRow → RecommendationRow → Bool
in_batch none r = false
in_batch (some b) r = r.batch_id == b.id

unfoldable pub employer_matches : ℤ → Tables → Option JobPositionRow → Bool
employer_matches user t none = false
employer_matches user t (some j) = any (λ e. e.id == j.employer_id && e.user_id == user) t.employers

-- A recommendation of this employee for an active position of the employer whose user is this.
unfoldable pub links : ℤ → ℤ → Tables → RecommendationRow → Bool
unfolding employer_matches
links employee user t r =
    r.employee_id == employee && employer_matches user t (active_job r.job_position_id t)

-- EmployerHasCurrentRecommendationForEmployee
unfoldable pub employer_has_current_recommendation_for_employee : ℤ → ℤ → Query Bool
employer_has_current_recommendation_for_employee employee user t = (
  ok (
      any (λ r. links employee user t r && in_batch (last_completed_of_employee employee t) r)
        t.recommendations
      || any
          (λ r.
            links employee user t r
            && in_batch (last_completed_of_job_position r.job_position_id t) r)
          t.recommendations),
  t,
)
