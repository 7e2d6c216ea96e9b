-- ===== src/Recommendation/Listings.antt =====
-- JobRecommendationsForEmployee, EmployeeRecommendationsForJobPosition and
-- EmployerHasCurrentRecommendation of internal/recommendation/repo.go, with the items of models.go.
-- `F` is float64, `parse` is strconv.ParseFloat, and `below` is the order of NUMERIC in the database.
pub mod View
pub mod Parts
pub mod Pages
pub mod Linked
use laburi_to.Base.{
  ℕ, ℤ, pos, negsuc, String, Bool, Option, none, some, List, [], ◌∷◌, if◌then◌else◌, ltb, ◌-◌,
}
use Prim.Native.Nat.{◌%◌}
use laburi_to.Errors.{GoError, Result, ok, err, sentinel, wrap, is, no_rows, no_current_batch}
use laburi_to.Recommendation.Models.{BatchStatus, Page}
use laburi_to.Recommendation.Service.{RecommendationSet, RecommendationStore}
use laburi_to.Database.Schema.{BatchRow}
use laburi_to.Database.Connection.{Connection, Query, M, call, pure, on_error, of_result, ◌>>=◌}
use laburi_to.Database.Listings.{
  JobMatch, EmployeeMatch, get_current_batch_by_employee, get_current_batch_by_job_position,
  get_last_completed_batch_by_employee, get_last_completed_batch_by_job_position,
  count_job_recommendations_for_employee, count_employee_recommendations_for_job_position,
  list_job_recommendations_for_employee, list_employee_recommendations_for_job_position,
  employer_has_current_recommendation_for_employee,
}

-- int32(n) for a count, which wraps around
unfoldable pub int32_of : ℕ → ℤ
int32_of n = let k = n % 4294967296 in if ltb k 2147483648 then pos k else negsuc (4294967295 - k)

pub record JobRecommendation (F : Type 0) : Type 0 where
  pub recommendation_id : ℤ
  pub job_position_id : ℤ
  pub employer_id : ℤ
  pub position : String
  pub role : String
  pub required_experience : String
  pub required_education_level : String
  pub available_hours_per_day : ℤ
  pub timezone : String
  pub technical_resources : List String
  pub score : Option F
  pub published_at : ℕ
  pub updated_at : ℕ

pub record EmployeeRecommendation (F : Type 0) : Type 0 where
  pub recommendation_id : ℤ
  pub employee_id : ℤ
  pub user_id : ℤ
  pub position : String
  pub role : String
  pub years_of_experience : String
  pub certifications : List String
  pub portfolio_url : Option String
  pub score : Option F
  pub created_at : ℕ
  pub profile_updated_at : ℕ

-- `if list == nil { list = []string{} }`
unfoldable pub present : Option (List String) → List String
present none = []
present (some texts) = texts

unfoldable pub consed : {B : Type 0} → Result B → Result (List B) → Result (List B)
consed (err e) rest = err e
consed (ok item) (err e) = err e
consed (ok item) (ok items) = ok (item ∷ items)

module _ {A B : Type 0} where
  -- The loop that turns rows into items, up to the first that fails.
  unfoldable pub items_from : (A → Result B) → List A → Result (List B)
  unfolding consed
  items_from item [] = ok []
  items_from item (row ∷ rows) = consed (item row) (items_from item rows)

unfoldable pub no_current : GoError → GoError
no_current e = if is e no_rows then sentinel no_current_batch else wrap e

-- The steps that both reads share, over their four statements.
module _ {A B : Type 0} (total_of : ℤ → Query ℕ) (rows_of : ℤ → ℤ → ℤ → Query (List A))
    (item : A → Result B) where
  unfoldable pub batch_set : BatchStatus → Page → BatchRow → M (RecommendationSet B)
  unfolding of_result items_from int32_of
  batch_set status page completed = do
    total ← on_error wrap (call (total_of completed.id))
    rows ← on_error wrap (call (rows_of completed.id page.limit page.offset))
    items ← of_result (items_from item rows)
    pure (record { status = status; items = items; total = int32_of total })

  abbrev pub completed_set :
      BatchStatus → Page → Result BatchRow × Connection → Result (RecommendationSet B) × Connection
  completed_set status page (ok completed, c) = batch_set status page completed c
  completed_set status page (err e, c) =
      if is e no_rows
      then (ok (record { status = status; items = []; total = pos 0 }), c)
      else (err (wrap e), c)

  unfoldable pub current_set : Query BatchRow → Query BatchRow → Page → M (RecommendationSet B)
  unfolding batch_set no_current
  current_set current last_completed page = do
    row ← on_error no_current (call current)
    λ c. completed_set row.status page (call last_completed c)

module _ {F : Type 0} (parse : String → Result F) where
  parsed_score : Result F → Result (Option F)
  parsed_score (ok value) = ok (some value)
  parsed_score (err e) = err (wrap e)

  unfoldable pub score_from_database : Option String → Result (Option F)
  unfolding parsed_score
  score_from_database none = ok none
  score_from_database (some score) = parsed_score (parse score)

  job_item : JobMatch → Result (Option F) → Result (JobRecommendation F)
  job_item row (err e) = err e
  job_item row (ok score) = ok (record {
    recommendation_id = row.recommendation.id;
    job_position_id = row.job.id;
    employer_id = row.job.employer_id;
    position = row.job.position;
    role = row.job.role;
    required_experience = row.job.required_experience;
    required_education_level = row.job.required_education_level;
    available_hours_per_day = row.job.available_hours_per_day;
    timezone = row.job.timezone;
    technical_resources = row.job.technical_resources;
    score = score;
    published_at = row.job.created_at;
    updated_at = row.job.updated_at;
  })

  unfoldable pub job_recommendation : JobMatch → Result (JobRecommendation F)
  unfolding job_item score_from_database
  job_recommendation row = job_item row (score_from_database row.recommendation.score)

  employee_item : EmployeeMatch → Result (Option F) → Result (EmployeeRecommendation F)
  unfolding present
  employee_item row (err e) = err e
  employee_item row (ok score) = ok (record {
    recommendation_id = row.recommendation.id;
    employee_id = row.employee.id;
    user_id = row.employee.user_id;
    position = row.employee.position;
    role = row.employee.role;
    years_of_experience = row.employee.years_of_experience;
    certifications = present row.employee.certifications;
    portfolio_url = row.employee.portfolio_url;
    score = score;
    created_at = row.employee.created_at;
    profile_updated_at = row.employee.updated_at;
  })

  unfoldable pub employee_recommendation : EmployeeMatch → Result (EmployeeRecommendation F)
  unfolding employee_item score_from_database
  employee_recommendation row = employee_item row (score_from_database row.recommendation.score)

  module _ (below : String → String → Bool) where
    unfoldable pub job_recommendations_for_employee :
        ℤ → Page → M (RecommendationSet (JobRecommendation F))
    unfolding current_set job_recommendation
    job_recommendations_for_employee i =
        current_set count_job_recommendations_for_employee
          (list_job_recommendations_for_employee below) job_recommendation
          (get_current_batch_by_employee i) (get_last_completed_batch_by_employee i)

    unfoldable pub employee_recommendations_for_job_position :
        ℤ → Page → M (RecommendationSet (EmployeeRecommendation F))
    unfolding current_set employee_recommendation
    employee_recommendations_for_job_position i =
        current_set count_employee_recommendations_for_job_position
          (list_employee_recommendations_for_job_position below) employee_recommendation
          (get_current_batch_by_job_position i) (get_last_completed_batch_by_job_position i)

    -- The repository as the store of the queries.
    unfoldable pub repository_store :
        RecommendationStore (JobRecommendation F) (EmployeeRecommendation F)
    repository_store = record {
      job_recommendations_for_employee = job_recommendations_for_employee;
      employee_recommendations_for_job_position = employee_recommendations_for_job_position;
    }

unfoldable pub employer_has_current_recommendation : ℤ → ℤ → M Bool
employer_has_current_recommendation employee_id employer_user_id =
    on_error wrap
      (call (employer_has_current_recommendation_for_employee employee_id employer_user_id))
