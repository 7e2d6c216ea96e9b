-- ===== src/Tests/Reads.antt =====
-- The current set at a concrete database: a completed batch of an employee with a scored and an
-- unscored recommendation.
use laburi_to.Base.{
  ℤ, pos, String, ◌≡◌, refl, Bool, true, false, Option, none, some, [], ◌∷◌, ◌++◌, any, ◌==◌,
  int_eq, string_eq, ◌&&◌, not, ◌⊎◌, eq_iff,
}
use laburi_to.Errors.{Result, ok}
use laburi_to.Recommendation.Models.{completed}
use laburi_to.Recommendation.Service.{RecommendationSet}
use laburi_to.Recommendation.Listings.{
  JobRecommendation, EmployeeRecommendation, employer_has_current_recommendation,
}
use laburi_to.Recommendation.Listings.Pages.{job_page, job_recommendations_for_employee-tile}
use laburi_to.Recommendation.Listings.Linked.{
  ShowsPosition, ShowsEmployee, employer_has_current_recommendation-shown,
}
use laburi_to.Database.Schema.{RecommendationRow, Tables, employee_exists}
use laburi_to.Database.Listings.{job_matches, job_before, list_job_recommendations_for_employee}
use laburi_to.Database.Total.{calm}
use laburi_to.Tests.{closed, tables_with, opening, ana, for_opening}

abbrev unscored_row : RecommendationRow
unscored_row = record {
  id = pos 1;
  batch_id = pos 1;
  employee_id = pos 7;
  job_position_id = pos 5;
  score = none;
  created_at = 4;
}

abbrev scored_row : RecommendationRow
scored_row = record unscored_row { id = pos 2; score = some "0.5000" }

abbrev stored : Tables
stored = record (tables_with closed) { recommendations = unscored_row ∷ scored_row ∷ [] }

abbrev stored_for_opening : Tables
stored_for_opening = record (tables_with (record for_opening { status = completed })) {
  recommendations = unscored_row ∷ scored_row ∷ [];
}

-- An order in which one score is below all others
abbrev below : String → String → Bool
below a b = a == "0.5000" && not (b == "0.5000")

abbrev parse : String → Result String
parse text = ok text

abbrev shown_item : ℤ → Option String → JobRecommendation String
shown_item i score = record {
  recommendation_id = i;
  job_position_id = opening.id;
  employer_id = opening.employer_id;
  position = opening.position;
  role = opening.role;
  required_experience = opening.required_experience;
  required_education_level = opening.required_education_level;
  available_hours_per_day = opening.available_hours_per_day;
  timezone = opening.timezone;
  technical_resources = opening.technical_resources;
  score = score;
  published_at = opening.created_at;
  updated_at = opening.updated_at;
}

-- The scored recommendation comes first.
abbrev whole : RecommendationSet (JobRecommendation String)
whole = record {
  status = completed;
  items = shown_item (pos 2) (some "0.5000") ∷ shown_item (pos 1) none ∷ [];
  total = pos 2;
}

whole_read : job_page parse below (pos 7) 2 0 stored ≡ ok whole
unfolding laburi_to.Recommendation.Listings.job_recommendations_for_employee
    laburi_to.Database.Connection.◌>>=◌ laburi_to.Database.Connection.on_error
    laburi_to.Database.Connection.call laburi_to.Database.Listings.get_current_batch_by_employee
    laburi_to.Database.Batches.the_row laburi_to.Database.Listings.newest laburi_to.Base.keep
    laburi_to.Database.Schema.of_employee laburi_to.Base.int_beq
    laburi_to.Database.Listings.get_last_completed_batch_by_employee
    laburi_to.Database.Listings.last_completed_of_employee laburi_to.Database.Listings.is_completed
    laburi_to.Database.Listings.count_job_recommendations_for_employee
    list_job_recommendations_for_employee laburi_to.Database.Listings.window
    laburi_to.Database.Listings.ordered job_matches laburi_to.Database.Listings.active_job
    laburi_to.Base.find laburi_to.Database.Profiles.is_active job_before
    laburi_to.Database.Listings.listed_before laburi_to.Database.Connection.pure
whole_read = refl

job_recommendations_for_employee-tile_example :
    (first second : RecommendationSet (JobRecommendation String)) × (job_page parse below
        (pos 7)
        1
        0
        stored
      ≡ ok first)
    × (job_page parse below (pos 7) 1 1 stored ≡ ok second)
    × (whole.items ≡ first.items ++ second.items)
    × (first.total ≡ whole.total)
    × (second.total ≡ whole.total)
job_recommendations_for_employee-tile_example =
    job_recommendations_for_employee-tile parse below (pos 7) 0 1 1 stored whole whole_read

abbrev candidate : ℤ → Option String → EmployeeRecommendation String
candidate i score = record {
  recommendation_id = i;
  employee_id = ana.id;
  user_id = ana.user_id;
  position = ana.position;
  role = ana.role;
  years_of_experience = ana.years_of_experience;
  certifications = [];
  portfolio_url = none;
  score = score;
  created_at = ana.created_at;
  profile_updated_at = ana.updated_at;
}

abbrev last_page : RecommendationSet (EmployeeRecommendation String)
last_page = record { status = completed; items = candidate (pos 1) none ∷ []; total = pos 2 }

linked_read : (employer_has_current_recommendation (pos 7) (pos 20) (calm stored)).0 ≡ ok true
unfolding employer_has_current_recommendation laburi_to.Database.Connection.on_error
    laburi_to.Database.Connection.call
    laburi_to.Database.Listings.employer_has_current_recommendation_for_employee any
    laburi_to.Database.Listings.links laburi_to.Base.int_beq laburi_to.Database.Listings.active_job
    laburi_to.Base.find laburi_to.Database.Profiles.is_active laburi_to.Database.Listings.in_batch
    laburi_to.Database.Listings.last_completed_of_employee laburi_to.Database.Listings.newest
    laburi_to.Base.keep laburi_to.Database.Schema.of_employee
    laburi_to.Database.Listings.is_completed
linked_read = refl

ana_exists : employee_exists (pos 7) stored ≡ true
unfolding employee_exists any laburi_to.Base.int_beq
ana_exists = refl

employer_has_current_recommendation-shown_example :
    ShowsPosition (pos 7) (pos 20) stored ⊎ ShowsEmployee (pos 7) (pos 20) stored
employer_has_current_recommendation-shown_example =
    employer_has_current_recommendation-shown (pos 7) (pos 20) (calm stored) ana_exists linked_read
