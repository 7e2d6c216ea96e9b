-- ===== src/Recommendation/Candidates.antt =====
-- internal/recommendation/candidates.go, and PairsForEmployee and PairsForJobPosition of repo.go.
pub mod Highest
use laburi_to.Base.{map, ℕ, ℤ, String, Option, none, some, List, [], ◌∷◌, map, leb, if◌then◌else◌}
use laburi_to.Errors.{GoError, sentinel, wrap, is, no_rows, subject_not_found}
use laburi_to.Scoring.Levels.{EducationLevel, education_of, education_rank, experience_of}
use laburi_to.Scoring.Models.{EmployeeProfile, JobRequirements, Pair}
use laburi_to.Database.Schema.{TechRow, EducationRow, EmployeeRow, JobPositionRow}
use laburi_to.Database.Connection.{M, call, pure, on_error, ◌>>=◌}
use laburi_to.Database.Profiles.{
  get_employee_scoring_profile, list_employee_scoring_profiles,
  get_active_job_position_requirements, list_active_job_position_requirements,
}

-- The level and the rank that the loop has reached; before the first, nil and -1.
abbrev pub Highest : Type 0
Highest = Option (EducationLevel × ℕ)

-- one round: a level without a rank, or not above the highest, is skipped
unfoldable pub raise_highest : EducationLevel → Option ℕ → Highest → Highest
raise_highest level none highest = highest
raise_highest level (some rank) none = some (level, rank)
raise_highest level (some rank) (some (best, best_rank)) =
    if leb rank best_rank then some (best, best_rank) else some (level, rank)

unfoldable pub highest_from : Highest → List String → Highest
unfolding raise_highest
highest_from highest [] = highest
highest_from highest (raw ∷ rest) =
    let level = education_of raw in
    highest_from (raise_highest level (education_rank level) highest) rest

abbrev level_of : Highest → Option EducationLevel
level_of none = none
level_of (some (level, rank)) = some level

unfoldable pub highest_education : List String → Option EducationLevel
unfolding highest_from
highest_education types = level_of (highest_from none types)

-- paid_software of a row, where a NULL is the empty list
abbrev pub software_of : Option (List String) → List String
software_of none = []
software_of (some paid_software) = paid_software

-- The argument is the employee_profile_tech row, if there is one.
unfoldable pub technical_resources : Option TechRow → Option (List String)
technical_resources none = none
technical_resources (some row) = some (software_of row.paid_software)

unfoldable pub employee_profile : EmployeeRow → EmployeeProfile
unfolding highest_education technical_resources
employee_profile row = record {
  employee_id = row.id;
  experience = experience_of row.years_of_experience;
  highest_education =
      highest_education (map (λ (e : EducationRow). e.education_type) row.education);
  available_hours_per_day = row.available_hours_per_day;
  timezone = row.timezone;
  technical_resources = technical_resources row.tech;
}

unfoldable pub job_requirements : JobPositionRow → JobRequirements
job_requirements row = record {
  job_position_id = row.id;
  required_experience = experience_of row.required_experience;
  required_education_level = education_of row.required_education_level;
  available_hours_per_day = row.available_hours_per_day;
  timezone = row.timezone;
  technical_resources = some row.technical_resources;
}

-- `if errors.Is(err, sql.ErrNoRows) { return ErrSubjectNotFound }`, any other error wrapped
unfoldable pub missing_subject : GoError → GoError
missing_subject e = if is e no_rows then sentinel subject_not_found else wrap e

unfoldable pub pairs_for_employee : ℤ → M (List Pair)
unfolding employee_profile job_requirements
pairs_for_employee i = do
  profile ← on_error missing_subject (call (get_employee_scoring_profile i))
  jobs ← on_error wrap (call list_active_job_position_requirements)
  pure (
      map
        (λ (job : JobPositionRow).
          let pair : Pair = record {
            employee = employee_profile profile;
            job = job_requirements job;
          } in
          pair)
        jobs)

unfoldable pub pairs_for_job_position : ℤ → M (List Pair)
unfolding employee_profile job_requirements
pairs_for_job_position i = do
  job ← on_error missing_subject (call (get_active_job_position_requirements i))
  profiles ← on_error wrap (call list_employee_scoring_profiles)
  pure (
      map
        (λ (profile : EmployeeRow).
          let pair : Pair = record {
            employee = employee_profile profile;
            job = job_requirements job;
          } in
          pair)
        profiles)
