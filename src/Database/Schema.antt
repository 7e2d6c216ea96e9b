-- ===== src/Database/Schema.antt =====
-- sql/schema and internal/database/models.go. A table is the list of its rows in the order of
-- insertion, a column that admits NULL an option, a time a number of the database's clock.
use laburi_to.Base.{
  ℕ, ℤ, pos, negsuc, String, ◌≡◌, Bool, true, false, ◌&&◌, Option, none, some, List, ◌==◌, int_eq,
  ltb, any, count, All, ◌≤◌,
}
use laburi_to.Recommendation.Models.{
  SubjectType, BatchStatus, pending, processing, exclusive, status_valid,
}

pub record BatchRow : Type 0 where
  pub id : ℤ
  pub subject_type : SubjectType
  pub employee_id : Option ℤ
  pub job_position_id : Option ℤ
  pub status : BatchStatus
  pub created_at : ℕ
  pub updated_at : ℕ

pub record RecommendationRow : Type 0 where
  pub id : ℤ
  pub batch_id : ℤ
  pub employee_id : ℤ
  pub job_position_id : ℤ
  -- the text of a NUMERIC(7,4)
  pub score : Option String
  pub created_at : ℕ

pub record TechRow : Type 0 where
  pub os : Option String
  pub paid_software : Option (List String)

pub record ConnectionRow : Type 0 where
  pub type : String
  pub speed : String

pub record EducationRow : Type 0 where
  pub id : ℤ
  pub education_type : String
  pub title : String
  pub status : String
  pub certification : Option String

-- A row of employees with the rows of the profile tables that refer to it. At most one row of
-- employee_location, of employee_profile_tech and of employee_profile_availability refers to an employee, by
-- a unique constraint; the keys and times of these rows are never read, and left out.
pub record EmployeeRow : Type 0 where
  pub id : ℤ
  pub user_id : ℤ
  pub position : String
  pub role : String
  pub years_of_experience : String
  pub certifications : Option (List String)
  pub portfolio_url : Option String
  pub created_at : ℕ
  pub updated_at : ℕ
  -- employee_profile_availability; the first column is not null in a row
  pub available_hours_per_day : Option ℤ
  pub compatible_projects : Option ℤ
  pub incompatible_projects : Option ℤ
  -- employee_location
  pub timezone : Option String
  -- employee_profile_tech
  pub tech : Option TechRow
  pub internet_connections : List ConnectionRow
  pub education : List EducationRow

pub record EmployeeFileRow : Type 0 where
  pub id : ℤ
  pub employee_id : ℤ
  pub type : String
  pub bucket : String
  pub object_key : String
  pub original_filename : String
  pub content_type : String
  pub size_bytes : ℤ
  pub checksum_sha256 : Option String
  pub status : String
  pub certification_name : Option String
  pub created_at : ℕ
  pub uploaded_at : Option ℕ
  pub updated_at : ℕ

pub record JobPositionRow : Type 0 where
  pub id : ℤ
  pub employer_id : ℤ
  pub position : String
  pub role : String
  pub required_experience : String
  pub required_education_level : String
  pub available_hours_per_day : ℤ
  pub timezone : String
  pub technical_resources : List String
  pub created_at : ℕ
  pub updated_at : ℕ
  pub deleted_at : Option ℕ

pub record EmployerRow : Type 0 where
  pub id : ℤ
  pub user_id : ℤ
  pub name : String
  pub industry : String
  pub location : String
  pub hiring_modalities : List String
  pub created_at : ℕ
  pub updated_at : ℕ

pub record UserRow : Type 0 where
  pub id : ℤ
  pub email : String
  pub hashed_password : String
  pub role : String
  pub created_at : ℕ
  pub updated_at : ℕ

pub record RefreshTokenRow : Type 0 where
  pub token : String
  pub created_at : ℕ
  pub updated_at : ℕ
  pub user_id : ℤ
  pub expires_at : ℕ
  pub revoked_at : Option ℕ

pub record Tables : Type 0 where
  pub users : List UserRow
  pub refresh_tokens : List RefreshTokenRow
  pub batches : List BatchRow
  pub recommendations : List RecommendationRow
  pub employees : List EmployeeRow
  pub employee_files : List EmployeeFileRow
  pub job_positions : List JobPositionRow
  pub employers : List EmployerRow
  -- the sequences of the SERIAL columns, and now()
  pub next_batch_id : ℕ
  pub next_recommendation_id : ℕ
  pub next_job_position_id : ℕ
  pub next_employer_id : ℕ
  pub next_user_id : ℕ
  pub next_employee_id : ℕ
  pub next_education_id : ℕ
  pub next_file_id : ℕ
  pub now : ℕ

-- The first tables, with the sequences that the transactions of the program advance at their values
-- in the second: PostgreSQL takes no number of a sequence back.
abbrev pub with_sequences : Tables → Tables → Tables
with_sequences t after = record t {
  next_recommendation_id = after.next_recommendation_id;
  next_employee_id = after.next_employee_id;
  next_education_id = after.next_education_id;
  next_file_id = after.next_file_id;
}

-- status IN ('pending', 'processing')
unfoldable pub in_flight : BatchStatus → Bool
in_flight pending = true
in_flight processing = true
in_flight _ = false

-- column = $1, which is not true of a NULL
abbrev pub holds : ℤ → Option ℤ → Bool
holds i none = false
holds i (some j) = j == i

unfoldable pub has_id : ℤ → BatchRow → Bool
has_id i r = r.id == i

unfoldable pub of_employee : ℤ → BatchRow → Bool
of_employee i r = holds i r.employee_id

unfoldable pub of_job_position : ℤ → BatchRow → Bool
of_job_position i r = holds i r.job_position_id

-- The predicates of the two partial unique indexes, at one key.
unfoldable pub employee_in_flight : ℤ → BatchRow → Bool
unfolding of_employee
employee_in_flight i r = of_employee i r && in_flight r.status

unfoldable pub job_position_in_flight : ℤ → BatchRow → Bool
unfolding of_job_position
job_position_in_flight i r = of_job_position i r && in_flight r.status

-- recommendation_batches_subject_type_check, _subject_check and _status_check
unfoldable pub row_checked : BatchRow → Bool
row_checked r = exclusive r.subject_type r.employee_id r.job_position_id && status_valid r.status

unfoldable pub employee_exists : ℤ → Tables → Bool
employee_exists i t = any (λ e. e.id == i) t.employees

unfoldable pub job_position_exists : ℤ → Tables → Bool
job_position_exists i t = any (λ j. j.id == i) t.job_positions

unfoldable pub batch_exists : ℤ → List BatchRow → Bool
batch_exists i rows = any (has_id i) rows

-- An identifier that the sequence has handed out.
unfoldable pub issued : ℕ → ℤ → Bool
issued next (pos n) = ltb n next
issued next (negsuc _) = false

-- What the keys, indexes, checks and foreign keys of the two tables promise.
pub record IsConsistent (t : Tables) : Type 0 where
  pub ids_unique : (i : ℤ) → count (has_id i) t.batches ≤ 1
  pub one_per_employee : (i : ℤ) → count (employee_in_flight i) t.batches ≤ 1
  pub one_per_job_position : (i : ℤ) → count (job_position_in_flight i) t.batches ≤ 1
  pub rows_checked : All (λ (r : BatchRow). row_checked r ≡ true) t.batches
  pub ids_issued : All (λ (r : BatchRow). issued t.next_batch_id r.id ≡ true) t.batches
  pub referenced :
      All (λ (r : RecommendationRow). batch_exists r.batch_id t.batches ≡ true) t.recommendations
