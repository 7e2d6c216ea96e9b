-- ===== src/JobPosition/Models.antt =====
-- internal/jobposition/models.go and store.go. A nil slice is `none`, and `trim` is
-- strings.TrimSpace.
use laburi_to.Base.{ℕ, ℤ, String, Option, none, some, List, [], map}
use laburi_to.Database.Connection.{M}
use laburi_to.Database.JobPositions.{PositionColumns}

-- CreateJobPositionRequest, and its alias UpdateJobPositionRequest: the columns that it writes
abbrev pub CreateJobPositionRequest : Type 0
CreateJobPositionRequest = PositionColumns

-- `if list == nil { list = []string{} }`
unfoldable pub present : Option (List String) → Option (List String)
present none = some []
present (some texts) = some texts

unfoldable pub trimmed : (String → String) → Option (List String) → Option (List String)
trimmed trim none = none
trimmed trim (some texts) = some (map trim texts)

unfoldable pub normalize_request :
    (String → String) → CreateJobPositionRequest → CreateJobPositionRequest
unfolding present trimmed
normalize_request trim r = record {
  position = trim r.position;
  role = trim r.role;
  required_experience = trim r.required_experience;
  required_education_level = trim r.required_education_level;
  available_hours_per_day = r.available_hours_per_day;
  timezone = trim r.timezone;
  technical_resources = trimmed trim (present r.technical_resources);
}

pub record JobPosition : Type 0 where
  pub id : ℤ
  pub employer_id : ℤ
  pub position : String
  pub role : String
  pub required_experience : String
  pub required_education_level : String
  pub available_hours_per_day : ℤ
  pub timezone : String
  pub technical_resources : Option (List String)
  pub created_at : ℕ
  pub updated_at : ℕ

-- JobPosition.Normalize
unfoldable pub normalize : JobPosition → JobPosition
unfolding present
normalize j = record j { technical_resources = present j.technical_resources }

pub record JobPositionStore : Type 0 where
  pub get_employer_id_by_user_id : ℤ → M ℤ
  pub create_job_position : ℤ → CreateJobPositionRequest → M JobPosition
  pub get_active_job_position_by_id : ℤ → M JobPosition
  pub list_active_job_positions_by_employer : ℤ → M (List JobPosition)
  pub update_active_job_position : ℤ → CreateJobPositionRequest → M JobPosition
  pub soft_delete_job_position : ℤ → M (Unit {0})
