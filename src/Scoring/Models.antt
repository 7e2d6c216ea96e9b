-- ===== src/Scoring/Models.antt =====
-- internal/scoring/models.go. `F` is Go's float64, which the program only carries.
use laburi_to.Base.{ℤ, String, Bool, true, false, Option, none, some, List, []}
use laburi_to.Scoring.Levels.{ExperienceLevel, EducationLevel}

-- A pointer or a slice that may be nil is an `Option`.
pub record EmployeeProfile : Type 0 where
  pub employee_id : ℤ
  pub experience : ExperienceLevel
  pub highest_education : Option EducationLevel
  pub available_hours_per_day : Option ℤ
  pub timezone : Option String
  pub technical_resources : Option (List String)

pub record JobRequirements : Type 0 where
  pub job_position_id : ℤ
  pub required_experience : ExperienceLevel
  pub required_education_level : EducationLevel
  pub available_hours_per_day : ℤ
  pub timezone : String
  pub technical_resources : Option (List String)

pub record Pair : Type 0 where
  pub employee : EmployeeProfile
  pub job : JobRequirements

unfoldable pub ids : Pair → ℤ × ℤ
ids p = (p.employee.employee_id, p.job.job_position_id)

pub record Indicator (F : Type 0) : Type 0 where
  pub name : String
  pub weight : F
  pub value : F

pub record Eligibility : Type 0 where
  pub eligible : Bool
  pub reason : String

unfoldable pub accepted : Eligibility
accepted = record { eligible = true; reason = "" }

unfoldable pub discarded : String → Eligibility
discarded reason = record { eligible = false; reason = reason }

-- scoring.Result
pub record Outcome (F : Type 0) : Type 0 where
  pub employee_id : ℤ
  pub job_position_id : ℤ
  pub eligible : Bool
  pub reason : String
  pub total : Option F
  pub indicators : List (Indicator F)

module _ {F : Type 0} where
  unfoldable pub scored : Pair → F → List (Indicator F) → Outcome F
  unfolding ids
  scored pair total indicators =
      let (employee_id, job_position_id) = ids pair in
      record {
        employee_id = employee_id;
        job_position_id = job_position_id;
        eligible = true;
        reason = "";
        total = some total;
        indicators = indicators;
      }

  unfoldable pub unscored : Pair → Outcome F
  unfolding ids
  unscored pair =
      let (employee_id, job_position_id) = ids pair in
      record {
        employee_id = employee_id;
        job_position_id = job_position_id;
        eligible = true;
        reason = "";
        total = none;
        indicators = [];
      }

  unfoldable pub rejected : Pair → String → Outcome F
  unfolding ids
  rejected pair reason =
      let (employee_id, job_position_id) = ids pair in
      record {
        employee_id = employee_id;
        job_position_id = job_position_id;
        eligible = false;
        reason = reason;
        total = none;
        indicators = [];
      }

  unfoldable pub has_score : Outcome F → Bool
  has_score r = elim r.total [ some _ ↦ true | none ↦ false ]
