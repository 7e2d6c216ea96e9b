-- ===== src/Employee/Steps/Writes.antt =====
-- The writes of the four steps, one after another.
use laburi_to.Base.{nat_eq, ℕ, ℤ, String, ◌≡◌, refl, Bool, true, List, [], ◌∷◌, ◌==◌, int_eq}
use laburi_to.Database.Connection.{M, pure, ◌>>◌}
use laburi_to.Employee.Repo.{is_filled}
use laburi_to.Employee.Steps.Presence.{StepKind, located, equipped, available, educated}
use laburi_to.Employee.Steps.{
  CreateEmployeeLocationRequest, CreateEmployeeTechRequest,
  CreateEmployeeProfileAvailabilityRequest, EmployeeEducationTitles,
  create_location_with_connections, update_location_with_connections, create_tech, update_tech,
  create_availability, update_availability, create_education, update_education,
}

-- A write of one of the four steps after the base.
pub data ProfileWrite : Type 0 where
  new_location changed_location : CreateEmployeeLocationRequest → ProfileWrite
  new_tech changed_tech : CreateEmployeeTechRequest → ProfileWrite
  new_availability changed_availability : CreateEmployeeProfileAvailabilityRequest → ProfileWrite
  new_education changed_education : List EmployeeEducationTitles → ProfileWrite

-- validate:"required,min=1" of the titles
abbrev pub valid : ProfileWrite → Bool
valid (new_education titles) = is_filled titles
valid (changed_education titles) = is_filled titles
valid _ = true

abbrev pub kind_code : StepKind → ℕ
kind_code located = 0
kind_code equipped = 1
kind_code available = 2
kind_code educated = 3

abbrev pub kind_of : ProfileWrite → StepKind
kind_of (new_location _) = located
kind_of (changed_location _) = located
kind_of (new_tech _) = equipped
kind_of (changed_tech _) = equipped
kind_of (new_availability _) = available
kind_of (changed_availability _) = available
kind_of (new_education _) = educated
kind_of (changed_education _) = educated

-- The write is of this step.
abbrev pub covers : StepKind → ProfileWrite → Bool
covers k w = kind_code (kind_of w) == kind_code k

pub kind_of_code : (j k : StepKind) → kind_code j == kind_code k ≡ true → j ≡ k
kind_of_code located located h = refl
kind_of_code equipped equipped h = refl
kind_of_code available available h = refl
kind_of_code educated educated h = refl
kind_of_code located equipped h = cc
kind_of_code located available h = cc
kind_of_code located educated h = cc
kind_of_code equipped located h = cc
kind_of_code equipped available h = cc
kind_of_code equipped educated h = cc
kind_of_code available located h = cc
kind_of_code available equipped h = cc
kind_of_code available educated h = cc
kind_of_code educated located h = cc
kind_of_code educated equipped h = cc
kind_of_code educated available h = cc

module _ (timezones : String → Bool) (trim_space : String → String) (i : ℤ) where
  -- The repository's operation of each write
  unfoldable pub run : ProfileWrite → M (Unit {0})
  run (new_location r) = create_location_with_connections timezones i r
  run (changed_location r) = update_location_with_connections timezones i r
  run (new_tech r) = create_tech i r
  run (changed_tech r) = update_tech i r
  run (new_availability r) = create_availability i r
  run (changed_availability r) = update_availability i r
  run (new_education titles) = create_education trim_space i titles
  run (changed_education titles) = update_education trim_space i titles

  unfoldable pub run_all : List ProfileWrite → M (Unit {0})
  unfolding run
  run_all [] = pure tt
  run_all (w ∷ ws) = do run w; run_all ws
