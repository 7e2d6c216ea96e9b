-- ===== src/Employee/Profile.antt =====
-- GetEmployeeProfile and profileResponse of internal/employee/get_employee_profile.go.
pub mod Answered
use laburi_to.Base.{ℤ, String, Bool, Option, none, some, List, [], ◌∷◌, if◌then◌else◌}
use laburi_to.Database.Connection.{M, pure, on_error, ◌>>=◌}
use laburi_to.Recommendation.Service.{Principal}
use laburi_to.Employee.Models.{EmployeeProfile, EmployeeProfileResponse, EmployeeStore}
use laburi_to.Employee.Access.{ProfileViewer, hide_absence, authorize_profile_access}

-- `if list == nil { list = []T{} }`
unfoldable pub present {ℓ} : {A : Type ℓ} → Option (List A) → List A
present none = []
present (some items) = items

unfoldable pub profile_response : EmployeeProfile → ProfileViewer → EmployeeProfileResponse
unfolding present
profile_response profile viewer = record {
  id = profile.id;
  user_id = profile.user_id;
  email = if viewer.is_owner then some profile.email else none;
  position = profile.position;
  role = profile.role;
  years_of_experience = profile.years_of_experience;
  certifications = present profile.certifications;
  portfolio_url = profile.portfolio_url;
  timezone = profile.timezone;
  os = profile.os;
  paid_software = present profile.paid_software;
  available_hours_per_day = profile.available_hours_per_day;
  compatible_projects = profile.compatible_projects;
  incompatible_projects = profile.incompatible_projects;
  internet_connections = present profile.internet_connections;
  education = present profile.education;
  files = present profile.files;
  created_at = profile.created_at;
  updated_at = profile.updated_at;
}

module _ (store : EmployeeStore) (access : ℤ → ℤ → M Bool) where
  unfoldable pub get_employee_profile : ℤ → Principal → M EmployeeProfileResponse
  unfolding profile_response
  get_employee_profile employee_id principal = do
    viewer ← authorize_profile_access store access employee_id principal
    profile ← on_error hide_absence (store.get_employee_profile_by_id employee_id)
    pure (profile_response profile viewer)
