-- ===== src/Employee/Access.antt =====
-- internal/employee/authorization.go. `access` is the port RecommendationAccess.
pub mod Allowed
use laburi_to.Base.{ℤ, Bool, true, false, ◌==◌, int_eq, if◌then◌else◌}
use laburi_to.Errors.{GoError, sentinel, is, employee_profile_not_found, profile_access_forbidden}
use laburi_to.Database.Connection.{M, pure, raise, on_error, ◌>>=◌}
use laburi_to.Recommendation.Service.{UserRole, role_employee, role_employer, other, Principal}
use laburi_to.Employee.Models.{EmployeeStore}

pub record ProfileViewer : Type 0 where
  pub is_owner : Bool

-- `if errors.Is(err, ErrEmployeeProfileNotFound) { return ErrProfileAccessForbidden }`
unfoldable pub hide_absence : GoError → GoError
hide_absence e = if is e employee_profile_not_found then sentinel profile_access_forbidden else e

module _ (store : EmployeeStore) (access : ℤ → ℤ → M Bool) where
  unfoldable pub authorize_own_profile : ℤ → Principal → M ProfileViewer
  unfolding hide_absence
  authorize_own_profile employee_id principal = do
    owner ← on_error hide_absence (store.get_employee_by_id employee_id)
    if owner.user_id == principal.user_id
        then pure (record { is_owner = true })
        else raise (sentinel profile_access_forbidden)

  unfoldable pub authorize_recommended_profile : ℤ → Principal → M ProfileViewer
  authorize_recommended_profile employee_id principal = do
    allowed ← access employee_id principal.user_id
    if allowed
        then pure (record { is_owner = false })
        else raise (sentinel profile_access_forbidden)

  -- The switch on the role of the principal
  unfoldable pub authorize_as : UserRole → ℤ → Principal → M ProfileViewer
  unfolding authorize_own_profile authorize_recommended_profile
  authorize_as role_employee = authorize_own_profile
  authorize_as role_employer = authorize_recommended_profile
  authorize_as (other _) = λ employee_id principal. raise (sentinel profile_access_forbidden)

  unfoldable pub authorize_profile_access : ℤ → Principal → M ProfileViewer
  unfolding authorize_as
  authorize_profile_access employee_id principal = authorize_as principal.role employee_id principal
