-- ===== src/Employee/Repo.antt =====
-- GetEmployeeByID and IsProfileComplete of internal/employee/repo.go, with the statements of
-- sql/queries/employees.sql that they run.
use laburi_to.Base.{
  ℤ, Bool, true, false, ◌&&◌, Option, none, some, List, [], ◌∷◌, ◌==◌, int_eq, find, if◌then◌else◌,
}
use laburi_to.Errors.{GoError, ok, sentinel, is, no_rows, employee_profile_not_found}
use laburi_to.Database.Schema.{EmployeeRow}
use laburi_to.Database.Connection.{Query, M, call, pure, on_error, ◌>>=◌}
use laburi_to.Database.Batches.{the_row}
use laburi_to.Database.Employees.{is_some}
use laburi_to.Employee.Models.{EmployeeOwner}

-- GetEmployeeByID
unfoldable pub get_employee_row : ℤ → Query EmployeeRow
get_employee_row i t = (the_row (find (λ e. e.id == i) t.employees), t)

-- `if errors.Is(err, sql.ErrNoRows) { return ErrEmployeeProfileNotFound }`
unfoldable pub missing_employee : GoError → GoError
missing_employee e = if is e no_rows then sentinel employee_profile_not_found else e

unfoldable pub employee_from_row : EmployeeRow → EmployeeOwner
employee_from_row row = record { id = row.id; user_id = row.user_id }

unfoldable pub get_employee_by_id : ℤ → M EmployeeOwner
unfolding missing_employee employee_from_row
get_employee_by_id i = do
  row ← on_error missing_employee (call (get_employee_row i))
  pure (employee_from_row row)

abbrev pub is_filled {ℓ} : {A : Type ℓ} → List A → Bool
is_filled [] = false
is_filled (x ∷ xs) = true

-- The five steps of a profile
unfoldable pub complete : Option EmployeeRow → Bool
complete none = false
complete (some e) =
    is_some e.timezone
    && is_some e.tech
    && is_some e.available_hours_per_day
    && is_filled e.education

-- IsEmployeeProfileComplete
unfoldable pub is_employee_profile_complete : ℤ → Query Bool
unfolding complete
is_employee_profile_complete i t = (ok (complete (find (λ e. e.id == i) t.employees)), t)

unfoldable pub is_profile_complete : ℤ → M Bool
is_profile_complete i = call (is_employee_profile_complete i)
