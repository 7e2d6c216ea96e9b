-- ===== src/Database/Employers.antt =====
-- CreateEmployer of sql/queries/employers.sql, with the trigger and the constraints of
-- sql/schema/0005_add_user_roles_and_employers.sql that it meets.
use laburi_to.Base.{
  ℤ, pos, String, Bool, ◌+◌, Option, none, some, List, [], ◌∷◌, ◌++◌, ◌==◌, int_eq, any,
  if◌then◌else◌,
}
use laburi_to.Errors.{Result, ok, err, pq_error}
use laburi_to.Database.Schema.{EmployerRow, EmployeeRow, Tables}
use laburi_to.Database.Connection.{Query}

-- A nil slice is sent as NULL.
pub record CreateEmployerParams : Type 0 where
  pub user_id : ℤ
  pub name : String
  pub industry : String
  pub location : String
  pub hiring_modalities : Option (List String)

unfoldable pub employer_of_user : ℤ → EmployerRow → Bool
employer_of_user i e = e.user_id == i

unfoldable pub employee_of_user : ℤ → EmployeeRow → Bool
employee_of_user i e = e.user_id == i

unfoldable pub new_employer : CreateEmployerParams → List String → Tables → EmployerRow
new_employer arg modalities t = record {
  id = pos t.next_employer_id;
  user_id = arg.user_id;
  name = arg.name;
  industry = arg.industry;
  location = arg.location;
  hiring_modalities = modalities;
  created_at = t.now;
  updated_at = t.now;
}

-- unique_employer_by_user, then the foreign key of the user
unfoldable pub employer_refusal : ℤ → Tables → Option String
unfolding employer_of_user
employer_refusal user t =
    if any (employer_of_user user) t.employers
    then some "23505"
    else if any (λ u. u.id == user) t.users
    then none
    else some "23503"

unfoldable pub kept_employer : Option String → EmployerRow → Tables → Result EmployerRow × Tables
kept_employer (some state) row t = (err (pq_error state), t)
kept_employer none row t = (ok row, record t { employers = t.employers ++ row ∷ [] })

unfoldable pub checked_employer :
    CreateEmployerParams → Tables → Option (List String) → Tables → Result EmployerRow × Tables
unfolding employer_refusal new_employer kept_employer
checked_employer arg before none t = (err (pq_error "23502"), t)
checked_employer arg before (some modalities) t =
    kept_employer (employer_refusal arg.user_id before) (new_employer arg modalities before) t

-- CreateEmployer. The trigger enforce_exclusive_employer_profile comes before the constraints, and
-- the sequence advances also when the row is refused.
unfoldable pub create_employer_row : CreateEmployerParams → Query EmployerRow
unfolding checked_employer employee_of_user
create_employer_row arg t =
    let t' = record t { next_employer_id = t.next_employer_id + 1 } in
    if any (employee_of_user arg.user_id) t.employees
    then (err (pq_error "23514"), t')
    else checked_employer arg t arg.hiring_modalities t'
