-- ===== src/Database/Profiles.antt =====
-- The statements of sql/queries/recommendations.sql that read the universe of candidates and the
-- owners of a subject. A job position with a deletion time is in none of them.
use laburi_to.Base.{ℤ, Bool, true, false, Option, none, some, List, ◌&&◌, ◌==◌, int_eq, find, keep}
use laburi_to.Errors.{ok}
use laburi_to.Database.Schema.{EmployeeRow, JobPositionRow, EmployerRow}
use laburi_to.Database.Connection.{Query}
use laburi_to.Database.Batches.{the_row}

-- deleted_at IS NULL
unfoldable pub is_active : JobPositionRow → Bool
is_active j = elim j.deleted_at [ none ↦ true | some _ ↦ false ]

-- GetEmployeeScoringProfile: the row of the employee, whose profile columns may be NULL
unfoldable pub get_employee_scoring_profile : ℤ → Query EmployeeRow
get_employee_scoring_profile i t = (the_row (find (λ e. e.id == i) t.employees), t)

-- ListEmployeeScoringProfiles. Rows are inserted in the order of their identifiers.
unfoldable pub list_employee_scoring_profiles : Query (List EmployeeRow)
list_employee_scoring_profiles t = (ok t.employees, t)

-- GetActiveJobPositionRequirements
unfoldable pub get_active_job_position_requirements : ℤ → Query JobPositionRow
unfolding is_active
get_active_job_position_requirements i t =
    (the_row (find (λ j. j.id == i && is_active j) t.job_positions), t)

-- ListActiveJobPositionRequirements
unfoldable pub list_active_job_position_requirements : Query (List JobPositionRow)
unfolding is_active
list_active_job_position_requirements t = (ok (keep is_active t.job_positions), t)

unfoldable pub owner_of : Option EmployeeRow → Option ℤ
owner_of none = none
owner_of (some e) = some e.user_id

-- GetEmployeeOwner
unfoldable pub get_employee_owner : ℤ → Query ℤ
unfolding owner_of
get_employee_owner i t = (the_row (owner_of (find (λ e. e.id == i) t.employees)), t)

unfoldable pub employer_owner : Option EmployerRow → Option (ℤ × ℤ)
employer_owner none = none
employer_owner (some e) = some (e.id, e.user_id)

unfoldable pub position_owner : List EmployerRow → Option JobPositionRow → Option (ℤ × ℤ)
unfolding employer_owner
position_owner employers none = none
position_owner employers (some j) = employer_owner (find (λ e. e.id == j.employer_id) employers)

-- GetJobPositionOwner: the employer of an active position, and that employer's user
unfoldable pub get_job_position_owner : ℤ → Query (ℤ × ℤ)
unfolding position_owner is_active
get_job_position_owner i t =
    (the_row (position_owner t.employers (find (λ j. j.id == i && is_active j) t.job_positions)), t)
