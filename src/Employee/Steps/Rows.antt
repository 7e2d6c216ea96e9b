-- ===== src/Employee/Steps/Rows.antt =====
-- Which steps a change of the row of an employee leaves.
use laburi_to.Base.{ℤ, String, ◌≡◌, refl, true, List, [], ◌∷◌, ◌++◌, int_eq}
use laburi_to.Database.Schema.{EmployeeRow, TechRow, ConnectionRow}
use laburi_to.Database.Employees.{
  with_timezone, with_connection, without_connections, with_tech, with_availability, with_education,
  CreateEmployeeEducationParams,
}
use laburi_to.Employee.Repo.{is_filled}
use laburi_to.Employee.Steps.Presence.{StepKind, located, equipped, available, educated, has}

pub keeps_location :
    (k : StepKind) (z : String) (e : EmployeeRow)
    → has k e ≡ true
    → has k (with_timezone z e) ≡ true
unfolding with_timezone
keeps_location located z e h = refl
keeps_location equipped z e h = h
keeps_location available z e h = h
keeps_location educated z e h = h

pub keeps_connection :
    (k : StepKind) (c : ConnectionRow) (e : EmployeeRow)
    → has k e ≡ true
    → has k (with_connection c e) ≡ true
unfolding with_connection
keeps_connection located c e h = h
keeps_connection equipped c e h = h
keeps_connection available c e h = h
keeps_connection educated c e h = h

pub keeps_connections :
    (k : StepKind) (e : EmployeeRow) → has k e ≡ true → has k (without_connections e) ≡ true
unfolding without_connections
keeps_connections located e h = h
keeps_connections equipped e h = h
keeps_connections available e h = h
keeps_connections educated e h = h

pub keeps_tech :
    (k : StepKind) (row : TechRow) (e : EmployeeRow)
    → has k e ≡ true
    → has k (with_tech row e) ≡ true
unfolding with_tech
keeps_tech located row e h = h
keeps_tech equipped row e h = refl
keeps_tech available row e h = h
keeps_tech educated row e h = h

pub keeps_availability :
    (k : StepKind) (arg : _) (e : EmployeeRow)
    → has k e ≡ true
    → has k (with_availability arg e) ≡ true
unfolding with_availability
keeps_availability located arg e h = h
keeps_availability equipped arg e h = h
keeps_availability available arg e h = refl
keeps_availability educated arg e h = h

is_filled-append : {A : Type 0} (xs : List A) (x : A) → is_filled (xs ++ x ∷ []) ≡ true
is_filled-append [] x = refl
is_filled-append (y ∷ xs) x = refl

pub educates :
    (arg : CreateEmployeeEducationParams) (i : ℤ) (e : EmployeeRow)
    → has educated (with_education arg i e) ≡ true
unfolding with_education
educates arg i e = is_filled-append e.education _

pub keeps_education :
    (k : StepKind) (arg : CreateEmployeeEducationParams) (i : ℤ) (e : EmployeeRow)
    → has k e ≡ true
    → has k (with_education arg i e) ≡ true
unfolding with_education
keeps_education located arg i e h = h
keeps_education equipped arg i e h = h
keeps_education available arg i e h = h
keeps_education educated arg i e h = is_filled-append e.education _
