-- ===== src/Recommendation/Owners.antt =====
-- EmployeeOwner and JobPositionOwner of internal/recommendation/repo.go: who owns a subject, and
-- whom the queries therefore answer.
use laburi_to.Base.{
  ℤ, String, ◌≡◌, refl, ◌∙◌, Option, none, some, List, [], ◌∷◌, find, ◌==◌, int_eq, ◌&&◌,
}
use laburi_to.Errors.{GoError, Result, ok, err}
use laburi_to.Database.Schema.{Tables, EmployeeRow, JobPositionRow, EmployerRow}
use laburi_to.Database.Connection.{
  Connection, Query, M, call, called, answered, on_error, translated, pure, continue, ◌>>=◌,
}
use laburi_to.Database.Batches.{the_row}
use laburi_to.Database.Profiles.{
  get_employee_owner, get_job_position_owner, owner_of, employer_owner, position_owner, is_active,
}
use laburi_to.Recommendation.Candidates.{missing_subject}
use laburi_to.Recommendation.Models.{Page}
use laburi_to.Recommendation.Service.{
  SubjectOwnership, JobPositionOwner, RecommendationStore, Principal, role_employee, role_employer,
  RecommendationsResponse, job_recommendations, employee_recommendations,
}
use laburi_to.Recommendation.Service.Access.{
  job_recommendations-authorized, employee_recommendations-authorized,
}

unfoldable pub employee_owner : ℤ → M ℤ
employee_owner i = on_error missing_subject (call (get_employee_owner i))

owner_row : ℤ × ℤ → JobPositionOwner
owner_row (employer_id, user_id) = record { employer_id = employer_id; user_id = user_id }

unfoldable pub job_position_owner : ℤ → M JobPositionOwner
unfolding owner_row
job_position_owner i = do
  row ← on_error missing_subject (call (get_job_position_owner i))
  pure (owner_row row)

unfoldable pub repository_ownership : SubjectOwnership
unfolding employee_owner job_position_owner
repository_ownership = record {
  employee_owner = employee_owner;
  job_position_owner = job_position_owner;
}

-- What a call that succeeds returns is what the query returns on the tables.
translated-ok :
    {A : Type 0} (f : GoError → GoError) (r : Result A) (c : Connection) (a : A)
    → (translated f (r, c)).0 ≡ ok a
    → r ≡ ok a
translated-ok f (ok b) c a h = h
translated-ok f (err e) c a h = cc

pub called-ok :
    {A : Type 0} (f : GoError → GoError) (q : Query A) (t : Tables) (faults : List (Option String))
    (a : A)
    → (translated f (called q t faults)).0 ≡ ok a
    → (q t).0 ≡ ok a
unfolding called answered
called-ok f q t [] a h =
    let (r, t') = q t in translated-ok f r (record { tables = t'; faults = [] }) a h
called-ok f q t (none ∷ rest) a h =
    let (r, t') = q t in translated-ok f r (record { tables = t'; faults = rest }) a h
called-ok f q t (some reason ∷ rest) a h = cc

pub the_row-ok : {A : Type 0} (o : Option A) (a : A) → the_row o ≡ ok a → o ≡ some a
unfolding the_row
the_row-ok none a h = cc
the_row-ok (some b) a h = cc

owner_of-row :
    (o : Option EmployeeRow) (u : ℤ)
    → owner_of o ≡ some u
    → (row : EmployeeRow) × (o ≡ some row) × (row.user_id ≡ u)
unfolding owner_of
owner_of-row none u h = cc
owner_of-row (some row) u h = (row, refl, cc)

-- With the owners that the database names, the recommendations of an employee are answered only to
-- a principal with role employee who is the user of the row of that employee.
pub job_recommendations-owner :
    {I J : Type 0} (store : RecommendationStore I J) (employee_id : ℤ) (page : Page)
    (principal : Principal) (c : Connection) (response : RecommendationsResponse I)
    → (job_recommendations store repository_ownership employee_id page principal c).0 ≡ ok response
    → (principal.role ≡ role_employee)
      × (row : EmployeeRow) × (find (λ e. e.id == employee_id) c.tables.employees ≡ some row)
      × (row.user_id ≡ principal.user_id)
unfolding repository_ownership employee_owner on_error call get_employee_owner
job_recommendations-owner store employee_id page principal c response h =
    let (role, owned) =
      job_recommendations-authorized store repository_ownership employee_id page principal c
        response h in
    let (row, found, same) =
      owner_of-row (find (λ e. e.id == employee_id) c.tables.employees) principal.user_id (
        the_row-ok _ principal.user_id (
          called-ok missing_subject (get_employee_owner employee_id) c.tables c.faults
            principal.user_id owned)) in
    (role, row, found, same)

employer_owner-row :
    (o : Option EmployerRow) (a b : ℤ)
    → employer_owner o ≡ some (a, b)
    → (row : EmployerRow) × (o ≡ some row) × (row.user_id ≡ b)
unfolding employer_owner
employer_owner-row none a b h = cc
employer_owner-row (some row) a b h = (row, refl, cc)

position_owner-row :
    (employers : List EmployerRow) (o : Option JobPositionRow) (a b : ℤ)
    → position_owner employers o ≡ some (a, b)
    → (position : JobPositionRow) × (employer : EmployerRow) × (o ≡ some position)
      × (find (λ e. e.id == position.employer_id) employers ≡ some employer)
      × (employer.user_id ≡ b)
unfolding position_owner
position_owner-row employers none a b h = cc
position_owner-row employers (some position) a b h =
    let (employer, found, same) =
      employer_owner-row (find (λ e. e.id == position.employer_id) employers) a b h in
    (position, employer, refl, found, same)

job_position_owner-read :
    (i : ℤ) (c : Connection) (owner : JobPositionOwner)
    → (job_position_owner i c).0 ≡ ok owner
    → (pair : ℤ × ℤ) × ((on_error missing_subject (call (get_job_position_owner i)) c).0 ≡ ok pair)
      × (pair.1 ≡ owner.user_id)
unfolding job_position_owner ◌>>=◌ pure owner_row
job_position_owner-read i c owner h =
    read (on_error missing_subject (call (get_job_position_owner i)) c) h
  where
    read :
        (r : Result (ℤ × ℤ) × Connection)
        → (continue (λ row. pure (owner_row row)) r).0 ≡ ok owner
        → (pair : ℤ × ℤ) × (r.0 ≡ ok pair) × (pair.1 ≡ owner.user_id)
    read (ok (a, b), c') e = ((a, b), refl, cc)
    read (err _, c') e = cc

-- With the owners that the database names, the candidates for a job position are answered only to a
-- principal with role employer who is the user of the employer of that position, and only while the
-- position is not deleted.
pub employee_recommendations-owner :
    {I J : Type 0} (store : RecommendationStore I J) (job_position_id : ℤ) (page : Page)
    (principal : Principal) (c : Connection) (response : RecommendationsResponse J)
    → (employee_recommendations store repository_ownership job_position_id page principal c).0
      ≡ ok response
    → (principal.role ≡ role_employer)
      × (position : JobPositionRow) × (employer : EmployerRow) × (find
            (λ j. j.id == job_position_id && is_active j)
            c.tables.job_positions
          ≡ some position)
      × (find (λ e. e.id == position.employer_id) c.tables.employers ≡ some employer)
      × (employer.user_id ≡ principal.user_id)
unfolding repository_ownership on_error call get_job_position_owner
employee_recommendations-owner store job_position_id page principal c response h =
    let (role, owner, read, same) =
      employee_recommendations-authorized store repository_ownership job_position_id page principal
        c response h in
    let ((a, b), called_ok, user) = job_position_owner-read job_position_id c owner read in
    let (position, employer, found, employed, equal) =
      position_owner-row c.tables.employers
        (find (λ j. j.id == job_position_id && is_active j) c.tables.job_positions) a b
        (the_row-ok _ (a, b)
          (called-ok missing_subject (get_job_position_owner job_position_id) c.tables c.faults
            (a, b) called_ok)) in
    (role, position, employer, found, employed, equal ∙ user ∙ same)
