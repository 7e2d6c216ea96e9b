-- ===== src/Employee/Access/Allowed.antt =====
-- Who is authorized to read a profile, with the repositories behind the ports.
use laburi_to.Base.{
  ℤ, ◌≡◌, refl, Bool, true, false, Option, none, some, find, ◌==◌, int_eq, int_beq_iff, ◌⊎◌, inl,
  inr, ◌∙◌, sym, ap, subst, Bool-cases, if◌then◌else◌,
}
use laburi_to.Errors.{Result, ok, err, sentinel, profile_access_forbidden, is}
use laburi_to.Database.Schema.{EmployeeRow, Tables}
use laburi_to.Database.Connection.{
  Connection, M, call, called, answered, pure, raise, on_error, translated, continue, ◌>>=◌,
}
use laburi_to.Database.Batches.{the_row}
use laburi_to.Database.Total.{calm}
use laburi_to.Recommendation.Listings.{employer_has_current_recommendation}
use laburi_to.Recommendation.Owners.{called-ok, the_row-ok}
use laburi_to.Recommendation.Service.{UserRole, role_employee, role_employer, other, Principal}
use laburi_to.Recommendation.Service.Access.{first_ok}
use laburi_to.Employee.Models.{EmployeeOwner, EmployeeStore}
use laburi_to.Employee.Repo.{
  get_employee_by_id, get_employee_row, missing_employee, is_profile_complete, employee_from_row,
}
use laburi_to.Employee.Access.{
  ProfileViewer, hide_absence, authorize_own_profile, authorize_recommended_profile, authorize_as,
  authorize_profile_access,
}

-- A store whose owners and completeness are those of the database.
abbrev pub over_database : EmployeeStore → EmployeeStore
over_database store = record store {
  get_employee_by_id = get_employee_by_id;
  is_profile_complete = is_profile_complete;
}

-- The row of the employee has this user.
abbrev pub is_of_user : ℤ → Option EmployeeRow → Bool
is_of_user user none = false
is_of_user user (some row) = row.user_id == user

abbrev pub IsOwner : ℤ → ℤ → Tables → Type 0
IsOwner user i t =
    (row : EmployeeRow) × (find (λ e. e.id == i) t.employees ≡ some row) × (row.user_id ≡ user)

translated_ok :
    {A : Type 0} (f : _) (r : Result A × Connection) (a : A)
    → (translated f r).0 ≡ ok a
    → r.0 ≡ ok a
translated_ok f (ok b, c) a h = h
translated_ok f (err e, c) a h = cc

module _ (store : EmployeeStore) (i : ℤ) (principal : Principal) (c : Connection) where
  own_allowed :
      (viewer : ProfileViewer)
      → (authorize_own_profile
          (over_database store)
          employer_has_current_recommendation
          i
          principal
          c).0
        ≡ ok viewer
      → IsOwner principal.user_id i c.tables
  unfolding authorize_own_profile get_employee_by_id on_error call get_employee_row
      employee_from_row pure raise
  own_allowed viewer h =
      let (owner, found, last) = first_ok _ _ c viewer h in
      let (row, read, made) =
        first_ok _ (λ (row : EmployeeRow). pure (employee_from_row row)) c owner
          (translated_ok hide_absence _ owner found) in
      let same : row.user_id ≡ owner.user_id = cc in
      (
        row,
        the_row-ok _ row
            (called-ok missing_employee (get_employee_row i) c.tables c.faults row read),
        elim (Bool-cases (owner.user_id == principal.user_id)) [
          | inl e ↦ same ∙ (int_beq_iff owner.user_id principal.user_id).0 e
          | inr e ↦ cc
        ],
      )

  recommended_allowed :
      (viewer : ProfileViewer)
      → (authorize_recommended_profile
          (over_database store)
          employer_has_current_recommendation
          i
          principal
          c).0
        ≡ ok viewer
      → ((employer_has_current_recommendation i principal.user_id c).0 ≡ ok true)
        × (viewer.is_owner ≡ false)
  unfolding authorize_recommended_profile pure raise
  recommended_allowed viewer h =
      let (allowed, read, last) = first_ok _ _ c viewer h in decided allowed read last
    where
      decided :
          (allowed : Bool)
          → (employer_has_current_recommendation i principal.user_id c).0 ≡ ok allowed
          → ((if allowed
                then pure (record { is_owner = false })
                else raise (sentinel profile_access_forbidden))
              (employer_has_current_recommendation i principal.user_id c).1).0
            ≡ ok viewer
          → ((employer_has_current_recommendation i principal.user_id c).0 ≡ ok true)
            × (viewer.is_owner ≡ false)
      decided true read last =
          let e : record { is_owner = false } ≡ viewer = cc in (read, sym (ap (λ v. v.is_owner) e))
      decided false read last = cc

-- The principal is the employee, or an employer who is told to have a current recommendation for that
-- employee; only the first is the owner.
abbrev pub MayRead : ℤ → Principal → Connection → ProfileViewer → Type 0
MayRead i principal c viewer =
    ((principal.role ≡ role_employee) × IsOwner principal.user_id i c.tables)
    ⊎ ((principal.role ≡ role_employer)
        × ((employer_has_current_recommendation i principal.user_id c).0 ≡ ok true)
        × (viewer.is_owner ≡ false))

allowed_as :
    (store : EmployeeStore) (role : UserRole) (i : ℤ) (principal : Principal) (c : Connection)
    (viewer : ProfileViewer)
    → (authorize_as (over_database store) employer_has_current_recommendation role i principal c).0
      ≡ ok viewer
    → ((role ≡ role_employee) × IsOwner principal.user_id i c.tables)
      ⊎ ((role ≡ role_employer)
          × ((employer_has_current_recommendation i principal.user_id c).0 ≡ ok true)
          × (viewer.is_owner ≡ false))
unfolding authorize_as raise
allowed_as store role_employee i principal c viewer h =
    inl (refl, own_allowed store i principal c viewer h)
allowed_as store role_employer i principal c viewer h =
    let (allowed, stranger) = recommended_allowed store i principal c viewer h in
    inr (refl, allowed, stranger)
allowed_as store (other _) i principal c viewer h = cc

pub authorize_profile_access-MayRead :
    (store : EmployeeStore) (i : ℤ) (principal : Principal) (c : Connection)
    (viewer : ProfileViewer)
    → (authorize_profile_access
        (over_database store)
        employer_has_current_recommendation
        i
        principal
        c).0
      ≡ ok viewer
    → MayRead i principal c viewer
unfolding authorize_profile_access
authorize_profile_access-MayRead store i principal c viewer h =
    allowed_as store principal.role i principal c viewer h

module _ (store : EmployeeStore) (access : ℤ → ℤ → M Bool) (i : ℤ) (principal : Principal)
    (t : Tables) where
  denied_row :
      (o : Option EmployeeRow)
      → is_of_user principal.user_id o ≡ false
      → continue {B = ProfileViewer}
          (λ (owner : EmployeeOwner).
            if owner.user_id == principal.user_id
            then pure (record { is_owner = true })
            else raise (sentinel profile_access_forbidden))
          (translated hide_absence (
            continue
              (λ (row : EmployeeRow). pure (employee_from_row row))
              (translated missing_employee (the_row o, calm t))))
        ≡ (err (sentinel profile_access_forbidden), calm t)
  unfolding the_row employee_from_row hide_absence missing_employee is pure raise
  denied_row none h = refl
  denied_row (some row) h = rw h refl

  -- An employee who is not there is answered as one who is another user's.
  pub authorize_profile_access-denied :
      principal.role ≡ role_employee
      → is_of_user principal.user_id (find (λ e. e.id == i) t.employees) ≡ false
      → authorize_profile_access (over_database store) access i principal (calm t)
        ≡ (err (sentinel profile_access_forbidden), calm t)
  unfolding authorize_profile_access authorize_as authorize_own_profile get_employee_by_id
      get_employee_row on_error call called answered ◌>>=◌
  authorize_profile_access-denied role h =
      subst
        (λ r.
          authorize_as (over_database store) access r i principal (calm t)
          ≡ (err (sentinel profile_access_forbidden), calm t))
        (sym role) (denied_row (find (λ e. e.id == i) t.employees) h)
