-- ===== src/Employer/RoundTrip.antt =====
-- An employer profile that was created is read back.
use laburi_to.Base.{
  find-append_last, ℤ, String, ◌≡◌, refl, sym, ap, ◌∙◌, subst, true, false, Option, none, some,
  List, [], ◌∷◌, ◌++◌, find, any, int_beq_iff, ◌==◌, int_eq, Bool-cases, inl, inr,
}
use laburi_to.Errors.{ok}
use laburi_to.Database.Schema.{EmployerRow, Tables}
use laburi_to.Database.Connection.{
  Keeps-if, Connection, Keeps-pure, Keeps-raise, call, called, answered, pure, on_error, ◌>>=◌,
}
use laburi_to.Database.Batches.{the_row}
use laburi_to.Database.JobPositions
use laburi_to.Database.Employers.{
  CreateEmployerParams, employer_of_user, employee_of_user, employer_refusal, new_employer,
  kept_employer, checked_employer, create_employer_row,
}
use laburi_to.Database.Outcomes.{OnOk, OnOk-of, OnOk-call, OnOk-on_error, OnOk-bind, OnOk-Keeps}
use laburi_to.Database.Triples.{Triple}
use laburi_to.Database.Total.{calm}
use laburi_to.Recommendation.Service.{
  Principal, role_employer, authorize_profile_role, role_valid, role_beq,
}
use laburi_to.Recommendation.Service.Access.{first_ok, admitted_employer}
use laburi_to.Employer.Models.{CreateEmployerRequest, Employer, normalize, present}
use laburi_to.Employer.Repo
use laburi_to.Employer.Repo.{
  repository, employer_from_database, classify_create_employer_error, absent_employer,
}
use laburi_to.Employer.Service.{create_employer, get_employer}
use laburi_to.Employer.Exclusive.{unrefused}

-- What a creation that succeeds leaves.
abbrev pub CreatedEmployer : CreateEmployerParams → Tables → Tables → Type 0
CreatedEmployer arg before t =
    (modalities : List String) × (arg.hiring_modalities ≡ some modalities)
    × (any (employer_of_user arg.user_id) before.employers ≡ false)
    × (t.employers ≡ before.employers ++ new_employer arg modalities before ∷ [])

module _ (arg : CreateEmployerParams) (before : Tables) where
  kept_employer-Created :
      (o : Option String) (modalities : List String) (n : _)
      → arg.hiring_modalities ≡ some modalities
      → employer_refusal arg.user_id before ≡ o
      → OnOk
          (λ _. CreatedEmployer arg before)
          (kept_employer o
            (new_employer arg modalities before)
            (record before { next_employer_id = n })).0
          (kept_employer o
            (new_employer arg modalities before)
            (record before { next_employer_id = n })).1
  unfolding kept_employer
  kept_employer-Created (some state) modalities n h k = tt
  kept_employer-Created none modalities n h k =
      (modalities, h, unrefused arg.user_id before k, refl)

  checked_employer-Created :
      (o : Option (List String)) (n : _)
      → arg.hiring_modalities ≡ o
      → OnOk
          (λ _. CreatedEmployer arg before)
          (checked_employer arg before o (record before { next_employer_id = n })).0
          (checked_employer arg before o (record before { next_employer_id = n })).1
  unfolding checked_employer
  checked_employer-Created none n h = tt
  checked_employer-Created (some modalities) n h = kept_employer-Created _ modalities n h refl

  create_employer_row-Created :
      OnOk
        (λ _. CreatedEmployer arg before)
        (create_employer_row arg before).0
        (create_employer_row arg before).1
  unfolding create_employer_row
  create_employer_row-Created =
      elim (Bool-cases (any (employee_of_user arg.user_id) before.employees)) [
        | inl e ↦ rw e tt
        | inr e ↦ rw e (checked_employer-Created arg.hiring_modalities _ refl)
      ]

find_last :
    (user : ℤ) (rows : List EmployerRow) (row : EmployerRow)
    → any (employer_of_user user) rows ≡ false
    → row.user_id == user ≡ true
    → find (λ e. e.user_id == user) (rows ++ row ∷ []) ≡ some row
unfolding employer_of_user
find_last user rows row h k = find-append_last (employer_of_user user) rows row h k

get_employer-found :
    (user : ℤ) (principal : Principal) (t : Tables) (row : EmployerRow)
    → principal.role ≡ role_employer
    → find (λ e. e.user_id == user) t.employers ≡ some row
    → get_employer repository user principal (calm t) ≡ (ok (employer_from_database row), calm t)
unfolding get_employer repository Repo.get_employer_by_user_id JobPositions.get_employer_by_user_id
    authorize_profile_role role_valid role_beq call called answered pure on_error ◌>>=◌ the_row
    employer_from_database normalize present
get_employer-found user principal t row role found = rw (role, found) refl

-- The columns that a request of this user writes.
abbrev columns : CreateEmployerRequest → ℤ → CreateEmployerParams
columns request user = record {
  user_id = user;
  name = request.name;
  industry = request.industry;
  location = request.location;
  hiring_modalities = request.hiring_modalities;
}

create_employer-Created :
    (request : CreateEmployerRequest) (principal : Principal) (before : Tables)
    → Triple
        (λ t. t ≡ before)
        (create_employer repository request principal)
        (OnOk (λ _. CreatedEmployer (columns request principal.user_id) before))
unfolding create_employer repository Repo.create_employer authorize_profile_role
create_employer-Created request principal before =
    let arg = columns request principal.user_id in
    let Here = λ (t : Tables). t ≡ before in
    let Made = λ (t : Tables). CreatedEmployer arg before t in
    OnOk-bind Here (λ _. Here) (λ _. Made) _ _
      (OnOk-Keeps Here _ (Keeps-if Here _ _ _ (Keeps-raise Here _) (Keeps-pure Here _)))
      (λ _.
        OnOk-bind Here (λ _. Made) (λ _. Made) _ _
          (OnOk-bind Here (λ _. Made) (λ _. Made) _ _
            (OnOk-on_error _ _ classify_create_employer_error _ (
              OnOk-call _ _ _ (λ t same.
                subst
                  (λ t'.
                    OnOk (λ _. Made) (create_employer_row arg t').0 (create_employer_row arg t').1)
                  (sym same) (create_employer_row-Created arg before))))
            (λ row. OnOk-Keeps Made _ (Keeps-pure Made _)))
          (λ employer. OnOk-Keeps Made _ (Keeps-pure Made _)))

creator_role :
    (request : CreateEmployerRequest) (principal : Principal) (c : Connection) (done : Unit {0})
    → (create_employer repository request principal c).0 ≡ ok done
    → principal.role ≡ role_employer
unfolding create_employer
creator_role request principal c done h =
    let (u, allowed, _) = first_ok _ _ c done h in admitted_employer principal.role c u allowed

-- After a creation that succeeds, the user reads an employer profile with the user's identifier and
-- the name, industry, location and hiring modalities of the request, where the reading calls do not
-- fail.
pub get-create_employer :
    (request : CreateEmployerRequest) (principal : Principal) (c : Connection) (done : Unit {0})
    → (create_employer repository request principal c).0 ≡ ok done
    → (employer : Employer) × ((get_employer repository principal.user_id principal
          (calm (create_employer repository request principal c).1.tables)).0
        ≡ ok employer)
      × (employer.user_id ≡ principal.user_id)
      × (employer.name ≡ request.name)
      × (employer.industry ≡ request.industry)
      × (employer.location ≡ request.location)
      × (employer.hiring_modalities ≡ request.hiring_modalities)
unfolding new_employer employer_from_database normalize present
get-create_employer request principal c done h =
    let (modalities, sent, absent, after) =
      OnOk-of (λ _. CreatedEmployer (columns request principal.user_id) c.tables) _ _ done
        ((create_employer-Created request principal c.tables).at c refl) h in
    let row = new_employer (columns request principal.user_id) modalities c.tables in
    (
      employer_from_database row,
      ap (λ r. r.0)
          (get_employer-found principal.user_id principal _ row
            (creator_role request principal c done h)
            (ap (find (λ e. e.user_id == principal.user_id)) after
              ∙ find_last principal.user_id c.tables.employers row absent
                  ((int_beq_iff principal.user_id principal.user_id).1 refl))),
      refl,
      refl,
      refl,
      refl,
      sym sent,
    )
