-- ===== src/Employer/Exclusive.antt =====
-- A user has at most one profile: one employer, and not also an employee.
use laburi_to.Base.{
  ℤ, String, ◌≡◌, refl, subst, true, false, Option, none, some, List, [], ◌∷◌, ◌++◌, ◌≤◌, count,
  any, any-false, any-append, count-append, int_beq_iff, ◌==◌, int_eq, arith, Bool-cases, inl, inr,
}
use laburi_to.Database.Schema.{EmployerRow, EmployeeRow, Tables}
use laburi_to.Database.Connection.{
  Keeps-if, Connection, Keeps-call, Keeps-pure, Keeps-raise, Keeps-on_error, Keeps-bind,
}
use laburi_to.Database.Employers.{
  CreateEmployerParams, employer_of_user, employee_of_user, employer_refusal, new_employer,
  kept_employer, checked_employer, create_employer_row,
}
use laburi_to.Recommendation.Service.{Principal, authorize_profile_role}
use laburi_to.Employer.Models.{CreateEmployerRequest}
use laburi_to.Employer.Repo.{repository}
use laburi_to.Employer.Repo
use laburi_to.Employer.Service.{create_employer}

pub record AreExclusive (t : Tables) : Type 0 where
  pub one_employer : (i : ℤ) → count (employer_of_user i) t.employers ≤ 1
  pub not_both :
      (i : ℤ)
      → any (employer_of_user i) t.employers ≡ true
      → any (employee_of_user i) t.employees ≡ false

one_more :
    (i : ℤ) (row : EmployerRow) (rows : List EmployerRow)
    → count (employer_of_user i) rows ≤ 1
    → count (employer_of_user row.user_id) rows ≡ 0
    → count (employer_of_user i) (rows ++ row ∷ []) ≤ 1
unfolding count employer_of_user
one_more i row rows h k = elim (Bool-cases (row.user_id == i)) [
  | inl e ↦
      (let same : row.user_id ≡ i = (int_beq_iff row.user_id i).0 e in
        let absent : count (employer_of_user i) rows ≡ 0 =
          subst (λ j. count (employer_of_user j) rows ≡ 0) same k in
        rw (count-append (employer_of_user i) rows (row ∷ [])) (ground arith))
  | inr e ↦ rw (count-append (employer_of_user i) rows (row ∷ [])) (ground arith)
]

not_both_more :
    (i : ℤ) (row : EmployerRow) (rows : List EmployerRow) (employees : List EmployeeRow)
    → (any (employer_of_user i) rows ≡ true → any (employee_of_user i) employees ≡ false)
    → any (employee_of_user row.user_id) employees ≡ false
    → any (employer_of_user i) (rows ++ row ∷ []) ≡ true
    → any (employee_of_user i) employees ≡ false
unfolding any employer_of_user
not_both_more i row rows employees h k l = elim (Bool-cases (row.user_id == i)) [
  | inl e ↦
      subst (λ j. any (employee_of_user j) employees ≡ false) ((int_beq_iff row.user_id i).0 e) k
  | inr e ↦ h (ground (arith, any-append (employer_of_user i) rows (row ∷ [])))
]

extended-AreExclusive :
    (t : Tables) (row : EmployerRow)
    → AreExclusive t
    → any (employer_of_user row.user_id) t.employers ≡ false
    → any (employee_of_user row.user_id) t.employees ≡ false
    → AreExclusive (record t { employers = t.employers ++ row ∷ [] })
extended-AreExclusive t row v k l = record {
  one_employer = λ i.
      one_more i row t.employers (v.one_employer i)
        (any-false (employer_of_user row.user_id) t.employers k);
  not_both = λ i. not_both_more i row t.employers t.employees (v.not_both i) l;
}

advanced-AreExclusive :
    (t : Tables) (n : _) → AreExclusive t → AreExclusive (record t { next_employer_id = n })
advanced-AreExclusive t n v = record { one_employer = v.one_employer; not_both = v.not_both }

kept_employer-AreExclusive :
    (o : Option String) (row : EmployerRow) (t : Tables)
    → AreExclusive t
    → (o ≡ none → any (employer_of_user row.user_id) t.employers ≡ false)
    → any (employee_of_user row.user_id) t.employees ≡ false
    → AreExclusive (kept_employer o row t).1
unfolding kept_employer
kept_employer-AreExclusive (some state) row t v k l = v
kept_employer-AreExclusive none row t v k l = extended-AreExclusive t row v (k refl) l

pub unrefused :
    (user : ℤ) (t : Tables)
    → employer_refusal user t ≡ none
    → any (employer_of_user user) t.employers ≡ false
unfolding employer_refusal
unrefused user t h = ground arith

checked_employer-AreExclusive :
    (arg : CreateEmployerParams) (before : Tables) (o : Option (List String)) (n : _)
    → AreExclusive before
    → any (employee_of_user arg.user_id) before.employees ≡ false
    → AreExclusive (checked_employer arg before o (record before { next_employer_id = n })).1
unfolding checked_employer new_employer
checked_employer-AreExclusive arg before none n v l = advanced-AreExclusive before n v
checked_employer-AreExclusive arg before (some modalities) n v l =
    kept_employer-AreExclusive _ (new_employer arg modalities before)
      (record before { next_employer_id = n }) (advanced-AreExclusive before n v)
      (unrefused arg.user_id before) l

create_employer_row-AreExclusive :
    (arg : CreateEmployerParams) (t : Tables)
    → AreExclusive t
    → AreExclusive (create_employer_row arg t).1
unfolding create_employer_row
create_employer_row-AreExclusive arg t v =
    elim (Bool-cases (any (employee_of_user arg.user_id) t.employees)) [
      | inl e ↦ rw e (advanced-AreExclusive t _ v)
      | inr e ↦ rw e (checked_employer-AreExclusive arg t arg.hiring_modalities _ v e)
    ]

-- Where every user has at most one employer profile, and no user both an employer and an employee
-- profile, this is so after any request to create an employer, whoever asks and whichever calls of
-- the database fail.
pub create_employer-AreExclusive :
    (request : CreateEmployerRequest) (principal : Principal) (c : Connection)
    → AreExclusive c.tables
    → AreExclusive (create_employer repository request principal c).1.tables
unfolding create_employer repository Repo.create_employer authorize_profile_role
create_employer-AreExclusive request principal c v =
    (Keeps-bind AreExclusive _ _
        (Keeps-if AreExclusive _ _ _ (Keeps-raise AreExclusive _) (Keeps-pure AreExclusive _))
        (λ _.
          Keeps-bind AreExclusive _ _
            (Keeps-bind AreExclusive _ _
              (Keeps-on_error AreExclusive _ _
                (Keeps-call AreExclusive _ (create_employer_row-AreExclusive _)))
              (λ row. Keeps-pure AreExclusive _))
            (λ employer. Keeps-pure AreExclusive _))).at
      c v
