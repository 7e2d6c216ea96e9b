-- ===== src/Recommendation/Service/Access.antt =====
-- Who gets an answer from the queries.
use laburi_to.Base.{
  not, ◌||◌, subst, ap, ◌∙◌, ℤ, ◌≡◌, refl, Bool-cases, inl, inr, ◌==◌, int_eq, int_beq_iff, not,
  ◌∙◌, subst, ap,
}
use laburi_to.Errors.{Result, ok, err}
use laburi_to.Database.Connection.{Connection, M, pure, raise, ◌>>=◌, continue}
use laburi_to.Recommendation.Models.{Page}
use laburi_to.Recommendation.Service.{
  UserRole, role_employee, role_employer, other, Principal, role_valid, role_beq,
  authorize_profile_role, owned_by, JobPositionOwner, RecommendationStore, SubjectOwnership,
  RecommendationsResponse, authorize_employee, authorize_job_position, job_recommendations,
  employee_recommendations,
}

admitted_role :
    (role : UserRole) (c : Connection) (r : Unit {0})
    → (authorize_profile_role role role_employee c).0 ≡ ok r
    → role ≡ role_employee
unfolding authorize_profile_role role_valid role_beq pure raise
admitted_role role_employee c r h = refl
admitted_role role_employer c r h = cc
admitted_role (other _) c r h = cc

pub admitted_employer :
    (role : UserRole) (c : Connection) (r : Unit {0})
    → (authorize_profile_role role role_employer c).0 ≡ ok r
    → role ≡ role_employer
unfolding authorize_profile_role role_valid role_beq pure raise
admitted_employer role_employee c r h = cc
admitted_employer role_employer c r h = refl
admitted_employer (other _) c r h = cc

-- A computation that begins with another succeeds only where the other did.
pub first_ok :
    {A B : Type 0} (m : M A) (k : A → M B) (c : Connection) (b : B)
    → ((m >>= k) c).0 ≡ ok b
    → (a : A) × ((m c).0 ≡ ok a) × ((k a (m c).1).0 ≡ ok b)
unfolding ◌>>=◌
first_ok m k c b h = continued (m c) h
  where
    continued :
        (s : Result _ × Connection)
        → (continue k s).0 ≡ ok b
        → (a : _) × (s.0 ≡ ok a) × ((k a s.1).0 ≡ ok b)
    continued (ok a, c') e = (a, refl, e)
    continued (err _, c') e = cc

owner_matches :
    (principal : Principal) (i : ℤ) (c : Connection) (r : Unit {0})
    → (owned_by principal i c).0 ≡ ok r
    → i ≡ principal.user_id
unfolding owned_by pure raise
owner_matches principal i c r h = elim (Bool-cases (i == principal.user_id)) [
  | inl e ↦ (int_beq_iff i principal.user_id).0 e
  | inr e ↦ cc
]

pub role_read :
    (role profile_type : UserRole) (c : Connection)
    → (authorize_profile_role role profile_type c).1 ≡ c
unfolding authorize_profile_role pure raise
role_read role profile_type c =
    elim (Bool-cases (
      not (role_valid role) || not (role_valid profile_type) || not (role_beq role profile_type))) [
        | inl e ↦ rw e refl
        | inr e ↦ rw e refl
      ]

-- A principal with the role passes on to the check of the owner.
owner_checked :
    {A : Type 0} (profile_type : UserRole) (owner : M A) (user_of : A → ℤ) (principal : Principal)
    (c : Connection) (r : Unit {0})
    → ((authorize_profile_role principal.role profile_type >>= λ _.
          owner >>= λ a. owned_by principal (user_of a))
        c).0
      ≡ ok r
    → ((u : Unit {0}) × ((authorize_profile_role principal.role profile_type c).0 ≡ ok u))
      × (a : A) × ((owner c).0 ≡ ok a)
      × (user_of a ≡ principal.user_id)
owner_checked profile_type owner user_of principal c r h =
    let (u, role, next) = first_ok _ _ c r h in
    let (a, found, last) = first_ok owner _ _ r next in
    (
      (u, role),
      a,
      subst (λ c'. (owner c').0 ≡ ok a) (role_read principal.role profile_type c) found,
      owner_matches principal (user_of a) _ r last,
    )

module _ {I J : Type 0} (store : RecommendationStore I J) (ownership : SubjectOwnership) where
  -- The recommendations of an employee are answered only to a principal whose role is employee and
  -- whose user the database names as the owner of that employee.
  pub job_recommendations-authorized :
      (employee_id : ℤ) (page : Page) (principal : Principal) (c : Connection)
      (response : RecommendationsResponse I)
      → (job_recommendations store ownership employee_id page principal c).0 ≡ ok response
      → (principal.role ≡ role_employee)
        × ((ownership.employee_owner employee_id c).0 ≡ ok principal.user_id)
  unfolding job_recommendations authorize_employee
  job_recommendations-authorized employee_id page principal c response h =
      let (_, allowed, _) = first_ok _ _ c response h in
      let ((u, role), owner, found, same) =
        owner_checked role_employee (ownership.employee_owner employee_id) (λ i. i) principal c _
          allowed in
      (admitted_role principal.role c u role, found ∙ ap ok same)

  -- The candidates for a job position are answered only to a principal whose role is employer and
  -- whose user the database names as the owner of that position.
  pub employee_recommendations-authorized :
      (job_position_id : ℤ) (page : Page) (principal : Principal) (c : Connection)
      (response : RecommendationsResponse J)
      → (employee_recommendations store ownership job_position_id page principal c).0 ≡ ok response
      → (principal.role ≡ role_employer)
        × (owner : JobPositionOwner) × ((ownership.job_position_owner job_position_id c).0
            ≡ ok owner)
        × (owner.user_id ≡ principal.user_id)
  unfolding employee_recommendations authorize_job_position
  employee_recommendations-authorized job_position_id page principal c response h =
      let (_, allowed, _) = first_ok _ _ c response h in
      let ((u, role), owner, found, same) =
        owner_checked role_employer (ownership.job_position_owner job_position_id) (λ o. o.user_id)
          principal c _ allowed in
      (admitted_employer principal.role c u role, owner, found, same)
