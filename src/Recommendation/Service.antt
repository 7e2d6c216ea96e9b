-- ===== src/Recommendation/Service.antt =====
-- internal/recommendation/service.go, with store.go's ports, AuthorizeProfileRole of
-- internal/user/models.go and the principal of internal/auth/jwt.go. `I` and `J` are the types of
-- the recommended positions and employees, which this code passes on unread.
pub mod Access
use laburi_to.Base.{
  ℤ, pos, String, Bool, true, false, if◌then◌else◌, ◌||◌, not, ◌==◌, int_eq, string_eq, string_eq,
  List, [],
}
use laburi_to.Errors.{
  Result, ok, err, is, sentinel, no_current_batch, profile_role_forbidden,
  recommendations_forbidden,
}
use laburi_to.Database.Connection.{Connection, M, pure, raise, ◌>>=◌, ◌>>◌}
use laburi_to.Recommendation.Models.{
  BatchStatus, Page, PageInfo, QueryStatus, status_none, query_status_from,
}

pub data UserRole : Type 0 where
  role_employee role_employer : UserRole
  other : String → UserRole

unfoldable pub role_valid : UserRole → Bool
role_valid role_employee = true
role_valid role_employer = true
role_valid (other _) = false

pub record Principal : Type 0 where
  pub user_id : ℤ
  pub role : UserRole

unfoldable pub role_beq : UserRole → UserRole → Bool
role_beq role_employee role_employee = true
role_beq role_employer role_employer = true
role_beq (other a) (other b) = a == b
role_beq _ _ = false

unfoldable pub authorize_profile_role : UserRole → UserRole → M (Unit {0})
unfolding role_valid role_beq
authorize_profile_role role profile_type =
    if not (role_valid role) || not (role_valid profile_type) || not (role_beq role profile_type)
    then raise (sentinel profile_role_forbidden)
    else pure tt

-- JobRecommendations and EmployeeRecommendations: a slice, and the size of the whole set
pub record RecommendationSet (I : Type 0) : Type 0 where
  pub status : BatchStatus
  pub items : List I
  pub total : ℤ

pub record JobPositionOwner : Type 0 where
  pub employer_id : ℤ
  pub user_id : ℤ

-- The operations of RecommendationStore that the queries use.
pub record RecommendationStore (I J : Type 0) : Type 0 where
  pub job_recommendations_for_employee : ℤ → Page → M (RecommendationSet I)
  pub employee_recommendations_for_job_position : ℤ → Page → M (RecommendationSet J)

pub record SubjectOwnership : Type 0 where
  pub employee_owner : ℤ → M ℤ
  pub job_position_owner : ℤ → M JobPositionOwner

-- JobRecommendationsResponse and EmployeeRecommendationsResponse
pub record RecommendationsResponse (I : Type 0) : Type 0 where
  pub status : QueryStatus
  pub items : List I
  pub page : PageInfo

unfoldable pub page_info : Page → ℤ → PageInfo
page_info page total = record { limit = page.limit; offset = page.offset; total = total }

owned_by : Principal → ℤ → M (Unit {0})
owned_by principal user_id =
    if user_id == principal.user_id then pure tt else raise (sentinel recommendations_forbidden)

module _ {I : Type 0} where
  -- What is answered for the result of the store.
  unfoldable pub response_from :
      Page
      → Result (RecommendationSet I) × Connection
      → Result (RecommendationsResponse I) × Connection
  unfolding page_info
  response_from page (err e, c) =
      if is e no_current_batch
      then (ok (record { status = status_none; items = []; page = page_info page (pos 0) }), c)
      else (err e, c)
  response_from page (ok result, c) = (
    ok (record {
      status = query_status_from result.status;
      items = result.items;
      page = page_info page result.total;
    }),
    c,
  )

  unfoldable pub answer : Page → M (RecommendationSet I) → M (RecommendationsResponse I)
  unfolding response_from
  answer page m c = response_from page (m c)

module _ {I J : Type 0} (store : RecommendationStore I J) (ownership : SubjectOwnership) where
  unfoldable pub authorize_employee : ℤ → Principal → M (Unit {0})
  unfolding owned_by
  authorize_employee employee_id principal = do
    authorize_profile_role principal.role role_employee
    owner ← ownership.employee_owner employee_id
    owned_by principal owner

  unfoldable pub authorize_job_position : ℤ → Principal → M (Unit {0})
  unfolding owned_by
  authorize_job_position job_position_id principal = do
    authorize_profile_role principal.role role_employer
    owner ← ownership.job_position_owner job_position_id
    owned_by principal owner.user_id

  unfoldable pub job_recommendations : ℤ → Page → Principal → M (RecommendationsResponse I)
  unfolding authorize_employee answer
  job_recommendations employee_id page principal = do
    authorize_employee employee_id principal
    answer page (store.job_recommendations_for_employee employee_id page)

  unfoldable pub employee_recommendations : ℤ → Page → Principal → M (RecommendationsResponse J)
  unfolding authorize_job_position answer
  employee_recommendations job_position_id page principal = do
    authorize_job_position job_position_id principal
    answer page (store.employee_recommendations_for_job_position job_position_id page)
