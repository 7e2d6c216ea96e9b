-- ===== src/Employer/Service.antt =====
-- internal/employer/service.go, over any store.
use laburi_to.Base.{ℤ}
use laburi_to.Database.Connection.{M, pure, ◌>>=◌, ◌>>◌}
use laburi_to.Recommendation.Service.{Principal, role_employer, authorize_profile_role}
use laburi_to.Employer.Models.{CreateEmployerRequest, Employer, EmployerStore, normalize}

module _ (store : EmployerStore) where
  unfoldable pub create_employer : CreateEmployerRequest → Principal → M (Unit {0})
  create_employer request principal = do
    authorize_profile_role principal.role role_employer
    store.create_employer request principal.user_id
    pure tt

  unfoldable pub get_employer : ℤ → Principal → M Employer
  get_employer user_id principal = do
    authorize_profile_role principal.role role_employer
    employer ← store.get_employer_by_user_id user_id
    pure (normalize employer)
