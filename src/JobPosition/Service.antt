-- ===== src/JobPosition/Service.antt =====
-- internal/jobposition/service.go and events.go, over any store and any publisher. `none` is a nil
-- publisher, and what a publisher answers is discarded.
pub mod Denied
pub mod Owned
pub mod Deletion
pub mod RoundTrip
pub mod System
use laburi_to.Base.{ℤ, Option, none, some, List, map, ◌==◌, int_eq, if◌then◌else◌}
use laburi_to.Errors.{Result, ok, err, sentinel, job_position_forbidden}
use laburi_to.Database.Connection.{Connection, M, pure, raise, ◌>>=◌, ◌>>◌}
use laburi_to.Recommendation.Publisher.{World, Request}
use laburi_to.Recommendation.Service.{Principal, role_employer, authorize_profile_role}
use laburi_to.JobPosition.Models.{
  CreateJobPositionRequest, JobPosition, JobPositionStore, normalize,
}

-- NoopEventPublisher
unfoldable pub noop_publisher : {Q : Type 0} → ℤ → Request Q
noop_publisher i w = (none, w)

unfoldable pub publish : {Q : Type 0} → Option (ℤ → Request Q) → ℤ → World Q → World Q
publish none i w = w
publish (some job_position_published) i w = (job_position_published i w).1

module _ {Q : Type 0} (publisher : Option (ℤ → Request Q)) where
  -- `position.Normalize()`, and the publication
  unfoldable pub published : Q → Result JobPosition × Connection → Result JobPosition × World Q
  unfolding publish
  published q (err e, c) = (err e, record { connection = c; queue = q })
  published q (ok position, c) = (
    ok (normalize position),
    publish publisher position.id (record { connection = c; queue = q }),
  )

module _ (store : JobPositionStore) where
  unfoldable pub resolve_employer_id : Principal → M ℤ
  resolve_employer_id principal = do
    authorize_profile_role principal.role role_employer
    store.get_employer_id_by_user_id principal.user_id

  unfoldable pub resolve_owned_collection : ℤ → Principal → M ℤ
  unfolding resolve_employer_id
  resolve_owned_collection employer_id principal = do
    own ← resolve_employer_id principal
    if own == employer_id then pure own else raise (sentinel job_position_forbidden)

  unfoldable pub resolve_owned_position : ℤ → Principal → M JobPosition
  unfolding resolve_employer_id
  resolve_owned_position i principal = do
    own ← resolve_employer_id principal
    position ← store.get_active_job_position_by_id i
    if position.employer_id == own then pure position else raise (sentinel job_position_forbidden)

  unfoldable pub list_job_positions : ℤ → Principal → M (List JobPosition)
  unfolding resolve_owned_collection
  list_job_positions employer_id principal = do
    own ← resolve_owned_collection employer_id principal
    positions ← store.list_active_job_positions_by_employer own
    pure (map normalize positions)

  unfoldable pub get_job_position : ℤ → Principal → M JobPosition
  unfolding resolve_owned_position
  get_job_position i principal = do
    position ← resolve_owned_position i principal
    pure (normalize position)

  unfoldable pub delete_job_position : ℤ → Principal → M (Unit {0})
  unfolding resolve_owned_position
  delete_job_position i principal = do
    resolve_owned_position i principal
    store.soft_delete_job_position i

  -- The steps of a creation before the publication.
  unfoldable pub stored_position : ℤ → CreateJobPositionRequest → Principal → M JobPosition
  unfolding resolve_owned_collection
  stored_position employer_id request principal = do
    own ← resolve_owned_collection employer_id principal
    store.create_job_position own request

  -- The steps of an edit before the publication.
  unfoldable pub edited_position : ℤ → CreateJobPositionRequest → Principal → M JobPosition
  unfolding resolve_owned_position
  edited_position i request principal = do
    resolve_owned_position i principal
    store.update_active_job_position i request

  module _ {Q : Type 0} (publisher : Option (ℤ → Request Q)) where
    unfoldable pub create_job_position :
        ℤ → CreateJobPositionRequest → Principal → World Q → Result JobPosition × World Q
    unfolding published stored_position
    create_job_position employer_id request principal w =
        published publisher w.queue (stored_position employer_id request principal w.connection)

    unfoldable pub update_job_position :
        ℤ → CreateJobPositionRequest → Principal → World Q → Result JobPosition × World Q
    unfolding published edited_position
    update_job_position i request principal w =
        published publisher w.queue (edited_position i request principal w.connection)
