-- ===== src/JobPosition/Service/Denied.antt =====
-- Edits and deletions that fail.
use laburi_to.Base.{ℤ, String, ◌≡◌, refl, Bool, Option, none, some, int_eq}
use laburi_to.Errors.{GoError, Result, ok, err}
use laburi_to.Database.Schema.{Tables, JobPositionRow}
use laburi_to.Database.Connection.{
  Keeps-if, Connection, Keeps, Keeps-call, Keeps-pure, Keeps-raise, Keeps-on_error, Keeps-bind,
  pure,
}
use laburi_to.Database.Triples.{
  Triple, OnError, Triple-call, Triple-on_error, Triple-bind, Triple-then,
}
use laburi_to.Database.JobPositions.{
  PositionColumns, update_active_job_position_row, updated_position, changed,
  soft_delete_job_position_row, deleted_position, get_employer_by_user_id,
  get_active_job_position_row,
}
use laburi_to.Recommendation.Publisher.{World, Request}
use laburi_to.Recommendation.Service.{Principal, authorize_profile_role}
use laburi_to.JobPosition.Models.{JobPosition, CreateJobPositionRequest}
use laburi_to.JobPosition.Repo.{
  repository, get_employer_id_by_user_id, get_active_job_position_by_id, validate_timezone,
  update_active_job_position, soft_delete_job_position, timezone_exists,
}
use laburi_to.JobPosition.Service.{
  resolve_employer_id, resolve_owned_collection, resolve_owned_position, edited_position,
  delete_job_position, published, update_job_position,
}

module _ (P : Tables → Type 0) where
  pub resolve_employer_id-Keeps :
      (timezones : String → Bool) (principal : Principal)
      → Keeps P (resolve_employer_id (repository timezones) principal)
  unfolding resolve_employer_id authorize_profile_role repository get_employer_id_by_user_id
      get_employer_by_user_id
  resolve_employer_id-Keeps timezones principal =
      Keeps-bind P _ _ (Keeps-if P _ _ _ (Keeps-raise P _) (Keeps-pure P _)) (λ _.
        Keeps-bind P _ _ (Keeps-on_error P _ _ (Keeps-call P _ (λ t h. h))) (λ row. Keeps-pure P _))

  pub resolve_owned_collection-Keeps :
      (timezones : String → Bool) (employer_id : ℤ) (principal : Principal)
      → Keeps P (resolve_owned_collection (repository timezones) employer_id principal)
  unfolding resolve_owned_collection
  resolve_owned_collection-Keeps timezones employer_id principal =
      Keeps-bind P _ _ (resolve_employer_id-Keeps timezones principal)
        (λ own. Keeps-if P _ _ _ (Keeps-pure P _) (Keeps-raise P _))

  pub resolve_owned_position-Keeps :
      (timezones : String → Bool) (i : ℤ) (principal : Principal)
      → Keeps P (resolve_owned_position (repository timezones) i principal)
  unfolding resolve_owned_position repository get_active_job_position_by_id
      get_active_job_position_row
  resolve_owned_position-Keeps timezones i principal =
      Keeps-bind P _ _ (resolve_employer_id-Keeps timezones principal) (λ own.
        Keeps-bind P _ _
          (Keeps-bind P _ _ (Keeps-on_error P _ _ (Keeps-call P _ (λ t h. h)))
            (λ row. Keeps-pure P _))
          (λ position. Keeps-if P _ _ _ (Keeps-pure P _) (Keeps-raise P _)))

  pub validate_timezone-Keeps :
      (timezones : String → Bool) (timezone : String)
      → Keeps P (validate_timezone timezones timezone)
  unfolding validate_timezone timezone_exists
  validate_timezone-Keeps timezones timezone =
      Keeps-bind P _ _ (Keeps-call P _ (λ t h. h))
        (λ exists. Keeps-if P _ _ _ (Keeps-pure P _) (Keeps-raise P _))

changed-err :
    (i : ℤ) (o : Option String) (row : JobPositionRow) (t : Tables) (e : GoError)
    → (changed i o row t).0 ≡ err e
    → (changed i o row t).1 ≡ t
unfolding changed
changed-err i (some state) row t e h = refl
changed-err i none row t e h = cc

updated_position-err :
    (i : ℤ) (arg : PositionColumns) (resources : Option _) (o : Option JobPositionRow) (t : Tables)
    (e : GoError)
    → (updated_position i arg resources o t).0 ≡ err e
    → (updated_position i arg resources o t).1 ≡ t
unfolding updated_position
updated_position-err i arg resources none t e h = refl
updated_position-err i arg none (some row) t e h = refl
updated_position-err i arg (some resources) (some row) t e h = changed-err i _ _ t e h

deleted_position-err :
    (i : ℤ) (o : Option JobPositionRow) (t : Tables) (e : GoError)
    → (deleted_position i o t).0 ≡ err e
    → (deleted_position i o t).1 ≡ t
unfolding deleted_position
deleted_position-err i none t e h = refl
deleted_position-err i (some row) t e h = cc

module _ (timezones : String → Bool) (P : Tables → Type 0) where
  edited_position-Triple :
      (i : ℤ) (request : CreateJobPositionRequest) (principal : Principal)
      → Triple P (edited_position (repository timezones) i request principal) (OnError P)
  unfolding edited_position repository update_active_job_position update_active_job_position_row
      pure
  edited_position-Triple i request principal =
      Triple-then P P (OnError P) _ _ (resolve_owned_position-Keeps P timezones i principal)
        (λ e t h. h)
        (λ _.
          Triple-then P P (OnError P) _ _ (validate_timezone-Keeps P timezones request.timezone)
            (λ e t h. h)
            (λ _.
              Triple-bind P P (OnError P) _ _
                (Triple-on_error P _ _
                  (Triple-call P _ (λ t e. updated_position-err i request _ _ t e)))
                (λ e t h. h) (λ row. record { at = λ c h. tt })))

  delete_job_position-Triple :
      (i : ℤ) (principal : Principal)
      → Triple P (delete_job_position (repository timezones) i principal) (OnError P)
  unfolding delete_job_position repository soft_delete_job_position soft_delete_job_position_row
      pure
  delete_job_position-Triple i principal =
      Triple-then P P (OnError P) _ _ (resolve_owned_position-Keeps P timezones i principal)
        (λ e t h. h)
        (λ _.
          Triple-bind P P (OnError P) _ _
            (Triple-on_error P _ _ (Triple-call P _ (λ t e. deleted_position-err i _ t e)))
            (λ e t h. h) (λ row. record { at = λ c h. tt }))

published-inert :
    {Q : Type 0} (publisher : Option (ℤ → Request Q)) (q : Q) (r : Result JobPosition)
    (c : Connection) (t : Tables) (e : GoError)
    → OnError (λ t'. t' ≡ t) r c.tables
    → (published publisher q (r, c)).0 ≡ err e
    → ((published publisher q (r, c)).1.connection.tables ≡ t)
      × ((published publisher q (r, c)).1.queue ≡ q)
unfolding published
published-inert publisher q (ok position) c t e h k = cc
published-inert publisher q (err cause) c t e h k = (h, refl)

-- An edit that is answered with an error, whoever asks and whichever calls of the database fail, has
-- changed no row and sent no message.
pub update_job_position-err :
    {Q : Type 0} (timezones : String → Bool) (publisher : Option (ℤ → Request Q)) (i : ℤ)
    (request : CreateJobPositionRequest) (principal : Principal) (w : World Q) (e : GoError)
    → (update_job_position (repository timezones) publisher i request principal w).0 ≡ err e
    → ((update_job_position
          (repository timezones)
          publisher
          i
          request
          principal
          w).1.connection.tables
        ≡ w.connection.tables)
      × ((update_job_position (repository timezones) publisher i request principal w).1.queue
          ≡ w.queue)
unfolding update_job_position
update_job_position-err timezones publisher i request principal w e h =
    published-inert publisher w.queue _ _ w.connection.tables e
      ((edited_position-Triple timezones (λ t. t ≡ w.connection.tables) i request principal).at
        w.connection refl)
      h
