-- ===== src/JobPosition/Service/Owned.antt =====
-- Who may read, edit and delete a job position.
use laburi_to.Base.{
  ℤ, String, ◌≡◌, refl, sym, ◌∙◌, ap, subst, Bool, Option, some, find, Bool-cases, inl, inr, ◌==◌,
  int_eq, int_beq_iff, if◌then◌else◌,
}
use laburi_to.Errors.{Result, ok, err, sentinel, job_position_forbidden}
use laburi_to.Database.Schema.{Tables, JobPositionRow, EmployerRow}
use laburi_to.Database.Connection.{Connection, call, pure, raise, on_error}
use laburi_to.Database.JobPositions.{
  get_employer_by_user_id, get_active_job_position_row, active_with_id,
}
use laburi_to.Recommendation.Owners.{called-ok, the_row-ok}
use laburi_to.Recommendation.Publisher.{World, Request}
use laburi_to.Recommendation.Service.{Principal, role_employer}
use laburi_to.Recommendation.Service.Access.{first_ok, admitted_employer, role_read}
use laburi_to.JobPosition.Models.{JobPosition, CreateJobPositionRequest, normalize}
use laburi_to.JobPosition.Repo.{
  repository, get_employer_id_by_user_id, get_active_job_position_by_id, missing_position,
  missing_employer, job_position_from_database,
}
use laburi_to.JobPosition.Service.{
  resolve_employer_id, resolve_owned_position, edited_position, delete_job_position, published,
  update_job_position,
}
use laburi_to.JobPosition.Service.Denied.{resolve_employer_id-Keeps}

-- The active position of an identifier is of the employer whose user is this.
abbrev pub Owns : ℤ → ℤ → Tables → Type 0
Owns user i t =
    (employer : EmployerRow) × (position : JobPositionRow) × (find (λ e. e.user_id == user)
        t.employers
      ≡ some employer)
    × (find (active_with_id i) t.job_positions ≡ some position)
    × (position.employer_id ≡ employer.id)

employer_read :
    (user : ℤ) (c : Connection) (own : ℤ)
    → (get_employer_id_by_user_id user c).0 ≡ ok own
    → (row : EmployerRow) × (find (λ e. e.user_id == user) c.tables.employers ≡ some row)
      × (row.id ≡ own)
unfolding get_employer_id_by_user_id get_employer_by_user_id on_error call pure
employer_read user c own h =
    let (row, found, last) = first_ok _ (λ (row : EmployerRow). pure row.id) c own h in
    (
      row,
      the_row-ok _ row
          (called-ok missing_employer (get_employer_by_user_id user) c.tables c.faults row found),
      cc,
    )

position_read :
    (i : ℤ) (c : Connection) (position : JobPosition)
    → (get_active_job_position_by_id i c).0 ≡ ok position
    → (row : JobPositionRow) × (find (active_with_id i) c.tables.job_positions ≡ some row)
      × (job_position_from_database row ≡ position)
unfolding get_active_job_position_by_id get_active_job_position_row on_error call pure
position_read i c position h =
    let (row, found, last) =
      first_ok _ (λ (row : JobPositionRow). pure (job_position_from_database row)) c position h in
    (
      row,
      the_row-ok _ row
          (called-ok missing_position (get_active_job_position_row i) c.tables c.faults row found),
      cc,
    )

accepted :
    (position : JobPosition) (own : ℤ) (c : Connection) (result : JobPosition)
    → ((if position.employer_id == own
          then pure position
          else raise (sentinel job_position_forbidden))
        c).0
      ≡ ok result
    → position.employer_id ≡ own
unfolding pure raise
accepted position own c result h = elim (Bool-cases (position.employer_id == own)) [
  | inl e ↦ (int_beq_iff position.employer_id own).0 e
  | inr e ↦ cc
]

pub published_ok :
    {Q : Type 0} (publisher : Option (ℤ → Request Q)) (q : Q) (r : Result JobPosition × Connection)
    (position : JobPosition)
    → (published publisher q r).0 ≡ ok position
    → (stored : JobPosition) × (r.0 ≡ ok stored)
unfolding published
published_ok publisher q (ok stored, c) position h = (stored, refl)
published_ok publisher q (err e, c) position h = cc

module _ (timezones : String → Bool) where
  pub resolve_employer_id-employer :
      (principal : Principal) (c : Connection) (own : ℤ)
      → (resolve_employer_id (repository timezones) principal c).0 ≡ ok own
      → (principal.role ≡ role_employer)
        × (row : EmployerRow) × (find (λ e. e.user_id == principal.user_id) c.tables.employers
            ≡ some row)
        × (row.id ≡ own)
  unfolding resolve_employer_id repository
  resolve_employer_id-employer principal c own h =
      let (u, role, next) = first_ok _ _ c own h in
      let (row, found, same) = employer_read principal.user_id c own (
        subst (λ c'. (get_employer_id_by_user_id principal.user_id c').0 ≡ ok own)
          (role_read principal.role role_employer c) next) in
      (admitted_employer principal.role c u role, row, found, same)

  pub resolve_owned_position-owner :
      (i : ℤ) (principal : Principal) (c : Connection) (position : JobPosition)
      → (resolve_owned_position (repository timezones) i principal c).0 ≡ ok position
      → (principal.role ≡ role_employer) × Owns principal.user_id i c.tables
  unfolding resolve_owned_position repository job_position_from_database normalize
  resolve_owned_position-owner i principal c position h =
      let (own, resolved, next) = first_ok _ _ c position h in
      let (role, employer, found, same) = resolve_employer_id-employer principal c own resolved in
      let after = (resolve_employer_id (repository timezones) principal c).1 in
      let (read, found', last) = first_ok _ _ after position next in
      let (row, active, made) = position_read i after read found' in
      let mine = accepted read own _ position last in
      let kept = (resolve_employer_id-Keeps (λ t. t ≡ c.tables) timezones principal).at c refl in
      (
        role,
        (
          employer,
          row,
          found,
          subst (λ (t : Tables). find (active_with_id i) t.job_positions ≡ some row) kept active,
          ap (λ p. p.employer_id) made ∙ mine ∙ sym same,
        ),
      )

  -- A job position is deleted only by a principal with role employer whose employer profile is the
  -- employer of that position, which is active.
  pub delete_job_position-owner :
      (i : ℤ) (principal : Principal) (c : Connection) (done : Unit {0})
      → (delete_job_position (repository timezones) i principal c).0 ≡ ok done
      → (principal.role ≡ role_employer) × Owns principal.user_id i c.tables
  unfolding delete_job_position
  delete_job_position-owner i principal c done h =
      let (position, resolved, _) = first_ok _ _ c done h in
      resolve_owned_position-owner i principal c position resolved

  -- A job position is edited only by a principal with role employer whose employer profile is the
  -- employer of that position, which is active, whatever the publisher.
  pub update_job_position-owner :
      {Q : Type 0} (publisher : Option (ℤ → Request Q)) (i : ℤ) (request : CreateJobPositionRequest)
      (principal : Principal) (w : World Q) (position : JobPosition)
      → (update_job_position (repository timezones) publisher i request principal w).0 ≡ ok position
      → (principal.role ≡ role_employer) × Owns principal.user_id i w.connection.tables
  unfolding update_job_position edited_position
  update_job_position-owner publisher i request principal w position h =
      let (stored, edited) = published_ok publisher w.queue _ position h in
      let (own, resolved, _) = first_ok _ _ w.connection stored edited in
      resolve_owned_position-owner i principal w.connection own resolved
