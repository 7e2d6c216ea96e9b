-- ===== src/JobPosition/Service/RoundTrip.antt =====
-- A job position that was created is read back by its owner.
use laburi_to.Base.{
  ℕ, ℤ, pos, String, ◌≡◌, refl, sym, ◌∙◌, ap, subst, Bool, true, Option, none, some, List, [], ◌∷◌,
  ◌++◌, ◌+◌, find, All, arith, ◌==◌, int_eq, int_beq, int_beq_iff, Bool-cases, inl, inr,
  if◌then◌else◌,
}
use laburi_to.Errors.{Result, ok, err, wrap, sentinel, job_position_forbidden}
use laburi_to.Database.Schema.{Tables, JobPositionRow, EmployerRow, issued}
use laburi_to.Database.Connection.{Connection, call, called, answered, pure, raise, on_error, ◌>>=◌}
use laburi_to.Database.Batches.{the_row}
use laburi_to.Database.Triples.{Triple}
use laburi_to.Database.Outcomes.{
  OnOk, OnOk-call, OnOk-on_error, OnOk-bind, OnOk-Keeps, OnOk-pure, OnOk-known, OnOk-mono,
}
use laburi_to.Database.JobPositions.{
  PositionColumns, active_with_id, get_active_job_position_row, get_employer_by_user_id,
  new_position, added, completed_position, create_job_position_row,
}
use laburi_to.Database.Profiles.{is_active}
use laburi_to.Database.Total.{calm}
use laburi_to.Recommendation.Publisher.{World}
use laburi_to.Recommendation.Service.{
  Principal, role_employer, authorize_profile_role, role_valid, role_beq,
}
use laburi_to.JobPosition.Models.{JobPosition, CreateJobPositionRequest, normalize, present}
use laburi_to.JobPosition.Repo.{
  repository, get_employer_id_by_user_id, get_active_job_position_by_id, create_job_position,
  job_position_from_database,
}
use laburi_to.JobPosition.Service
use laburi_to.JobPosition.Service.Denied.{validate_timezone-Keeps, resolve_owned_collection-Keeps}
use laburi_to.JobPosition.Service.Owned.{resolve_employer_id-employer}
use laburi_to.Recommendation.Service.Access.{first_ok}
use laburi_to.JobPosition.Service.{
  resolve_employer_id, resolve_owned_position, get_job_position, resolve_owned_collection,
  stored_position, published, publish,
}

module _ (timezones : String → Bool) (i : ℤ) (principal : Principal) (t : Tables)
    (employer : EmployerRow) (row : JobPositionRow) where
  -- The owner of an active position reads it.
  get_job_position-owned :
      principal.role ≡ role_employer
      → find (λ e. e.user_id == principal.user_id) t.employers ≡ some employer
      → find (active_with_id i) t.job_positions ≡ some row
      → row.employer_id == employer.id ≡ true
      → get_job_position (repository timezones) i principal (calm t)
        ≡ (ok (job_position_from_database row), calm t)
  unfolding get_job_position resolve_owned_position resolve_employer_id repository
      get_employer_id_by_user_id get_active_job_position_by_id get_active_job_position_row
      get_employer_by_user_id authorize_profile_role role_valid role_beq call called answered pure
      on_error ◌>>=◌ the_row job_position_from_database normalize present
  get_job_position-owned role found active mine = rw (role, found, active, mine) refl

-- The sequence has handed out the identifier of every position.
abbrev pub AreIssued : Tables → Type 0
AreIssued t =
    All (λ (j : JobPositionRow). issued t.next_job_position_id j.id ≡ true) t.job_positions

unissued :
    (next : ℕ) (row : JobPositionRow) (rows : List JobPositionRow)
    → active_with_id (pos next) row ≡ true
    → All (λ (j : JobPositionRow). issued next j.id ≡ true) rows
    → find (active_with_id (pos next)) (rows ++ row ∷ []) ≡ some row
unfolding find active_with_id issued int_beq
unissued next row [] h a = rw h refl
unissued next row (j ∷ rows) h a = ground (arith, unissued next row rows h a.1)

-- What a creation leaves.
abbrev pub Created : ℤ → PositionColumns → Tables → JobPositionRow → Tables → Type 0
Created own arg before row t =
    (resources : List String) × (row ≡ new_position own arg resources before)
    × (t ≡ record before {
      job_positions = before.job_positions ++ row ∷ [];
      next_job_position_id = before.next_job_position_id + 1;
    })

added-Created :
    (own : ℤ) (arg : PositionColumns) (before : Tables) (resources : List String)
    (o : Option String)
    → let row = new_position own arg resources before in
      let t = record before { next_job_position_id = before.next_job_position_id + 1 } in
      OnOk (Created own arg before) (added o row t).0 (added o row t).1
unfolding added
added-Created own arg before resources (some state) = tt
added-Created own arg before resources none = (resources, refl, refl)

completed_position-Created :
    (own : ℤ) (arg : PositionColumns) (before : Tables) (o : Option (List String))
    → let t = record before { next_job_position_id = before.next_job_position_id + 1 } in
      OnOk
        (Created own arg before)
        (completed_position own arg before o t).0
        (completed_position own arg before o t).1
unfolding completed_position
completed_position-Created own arg before none = tt
completed_position-Created own arg before (some resources) =
    added-Created own arg before resources _

module _ (timezones : String → Bool) (own : ℤ) (request : CreateJobPositionRequest)
    (t0 : Tables) where
  abbrev Stored : JobPosition → Tables → Type 0
  Stored position t =
      (row : JobPositionRow) × (position ≡ job_position_from_database row)
      × Created own request t0 row t

  create_job_position-Stored :
      Triple (λ t. t ≡ t0) (create_job_position timezones own request) (OnOk Stored)
  unfolding create_job_position create_job_position_row
  create_job_position-Stored =
      OnOk-bind (λ t. t ≡ t0) (λ _ t. t ≡ t0) Stored _ _
        (OnOk-Keeps (λ t. t ≡ t0) _
          (validate_timezone-Keeps (λ t. t ≡ t0) timezones request.timezone))
        (λ _.
          OnOk-bind (λ t. t ≡ t0) (Created own request t0) Stored _ _
            (OnOk-on_error _ _ wrap _ (
              OnOk-call _ _ _ (λ t same.
                subst
                  (λ t'.
                    OnOk (Created own request t0) (create_job_position_row own request t').0
                      (create_job_position_row own request t').1)
                  (sym same)
                  (completed_position-Created own request t0 request.technical_resources))))
            (λ row. OnOk-pure _ _ _ (λ t created. (row, refl, created))))

module _ (timezones : String → Bool) (employer_id : ℤ) (request : CreateJobPositionRequest)
    (principal : Principal) (t0 : Tables) where
  -- The employer that the principal stands for.
  abbrev Acts : ℤ → Type 0
  Acts own =
      (principal.role ≡ role_employer)
      × (employer : EmployerRow) × (find (λ e. e.user_id == principal.user_id) t0.employers
          ≡ some employer)
      × (employer.id ≡ own)

  abbrev StoredFor : JobPosition → Tables → Type 0
  StoredFor position t = (own : ℤ) × Acts own × Stored timezones own request t0 position t

  same_own :
      (own result : ℤ) (c : Connection)
      → ((if own == employer_id then pure own else raise (sentinel job_position_forbidden)) c).0
        ≡ ok result
      → own ≡ result
  unfolding pure raise
  same_own own result c h = elim (Bool-cases (own == employer_id)) [
    | inl e ↦ (let k = rw e at h in cc)
    | inr e ↦ cc
  ]

  resolve_owned_collection-Acts :
      (c : Connection) (own : ℤ)
      → c.tables ≡ t0
      → (resolve_owned_collection (repository timezones) employer_id principal c).0 ≡ ok own
      → Acts own
  unfolding resolve_owned_collection
  resolve_owned_collection-Acts c own same h =
      let (own', resolved, last) = first_ok _ _ c own h in
      let (role, employer, found, equal) =
        resolve_employer_id-employer timezones principal c own' resolved in
      (
        role,
        employer,
        subst
            (λ (t : Tables). find (λ e. e.user_id == principal.user_id) t.employers ≡ some employer)
            same found,
        equal ∙ same_own own' own _ last,
      )

  stored_position-StoredFor :
      Triple
        (λ t. t ≡ t0)
        (stored_position (repository timezones) employer_id request principal)
        (OnOk StoredFor)
  unfolding stored_position repository
  stored_position-StoredFor =
      OnOk-bind (λ t. t ≡ t0) (λ own t. (t ≡ t0) × Acts own) StoredFor _ _
        (OnOk-known (λ t. t ≡ t0) Acts _
          (resolve_owned_collection-Keeps (λ t. t ≡ t0) timezones employer_id principal)
          resolve_owned_collection-Acts)
        (λ own. record {
          at = λ c h.
              OnOk-mono (Stored timezones own request t0) StoredFor _ _ (λ p t k. (own, h.1, k))
                ((create_job_position-Stored timezones own request t0).at c h.0);
        })

  fresh :
      (own : ℤ) (resources : List String)
      → active_with_id (pos t0.next_job_position_id) (new_position own request resources t0) ≡ true
  unfolding active_with_id is_active new_position int_beq
  fresh own resources = ground arith

  read_back :
      (t : Tables) (stored position : JobPosition)
      → AreIssued t0
      → StoredFor stored t
      → normalize stored ≡ position
      → (get_job_position (repository timezones) position.id principal (calm t)).0 ≡ ok position
  unfolding job_position_from_database normalize present new_position
  read_back t stored position given
        (own, (role, employer, found, mine), (row, is_row, (resources, is_new, after))) e =
      let same : job_position_from_database row ≡ position = ap normalize (sym is_row) ∙ e in
      let id_same : pos t0.next_job_position_id ≡ position.id =
        sym (ap (λ j. j.id) is_new) ∙ ap (λ p. p.id) same in
      ap (λ r. r.0)
        (get_job_position-owned timezones position.id principal t employer row role
          (ap (λ t'. find (λ e. e.user_id == principal.user_id) t'.employers) after ∙ found)
          (ap (λ t'. find (active_with_id position.id) t'.job_positions) after
            ∙ subst (λ i. find (active_with_id i) (t0.job_positions ++ row ∷ []) ≡ some row) id_same
                (unissued t0.next_job_position_id row t0.job_positions
                  (ap (active_with_id (pos t0.next_job_position_id)) is_new ∙ fresh own resources)
                  given))
          ((int_beq_iff row.employer_id employer.id).1 (ap (λ j. j.employer_id) is_new ∙ sym mine)))
      ∙ ap ok same

untold :
    {Q : Type 0} (P : JobPosition → Tables → Type 0) (q : Q) (r : Result JobPosition)
    (c : Connection) (position : JobPosition)
    → OnOk P r c.tables
    → (published {Q = Q} none q (r, c)).0 ≡ ok position
    → (stored : JobPosition) × P stored (published {Q = Q} none q (r, c)).1.connection.tables
      × (normalize stored ≡ position)
unfolding published publish
untold P q (ok stored) c position h k = (stored, h, cc)
untold P q (err e) c position h k = cc

-- A position that a creation returns, where nobody is told of it, is what its owner reads next by its
-- identifier, if the database had handed out the identifiers of all positions and the reading calls
-- do not fail.
pub get-create_job_position :
    {Q : Type 0} (timezones : String → Bool) (employer_id : ℤ) (request : CreateJobPositionRequest)
    (principal : Principal) (w : World Q) (position : JobPosition)
    → AreIssued w.connection.tables
    → (Service.create_job_position (repository timezones) none employer_id request principal w).0
      ≡ ok position
    → (get_job_position (repository timezones) position.id principal (
        calm
          (Service.create_job_position
            (repository timezones)
            none
            employer_id
            request
            principal
            w).1.connection.tables)).0
      ≡ ok position
unfolding Service.create_job_position
get-create_job_position timezones employer_id request principal w position given h =
    let before = w.connection.tables in
    let (stored, kept, e) =
      untold (StoredFor timezones employer_id request principal before) w.queue _ _ position
        ((stored_position-StoredFor timezones employer_id request principal before).at w.connection
          refl)
        h in
    read_back timezones employer_id request principal before _ stored position given kept e
