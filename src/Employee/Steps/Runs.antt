-- ===== src/Employee/Steps/Runs.antt =====
-- What a write of a step that succeeds leaves.
use laburi_to.Base.{nat_eq, ◌⊎◌, ℤ, String, ◌≡◌, refl, Bool, true, inl, inr, List, [], ◌∷◌, int_eq}
use laburi_to.Database.Schema.{EmployeeRow, ConnectionRow, Tables}
use laburi_to.Database.Connection.{
  transaction, M, Keeps, Keeps-call, Keeps-pure, Keeps-raise, Keeps-bind, Keeps-if, call, idle,
  ◌>>◌,
}
use laburi_to.Database.Triples.{Triple}
use laburi_to.Database.Outcomes.{OnOk, OnOk-bind, OnOk-Keeps, OnOk-any, OnOk-transaction}
use laburi_to.Database.Employees.{delete_employee_education, without_education}
use laburi_to.Employee.Repo.{is_filled}
use laburi_to.Employee.Steps.Statements.{
  create_location-Keeps, upsert_location-Keeps, create_connection-Keeps, delete_connections-Keeps,
  create_tech-Keeps, upsert_tech-Keeps, create_availability-Keeps, upsert_availability-Keeps,
  create_education-Keeps, create_location-OnOk, upsert_location-OnOk, create_tech-OnOk,
  upsert_tech-OnOk, create_availability-OnOk, upsert_availability-OnOk, create_education-OnOk,
}
use laburi_to.Employee.Steps.Presence.{
  StepKind, located, equipped, available, educated, has, Present, put_employee-Present,
}
use laburi_to.Employee.Steps.{
  EmployeeEducationTitles, create_connections, timezone_exists, validate_timezone,
  create_location_steps, create_location_with_connections, update_location_steps,
  update_location_with_connections, create_tech, update_tech, create_availability,
  update_availability, create_titles, create_education_steps, create_education,
  update_education_steps, update_education,
}
use laburi_to.Employee.Steps.Writes.{
  ProfileWrite, valid, kind_of, run, new_location, changed_location, new_tech, changed_tech,
  new_availability, changed_availability, new_education, changed_education,
}

abbrev pub Any : Tables → Type 0
Any t = Unit {0}

module _ (timezones : String → Bool) (trim_space : String → String) (i : ℤ) where
  module _ (k : StepKind) where
    abbrev Here : Tables → Type 0
    Here = Present k i

    idle-Keeps : Keeps Here (call idle)
    unfolding idle
    idle-Keeps = Keeps-call Here idle (λ t h. h)

    create_connections-Keeps : (cs : List ConnectionRow) → Keeps Here (create_connections i cs)
    unfolding create_connections
    create_connections-Keeps [] = Keeps-pure Here _
    create_connections-Keeps (c ∷ cs) =
        Keeps-bind Here _ _ (create_connection-Keeps i k c) (λ _. create_connections-Keeps cs)

    validate_timezone-Keeps : (z : String) → Keeps Here (validate_timezone timezones z)
    unfolding validate_timezone timezone_exists
    validate_timezone-Keeps z =
        Keeps-bind Here _ _ (Keeps-call Here _ (λ t h. h))
          (λ exists. Keeps-if Here _ _ _ (Keeps-pure Here _) (Keeps-raise Here _))

    create_titles-Keeps :
        (titles : List EmployeeEducationTitles) → Keeps Here (create_titles trim_space i titles)
    unfolding create_titles
    create_titles-Keeps [] = Keeps-pure Here _
    create_titles-Keeps (x ∷ titles) =
        Keeps-bind Here _ _ (create_education-Keeps i k _) (λ _. create_titles-Keeps titles)

    -- A transaction whose steps establish the step, or keep it, does where it succeeds.
    committed :
        (Pre : Tables → Type 0) (m : M (Unit {0}))
        → Triple Pre m (OnOk (λ _. Here))
        → Keeps Pre (call idle)
        → Triple Pre (call idle >> transaction m) (OnOk (λ _. Here))
    committed Pre m h idles =
        OnOk-bind Pre (λ _. Pre) (λ _. Here) _ _ (OnOk-Keeps Pre _ idles)
          (λ _. OnOk-transaction Pre (λ _. Here) m h)

    ended :
        (Pre : Tables → Type 0) (m : M (Unit {0}))
        → Triple Pre m (OnOk (λ _. Here))
        → Triple Pre (m >> call idle) (OnOk (λ _. Here))
    ended Pre m h = OnOk-bind Pre (λ _. Here) (λ _. Here) _ _ h (λ _. OnOk-Keeps Here _ idle-Keeps)

    keeps : (m : M (Unit {0})) → Keeps Here m → Triple Here m (OnOk (λ _. Here))
    keeps m h = OnOk-Keeps Here m h

  any_idle : Keeps (λ t. Unit {0}) (call idle)
  any_idle = record { at = λ c h. tt }

  titles-OnOk :
      (Pre : Tables → Type 0) (titles : List EmployeeEducationTitles)
      → is_filled titles ≡ true
      → Triple Pre (create_titles trim_space i titles) (OnOk (λ _. Present educated i))
  unfolding create_titles
  titles-OnOk Pre [] h = cc
  titles-OnOk Pre (x ∷ titles) h =
      OnOk-bind Pre (λ _. Present educated i) (λ _. Present educated i) _ _
        (create_education-OnOk i Pre _)
        (λ _. OnOk-Keeps (Present educated i) _ (create_titles-Keeps educated titles))

  update_education-OnOk :
      (Pre : Tables → Type 0) (titles : List EmployeeEducationTitles)
      → is_filled titles ≡ true
      → Triple Pre (update_education_steps trim_space i titles) (OnOk (λ _. Present educated i))
  unfolding update_education_steps
  update_education-OnOk Pre titles h =
      OnOk-bind Pre (λ _ _. Unit {0}) (λ _. Present educated i) _ _ (OnOk-any Pre _)
        (λ _. ended educated (λ t. Unit {0}) _ (titles-OnOk (λ t. Unit {0}) titles h))

  -- A write of a step that succeeds leaves that step.
  pub run-kind_of :
      (w : ProfileWrite)
      → valid w ≡ true
      → Triple (λ t. Unit {0}) (run timezones trim_space i w) (OnOk (λ _. Present (kind_of w) i))
  unfolding run create_location_with_connections create_location_steps
      update_location_with_connections update_location_steps create_tech update_tech
      create_availability update_availability create_education create_education_steps
      update_education
  run-kind_of (new_location r) v =
      committed located Any _
        (OnOk-bind Any (λ _ _. Unit {0}) (λ _. Present located i) _ _ (OnOk-any Any _)
          (λ _.
            OnOk-bind Any (λ _ _. Unit {0}) (λ _. Present located i) _ _ (OnOk-any Any _)
              (λ _. ended located Any _ (create_location-OnOk i Any r.timezone))))
        any_idle
  run-kind_of (changed_location r) v =
      committed located Any _
        (OnOk-bind Any (λ _ _. Unit {0}) (λ _. Present located i) _ _ (OnOk-any Any _)
          (λ _.
            OnOk-bind Any (λ _ _. Unit {0}) (λ _. Present located i) _ _ (OnOk-any Any _)
              (λ _.
                OnOk-bind Any (λ _ _. Unit {0}) (λ _. Present located i) _ _ (OnOk-any Any _)
                  (λ _. ended located Any _ (upsert_location-OnOk i Any r.timezone)))))
        any_idle
  run-kind_of (new_tech r) v = create_tech-OnOk i Any _
  run-kind_of (changed_tech r) v = upsert_tech-OnOk i Any _
  run-kind_of (new_availability r) v = create_availability-OnOk i Any _
  run-kind_of (changed_availability r) v = upsert_availability-OnOk i Any _
  run-kind_of (new_education titles) v =
      committed educated Any _ (ended educated Any _ (titles-OnOk Any titles v)) any_idle
  run-kind_of (changed_education titles) v =
      committed educated Any _ (update_education-OnOk Any titles v) any_idle

  disjoint_or_equal :
      (k : StepKind)
      → (k ≡ educated) ⊎ ((e : EmployeeRow) → has k e ≡ true → has k (without_education e) ≡ true)
  unfolding without_education
  disjoint_or_equal located = inr (λ e h. h)
  disjoint_or_equal equipped = inr (λ e h. h)
  disjoint_or_equal available = inr (λ e h. h)
  disjoint_or_equal educated = inl refl

  changed_education-Here :
      (k : StepKind) (titles : List EmployeeEducationTitles)
      → is_filled titles ≡ true
      → Triple (Present k i) (update_education_steps trim_space i titles) (OnOk (λ _. Present k i))
  unfolding update_education_steps delete_employee_education without_education
  changed_education-Here k titles v = elim (disjoint_or_equal k) [
    | inl same ↦ rw same (update_education-OnOk (Present educated i) titles v)
    | inr kept ↦ keeps k _ (
        Keeps-bind (Present k i) _ _
          (Keeps-call (Present k i) _
            (λ t h. put_employee-Present i without_education (λ e. refl) k t kept h))
          (λ _. Keeps-bind (Present k i) _ _ (create_titles-Keeps k titles) (λ _. idle-Keeps k)))
  ]

  -- A write that succeeds leaves every step that was there.
  pub run-Present :
      (k : StepKind) (w : ProfileWrite)
      → valid w ≡ true
      → Triple (Present k i) (run timezones trim_space i w) (OnOk (λ _. Present k i))
  unfolding run create_location_with_connections create_location_steps
      update_location_with_connections update_location_steps create_tech update_tech
      create_availability update_availability create_education create_education_steps
      update_education
  run-Present k (new_location r) v =
      committed k (Present k i) _
        (keeps k _ (
          Keeps-bind (Present k i) _ _ (validate_timezone-Keeps k r.timezone) (λ _.
            Keeps-bind (Present k i) _ _ (create_connections-Keeps k r.internet_connections) (λ _.
              Keeps-bind (Present k i) _ _ (create_location-Keeps i k r.timezone)
                (λ _. idle-Keeps k)))))
        (idle-Keeps k)
  run-Present k (changed_location r) v =
      committed k (Present k i) _
        (keeps k _ (
          Keeps-bind (Present k i) _ _ (validate_timezone-Keeps k r.timezone) (λ _.
            Keeps-bind (Present k i) _ _ (delete_connections-Keeps i k) (λ _.
              Keeps-bind (Present k i) _ _ (create_connections-Keeps k r.internet_connections) (λ _.
                Keeps-bind (Present k i) _ _ (upsert_location-Keeps i k r.timezone)
                  (λ _. idle-Keeps k))))))
        (idle-Keeps k)
  run-Present k (new_tech r) v = keeps k _ (create_tech-Keeps i k _)
  run-Present k (changed_tech r) v = keeps k _ (upsert_tech-Keeps i k _)
  run-Present k (new_availability r) v = keeps k _ (create_availability-Keeps i k _)
  run-Present k (changed_availability r) v = keeps k _ (upsert_availability-Keeps i k _)
  run-Present k (new_education titles) v =
      committed k (Present k i) _
        (keeps k _
          (Keeps-bind (Present k i) _ _ (create_titles-Keeps k titles) (λ _. idle-Keeps k)))
        (idle-Keeps k)
  run-Present k (changed_education titles) v =
      committed k (Present k i) _ (changed_education-Here k titles v) (idle-Keeps k)
