-- ===== src/Employee/Steps/Statements.antt =====
-- What each statement on a step does to the steps that are there.
use laburi_to.Base.{◌+◌, ℤ, pos, String, ◌≡◌, refl, Bool, true, false, int_eq}
use laburi_to.Database.Schema.{EmployeeRow, TechRow, ConnectionRow, Tables}
use laburi_to.Database.Connection.{Keeps, Keeps-call, call}
use laburi_to.Database.Triples.{Triple}
use laburi_to.Database.Outcomes.{OnOk, OnOk-call}
use laburi_to.Database.Employees.{
  is_some, connection_known, hours_known, education_checked, AvailabilityParams, insert_profile,
  create_employee_location, upsert_employee_location, create_employee_connection,
  delete_employee_connections, create_employee_profile_tech, upsert_employee_profile_tech,
  create_employee_profile_availability, upsert_employee_profile_availability,
  create_employee_education, with_timezone, with_connection, without_connections, with_tech,
  with_availability, with_education, CreateEmployeeEducationParams,
}
use laburi_to.Employee.Steps.Presence.{
  StepKind, located, equipped, available, educated, has, Present, put_employee-Present,
  insert_profile-Present, insert_profile-OnOk,
}
use laburi_to.Employee.Steps.Rows.{
  keeps_location, keeps_connection, keeps_connections, keeps_tech, keeps_availability, educates,
  keeps_education,
}

module _ (i : ℤ) (k : StepKind) where
  -- An insertion that takes no step away.
  insertion-Keeps :
      (checked : Bool) (taken : EmployeeRow → Bool) (f : EmployeeRow → EmployeeRow)
      → ((e : EmployeeRow) → (f e).id ≡ e.id)
      → ((e : EmployeeRow) → has k e ≡ true → has k (f e) ≡ true)
      → Keeps (Present k i) (call (insert_profile checked taken i f))
  insertion-Keeps checked taken f same h =
      Keeps-call (Present k i) _ (λ t p. insert_profile-Present i f same k checked taken t h p)

  pub create_location-Keeps :
      (z : String) → Keeps (Present k i) (call (create_employee_location i z))
  unfolding create_employee_location with_timezone
  create_location-Keeps z =
      insertion-Keeps true (λ e. is_some e.timezone) (with_timezone z) (λ e. refl)
        (keeps_location k z)

  pub upsert_location-Keeps :
      (z : String) → Keeps (Present k i) (call (upsert_employee_location i z))
  unfolding upsert_employee_location with_timezone
  upsert_location-Keeps z =
      insertion-Keeps true (λ e. false) (with_timezone z) (λ e. refl) (keeps_location k z)

  pub create_connection-Keeps :
      (c : ConnectionRow) → Keeps (Present k i) (call (create_employee_connection i c))
  unfolding create_employee_connection with_connection
  create_connection-Keeps c =
      insertion-Keeps (connection_known c) (λ e. false) (with_connection c) (λ e. refl)
        (keeps_connection k c)

  pub delete_connections-Keeps : Keeps (Present k i) (call (delete_employee_connections i))
  unfolding delete_employee_connections without_connections
  delete_connections-Keeps =
      Keeps-call (Present k i) _
        (λ t p. put_employee-Present i without_connections (λ e. refl) k t (keeps_connections k) p)

  pub create_tech-Keeps :
      (row : TechRow) → Keeps (Present k i) (call (create_employee_profile_tech i row))
  unfolding create_employee_profile_tech with_tech
  create_tech-Keeps row =
      insertion-Keeps true (λ e. is_some e.tech) (with_tech row) (λ e. refl) (keeps_tech k row)

  pub upsert_tech-Keeps :
      (row : TechRow) → Keeps (Present k i) (call (upsert_employee_profile_tech i row))
  unfolding upsert_employee_profile_tech with_tech
  upsert_tech-Keeps row =
      insertion-Keeps true (λ e. false) (with_tech row) (λ e. refl) (keeps_tech k row)

  pub create_availability-Keeps :
      (arg : AvailabilityParams)
      → Keeps (Present k i) (call (create_employee_profile_availability i arg))
  unfolding create_employee_profile_availability with_availability
  create_availability-Keeps arg =
      insertion-Keeps (hours_known arg.available_hours_per_day)
        (λ e. is_some e.available_hours_per_day) (with_availability arg) (λ e. refl)
        (keeps_availability k arg)

  pub upsert_availability-Keeps :
      (arg : AvailabilityParams)
      → Keeps (Present k i) (call (upsert_employee_profile_availability i arg))
  unfolding upsert_employee_profile_availability with_availability
  upsert_availability-Keeps arg =
      insertion-Keeps (hours_known arg.available_hours_per_day) (λ e. false) (with_availability arg)
        (λ e. refl) (keeps_availability k arg)

  pub create_education-Keeps :
      (arg : CreateEmployeeEducationParams)
      → Keeps (Present k i) (call (create_employee_education i arg))
  unfolding create_employee_education with_education
  create_education-Keeps arg = Keeps-call (Present k i) _ (λ t p.
      insert_profile-Present i (with_education arg (pos t.next_education_id)) (λ e. refl) k
        (education_checked arg) (λ e. false)
        (record t { next_education_id = t.next_education_id + 1 })
        (keeps_education k arg (pos t.next_education_id)) p)

module _ (i : ℤ) (Pre : Tables → Type 0) where
  -- An insertion of a step.
  insertion-OnOk :
      (k : StepKind) (checked : Bool) (taken : EmployeeRow → Bool) (f : EmployeeRow → EmployeeRow)
      → ((e : EmployeeRow) → (f e).id ≡ e.id)
      → ((e : EmployeeRow) → has k (f e) ≡ true)
      → Triple Pre (call (insert_profile checked taken i f)) (OnOk (λ _. Present k i))
  insertion-OnOk k checked taken f same h =
      OnOk-call Pre (λ _. Present k i) _ (λ t _. insert_profile-OnOk i f same k checked taken t h)

  pub create_location-OnOk :
      (z : String)
      → Triple Pre (call (create_employee_location i z)) (OnOk (λ _. Present located i))
  unfolding create_employee_location with_timezone
  create_location-OnOk z =
      insertion-OnOk located true (λ e. is_some e.timezone) (with_timezone z) (λ e. refl)
        (λ e. refl)

  pub upsert_location-OnOk :
      (z : String)
      → Triple Pre (call (upsert_employee_location i z)) (OnOk (λ _. Present located i))
  unfolding upsert_employee_location with_timezone
  upsert_location-OnOk z =
      insertion-OnOk located true (λ e. false) (with_timezone z) (λ e. refl) (λ e. refl)

  pub create_tech-OnOk :
      (row : TechRow)
      → Triple Pre (call (create_employee_profile_tech i row)) (OnOk (λ _. Present equipped i))
  unfolding create_employee_profile_tech with_tech
  create_tech-OnOk row =
      insertion-OnOk equipped true (λ e. is_some e.tech) (with_tech row) (λ e. refl) (λ e. refl)

  pub upsert_tech-OnOk :
      (row : TechRow)
      → Triple Pre (call (upsert_employee_profile_tech i row)) (OnOk (λ _. Present equipped i))
  unfolding upsert_employee_profile_tech with_tech
  upsert_tech-OnOk row =
      insertion-OnOk equipped true (λ e. false) (with_tech row) (λ e. refl) (λ e. refl)

  pub create_availability-OnOk :
      (arg : AvailabilityParams)
      → Triple Pre
          (call (create_employee_profile_availability i arg))
          (OnOk (λ _. Present available i))
  unfolding create_employee_profile_availability with_availability
  create_availability-OnOk arg =
      insertion-OnOk available (hours_known arg.available_hours_per_day)
        (λ e. is_some e.available_hours_per_day) (with_availability arg) (λ e. refl) (λ e. refl)

  pub upsert_availability-OnOk :
      (arg : AvailabilityParams)
      → Triple Pre
          (call (upsert_employee_profile_availability i arg))
          (OnOk (λ _. Present available i))
  unfolding upsert_employee_profile_availability with_availability
  upsert_availability-OnOk arg =
      insertion-OnOk available (hours_known arg.available_hours_per_day) (λ e. false)
        (with_availability arg) (λ e. refl) (λ e. refl)

  pub create_education-OnOk :
      (arg : CreateEmployeeEducationParams)
      → Triple Pre (call (create_employee_education i arg)) (OnOk (λ _. Present educated i))
  unfolding create_employee_education with_education
  create_education-OnOk arg =
      OnOk-call Pre (λ _. Present educated i) _
        (λ t _.
          insert_profile-OnOk i (with_education arg (pos t.next_education_id)) (λ e. refl) educated
            (education_checked arg) (λ e. false)
            (record t { next_education_id = t.next_education_id + 1 })
            (educates arg (pos t.next_education_id)))
