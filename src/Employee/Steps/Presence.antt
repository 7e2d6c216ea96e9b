-- ===== src/Employee/Steps/Presence.antt =====
-- Which steps of a profile are there, and how the statements change that.
use laburi_to.Base.{
  ℤ, ◌≡◌, refl, ap, ◌∙◌, Bool, true, false, Bool-cases, inl, inr, Option, none, some, List, [], ◌∷◌,
  map, ◌==◌, int_eq, find,
}
use laburi_to.Database.Schema.{EmployeeRow, Tables}
use laburi_to.Database.Employees.{
  is_some, amended, put_employee, profile_refusal, filled, insert_profile,
}
use laburi_to.Database.Outcomes.{OnOk}
use laburi_to.Employee.Repo.{is_filled, complete}

pub data StepKind : Type 0 where
  located equipped available educated : StepKind

abbrev pub has : StepKind → EmployeeRow → Bool
has located e = is_some e.timezone
has equipped e = is_some e.tech
has available e = is_some e.available_hours_per_day
has educated e = is_filled e.education

abbrev pub has_step : StepKind → Option EmployeeRow → Bool
has_step k none = false
has_step k (some e) = has k e

abbrev pub employee_of : ℤ → Tables → Option EmployeeRow
employee_of i t = find (λ e. e.id == i) t.employees

-- The employee is there, with this step.
abbrev pub Present : StepKind → ℤ → Tables → Type 0
Present k i t = has_step k (employee_of i t) ≡ true

complete_of_steps :
    (o : Option EmployeeRow) → ((k : StepKind) → has_step k o ≡ true) → complete o ≡ true
unfolding complete
complete_of_steps none h = h located
complete_of_steps (some e) h = rw (h located, h equipped, h available, h educated) refl

pub complete-Present :
    (i : ℤ) (t : Tables) → ((k : StepKind) → Present k i t) → complete (employee_of i t) ≡ true
complete-Present i t h = complete_of_steps (employee_of i t) h

abbrev mapped : (EmployeeRow → EmployeeRow) → Option EmployeeRow → Option EmployeeRow
mapped f none = none
mapped f (some e) = some (f e)

module _ (i : ℤ) (f : EmployeeRow → EmployeeRow) (same : (e : EmployeeRow) → (f e).id ≡ e.id) where
  find-amended :
      (rows : List EmployeeRow)
      → find (λ e. e.id == i) (map (amended f i) rows) ≡ mapped f (find (λ e. e.id == i) rows)
  unfolding find amended
  find-amended [] = refl
  find-amended (e ∷ rows) = elim (Bool-cases (e.id == i)) [
    | inl h ↦ (let here : (f e).id == i ≡ true = ap (λ j. j == i) (same e) ∙ h in rw (h, here) refl)
    | inr h ↦ rw (h, h) (find-amended rows)
  ]

  module _ (k : StepKind) where
    kept_step :
        (o : Option EmployeeRow)
        → ((e : EmployeeRow) → has k e ≡ true → has k (f e) ≡ true)
        → has_step k o ≡ true
        → has_step k (mapped f o) ≡ true
    kept_step none h p = p
    kept_step (some e) h p = h e p

    pub put_employee-Present :
        (t : Tables)
        → ((e : EmployeeRow) → has k e ≡ true → has k (f e) ≡ true)
        → Present k i t
        → Present k i (put_employee i f t)
    unfolding put_employee
    put_employee-Present t h p = rw (find-amended t.employees) (kept_step (employee_of i t) h p)

    filled-Present :
        (o : Option _) (t : Tables)
        → ((e : EmployeeRow) → has k e ≡ true → has k (f e) ≡ true)
        → Present k i t
        → Present k i (filled i f o t).1
    unfolding filled
    filled-Present none t h p = put_employee-Present t h p
    filled-Present (some state) t h p = p

    -- A row that is inserted leaves the steps that it does not take away.
    pub insert_profile-Present :
        (checked : Bool) (taken : EmployeeRow → Bool) (t : Tables)
        → ((e : EmployeeRow) → has k e ≡ true → has k (f e) ≡ true)
        → Present k i t
        → Present k i (insert_profile checked taken i f t).1
    unfolding insert_profile
    insert_profile-Present checked taken t h p = filled-Present _ t h p

    inserted :
        (checked : Bool) (taken : EmployeeRow → Bool) (t : Tables) (o : Option EmployeeRow)
        → employee_of i t ≡ o
        → ((e : EmployeeRow) → has k (f e) ≡ true)
        → let r = filled i f (profile_refusal checked taken o) t in
          OnOk (λ _ t'. Present k i t') r.0 r.1
    unfolding filled profile_refusal put_employee
    inserted false taken t o e h = tt
    inserted true taken t none e h = tt
    inserted true taken t (some row) e h = elim (Bool-cases (taken row)) [
      | inl full ↦ rw full tt
      | inr free ↦ rw free (rw (find-amended t.employees) (rw e (h row)))
    ]

    -- A row that was inserted is the step, and its employee is there.
    pub insert_profile-OnOk :
        (checked : Bool) (taken : EmployeeRow → Bool) (t : Tables)
        → ((e : EmployeeRow) → has k (f e) ≡ true)
        → let r = insert_profile checked taken i f t in OnOk (λ _ t'. Present k i t') r.0 r.1
    unfolding insert_profile
    insert_profile-OnOk checked taken t h = inserted checked taken t (employee_of i t) refl h
