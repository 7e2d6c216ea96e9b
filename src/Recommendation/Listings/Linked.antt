-- ===== src/Recommendation/Listings/Linked.antt =====
-- An employer who may see a profile, and the listings that show the link.
use laburi_to.Base.{
  ℤ, ◌≡◌, refl, sym, ◌∙◌, subst, Bool, true, false, ◌&&◌, ◌||◌, Option, none, some, any, find-some,
  any-find, ◌==◌, int_eq, int_beq_iff, ◌⊎◌, inl, inr,
}
use laburi_to.Errors.{ok, wrap}
use laburi_to.Database.Schema.{
  BatchRow, RecommendationRow, EmployeeRow, JobPositionRow, Tables, employee_exists,
}
use laburi_to.Database.Connection.{Connection, call, on_error}
use laburi_to.Database.Listings.{
  JobMatch, active_job, job_matches, employee_matches, last_completed_of_employee,
  last_completed_of_job_position, in_batch, employer_matches, links,
  employer_has_current_recommendation_for_employee,
}
use laburi_to.Database.Listings.Matches.{any-witness, any-job_matches, any-employee_matches}
use laburi_to.Recommendation.Owners.{called-ok}
use laburi_to.Recommendation.Listings.{employer_has_current_recommendation}

and_true : (a b : Bool) → a && b ≡ true → (a ≡ true) × (b ≡ true)
and_true true b h = (refl, h)
and_true false b h = cc

-- The match is of this employee, and its position of the employer whose user is this.
abbrev pub of_pair : ℤ → ℤ → Tables → JobMatch → Bool
of_pair employee user t m =
    m.recommendation.employee_id == employee && employer_matches user t (some m.job)

-- The employee's current set shows a position of the employer.
abbrev pub ShowsPosition : ℤ → ℤ → Tables → Type 0
ShowsPosition employee user t =
    (b : BatchRow) × (last_completed_of_employee employee t ≡ some b)
    × (any (of_pair employee user t) (job_matches b.id t) ≡ true)

-- The current set of an active position of the employer shows the employee.
abbrev pub ShowsEmployee : ℤ → ℤ → Tables → Type 0
ShowsEmployee employee user t =
    (i : ℤ) × (job : JobPositionRow) × (b : BatchRow) × (active_job i t ≡ some job)
    × (employer_matches user t (some job) ≡ true)
    × (last_completed_of_job_position i t ≡ some b)
    × (any (λ m. m.employee.id == employee) (employee_matches b.id t) ≡ true)

module _ (employee user : ℤ) (t : Tables) where
  in_batch-some :
      (o : Option BatchRow) (r : RecommendationRow)
      → in_batch o r ≡ true
      → (b : BatchRow) × (o ≡ some b) × (r.batch_id == b.id ≡ true)
  unfolding in_batch
  in_batch-some none r h = cc
  in_batch-some (some b) r h = (b, refl, h)

  employer_matches-some :
      (o : Option JobPositionRow)
      → employer_matches user t o ≡ true
      → (job : JobPositionRow) × (o ≡ some job) × (employer_matches user t (some job) ≡ true)
  unfolding employer_matches
  employer_matches-some none h = cc
  employer_matches-some (some job) h = (job, refl, h)

  links-parts :
      (r : RecommendationRow) (b : Bool)
      → links employee user t r && b ≡ true
      → (r.employee_id == employee ≡ true)
        × (b ≡ true)
        × (job : JobPositionRow) × (active_job r.job_position_id t ≡ some job)
        × (employer_matches user t (some job) ≡ true)
  unfolding links
  links-parts r b h =
      let (linked, last) = and_true _ b h in
      let (same, owned) = and_true (r.employee_id == employee) _ linked in
      let (job, active, mine) = employer_matches-some (active_job r.job_position_id t) owned in
      (same, last, job, active, mine)

  by_employee :
      any
          (λ r. links employee user t r && in_batch (last_completed_of_employee employee t) r)
          t.recommendations
        ≡ true
      → ShowsPosition employee user t
  by_employee h =
      let (r, passes, others) = any-witness _ t.recommendations h in
      let (same, here, job, active, mine) = links-parts r _ passes in
      let (b, last, batch) = in_batch-some (last_completed_of_employee employee t) r here in
      (
        b,
        last,
        any-job_matches (of_pair employee user t) t b.id
            ∙ others _ (rw (batch, active, same, mine) refl),
      )

  by_job_position :
      employee_exists employee t ≡ true
      → any
          (λ r.
            links employee user t r
            && in_batch (last_completed_of_job_position r.job_position_id t) r)
          t.recommendations
        ≡ true
      → ShowsEmployee employee user t
  unfolding employee_exists
  by_job_position exists h =
      let (r, passes, others) = any-witness _ t.recommendations h in
      let (same, here, job, active, mine) = links-parts r _ passes in
      let (b, last, batch) =
        in_batch-some (last_completed_of_job_position r.job_position_id t) r here in
      let equal : employee ≡ r.employee_id = sym ((int_beq_iff r.employee_id employee).0 same) in
      let (e, found) =
        any-find (λ (e : EmployeeRow). e.id == r.employee_id) t.employees
          (subst (λ i. any (λ (e : EmployeeRow). e.id == i) t.employees ≡ true) equal exists) in
      let named =
        subst (λ i. e.id == i ≡ true) (sym equal)
          (find-some (λ (e : EmployeeRow). e.id == r.employee_id) t.employees e found) in
      (
        r.job_position_id,
        job,
        b,
        active,
        mine,
        last,
        any-employee_matches (λ m. m.employee.id == employee) t b.id
            ∙ others _ (rw (batch, found, active, named) refl),
      )

  shown :
      (a b : Bool)
      → (a ≡ true → ShowsPosition employee user t)
      → (b ≡ true → ShowsEmployee employee user t)
      → a || b ≡ true
      → ShowsPosition employee user t ⊎ ShowsEmployee employee user t
  shown true b f g h = inl (f refl)
  shown false b f g h = inr (g h)

-- An employer is told to have a current recommendation for an employee whose row exists only where
-- the last completed batch of that employee shows an active position of that employer, or the last
-- completed batch of an active position of that employer shows the employee.
pub employer_has_current_recommendation-shown :
    (employee user : ℤ) (c : Connection)
    → employee_exists employee c.tables ≡ true
    → (employer_has_current_recommendation employee user c).0 ≡ ok true
    → ShowsPosition employee user c.tables ⊎ ShowsEmployee employee user c.tables
unfolding employer_has_current_recommendation on_error call
    employer_has_current_recommendation_for_employee
employer_has_current_recommendation-shown employee user c exists h =
    let read =
      called-ok wrap (employer_has_current_recommendation_for_employee employee user) c.tables
        c.faults true h in
    shown employee user c.tables _ _ (by_employee employee user c.tables)
      (by_job_position employee user c.tables exists) (cc)
