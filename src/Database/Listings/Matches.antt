-- ===== src/Database/Listings/Matches.antt =====
-- The joins of the two listings, as tests on the rows.
use laburi_to.Base.{
  ℤ, ◌≡◌, refl, Bool, true, false, ◌&&◌, ◌||◌, Option, none, some, List, [], ◌∷◌, any, keep, find,
  ◌==◌, int_eq, Bool-cases, inl, inr, arith, ap, ◌∙◌,
}
use laburi_to.Database.Schema.{RecommendationRow, EmployeeRow, JobPositionRow, Tables}
use laburi_to.Database.Listings.{
  JobMatch, EmployeeMatch, active_job, with_job, job_matches_from, job_matches, with_employee,
  employee_matches_from, employee_matches,
}

-- An element that passes, with what its membership gives.
pub any-witness {ℓ} :
    {A : Type ℓ} (p : A → Bool) (xs : List A)
    → any p xs ≡ true
    → (x : A) × (p x ≡ true) × ((q : A → Bool) → q x ≡ true → any q xs ≡ true)
unfolding any
any-witness p [] h = cc
any-witness p (x ∷ xs) h = elim (Bool-cases (p x)) [
  | inl e ↦ (x, e, λ q k. ground (arith))
  | inr e ↦
      (let (y, passes, others) = any-witness p xs (rw e at h) in
        (y, passes, λ q k. ground (arith, others q k)))
]

module _ (q : JobMatch → Bool) where
  abbrev pub with_active : RecommendationRow → Option JobPositionRow → Bool
  with_active r none = false
  with_active r (some job) = q (record { recommendation = r; job = job })

  any-with_job :
      (r : RecommendationRow) (o : Option JobPositionRow) (rest : List JobMatch)
      → any q (with_job r o rest) ≡ with_active r o || any q rest
  unfolding with_job any
  any-with_job r none rest = refl
  any-with_job r (some job) rest = refl

  any-job_matches_from :
      (t : Tables) (i : ℤ) (rows : List RecommendationRow)
      → any q (job_matches_from t (keep (λ r. r.batch_id == i) rows))
        ≡ any (λ r. r.batch_id == i && with_active r (active_job r.job_position_id t)) rows
  unfolding any keep job_matches_from
  any-job_matches_from t i [] = refl
  any-job_matches_from t i (r ∷ rows) = elim (Bool-cases (r.batch_id == i)) [
    | inl e ↦ rw e (
        any-with_job r (active_job r.job_position_id t) _
        ∙ ap (λ b. with_active r (active_job r.job_position_id t) || b)
            (any-job_matches_from t i rows))
    | inr e ↦ rw e (any-job_matches_from t i rows)
  ]

  -- Some match passes a test exactly when some row of the batch with its active position does.
  pub any-job_matches :
      (t : Tables) (i : ℤ)
      → any q (job_matches i t)
        ≡ any
            (λ r. r.batch_id == i && with_active r (active_job r.job_position_id t))
            t.recommendations
  unfolding job_matches
  any-job_matches t i = any-job_matches_from t i t.recommendations

module _ (q : EmployeeMatch → Bool) where
  abbrev pub with_both : RecommendationRow → Option EmployeeRow → Option JobPositionRow → Bool
  with_both r (some e) (some job) = q (record { recommendation = r; employee = e })
  with_both r none _ = false
  with_both r (some _) none = false

  any-with_employee :
      (r : RecommendationRow) (e : Option EmployeeRow) (o : Option JobPositionRow)
      (rest : List EmployeeMatch)
      → any q (with_employee r e o rest) ≡ with_both r e o || any q rest
  unfolding with_employee any
  any-with_employee r (some e) (some job) rest = refl
  any-with_employee r none o rest = refl
  any-with_employee r (some e) none rest = refl

  any-employee_matches_from :
      (t : Tables) (i : ℤ) (rows : List RecommendationRow)
      → any q (employee_matches_from t (keep (λ r. r.batch_id == i) rows))
        ≡ any
            (λ r.
              r.batch_id == i
              && with_both r
                  (find (λ e. e.id == r.employee_id) t.employees)
                  (active_job r.job_position_id t))
            rows
  unfolding any keep employee_matches_from
  any-employee_matches_from t i [] = refl
  any-employee_matches_from t i (r ∷ rows) = elim (Bool-cases (r.batch_id == i)) [
    | inl e ↦ rw e (
        any-with_employee r (find (λ e. e.id == r.employee_id) t.employees)
          (active_job r.job_position_id t) _
        ∙ ap
            (λ b.
              with_both r (find (λ e. e.id == r.employee_id) t.employees)
                (active_job r.job_position_id t)
              || b)
            (any-employee_matches_from t i rows))
    | inr e ↦ rw e (any-employee_matches_from t i rows)
  ]

  pub any-employee_matches :
      (t : Tables) (i : ℤ)
      → any q (employee_matches i t)
        ≡ any
            (λ r.
              r.batch_id == i
              && with_both r
                  (find (λ e. e.id == r.employee_id) t.employees)
                  (active_job r.job_position_id t))
            t.recommendations
  unfolding employee_matches
  any-employee_matches t i = any-employee_matches_from t i t.recommendations
