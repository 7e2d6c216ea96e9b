-- ===== src/Recommendation/Listings/Pages.antt =====
-- What a page of the current set holds, where no call to the database fails.
use laburi_to.Base.{
  ℕ, ℤ, pos, String, ◌≡◌, sym, ap, ◌∙◌, ◌++◌, ◌+◌, ◌-◌, length, if◌then◌else◌, ltb, keep, Bool,
}
use laburi_to.Errors.{Result, ok}
use laburi_to.Recommendation.Service.{RecommendationSet}
use laburi_to.Recommendation.Listings.{
  int32_of, JobRecommendation, EmployeeRecommendation, job_recommendation, employee_recommendation,
  job_recommendations_for_employee, employee_recommendations_for_job_position,
}
use laburi_to.Recommendation.Listings.View.{set_of, current_set-set_of}
use laburi_to.Recommendation.Listings.Parts.{set_of-size, set_of-tile}
use laburi_to.Database.Listings.Order.{length-ordered}
use laburi_to.Database.Schema.{Tables, of_employee, of_job_position}
use laburi_to.Database.Listings.{
  window, newest, job_matches, employee_matches, ordered, job_before, employee_before,
  last_completed_of_employee, last_completed_of_job_position, get_current_batch_by_employee,
  get_last_completed_batch_by_employee, count_job_recommendations_for_employee,
  list_job_recommendations_for_employee, get_current_batch_by_job_position,
  get_last_completed_batch_by_job_position, count_employee_recommendations_for_job_position,
  list_employee_recommendations_for_job_position,
}
use laburi_to.Database.Total.{calm}

module _ {F : Type 0} (parse : String → Result F) (below : String → String → Bool) where
  abbrev pub job_page : ℤ → ℕ → ℕ → Tables → Result (RecommendationSet (JobRecommendation F))
  job_page i n o t =
      (job_recommendations_for_employee parse below i (record { limit = pos n; offset = pos o })
        (calm t)).0

  job_page-set_of :
      (i : ℤ) (n o : ℕ) (t : Tables)
      → job_page i n o t
        ≡ set_of
            (job_recommendation parse)
            (newest (keep (of_employee i) t.batches))
            (last_completed_of_employee i t)
            (λ j. length (job_matches j t))
            (λ j. window (pos n) (pos o) (ordered (job_before below) (job_matches j t)))
  unfolding job_recommendations_for_employee get_current_batch_by_employee
      get_last_completed_batch_by_employee count_job_recommendations_for_employee
      list_job_recommendations_for_employee
  job_page-set_of i n o t =
      ap (λ r. r.0)
        (current_set-set_of (job_recommendation parse)
          (λ t'. newest (keep (of_employee i) t'.batches)) (last_completed_of_employee i)
          job_matches (ordered (job_before below)) (record { limit = pos n; offset = pos o }) t)

  -- Without a failure of the database, two pages of the positions recommended to an employee that
  -- follow each other hold, in this order, the items of the page that spans both, and all three give
  -- the same total.
  pub job_recommendations_for_employee-tile :
      (i : ℤ) (o n m : ℕ) (t : Tables) (whole : RecommendationSet (JobRecommendation F))
      → job_page i (n + m) o t ≡ ok whole
      → (first second : RecommendationSet (JobRecommendation F)) × (job_page i n o t ≡ ok first)
        × (job_page i m (o + n) t ≡ ok second)
        × (whole.items ≡ first.items ++ second.items)
        × (first.total ≡ whole.total)
        × (second.total ≡ whole.total)
  job_recommendations_for_employee-tile i o n m t whole h =
      let (first, second, a, b, items, total, total') =
        set_of-tile (job_recommendation parse) _ _ _
          (λ j. ordered (job_before below) (job_matches j t)) o n m whole
          (sym (job_page-set_of i (n + m) o t) ∙ h) in
      (
        first,
        second,
        job_page-set_of i n o t ∙ a,
        job_page-set_of i m (o + n) t ∙ b,
        items,
        total,
        total',
      )

  -- A page of the positions recommended to an employee has as many items as are left from its offset
  -- on, up to its limit: with `k` matches, the limit or what `k` exceeds the offset by, whichever is
  -- less. The total is `k` as an int32.
  pub job_recommendations_for_employee-size :
      (i : ℤ) (o n : ℕ) (t : Tables) (set : RecommendationSet (JobRecommendation F))
      → job_page i n o t ≡ ok set
      → (k : ℕ) × (set.total ≡ int32_of k)
        × (length set.items ≡ (if ltb (k - o) n then k - o else n))
  job_recommendations_for_employee-size i o n t set h =
      set_of-size (job_recommendation parse) _ _ (λ j. job_matches j t) _ o n set
        (λ j. length-ordered (job_before below) (job_matches j t))
        (sym (job_page-set_of i n o t) ∙ h)

module _ {F : Type 0} (parse : String → Result F) (below : String → String → Bool) where
  abbrev pub candidate_page :
      ℤ → ℕ → ℕ → Tables → Result (RecommendationSet (EmployeeRecommendation F))
  candidate_page i n o t =
      (employee_recommendations_for_job_position parse below i
        (record { limit = pos n; offset = pos o }) (calm t)).0

  candidate_page-set_of :
      (i : ℤ) (n o : ℕ) (t : Tables)
      → candidate_page i n o t
        ≡ set_of
            (employee_recommendation parse)
            (newest (keep (of_job_position i) t.batches))
            (last_completed_of_job_position i t)
            (λ j. length (employee_matches j t))
            (λ j. window (pos n) (pos o) (ordered (employee_before below) (employee_matches j t)))
  unfolding employee_recommendations_for_job_position get_current_batch_by_job_position
      get_last_completed_batch_by_job_position count_employee_recommendations_for_job_position
      list_employee_recommendations_for_job_position
  candidate_page-set_of i n o t =
      ap (λ r. r.0)
        (current_set-set_of (employee_recommendation parse)
          (λ t'. newest (keep (of_job_position i) t'.batches)) (last_completed_of_job_position i)
          employee_matches (ordered (employee_before below))
          (record { limit = pos n; offset = pos o }) t)

  -- Without a failure of the database, two pages of the employees recommended for a job position that
  -- follow each other hold, in this order, the items of the page that spans both, and all three give
  -- the same total.
  pub employee_recommendations_for_job_position-tile :
      (i : ℤ) (o n m : ℕ) (t : Tables) (whole : RecommendationSet (EmployeeRecommendation F))
      → candidate_page i (n + m) o t ≡ ok whole
      → (first second : RecommendationSet (EmployeeRecommendation F)) × (candidate_page i n o t
          ≡ ok first)
        × (candidate_page i m (o + n) t ≡ ok second)
        × (whole.items ≡ first.items ++ second.items)
        × (first.total ≡ whole.total)
        × (second.total ≡ whole.total)
  employee_recommendations_for_job_position-tile i o n m t whole h =
      let (first, second, a, b, items, total, total') =
        set_of-tile (employee_recommendation parse) _ _ _
          (λ j. ordered (employee_before below) (employee_matches j t)) o n m whole
          (sym (candidate_page-set_of i (n + m) o t) ∙ h) in
      (
        first,
        second,
        candidate_page-set_of i n o t ∙ a,
        candidate_page-set_of i m (o + n) t ∙ b,
        items,
        total,
        total',
      )
