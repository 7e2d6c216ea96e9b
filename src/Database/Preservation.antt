-- ===== src/Database/Preservation.antt =====
-- Every statement that writes the batches or the recommendations keeps the database consistent.
use laburi_to.Base.{
  ℕ, ℤ, ◌+◌, ◌≡◌, refl, Bool, true, not, ◌&&◌, Option, none, some, List, [], ◌∷◌, ◌++◌, int_eq,
  find, keep, overwrite, arith, All-find, All-append, All-keep, find-some, String, Option-cases,
  int_beq_iff, All-mono, Bool-cases, inl, inr, find-both, subst, count-keep-le, any-split, sym,
  All-keep_if,
}
use laburi_to.Recommendation.Models.{BatchStatus, processing}
use laburi_to.Database.Schema.{
  with_sequences, BatchRow, RecommendationRow, Tables, IsConsistent, in_flight, has_id,
  employee_in_flight, job_position_in_flight, row_checked, issued, batch_exists,
}
use laburi_to.Database.Batches.{
  recommended, insert_refusal, new_recommendation_row, get_batch_row, CreateBatchParams,
  InsertRecommendationParams, refusal, restamped, updated, update_found, inserted, new_batch_row,
  create_batch_row, transition_row, claim_row, delete_batches, insert_recommendation, get_batch_row,
  subject_exists,
}
use laburi_to.Database.Consistency.{
  overwrite-IsConsistent, append-IsConsistent, not_issued, issued_later,
}

sequence-IsConsistent :
    (t : Tables) → IsConsistent t → IsConsistent (record t { next_batch_id = t.next_batch_id + 1 })
sequence-IsConsistent t v = record {
  ids_unique = v.ids_unique;
  one_per_employee = v.one_per_employee;
  one_per_job_position = v.one_per_job_position;
  rows_checked = v.rows_checked;
  ids_issued =
      All-mono (λ (r : BatchRow). issued t.next_batch_id r.id ≡ true)
        (λ (r : BatchRow). issued (t.next_batch_id + 1) r.id ≡ true) t.batches
        (λ r h. issued_later t.next_batch_id r.id h) v.ids_issued;
  referenced = v.referenced;
}

-- Either half of a write that its constraints may refuse.
inserted-cases {ℓ} :
    (P : Tables → Type ℓ) (o : Option String) (row : BatchRow) (t : Tables)
    → P t
    → (o ≡ none → P (record t { batches = t.batches ++ row ∷ [] }))
    → P (inserted o row t).1
unfolding inserted
inserted-cases P (some state) row t h k = h
inserted-cases P none row t h k = elim (Bool-cases (subject_exists row t)) [
  | inl e ↦ rw e (k refl)
  | inr e ↦ rw e h
]

updated-cases {ℓ} :
    (P : Tables → Type ℓ) (o : Option String) (row : BatchRow) (t : Tables)
    → P t
    → (o ≡ none → P (record t { batches = overwrite (has_id row.id) row t.batches }))
    → P (updated o row t).1
unfolding updated
updated-cases P (some state) row t h k = h
updated-cases P none row t h k = k refl

pub create_batch_row-IsConsistent :
    (arg : CreateBatchParams) (t : Tables)
    → IsConsistent t
    → IsConsistent (create_batch_row arg t).1
unfolding create_batch_row
create_batch_row-IsConsistent arg t v =
    let row = new_batch_row arg t in
    inserted-cases IsConsistent (refusal row t.batches) row
      (record t { next_batch_id = t.next_batch_id + 1 }) (sequence-IsConsistent t v)
      λ accepted.
        append-IsConsistent t v row (not_issued t.next_batch_id t.batches v.ids_issued) accepted
          refl

update_found-IsConsistent :
    (t : Tables) (status : BatchStatus) (row : BatchRow)
    → IsConsistent t
    → find (has_id row.id) t.batches ≡ some row
    → IsConsistent (update_found (some row) status t).1
unfolding update_found
update_found-IsConsistent t status row v found =
    updated-cases IsConsistent (refusal (restamped status t row) t.batches) (restamped status t row)
      t v
      λ accepted. overwrite-IsConsistent t v (restamped status t row) row found accepted (
        All-find (λ (r : BatchRow). issued t.next_batch_id r.id ≡ true) (has_id row.id) t.batches
          row v.ids_issued found)

found_by_own_id :
    (i : ℤ) (rows : List BatchRow) (row : BatchRow)
    → find (has_id i) rows ≡ some row
    → find (has_id row.id) rows ≡ some row
found_by_own_id i rows row h =
    let e : row.id ≡ i =
      (int_beq_iff row.id i).0 (unfold has_id in find-some (has_id i) rows row h) in
    subst (λ k. find (has_id k) rows ≡ some row) (sym e) h

pub transition_row-IsConsistent :
    (i : ℤ) (status : BatchStatus) (t : Tables)
    → IsConsistent t
    → IsConsistent (transition_row i status t).1
unfolding transition_row
transition_row-IsConsistent i status t v = elim (Option-cases (find (has_id i) t.batches)) [
  | inl e ↦ rw e v
  | inr (row, e) ↦
      rw e (update_found-IsConsistent t status row v (found_by_own_id i t.batches row e))
]

pub claim_row-IsConsistent : (i : ℤ) (t : Tables) → IsConsistent t → IsConsistent (claim_row i t).1
unfolding claim_row
claim_row-IsConsistent i t v =
    elim (Option-cases (find (λ r. has_id i r && in_flight r.status) t.batches)) [
      | inl e ↦ rw e v
      | inr (row, e) ↦ rw e (
          update_found-IsConsistent t processing row v (
            found_by_own_id i t.batches row
              (find-both (has_id i) (λ r. in_flight r.status) t.batches row (v.ids_unique i) e).0))
    ]

still_referenced :
    (doomed : BatchRow → Bool) (i : ℤ) (rows : List BatchRow)
    → not (batch_exists i (keep doomed rows)) ≡ true
    → batch_exists i rows ≡ true
    → batch_exists i (keep (λ r. not (doomed r)) rows) ≡ true
unfolding batch_exists
still_referenced doomed i rows gone known = ground (arith, any-split (has_id i) doomed rows)

pub delete_batches-IsConsistent :
    (doomed : BatchRow → Bool) (t : Tables)
    → IsConsistent t
    → IsConsistent (delete_batches doomed t).1
unfolding delete_batches
delete_batches-IsConsistent doomed t v =
    let left = λ (r : BatchRow). not (doomed r) in
    record {
      ids_unique = λ i. omega (arith, v.ids_unique i, count-keep-le (has_id i) left t.batches);
      one_per_employee = λ i.
          omega (arith, v.one_per_employee i, count-keep-le (employee_in_flight i) left t.batches);
      one_per_job_position = λ i. omega (
        arith,
        v.one_per_job_position i,
        count-keep-le (job_position_in_flight i) left t.batches,
      );
      rows_checked =
          All-keep (λ (r : BatchRow). row_checked r ≡ true) left t.batches v.rows_checked;
      ids_issued =
          All-keep (λ (r : BatchRow). issued t.next_batch_id r.id ≡ true) left t.batches
            v.ids_issued;
      referenced =
          All-keep_if (λ (r : RecommendationRow). batch_exists r.batch_id t.batches ≡ true)
            (λ (r : RecommendationRow). batch_exists r.batch_id (keep left t.batches) ≡ true)
            (λ r. not (batch_exists r.batch_id (keep doomed t.batches))) t.recommendations
            (λ r e h. still_referenced doomed r.batch_id t.batches e h) v.referenced;
    }

-- Recommendations are added to batches that exist.
recommended-IsConsistent :
    (t : Tables) (n : ℕ) (row : RecommendationRow)
    → IsConsistent t
    → batch_exists row.batch_id t.batches ≡ true
    → IsConsistent
        (record t { recommendations = t.recommendations ++ row ∷ []; next_recommendation_id = n })
recommended-IsConsistent t n row v h = record {
  ids_unique = v.ids_unique;
  one_per_employee = v.one_per_employee;
  one_per_job_position = v.one_per_job_position;
  rows_checked = v.rows_checked;
  ids_issued = v.ids_issued;
  referenced =
      All-append (λ (r : RecommendationRow). batch_exists r.batch_id t.batches ≡ true)
        t.recommendations (row ∷ []) v.referenced (h, tt);
}

pub with_sequences-IsConsistent :
    (t after : Tables) → IsConsistent t → IsConsistent (with_sequences t after)
with_sequences-IsConsistent t after v = record {
  ids_unique = v.ids_unique;
  one_per_employee = v.one_per_employee;
  one_per_job_position = v.one_per_job_position;
  rows_checked = v.rows_checked;
  ids_issued = v.ids_issued;
  referenced = v.referenced;
}

recommendation_sequence-IsConsistent :
    (t : Tables) (n : ℕ) → IsConsistent t → IsConsistent (record t { next_recommendation_id = n })
recommendation_sequence-IsConsistent t n v = record {
  ids_unique = v.ids_unique;
  one_per_employee = v.one_per_employee;
  one_per_job_position = v.one_per_job_position;
  rows_checked = v.rows_checked;
  ids_issued = v.ids_issued;
  referenced = v.referenced;
}

referred :
    (arg : InsertRecommendationParams) (t : Tables)
    → insert_refusal arg t ≡ none
    → batch_exists arg.batch_id t.batches ≡ true
unfolding insert_refusal
referred arg t h = ground arith

recommended-cases {ℓ} :
    (P : Tables → Type ℓ) (o : Option String) (row : RecommendationRow) (t : Tables)
    → P t
    → (o ≡ none → P (record t { recommendations = t.recommendations ++ row ∷ [] }))
    → P (recommended o row t).1
unfolding recommended
recommended-cases P (some state) row t h k = h
recommended-cases P none row t h k = k refl

pub insert_recommendation-IsConsistent :
    (arg : InsertRecommendationParams) (t : Tables)
    → IsConsistent t
    → IsConsistent (insert_recommendation arg t).1
unfolding insert_recommendation
insert_recommendation-IsConsistent arg t v =
    recommended-cases IsConsistent (insert_refusal arg t) (new_recommendation_row arg t)
      (record t { next_recommendation_id = t.next_recommendation_id + 1 })
      (recommendation_sequence-IsConsistent t (t.next_recommendation_id + 1) v)
      λ h.
        recommended-IsConsistent t (t.next_recommendation_id + 1) (new_recommendation_row arg t) v
          (referred arg t h)

pub get_batch_row-IsConsistent :
    (i : ℤ) (t : Tables) → IsConsistent t → IsConsistent (get_batch_row i t).1
unfolding get_batch_row
get_batch_row-IsConsistent i t v = v
