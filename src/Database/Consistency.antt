-- ===== src/Database/Consistency.antt =====
-- Every statement of Database.Batches keeps the database consistent.
use laburi_to.Base.{
  ℕ, ℤ, pos, ◌+◌, ◌≤◌, ◌≡◌, refl, Bool, true, not, Option, none, some, List, [], ◌∷◌, ◌++◌, ◌==◌,
  int_eq, find, overwrite, count, weight, arith, All, All-append, All-overwrite, any-false,
  count_mono, count-keep-not, count-overwrite, count-append, int_beq, int_beq_iff, find-some,
  keep-absent, count-any, All-mono, ap, any-true, count-keep-le, any-append,
}
use laburi_to.Database.Schema.{
  BatchRow, RecommendationRow, Tables, IsConsistent, in_flight, holds, has_id, employee_in_flight,
  job_position_in_flight, row_checked, issued, batch_exists,
}
use laburi_to.Database.Batches.{collides, others, refusal, shares}

shares-holds :
    (i : ℤ) (own column : Option ℤ)
    → holds i own ≡ true
    → holds i column ≡ true
    → shares own column ≡ true
shares-holds i none column h k = h
shares-holds i (some j) column h k = rw ((int_beq_iff j i).0 h) k

no_collision :
    (row : BatchRow) (rows : List BatchRow)
    → refusal row rows ≡ none
    → in_flight row.status ≡ true
    → count (collides row) (others row.id rows) ≡ 0
unfolding refusal
no_collision row rows r f = any-false (collides row) (others row.id rows) (ground arith)

-- A row in flight that is not refused has its key to itself.
employee_free :
    (row : BatchRow) (rows : List BatchRow) (i : ℤ)
    → refusal row rows ≡ none
    → employee_in_flight i row ≡ true
    → count (employee_in_flight i) (others row.id rows) ≡ 0
unfolding employee_in_flight
employee_free row rows i r b = omega (
  arith,
  no_collision row rows r (ground arith),
  count_mono (employee_in_flight i) (collides row) (others row.id rows)
      (λ x h. unfold collides in ground (arith, shares-holds i row.employee_id x.employee_id)),
)

job_position_free :
    (row : BatchRow) (rows : List BatchRow) (i : ℤ)
    → refusal row rows ≡ none
    → job_position_in_flight i row ≡ true
    → count (job_position_in_flight i) (others row.id rows) ≡ 0
unfolding job_position_in_flight
job_position_free row rows i r b = omega (
  arith,
  no_collision row rows r (ground arith),
  count_mono (job_position_in_flight i) (collides row) (others row.id rows) (λ x h.
      unfold collides in ground (arith, shares-holds i row.job_position_id x.job_position_id)),
)

module _ (rows : List BatchRow) (row : BatchRow) where
  -- A row takes the place of the one that had its identifier.
  module _ (old : BatchRow) (unique : (i : ℤ) → count (has_id i) rows ≤ 1)
      (found : find (has_id row.id) rows ≡ some old) where
    one_after_update :
        (q : BatchRow → Bool)
        → count q rows ≤ 1
        → (q row ≡ true → count q (others row.id rows) ≡ 0)
        → count q (overwrite (has_id row.id) row rows) ≤ 1
    unfolding others
    one_after_update q one free = ground (
      arith,
      count-overwrite q (has_id row.id) row old rows (unique row.id) found,
      count-keep-not q (has_id row.id) old rows (unique row.id) found,
    )

    same_ids :
        (i : ℤ) → count (has_id i) (overwrite (has_id row.id) row rows) ≡ count (has_id i) rows
    same_ids i =
        let eq : old.id ≡ row.id =
          (int_beq_iff old.id row.id).0
            (unfold has_id in find-some (has_id row.id) rows old found) in
        let same : weight (has_id i old) ≡ weight (has_id i row) =
          unfold has_id in ap (λ k. weight (k == i)) eq in
        omega (arith, count-overwrite (has_id i) (has_id row.id) row old rows (unique row.id) found)

  -- A row with a fresh identifier is appended.
  module _ (fresh : count (has_id row.id) rows ≡ 0) where
    one_after_insert :
        (q : BatchRow → Bool)
        → count q rows ≤ 1
        → (q row ≡ true → count q (others row.id rows) ≡ 0)
        → count q (rows ++ row ∷ []) ≤ 1
    unfolding others count
    one_after_insert q one free =
        ground (arith, count-append q rows (row ∷ []), keep-absent (has_id row.id) rows)

pub not_issued :
    (next : ℕ) (rows : List BatchRow)
    → All (λ (r : BatchRow). issued next r.id ≡ true) rows
    → count (has_id (pos next)) rows ≡ 0
unfolding count has_id issued int_beq
not_issued next [] h = refl
not_issued next (r ∷ rows) h = ground (arith, not_issued next rows h.1)

refusal_checked :
    (row : BatchRow) (rows : List BatchRow) → refusal row rows ≡ none → row_checked row ≡ true
unfolding refusal
refusal_checked row rows h = ground arith

exists_same :
    (i : ℤ) (rows rows' : List BatchRow)
    → count (has_id i) rows' ≡ count (has_id i) rows
    → batch_exists i rows ≡ true
    → batch_exists i rows' ≡ true
unfolding batch_exists
exists_same i rows rows' e h =
    count-any (has_id i) rows' (omega (arith, any-true (has_id i) rows h))

no_other_id :
    (rows : List BatchRow) (row : BatchRow) (i : ℤ)
    → count (has_id row.id) rows ≡ 0
    → has_id i row ≡ true
    → count (has_id i) (others row.id rows) ≡ 0
unfolding others has_id
no_other_id rows row i fresh h =
    let e : row.id ≡ i = (int_beq_iff row.id i).0 h in
    let none_left : count (has_id i) rows ≡ 0 = rw e at fresh in
    omega (arith, none_left, count-keep-le (has_id i) (λ r. not (has_id row.id r)) rows)

pub issued_later : (next : ℕ) (i : ℤ) → issued next i ≡ true → issued (next + 1) i ≡ true
unfolding issued
issued_later next i h = ground arith

issued_last : (next : ℕ) → issued (next + 1) (pos next) ≡ true
unfolding issued
issued_last next = ground arith

module _ (t : Tables) (valid : IsConsistent t) (row : BatchRow) where
  -- Writing a checked row over the one with its identifier.
  pub overwrite-IsConsistent :
      (old : BatchRow)
      → find (has_id row.id) t.batches ≡ some old
      → refusal row t.batches ≡ none
      → issued t.next_batch_id row.id ≡ true
      → IsConsistent (record t { batches = overwrite (has_id row.id) row t.batches })
  overwrite-IsConsistent old found accepted known =
      let after = one_after_update t.batches row old valid.ids_unique found in
      let ids = same_ids t.batches row old valid.ids_unique found in
      record {
        ids_unique = λ i. omega (arith, ids i, valid.ids_unique i);
        one_per_employee = λ i.
            after (employee_in_flight i) (valid.one_per_employee i)
              (employee_free row t.batches i accepted);
        one_per_job_position = λ i.
            after (job_position_in_flight i) (valid.one_per_job_position i)
              (job_position_free row t.batches i accepted);
        rows_checked =
            All-overwrite (λ (r : BatchRow). row_checked r ≡ true) (has_id row.id) row t.batches
              (refusal_checked row t.batches accepted) valid.rows_checked;
        ids_issued =
            All-overwrite (λ (r : BatchRow). issued t.next_batch_id r.id ≡ true) (has_id row.id) row
              t.batches known valid.ids_issued;
        referenced =
            All-mono (λ (r : RecommendationRow). batch_exists r.batch_id t.batches ≡ true)
              (λ (r : RecommendationRow).
                batch_exists r.batch_id (overwrite (has_id row.id) row t.batches) ≡ true)
              t.recommendations (λ r h. exists_same r.batch_id t.batches _ (ids r.batch_id) h)
              valid.referenced;
      }

  -- Appending a checked row with a fresh identifier.
  pub append-IsConsistent :
      count (has_id row.id) t.batches ≡ 0
      → refusal row t.batches ≡ none
      → row.id ≡ pos t.next_batch_id
      → IsConsistent
          (record t { batches = t.batches ++ row ∷ []; next_batch_id = t.next_batch_id + 1 })
  append-IsConsistent fresh accepted next =
      let after = one_after_insert t.batches row fresh in
      record {
        ids_unique =
            λ i. after (has_id i) (valid.ids_unique i) (λ h. no_other_id t.batches row i fresh h);
        one_per_employee = λ i.
            after (employee_in_flight i) (valid.one_per_employee i)
              (employee_free row t.batches i accepted);
        one_per_job_position = λ i.
            after (job_position_in_flight i) (valid.one_per_job_position i)
              (job_position_free row t.batches i accepted);
        rows_checked =
            All-append (λ (r : BatchRow). row_checked r ≡ true) t.batches (row ∷ [])
              valid.rows_checked (refusal_checked row t.batches accepted, tt);
        ids_issued =
            All-append (λ (r : BatchRow). issued (t.next_batch_id + 1) r.id ≡ true) t.batches
              (row ∷ [])
              (All-mono (λ (r : BatchRow). issued t.next_batch_id r.id ≡ true)
                (λ (r : BatchRow). issued (t.next_batch_id + 1) r.id ≡ true) t.batches
                (λ r h. issued_later t.next_batch_id r.id h) valid.ids_issued)
              (rw next (issued_last t.next_batch_id), tt);
        referenced =
            All-mono (λ (r : RecommendationRow). batch_exists r.batch_id t.batches ≡ true)
              (λ (r : RecommendationRow). batch_exists r.batch_id (t.batches ++ row ∷ []) ≡ true)
              t.recommendations (λ r h. unfold batch_exists in rw (any-append, h)) valid.referenced;
      }
