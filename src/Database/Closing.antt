-- ===== src/Database/Closing.antt =====
-- Which statements succeed on a batch in flight, and what they make of it.
use laburi_to.Base.{
  find-and, ℤ, ◌≡◌, refl, Bool, true, false, ◌&&◌, ◌||◌, int_eq, int_beq_iff, Option, none, some,
  List, any, find, arith, inl, inr, count, weight, count-keep-not, count_mono, All-find, any-true,
  Bool-cases, find-some, overwrite, subst, ◌==◌, sym, find-overwrite_self,
}
use laburi_to.Errors.{ok, Result}
use laburi_to.Recommendation.Models.{
  BatchStatus, processing, exclusive, employee, job_position, SubjectType, status_valid,
}
use laburi_to.Database.Preservation.{claim_row-IsConsistent}
use laburi_to.Database.Schema.{
  BatchRow, Tables, IsConsistent, has_id, in_flight, holds, of_employee, of_job_position,
  employee_in_flight, job_position_in_flight, row_checked,
}
use laburi_to.Database.Batches.{
  shares, collides, others, refusal, restamped, transition_row, update_found, updated, claim_row,
}

-- A batch of a consistent database that is in flight.
pub record IsActive (i : ℤ) (t : Tables) : Type 0 where
  pub consistent : IsConsistent t
  pub row : BatchRow
  pub found : find (has_id i) t.batches ≡ some row
  pub active : in_flight row.status ≡ true

-- The batch that has this identifier has this status.
pub record HasStatus (i : ℤ) (status : BatchStatus) (t : Tables) : Type 0 where
  pub row : BatchRow
  pub found : find (has_id i) t.batches ≡ some row
  pub is_status : row.status ≡ status

pub checked_of :
    (i : ℤ) (t : Tables) (row : BatchRow)
    → IsConsistent t
    → find (has_id i) t.batches ≡ some row
    → row_checked row ≡ true
checked_of i t row v found =
    All-find (λ (r : BatchRow). row_checked r ≡ true) (has_id i) t.batches row v.rows_checked found

-- A transition to a closed status is never refused.
closing_accepted :
    (t : Tables) (row : BatchRow) (status : BatchStatus)
    → row_checked row ≡ true
    → status_valid status ≡ true
    → in_flight status ≡ false
    → refusal (restamped status t row) t.batches ≡ none
unfolding refusal row_checked
closing_accepted t row status h v f = ground arith

restamped_checked :
    (t : Tables) (row : BatchRow) (status : BatchStatus)
    → row_checked row ≡ true
    → status_valid status ≡ true
    → row_checked (restamped status t row) ≡ true
unfolding row_checked
restamped_checked t row status h v = ground arith

-- A row in flight is the only one under its key.
module _ (t : Tables) (v : IsConsistent t) (row : BatchRow)
    (found : find (has_id row.id) t.batches ≡ some row) (active : in_flight row.status ≡ true) where
  alone_employee :
      (i : ℤ)
      → holds i row.employee_id ≡ true
      → count (employee_in_flight i) (others row.id t.batches) ≡ 0
  unfolding others
  alone_employee i h =
      let here : weight (employee_in_flight i row) ≡ 1 =
        unfold employee_in_flight of_employee in ground arith in
      omega (
        arith,
        v.one_per_employee i,
        count-keep-not (employee_in_flight i) (has_id row.id) row t.batches (v.ids_unique row.id)
            found,
      )

  alone_job_position :
      (i : ℤ)
      → holds i row.job_position_id ≡ true
      → count (job_position_in_flight i) (others row.id t.batches) ≡ 0
  unfolding others
  alone_job_position i h =
      let here : weight (job_position_in_flight i row) ≡ 1 =
        unfold job_position_in_flight of_job_position in ground arith in
      omega (
        arith,
        v.one_per_job_position i,
        count-keep-not (job_position_in_flight i) (has_id row.id) row t.batches
            (v.ids_unique row.id) found,
      )

no_rival :
    (type : SubjectType) (e j : Option ℤ) (xs : List BatchRow)
    → exclusive type e j ≡ true
    → ((i : ℤ) → holds i e ≡ true → count (employee_in_flight i) xs ≡ 0)
    → ((i : ℤ) → holds i j ≡ true → count (job_position_in_flight i) xs ≡ 0)
    → count
        (λ (r : BatchRow).
          (shares e r.employee_id || shares j r.job_position_id) && in_flight r.status)
        xs
      ≡ 0
unfolding exclusive
no_rival employee (some i) none xs h a b = omega (
  arith,
  a i ((int_beq_iff i i).1 refl),
  count_mono (λ (r : BatchRow). (shares (some i) r.employee_id || false) && in_flight r.status)
      (employee_in_flight i) xs (λ r k. unfold employee_in_flight of_employee in ground arith),
)
no_rival job_position none (some i) xs h a b = omega (
  arith,
  b i ((int_beq_iff i i).1 refl),
  count_mono (λ (r : BatchRow). (false || shares (some i) r.job_position_id) && in_flight r.status)
      (job_position_in_flight i) xs
      (λ r k. unfold job_position_in_flight of_job_position in ground arith),
)
no_rival _ _ _ xs h a b = cc

no_count-any {ℓ} : {A : Type ℓ} (p : A → Bool) (xs : List A) → count p xs ≡ 0 → any p xs ≡ false
no_count-any p xs h = elim (Bool-cases (any p xs)) [
  | inl e ↦ absurd (omega (arith, any-true p xs e))
  | inr e ↦ e
]

-- In a consistent database a claim of a batch in flight is never refused.
claim_accepted :
    (t : Tables) (row : BatchRow)
    → IsConsistent t
    → find (has_id row.id) t.batches ≡ some row
    → in_flight row.status ≡ true
    → refusal (restamped processing t row) t.batches ≡ none
unfolding refusal row_checked
claim_accepted t row v found active =
    let checked = checked_of row.id t row v found in
    let exclusive_row : exclusive row.subject_type row.employee_id row.job_position_id ≡ true =
      ground arith in
    let free : any (collides (restamped processing t row)) (others row.id t.batches) ≡ false =
      unfold collides in
      no_count-any (collides (restamped processing t row)) (others row.id t.batches) (
        no_rival row.subject_type row.employee_id row.job_position_id (others row.id t.batches)
          exclusive_row (alone_employee t v row found active)
          (alone_job_position t v row found active)) in
    unfold status_valid in ground arith

own_id :
    (i : ℤ) (rows : List BatchRow) (row : BatchRow) → find (has_id i) rows ≡ some row → row.id ≡ i
unfolding has_id
own_id i rows row h = (int_beq_iff row.id i).0 (find-some (λ (r : BatchRow). r.id == i) rows row h)

-- A write that is accepted replaces the row that was found.
written :
    (i : ℤ) (t : Tables) (row : BatchRow) (status : BatchStatus)
    → find (has_id i) t.batches ≡ some row
    → find (has_id i) (overwrite (has_id row.id) (restamped status t row) t.batches)
      ≡ some (restamped status t row)
written i t row status found =
    let e = own_id i t.batches row found in
    subst
      (λ (k : ℤ).
        find (has_id i) (overwrite (has_id k) (restamped status t row) t.batches)
        ≡ some (restamped status t row))
      (sym e)
      (find-overwrite_self (has_id i) (restamped status t row) row t.batches
        (unfold has_id in (int_beq_iff row.id i).1 e) found)

module _ (i : ℤ) (t : Tables) where
  abbrev rewritten : BatchStatus → BatchRow → Tables
  rewritten status row = record t {
    batches = overwrite (has_id row.id) (restamped status t row) t.batches;
  }

  transition_row-ok :
      (row : BatchRow) (status : BatchStatus)
      → find (has_id i) t.batches ≡ some row
      → refusal (restamped status t row) t.batches ≡ none
      → transition_row i status t ≡ (ok (restamped status t row), rewritten status row)
  unfolding transition_row update_found updated
  transition_row-ok row status found accepted =
      rw (found, update_found) (rw (accepted, updated) refl)

  -- A batch in flight can be closed.
  pub transition_row-closes :
      (status : BatchStatus)
      → status_valid status ≡ true
      → in_flight status ≡ false
      → IsActive i t
      → (row : BatchRow) × (after : Tables) × (transition_row i status t ≡ (ok row, after))
        × (HasStatus i status after × (row_checked row ≡ true))
  transition_row-closes status known closed a = (
    restamped status t a.row,
    rewritten status a.row,
    transition_row-ok a.row status a.found
        (closing_accepted t a.row status (checked_of i t a.row a.consistent a.found) known closed),
    (
      record {
        row = restamped status t a.row;
        found = written i t a.row status a.found;
        is_status = refl;
      },
      restamped_checked t a.row status (checked_of i t a.row a.consistent a.found) known,
    ),
  )

  claim_row-ok :
      (row : BatchRow)
      → find (has_id i) t.batches ≡ some row
      → in_flight row.status ≡ true
      → refusal (restamped processing t row) t.batches ≡ none
      → claim_row i t ≡ (ok (restamped processing t row), rewritten processing row)
  unfolding claim_row update_found updated
  claim_row-ok row found active accepted =
      rw (find-and (has_id i) (λ r. in_flight r.status) t.batches row found active, update_found)
        (rw (accepted, updated) refl)

  -- A batch in flight can be claimed, and is in flight afterwards.
  pub claim_row-claims :
      IsActive i t
      → (row : BatchRow) × (after : Tables) × (claim_row i t ≡ (ok row, after)) × IsActive i after
  claim_row-claims a =
      let own = own_id i t.batches a.row a.found in
      let by_own = subst (λ (k : ℤ). find (has_id k) t.batches ≡ some a.row) (sym own) a.found in
      let step =
        claim_row-ok a.row a.found a.active (claim_accepted t a.row a.consistent by_own a.active) in
      (
        restamped processing t a.row,
        rewritten processing a.row,
        step,
        record {
          consistent =
              subst (λ (r : Result BatchRow × Tables). IsConsistent r.1) step
                (claim_row-IsConsistent i t a.consistent);
          row = restamped processing t a.row;
          found = written i t a.row processing a.found;
          active = unfold in_flight in refl;
        },
      )
