-- ===== src/Database/Refusal.antt =====
-- When the insertion of a batch is refused for another batch of its subject.
use laburi_to.Base.{
  ℤ, pos, ◌≡◌, refl, ◌∙◌, true, Bool, some, none, List, [], ◌∷◌, any, keep-absent, arith, ◌+◌,
}
use laburi_to.Errors.{err, pq_error}
use laburi_to.Recommendation.Models.{employee, job_position, exclusive, status_valid}
use laburi_to.Database.Schema.{
  Tables, IsConsistent, has_id, in_flight, of_employee, of_job_position, employee_in_flight,
  job_position_in_flight, row_checked,
}
use laburi_to.Database.Consistency.{not_issued}
use laburi_to.Database.Batches.{
  CreateBatchParams, collides, others, refusal, new_batch_row, inserted, create_batch_row,
}

-- The tables after a refused insertion: only the sequence has advanced.
abbrev pub skipped : Tables → Tables
skipped t = record t { next_batch_id = t.next_batch_id + 1 }

-- An identifier that the sequence has not handed out is that of no row.
pub others_unissued :
    (t : Tables) → IsConsistent t → others (pos t.next_batch_id) t.batches ≡ t.batches
unfolding others
others_unissued t v =
    keep-absent (has_id (pos t.next_batch_id)) t.batches
      (not_issued t.next_batch_id t.batches v.ids_issued)

collided :
    (arg : CreateBatchParams) (t : Tables)
    → IsConsistent t
    → row_checked (new_batch_row arg t) ≡ true
    → any (collides (new_batch_row arg t)) t.batches ≡ true
    → create_batch_row arg t ≡ (err (pq_error "23505"), skipped t)
unfolding create_batch_row refusal inserted in_flight new_batch_row
collided arg t v checked h = rw checked (rw (others_unissued t v) (rw h refl))

pub any_same {ℓ} :
    {A : Type ℓ} (p q : A → Bool) (xs : List A) → ((x : A) → p x ≡ q x) → any p xs ≡ any q xs
unfolding any
any_same p q [] h = refl
any_same p q (x ∷ xs) h = ground (arith, h x, any_same p q xs h)

-- An employee with a batch in flight gets no other.
pub create_batch_row-employee_busy :
    (i : ℤ) (t : Tables)
    → IsConsistent t
    → any (employee_in_flight i) t.batches ≡ true
    → create_batch_row
        (record { subject_type = employee; employee_id = some i; job_position_id = none })
        t
      ≡ (err (pq_error "23505"), skipped t)
unfolding row_checked exclusive status_valid new_batch_row collides employee_in_flight of_employee
create_batch_row-employee_busy i t v h =
    collided (record { subject_type = employee; employee_id = some i; job_position_id = none }) t v
      refl (any_same _ _ t.batches (λ r. ground arith) ∙ h)

-- Nor does a job position.
pub create_batch_row-job_position_busy :
    (i : ℤ) (t : Tables)
    → IsConsistent t
    → any (job_position_in_flight i) t.batches ≡ true
    → create_batch_row
        (record { subject_type = job_position; employee_id = none; job_position_id = some i })
        t
      ≡ (err (pq_error "23505"), skipped t)
unfolding row_checked exclusive status_valid new_batch_row collides job_position_in_flight
    of_job_position
create_batch_row-job_position_busy i t v h =
    collided (record { subject_type = job_position; employee_id = none; job_position_id = some i })
      t v refl (any_same _ _ t.batches (λ r. ground arith) ∙ h)
