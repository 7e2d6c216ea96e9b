-- ===== src/Database/Opening.antt =====
-- What the insertion of a batch makes where its subject has none in flight.
use laburi_to.Base.{
  ℤ, pos, ◌≡◌, refl, ◌∙◌, true, false, Bool, some, none, List, [], ◌∷◌, ◌++◌, any, find, count,
  arith, ◌+◌, ap, subst, int_eq, int_beq_iff,
}
use laburi_to.Errors.{ok}
use laburi_to.Recommendation.Models.{employee, exclusive, status_valid}
use laburi_to.Database.Schema.{
  Tables, IsConsistent, has_id, in_flight, of_employee, employee_in_flight, row_checked,
  employee_exists,
}
use laburi_to.Database.Consistency.{not_issued}
use laburi_to.Database.Preservation.{create_batch_row-IsConsistent}
use laburi_to.Database.Batches.{
  CreateBatchParams, collides, refusal, new_batch_row, inserted, create_batch_row, subject_exists,
}
use laburi_to.Database.Refusal.{others_unissued, any_same}
use laburi_to.Database.Closing.{IsActive}

-- The columns of a batch of an employee.
abbrev pub of_one_employee : ℤ → CreateBatchParams
of_one_employee i = record { subject_type = employee; employee_id = some i; job_position_id = none }

-- The tables after the insertion of a batch.
abbrev pub opened_tables : CreateBatchParams → Tables → Tables
opened_tables arg t = record t {
  batches = t.batches ++ new_batch_row arg t ∷ [];
  next_batch_id = t.next_batch_id + 1;
}

find_last {ℓ} :
    {A : Type ℓ} (p : A → Bool) (xs : List A) (y : A)
    → count p xs ≡ 0
    → p y ≡ true
    → find p (xs ++ y ∷ []) ≡ some y
unfolding find count
find_last p [] y h k = rw k refl
find_last p (x ∷ xs) y h k = ground (arith, find_last p xs y)

free_of_collisions :
    (i : ℤ) (t : Tables)
    → any (employee_in_flight i) t.batches ≡ false
    → any (collides (new_batch_row (of_one_employee i) t)) t.batches ≡ false
unfolding collides new_batch_row employee_in_flight of_employee
free_of_collisions i t h = any_same _ _ t.batches (λ r. ground arith) ∙ h

pub create_batch_row-opened :
    (i : ℤ) (t : Tables)
    → IsConsistent t
    → employee_exists i t ≡ true
    → any (employee_in_flight i) t.batches ≡ false
    → create_batch_row (of_one_employee i) t
      ≡ (ok (new_batch_row (of_one_employee i) t), opened_tables (of_one_employee i) t)
unfolding create_batch_row refusal inserted in_flight new_batch_row subject_exists row_checked
    exclusive status_valid employee_exists
create_batch_row-opened i t v there free =
    rw (others_unissued t v) (rw (free_of_collisions i t free) (rw there refl))

pub opened-IsActive :
    (i : ℤ) (t : Tables)
    → IsConsistent t
    → employee_exists i t ≡ true
    → any (employee_in_flight i) t.batches ≡ false
    → IsActive (pos t.next_batch_id) (opened_tables (of_one_employee i) t)
unfolding in_flight new_batch_row has_id
opened-IsActive i t v there free = record {
  consistent =
      subst IsConsistent (ap (λ r. r.1) (create_batch_row-opened i t v there free))
        (create_batch_row-IsConsistent (of_one_employee i) t v);
  row = new_batch_row (of_one_employee i) t;
  found =
      find_last (has_id (pos t.next_batch_id)) t.batches (new_batch_row (of_one_employee i) t)
        (not_issued t.next_batch_id t.batches v.ids_issued)
        ((int_beq_iff (pos t.next_batch_id) (pos t.next_batch_id)).1 refl);
  active = refl;
}
