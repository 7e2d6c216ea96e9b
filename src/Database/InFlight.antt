-- ===== src/Database/InFlight.antt =====
-- When a batch is in flight, and which statements leave it so.
use laburi_to.Base.{
  ℤ, String, ◌≡◌, refl, subst, Bool, true, ◌&&◌, ◌==◌, int_eq, int_beq_iff, Option, none, some,
  List, [], ◌∷◌, any, overwrite, arith,
}
use laburi_to.Errors.{GoError, err}
use laburi_to.Recommendation.Models.{BatchStatus, processing}
use laburi_to.Database.Schema.{BatchRow, Tables, has_id, in_flight}
use laburi_to.Database.Batches.{updated, update_found, restamped, transition_row, claim_row}

-- A batch with this identifier is pending or processing.
unfoldable pub open_batch : ℤ → BatchRow → Bool
open_batch i r = has_id i r && in_flight r.status

abbrev pub IsOpen : ℤ → Tables → Type 0
IsOpen i t = any (open_batch i) t.batches ≡ true

any-overwrite {ℓ} :
    {A : Type ℓ} (q p : A → Bool) (v : A) (xs : List A)
    → ((x : A) → p x ≡ true → q x ≡ true → q v ≡ true)
    → any q xs ≡ true
    → any q (overwrite p v xs) ≡ true
unfolding any overwrite
any-overwrite q p v [] h a = a
any-overwrite q p v (x ∷ xs) h a = ground (arith, h x, any-overwrite q p v xs h)

-- Two rows with the identifier of a row have the same identifier.
same_id :
    (i : ℤ) (x row : BatchRow) → has_id row.id x ≡ true → has_id i x ≡ true → has_id i row ≡ true
unfolding has_id
same_id i x row h k = subst (λ (n : ℤ). (n == i) ≡ true) ((int_beq_iff x.id row.id).0 h) k

reopened :
    (i : ℤ) (x row : BatchRow) (t : Tables)
    → has_id row.id x ≡ true
    → open_batch i x ≡ true
    → open_batch i (restamped processing t row) ≡ true
unfolding open_batch has_id in_flight
reopened i x row t h k = ground (arith, same_id i x row)

updated-IsOpen :
    (i : ℤ) (o : Option String) (row : BatchRow) (t : Tables)
    → ((x : BatchRow) → has_id row.id x ≡ true → open_batch i x ≡ true → open_batch i row ≡ true)
    → IsOpen i t
    → IsOpen i (updated o row t).1
unfolding updated
updated-IsOpen i (some state) row t k h = h
updated-IsOpen i none row t k h = any-overwrite (open_batch i) (has_id row.id) row t.batches k h

update_found-IsOpen :
    (i : ℤ) (o : Option BatchRow) (t : Tables)
    → IsOpen i t
    → IsOpen i (update_found o processing t).1
unfolding update_found
update_found-IsOpen i none t h = h
update_found-IsOpen i (some row) t h =
    updated-IsOpen i _ (restamped processing t row) t (λ x. reopened i x row t) h

-- A claim leaves every batch in flight that was.
pub claim_row-IsOpen : (i j : ℤ) (t : Tables) → IsOpen i t → IsOpen i (claim_row j t).1
unfolding claim_row
claim_row-IsOpen i j t h = update_found-IsOpen i _ t h

updated-err :
    (o : Option String) (row : BatchRow) (t : Tables) (e : GoError)
    → (updated o row t).0 ≡ err e
    → (updated o row t).1 ≡ t
unfolding updated
updated-err (some state) row t e h = refl
updated-err none row t e h = cc

update_found-err :
    (o : Option BatchRow) (status : BatchStatus) (t : Tables) (e : GoError)
    → (update_found o status t).0 ≡ err e
    → (update_found o status t).1 ≡ t
unfolding update_found
update_found-err none status t e h = refl
update_found-err (some row) status t e h = updated-err _ (restamped status t row) t e h

-- A transition that fails changes nothing.
pub transition_row-err :
    (i : ℤ) (status : BatchStatus) (t : Tables) (e : GoError)
    → (transition_row i status t).0 ≡ err e
    → (transition_row i status t).1 ≡ t
unfolding transition_row
transition_row-err i status t e h = update_found-err _ status t e h
