-- ===== src/Recommendation/Publisher/Undelivered.antt =====
-- A request whose message cannot be sent.
use laburi_to.Base.{ℕ, ℤ, pos, String, ◌≡◌, refl, true, false, Option, none, some, any}
use laburi_to.Errors.{GoError, Result, ok, err}
use laburi_to.Database.Schema.{Tables, IsConsistent, employee_in_flight, employee_exists}
use laburi_to.Database.Connection.{call, called, answered, on_error, pure, ◌>>=◌}
use laburi_to.Database.Batches.{new_batch_row}
use laburi_to.Database.Closing.{IsActive, HasStatus}
use laburi_to.Database.Opening.{
  of_one_employee, opened_tables, create_batch_row-opened, opened-IsActive,
}
use laburi_to.Database.Total.{calm}
use laburi_to.Queue.Client.{Client}
use laburi_to.Recommendation.Models.{new_employee_subject, subject_valid, exclusive, failed}
use laburi_to.Recommendation.Events.{Codec}
use laburi_to.Recommendation.Repo.{create_batch, batch_from_database}
use laburi_to.Recommendation.Repo.Progress.{transition_batch-closes}
use laburi_to.Recommendation.Publisher.{World, fail_batch, sent, emit, opened, publish_job}

-- Every send of the transport fails, as those of the disabled one do.
pub record IsDown {Q H : Type 0} (client : Client Q H) : Type 0 where
  pub down : (body : String) (q : Q) → (e : GoError) × ((client.send body q).0 ≡ some e)

-- An error is returned and the batch is failed.
abbrev pub IsRefused : {Q : Type 0} → ℤ → Option GoError × World Q → Type 0
IsRefused i r = ((e : GoError) × (r.0 ≡ some e)) × HasStatus i failed r.1.connection.tables

module _ {Q H : Type 0} (client : Client Q H) (codec : Codec) (event_id : String) (now : ℕ) where
  fail_batch-IsRefused :
      (i : ℤ) (cause : GoError) (t : Tables) (q : Q)
      → IsActive i t
      → IsRefused i
          (fail_batch client codec event_id now i cause (record { connection = calm t; queue = q }))
  unfolding fail_batch
  fail_batch-IsRefused i cause t q a =
      let (row, after, equal, post) = (transition_batch-closes i).at t a in
      ((cause, refl), rw equal post)

  sent-IsRefused :
      (i : ℤ) (t : Tables) (r : Option GoError × Q) (e : GoError)
      → r.0 ≡ some e
      → IsActive i t
      → IsRefused i (sent client codec event_id now i (calm t) r)
  unfolding sent
  sent-IsRefused i t (none, q) e h a = cc
  sent-IsRefused i t (some e', q) e h a = fail_batch-IsRefused i _ t q a

  emit-IsRefused :
      (i : ℤ) (r : Result String) (t : Tables) (q : Q)
      → IsDown client
      → IsActive i t
      → IsRefused i (emit client codec event_id now i r (record { connection = calm t; queue = q }))
  unfolding emit
  emit-IsRefused i (err e) t q d a = fail_batch-IsRefused i e t q a
  emit-IsRefused i (ok body) t q d a =
      let (e, h) = d.down body q in sent-IsRefused i t (client.send body q) e h a

  -- Where every send fails and no call of the database does, a request for an employee who has no
  -- batch in flight returns an error and leaves the batch that it opened failed, so that the next
  -- request is not blocked.
  pub publish_job_undelivered :
      (i : ℤ) (t : Tables) (q : Q)
      → IsDown client
      → IsConsistent t
      → employee_exists i t ≡ true
      → any (employee_in_flight i) t.batches ≡ false
      → IsRefused (pos t.next_batch_id) (
          publish_job client codec event_id now
            (new_employee_subject i)
            (record { connection = calm t; queue = q }))
  unfolding publish_job opened create_batch new_employee_subject subject_valid exclusive call called
      answered on_error pure ◌>>=◌ batch_from_database new_batch_row
  publish_job_undelivered i t q d v there free = rw (create_batch_row-opened i t v there free) (
      emit-IsRefused (pos t.next_batch_id) _ (opened_tables (of_one_employee i) t) q d
        (opened-IsActive i t v there free))
