-- ===== src/Recommendation/Publisher/Safety.antt =====
-- What a request for recommendations leaves in the database and in the queue.
use laburi_to.Base.{ℕ, ℤ, String, ◌≡◌, refl, Option, none, some, Bool-cases, inl, inr}
use laburi_to.Errors.{GoError, Result, ok, err, is, batch_already_in_flight, ◌>>=◌}
use laburi_to.Database.Schema.{IsConsistent}
use laburi_to.Database.Connection.{Connection}
use laburi_to.Queue.Client.{Client}
use laburi_to.Recommendation.Models.{Batch, Subject, subject_valid, failed}
use laburi_to.Recommendation.Events.{Codec, new_job_requested_event, event_body}
use laburi_to.Recommendation.Repo.{create_batch}
use laburi_to.Recommendation.Repo.Consistency.{create_batch-Keeps, transition_batch-Keeps}
use laburi_to.Recommendation.Publisher.{World, fail_batch, sent, emit, opened, publish_job}

-- A send that fails has put nothing in the queue.
pub record RefusesCleanly {Q H : Type 0} (client : Client Q H) : Type 0 where
  pub refused :
      (body : String) (q : Q) (e : GoError)
      → (client.send body q).0 ≡ some e
      → (client.send body q).1 ≡ q

module _ {Q H : Type 0} (client : Client Q H) (codec : Codec) (event_id : String) (now : ℕ)
    (subject : Subject) where
  sent-IsConsistent :
      (i : ℤ) (c : Connection) (r : Option GoError × Q)
      → IsConsistent c.tables
      → IsConsistent (sent client codec event_id now i c r).1.connection.tables
  unfolding sent fail_batch
  sent-IsConsistent i c (none, q) v = v
  sent-IsConsistent i c (some e, q) v = (transition_batch-Keeps i failed).at c v

  emit-IsConsistent :
      (i : ℤ) (r : Result String) (w : World Q)
      → IsConsistent w.connection.tables
      → IsConsistent (emit client codec event_id now i r w).1.connection.tables
  unfolding emit fail_batch
  emit-IsConsistent i (err e) w v = (transition_batch-Keeps i failed).at w.connection v
  emit-IsConsistent i (ok body) w v = sent-IsConsistent i w.connection (client.send body w.queue) v

  opened-IsConsistent :
      (q : Q) (r : Result Batch) (c : Connection)
      → IsConsistent c.tables
      → IsConsistent (opened client codec event_id now q (r, c)).1.connection.tables
  unfolding opened
  opened-IsConsistent q (err e) c v = elim (Bool-cases (is e batch_already_in_flight)) [
    | inl k ↦ rw k v
    | inr k ↦ rw k v
  ]
  opened-IsConsistent q (ok batch) c v =
      emit-IsConsistent batch.id (new_job_requested_event event_id batch now >>= event_body codec)
        (record { connection = c; queue = q }) v

  -- A consistent database is consistent after any request, with any transport, whichever calls of
  -- the database fail: in particular at most one batch of each subject is in flight.
  pub publish_job-IsConsistent :
      (w : World Q)
      → IsConsistent w.connection.tables
      → IsConsistent (publish_job client codec event_id now subject w).1.connection.tables
  unfolding publish_job
  publish_job-IsConsistent w v = elim (Bool-cases (subject_valid subject)) [
    | inl k ↦
        let (r, after) = create_batch subject w.connection in
        rw k (opened-IsConsistent w.queue r after ((create_batch-Keeps subject).at w.connection v))
    | inr k ↦ rw k v
  ]

module _ {Q H : Type 0} (client : Client Q H) (codec : Codec) (event_id : String) (now : ℕ)
    (clean : RefusesCleanly client) where
  sent-silent :
      (i : ℤ) (c : Connection) (e : GoError) (q : Q) (r : Option GoError × Q)
      → ((e' : GoError) → r.0 ≡ some e' → r.1 ≡ q)
      → (sent client codec event_id now i c r).0 ≡ some e
      → (sent client codec event_id now i c r).1.queue ≡ q
  unfolding sent fail_batch
  sent-silent i c e q (none, q') h k = cc
  sent-silent i c e q (some e', q') h k = h e' refl

  emit-silent :
      (i : ℤ) (e : GoError) (r : Result String) (w : World Q)
      → (emit client codec event_id now i r w).0 ≡ some e
      → (emit client codec event_id now i r w).1.queue ≡ w.queue
  unfolding emit fail_batch
  emit-silent i e (err _) w k = refl
  emit-silent i e (ok body) w k =
      sent-silent i w.connection e w.queue (client.send body w.queue)
        (λ e' h. clean.refused body w.queue e' h) k

  opened-silent :
      (e : GoError) (q : Q) (r : Result Batch) (c : Connection)
      → (opened client codec event_id now q (r, c)).0 ≡ some e
      → (opened client codec event_id now q (r, c)).1.queue ≡ q
  unfolding opened
  opened-silent e q (err e') c k = elim (Bool-cases (is e' batch_already_in_flight)) [
    | inl h ↦ rw h refl
    | inr h ↦ rw h refl
  ]
  opened-silent e q (ok batch) c k =
      emit-silent batch.id e (new_job_requested_event event_id batch now >>= event_body codec)
        (record { connection = c; queue = q }) k

  -- With a transport whose failed sends put nothing in the queue, a request that returns an error,
  -- wherever it failed, has published no message.
  pub publish_job-silent :
      (subject : Subject) (w : World Q) (e : GoError)
      → (publish_job client codec event_id now subject w).0 ≡ some e
      → (publish_job client codec event_id now subject w).1.queue ≡ w.queue
  unfolding publish_job
  publish_job-silent subject w e = elim (Bool-cases (subject_valid subject)) [
    | inl h ↦
        let (r, after) = create_batch subject w.connection in rw h (opened-silent e w.queue r after)
    | inr h ↦ rw h (λ k. refl)
  ]
