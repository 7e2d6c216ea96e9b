-- ===== src/Recommendation/Publisher.antt =====
-- internal/recommendation/publisher.go and triggers.go: the request for recommendations that a
-- write asks for. The clock and the identifier of the event are arguments.
pub mod Safety
pub mod Undelivered
pub mod Repeated
use laburi_to.Base.{ℕ, ℤ, String, Option, none, some, if◌then◌else◌}
use laburi_to.Errors.{
  GoError, Result, ok, err, is, sentinel, wrap, batch_already_in_flight, invalid_subject, ◌>>=◌,
}
use laburi_to.Database.Connection.{Connection}
use laburi_to.Queue.Client.{Client}
use laburi_to.Recommendation.Models.{
  Batch, Subject, subject_valid, failed, new_employee_subject, new_job_position_subject,
}
use laburi_to.Recommendation.Events.{Codec, new_job_requested_event, event_body}
use laburi_to.Recommendation.Repo.{create_batch, transition_batch}

-- What a request can change: the database and the transport.
pub record World (Q : Type 0) : Type 0 where
  pub connection : Connection
  pub queue : Q

abbrev pub Request : Type 0 → Type 0
Request Q = World Q → Option GoError × World Q

-- NoopJobPublisher
unfoldable pub noop_publish_job : {Q : Type 0} → Subject → Request Q
noop_publish_job subject w = (none, w)

module _ {Q H : Type 0} (client : Client Q H) (codec : Codec) (event_id : String) (now : ℕ) where
  -- The cause is returned whether or not the transition succeeds.
  unfoldable pub fail_batch : ℤ → GoError → Request Q
  fail_batch i cause w =
      (some cause, record w { connection = (transition_batch i failed w.connection).1 })

  unfoldable pub sent : ℤ → Connection → Option GoError × Q → Option GoError × World Q
  unfolding fail_batch
  sent i c (none, q) = (none, record { connection = c; queue = q })
  sent i c (some e, q) = fail_batch i (wrap e) (record { connection = c; queue = q })

  unfoldable pub emit : ℤ → Result String → Request Q
  unfolding sent
  emit i (err e) w = fail_batch i e w
  emit i (ok body) w = sent i w.connection (client.send body w.queue)

  unfoldable pub opened : Q → Result Batch × Connection → Option GoError × World Q
  unfolding emit
  opened q (err e, c) =
      if is e batch_already_in_flight
      then (none, record { connection = c; queue = q })
      else (some (wrap e), record { connection = c; queue = q })
  opened q (ok batch, c) =
      emit batch.id (new_job_requested_event event_id batch now >>= event_body codec)
        (record { connection = c; queue = q })

  -- QueueJobPublisher.PublishJob
  unfoldable pub publish_job : Subject → Request Q
  unfolding opened
  publish_job subject w =
      if subject_valid subject
      then opened w.queue (create_batch subject w.connection)
      else (some (sentinel invalid_subject), w)

-- Trigger, over any publisher
unfoldable pub employee_profile_completed : {Q : Type 0} → (Subject → Request Q) → ℤ → Request Q
employee_profile_completed publish i = publish (new_employee_subject i)

unfoldable pub job_position_published : {Q : Type 0} → (Subject → Request Q) → ℤ → Request Q
job_position_published publish i = publish (new_job_position_subject i)
