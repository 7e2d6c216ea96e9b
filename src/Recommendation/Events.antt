-- ===== src/Recommendation/Events.antt =====
-- internal/recommendation/events.go and decodeJobRequestedEvent of worker.go. The JSON of a message
-- is read and written by `encoding/json`, which enters as two functions.
pub mod RoundTrip
use laburi_to.Base.{
  ℕ, ℤ, pos, String, ◌≡◌, Option, none, some, if◌then◌else◌, ◌||◌, not, int_leb, ◌==◌, int_eq,
}
use laburi_to.Errors.{Result, ok, err, sentinel, wrap, unreadable_message, unknown_version}
use laburi_to.Recommendation.Models.{SubjectType, Batch, batch_subject_id, subject_type_valid}

abbrev pub job_requested_version : ℤ
job_requested_version = pos 1

-- A clock value stands for the time in UTC.
pub record JobRequestedEvent : Type 0 where
  pub event_id : String
  pub version : ℤ
  pub subject_type : SubjectType
  pub subject_id : ℤ
  pub batch_id : ℤ
  pub emitted_at : ℕ

unfoldable built : String → Batch → ℕ → Result ℤ → Result JobRequestedEvent
built event_id batch emitted_at (err e) = err e
built event_id batch emitted_at (ok subject_id) = ok (record {
  event_id = event_id;
  version = job_requested_version;
  subject_type = batch.subject_type;
  subject_id = subject_id;
  batch_id = batch.id;
  emitted_at = emitted_at;
})

unfoldable pub new_job_requested_event : String → Batch → ℕ → Result JobRequestedEvent
unfolding built
new_job_requested_event event_id batch emitted_at =
    built event_id batch emitted_at (batch_subject_id batch)

-- json.Marshal and json.Unmarshal on the event; none is a body that is not such an object.
pub record Codec : Type 0 where
  pub marshal : JobRequestedEvent → Result String
  pub unmarshal : String → Option JobRequestedEvent

unfoldable wrapped_body : Result String → Result String
wrapped_body (ok body) = ok body
wrapped_body (err e) = err (wrap e)

-- JobRequestedEvent.Body
unfoldable pub event_body : Codec → JobRequestedEvent → Result String
unfolding wrapped_body
event_body codec event = wrapped_body (codec.marshal event)

unfoldable checked : Option JobRequestedEvent → Result JobRequestedEvent
checked none = err (wrap (sentinel unreadable_message))
checked (some event) =
    if event.version == job_requested_version
    then if int_leb event.batch_id (pos 0) || not (subject_type_valid event.subject_type)
      then err (wrap (sentinel unreadable_message))
      else ok event
    else err (wrap (sentinel unknown_version))

unfoldable pub decode_job_requested_event : Codec → String → Result JobRequestedEvent
unfolding checked
decode_job_requested_event codec body = checked (codec.unmarshal body)
