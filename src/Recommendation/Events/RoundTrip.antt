-- ===== src/Recommendation/Events/RoundTrip.antt =====
-- The worker reads back the message that the publisher writes.
use laburi_to.Base.{
  ℕ, ℤ, pos, String, ◌≡◌, refl, true, false, Option, some, int_leb, arith, int_eq, int_beq,
}
use laburi_to.Errors.{Result, ok, err}
use laburi_to.Recommendation.Models.{
  SubjectType, employee, job_position, other, Batch, batch_subject_id, single_subject,
  subject_type_valid,
}
use laburi_to.Recommendation.Events.{
  JobRequestedEvent, Codec, new_job_requested_event, event_body, decode_job_requested_event, built,
  checked,
}

single_subject-valid :
    (type : SubjectType) (e j : Option ℤ) (i : ℤ)
    → single_subject type e j ≡ ok i
    → subject_type_valid type ≡ true
unfolding single_subject subject_type_valid
single_subject-valid employee e j i h = refl
single_subject-valid job_position e j i h = refl
single_subject-valid (other _) e j i h = cc

built-checked :
    (event_id : String) (batch : Batch) (now : ℕ) (r : Result ℤ) (event : JobRequestedEvent)
    → ((i : ℤ) → r ≡ ok i → subject_type_valid batch.subject_type ≡ true)
    → int_leb batch.id (pos 0) ≡ false
    → built event_id batch now r ≡ ok event
    → checked (some event) ≡ ok event
unfolding built checked int_beq
built-checked event_id batch now (err e) event valid positive h = cc
built-checked event_id batch now (ok i) event valid positive h =
    let known = valid i refl in ground arith

-- The event of a batch with a positive identifier, in a body that JSON reads back as that event, is
-- decoded by the worker to the same event: what the publisher writes is never rejected.
pub decode-event_body :
    (codec : Codec) (event_id : String) (batch : Batch) (now : ℕ) (event : JobRequestedEvent)
    (body : String)
    → new_job_requested_event event_id batch now ≡ ok event
    → event_body codec event ≡ ok body
    → codec.unmarshal body ≡ some event
    → int_leb batch.id (pos 0) ≡ false
    → decode_job_requested_event codec body ≡ ok event
unfolding decode_job_requested_event new_job_requested_event batch_subject_id
decode-event_body codec event_id batch now event body h w read positive = rw read (
    built-checked event_id batch now (batch_subject_id batch) event
      (λ i e. single_subject-valid batch.subject_type batch.employee_id batch.job_position_id i e)
      positive h)
