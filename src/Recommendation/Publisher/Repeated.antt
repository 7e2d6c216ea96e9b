-- ===== src/Recommendation/Publisher/Repeated.antt =====
-- A second request for a subject whose first one is still in flight.
use laburi_to.Base.{ℕ, ℤ, String, ◌≡◌, refl, true, none, any, string_eq}
use laburi_to.Errors.{is, as_pq}
use laburi_to.Database.Schema.{Tables, IsConsistent, employee_in_flight, job_position_in_flight}
use laburi_to.Database.Connection.{call, called, answered, on_error, ◌>>=◌}
use laburi_to.Database.Refusal.{
  skipped, create_batch_row-employee_busy, create_batch_row-job_position_busy,
}
use laburi_to.Database.Total.{calm}
use laburi_to.Queue.Client.{Client}
use laburi_to.Recommendation.Models.{
  new_employee_subject, new_job_position_subject, subject_valid, exclusive,
}
use laburi_to.Recommendation.Events.{Codec}
use laburi_to.Recommendation.Repo.{create_batch, classify_create_batch_error}
use laburi_to.Recommendation.Publisher.{
  publish_job, opened, employee_profile_completed, job_position_published,
}

module _ {Q H : Type 0} (client : Client Q H) (codec : Codec) (event_id : String) (now : ℕ) (i : ℤ)
    (t : Tables) (q : Q) (consistent : IsConsistent t) where
  -- Where no call of the database fails, a completed profile of an employee who has a batch in
  -- flight is no error, publishes nothing and opens no batch: only the sequence of batch identifiers
  -- advances.
  pub employee_profile_completed_repeated :
      any (employee_in_flight i) t.batches ≡ true
      → employee_profile_completed
          (publish_job client codec event_id now)
          i
          (record { connection = calm t; queue = q })
        ≡ (none, record { connection = calm (skipped t); queue = q })
  unfolding employee_profile_completed publish_job opened create_batch new_employee_subject
      subject_valid exclusive call called answered on_error ◌>>=◌ classify_create_batch_error is
      as_pq
  employee_profile_completed_repeated h = rw (create_batch_row-employee_busy i t consistent h) refl

  -- The same of a published job position that has a batch in flight.
  pub job_position_published_repeated :
      any (job_position_in_flight i) t.batches ≡ true
      → job_position_published
          (publish_job client codec event_id now)
          i
          (record { connection = calm t; queue = q })
        ≡ (none, record { connection = calm (skipped t); queue = q })
  unfolding job_position_published publish_job opened create_batch new_job_position_subject
      subject_valid exclusive call called answered on_error ◌>>=◌ classify_create_batch_error is
      as_pq
  job_position_published_repeated h = rw (create_batch_row-job_position_busy i t consistent h) refl
