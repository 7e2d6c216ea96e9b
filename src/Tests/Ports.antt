-- ===== src/Tests/Ports.antt =====
-- Requests, messages and queries at concrete inputs.
use laburi_to.Recommendation.Publisher.Undelivered.{IsDown, IsRefused, publish_job_undelivered}
use laburi_to.Recommendation.Owners.{repository_ownership, employee_recommendations-owner}
use laburi_to.Base.{
  ℕ, ℤ, pos, negsuc, String, ◌≡◌, refl, Bool, true, false, Option, none, some, List, [], ◌∷◌, ◌==◌,
  string_eq, if◌then◌else◌, int_leb, arith, ◌<◌, ◌↔◌, ◌⊎◌, find, int_eq, ◌&&◌, any,
}
use laburi_to.Errors.{ok, sentinel, queue_disabled, wrap}
use laburi_to.Database.Schema.{
  Tables, IsConsistent, EmployeeRow, EmployerRow, JobPositionRow, employee_in_flight,
  job_position_in_flight, employee_exists,
}
use laburi_to.Database.Connection.{Connection, M, pure, call}
use laburi_to.Database.Profiles.{get_employee_owner, is_active}
use laburi_to.Database.Total.{calm}
use laburi_to.Queue.Client.{disabled}
use laburi_to.Queue.Fake.{Fake, Receipt, fake_client, new}
use laburi_to.Recommendation.Models.{
  new_employee_subject, new_job_position_subject, Page, completed, PageInfo, status_completed,
}
use laburi_to.Recommendation.Publisher.{World, publish_job}
use laburi_to.Recommendation.Publisher.Safety.{
  publish_job-IsConsistent, publish_job-silent, RefusesCleanly,
}
use laburi_to.Recommendation.Service.{
  Principal, role_employee, role_employer, SubjectOwnership, RecommendationStore, JobPositionOwner,
  RecommendationSet, RecommendationsResponse, job_recommendations, employee_recommendations,
}
use laburi_to.Recommendation.Models.{Batch, employee, pending}
use laburi_to.Recommendation.Events.{
  new_job_requested_event, event_body, decode_job_requested_event,
}
use laburi_to.Recommendation.Events.RoundTrip.{decode-event_body}
use laburi_to.Tests.{
  asked, waiting, closed, tables_with, waiting-IsConsistent, one_event, for_opening,
  closed-IsConsistent,
}

-- A request for the other side of the match: no batch of the job position is in flight yet.
abbrev before : World Fake
before = record { connection = calm (tables_with waiting); queue = new }

publish_job-IsConsistent_example :
    IsConsistent
      (publish_job fake_client one_event "e-2" 11
        (new_job_position_subject (pos 5))
        before).1.connection.tables
publish_job-IsConsistent_example =
    publish_job-IsConsistent fake_client one_event "e-2" 11 (new_job_position_subject (pos 5))
      before waiting-IsConsistent

disabled-RefusesCleanly : RefusesCleanly (disabled {Q = Fake} {H = Receipt})
unfolding disabled
disabled-RefusesCleanly = record { refused = λ body q e h. refl }

not_published :
    (publish_job
      (disabled {Q = Fake} {H = Receipt})
      one_event
      "e-2"
      11
      (new_job_position_subject (pos 5))
      before).0
    ≡ some (wrap (sentinel queue_disabled))
unfolding publish_job laburi_to.Recommendation.Models.subject_valid new_job_position_subject
    laburi_to.Recommendation.Repo.create_batch laburi_to.Database.Connection.◌>>=◌
    laburi_to.Database.Connection.on_error call laburi_to.Database.Batches.create_batch_row
    laburi_to.Database.Batches.refusal laburi_to.Database.Schema.row_checked
    laburi_to.Recommendation.Models.status_valid laburi_to.Database.Schema.in_flight
    laburi_to.Base.any laburi_to.Database.Batches.others laburi_to.Base.keep
    laburi_to.Database.Schema.has_id laburi_to.Base.int_beq laburi_to.Database.Batches.collides
    laburi_to.Database.Schema.job_position_exists pure
    laburi_to.Recommendation.Events.new_job_requested_event
    laburi_to.Recommendation.Models.batch_subject_id
    laburi_to.Recommendation.Repo.batch_from_database laburi_to.Recommendation.Events.event_body
    disabled
not_published = refl

publish_job-silent_example :
    (publish_job
      (disabled {Q = Fake} {H = Receipt})
      one_event
      "e-2"
      11
      (new_job_position_subject (pos 5))
      before).1.queue
    ≡ new
publish_job-silent_example =
    publish_job-silent disabled one_event "e-2" 11 disabled-RefusesCleanly
      (new_job_position_subject (pos 5)) before (wrap (sentinel queue_disabled)) not_published

abbrev owners : SubjectOwnership
owners = record {
  employee_owner = λ i. call (get_employee_owner i);
  job_position_owner = λ i. pure (record { employer_id = pos 2; user_id = pos 20 });
}

abbrev one_item : RecommendationStore ℕ ℕ
one_item = record {
  job_recommendations_for_employee =
      λ i page. pure (record { status = completed; items = 5 ∷ []; total = pos 1 });
  employee_recommendations_for_job_position =
      λ i page. pure (record { status = completed; items = 7 ∷ []; total = pos 1 });
}

abbrev first_page : Page
first_page = record { limit = pos 20; offset = pos 0 }

abbrev ana_user : Principal
ana_user = record { user_id = pos 70; role = role_employee }

abbrev employer_user : Principal
employer_user = record { user_id = pos 20; role = role_employer }

abbrev answer_of : ℕ → RecommendationsResponse ℕ
answer_of item = record {
  status = status_completed;
  items = item ∷ [];
  page = record { limit = pos 20; offset = pos 0; total = pos 1 };
}

ana_answered :
    (job_recommendations one_item owners (pos 7) first_page ana_user (calm (tables_with closed))).0
    ≡ ok (answer_of 5)
unfolding job_recommendations laburi_to.Database.Connection.◌>>=◌
    laburi_to.Recommendation.Service.authorize_profile_role pure call get_employee_owner
    laburi_to.Database.Batches.the_row laburi_to.Base.find laburi_to.Base.int_beq
    laburi_to.Recommendation.Models.query_status_from
ana_answered = refl

employer_answered :
    (employee_recommendations one_item owners
      (pos 5)
      first_page
      employer_user
      (calm (tables_with closed))).0
    ≡ ok (answer_of 7)
unfolding employee_recommendations laburi_to.Database.Connection.◌>>=◌
    laburi_to.Recommendation.Service.authorize_profile_role pure laburi_to.Base.int_beq
    laburi_to.Recommendation.Models.query_status_from
employer_answered = refl

abbrev first_batch : Batch
first_batch = record {
  id = pos 1;
  subject_type = employee;
  employee_id = some (pos 7);
  job_position_id = none;
  status = pending;
  created_at = 3;
  updated_at = 3;
}

event_built : new_job_requested_event "e-1" first_batch 4 ≡ ok asked
unfolding new_job_requested_event laburi_to.Recommendation.Models.batch_subject_id
event_built = refl

event_written : event_body one_event asked ≡ ok "job"
unfolding event_body
event_written = refl

positive_id : int_leb (pos 1) (pos 0) ≡ false
unfolding int_leb
positive_id = refl

decode-event_body_example : decode_job_requested_event one_event "job" ≡ ok asked
decode-event_body_example =
    decode-event_body one_event "e-1" first_batch 4 asked "job" event_built event_written refl
      positive_id

employer_answered_by_repository :
    (employee_recommendations one_item repository_ownership
      (pos 5)
      first_page
      employer_user
      (calm (tables_with closed))).0
    ≡ ok (answer_of 7)
unfolding employee_recommendations laburi_to.Database.Connection.◌>>=◌
    laburi_to.Recommendation.Service.authorize_profile_role pure repository_ownership
    laburi_to.Database.Connection.on_error call laburi_to.Database.Profiles.get_job_position_owner
    laburi_to.Database.Batches.the_row find laburi_to.Base.int_beq
    laburi_to.Recommendation.Models.query_status_from
employer_answered_by_repository = refl

employee_recommendations-owner_example :
    (employer_user.role ≡ role_employer)
    × (position : JobPositionRow) × (employer : EmployerRow) × (find
          (λ j. j.id == pos 5 && is_active j)
          (tables_with closed).job_positions
        ≡ some position)
    × (find (λ e. e.id == position.employer_id) (tables_with closed).employers ≡ some employer)
    × (employer.user_id ≡ pos 20)
employee_recommendations-owner_example =
    employee_recommendations-owner one_item (pos 5) first_page employer_user
      (calm (tables_with closed)) (answer_of 7) employer_answered_by_repository

opening_is_busy : any (job_position_in_flight (pos 5)) (tables_with for_opening).batches ≡ true
unfolding any job_position_in_flight laburi_to.Base.int_beq laburi_to.Database.Schema.in_flight
opening_is_busy = refl

disabled-IsDown : IsDown (disabled {Q = Fake} {H = Receipt})
unfolding disabled
disabled-IsDown = record { down = λ body q. (sentinel queue_disabled, refl) }

ana_exists : employee_exists (pos 7) (tables_with closed) ≡ true
unfolding employee_exists any laburi_to.Base.int_beq
ana_exists = refl

ana_is_free : any (employee_in_flight (pos 7)) (tables_with closed).batches ≡ false
unfolding any employee_in_flight laburi_to.Base.int_beq laburi_to.Database.Schema.in_flight
ana_is_free = refl

publish_job_undelivered_example : IsRefused (pos 2) (
    publish_job
      (disabled {Q = Fake} {H = Receipt})
      one_event
      "e-2"
      11
      (new_employee_subject (pos 7))
      (record { connection = calm (tables_with closed); queue = new }))
publish_job_undelivered_example =
    publish_job_undelivered disabled one_event "e-2" 11 (pos 7) (tables_with closed) new
      disabled-IsDown closed-IsConsistent ana_exists ana_is_free
