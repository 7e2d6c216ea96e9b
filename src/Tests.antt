-- ===== src/Tests.antt =====
-- Concrete inputs on which the theorems are applied: a database with one pending batch of an
-- employee, one active job position and one employer, and a message that asks for that batch.
mod Ports
mod Reads
mod Positions
mod Profiles
mod Accounts
mod Certificates
mod Steps
mod Forms
mod Updates
mod Inputs
mod Jobs
use laburi_to.Base.{
  ℕ, ℤ, pos, String, ◌≡◌, refl, Bool, true, false, Option, none, some, List, [], ◌∷◌, count, find,
  any, All, arith, Bool-cases, inl, inr, weight, ◌≤◌, ◌<◌, ◌⊎◌, ◌↔◌, int_eq, nat_eq, int_leb, ltb,
}
use laburi_to.Errors.{
  GoError, Result, ok, err, error_of, is, sentinel, foreign, wrap, scoring_unavailable,
  subject_not_found, invalid_pair,
}
use laburi_to.Scoring.Models.{Pair, Outcome, EmployeeProfile, JobRequirements, unscored}
use laburi_to.Scoring.Scorer.{Scorer, MeetsContract, unavailable, unavailable-MeetsContract}
use laburi_to.Recommendation.Models.{
  job_position, employee, job_position, pending, completed, failed, processing, Batch, Page,
  status_valid, exclusive, new_employee_subject, Candidate,
}
use laburi_to.Recommendation.Events.{Codec, JobRequestedEvent, decode_job_requested_event}
use laburi_to.Database.Schema.{
  BatchRow, EmployeeRow, JobPositionRow, EmployerRow, UserRow, RecommendationRow, Tables,
  IsConsistent, has_id, in_flight, row_checked, issued, of_employee, of_job_position,
  employee_in_flight, job_position_in_flight, batch_exists,
}
use laburi_to.Database.Connection.{Connection}
use laburi_to.Database.Total.{calm}
use laburi_to.Database.Closing.{IsActive, HasStatus}
use laburi_to.Database.InFlight.{IsOpen, open_batch}
use laburi_to.Recommendation.Worker.{
  handle, acknowledges, scoring_available, is_terminal, store_results, candidates_from,
}
use laburi_to.Recommendation.Worker.Closing.{handle_closes, IsSettled}
use laburi_to.Recommendation.Worker.Redelivery.{store_results_stranded, store_results_vanished}
use laburi_to.Recommendation.Repo.{complete_batch}
use laburi_to.Recommendation.Repo.Failures.{complete_batch_atomic}
use laburi_to.Recommendation.Worker.Retry.{handle_retryable}
use laburi_to.Recommendation.Worker.Safety.{handle-IsConsistent}

abbrev pub waiting : BatchRow
waiting = record {
  id = pos 1;
  subject_type = employee;
  employee_id = some (pos 7);
  job_position_id = none;
  status = pending;
  created_at = 3;
  updated_at = 3;
}

abbrev pub ana : EmployeeRow
ana = record {
  id = pos 7;
  user_id = pos 70;
  position = "backend";
  role = "developer";
  years_of_experience = "1-3";
  available_hours_per_day = some (pos 8);
  timezone = none;
  tech = none;
  compatible_projects = none;
  incompatible_projects = none;
  internet_connections = [];
  education = [];
  certifications = none;
  portfolio_url = none;
  created_at = 1;
  updated_at = 2;
}

abbrev pub opening : JobPositionRow
opening = record {
  id = pos 5;
  employer_id = pos 2;
  position = "backend";
  role = "developer";
  required_experience = "1-3";
  required_education_level = "secondary";
  available_hours_per_day = pos 8;
  timezone = "America/Argentina/Buenos_Aires";
  technical_resources = [];
  created_at = 1;
  updated_at = 1;
  deleted_at = none;
}

abbrev pub acme : EmployerRow
acme = record {
  id = pos 2;
  user_id = pos 20;
  name = "acme";
  industry = "software";
  location = "AR";
  hiring_modalities = [];
  created_at = 1;
  updated_at = 1;
}

abbrev pub ana_account : UserRow
ana_account = record {
  id = pos 70;
  email = "ana@example.com";
  hashed_password = "h-70";
  role = "employee";
  created_at = 1;
  updated_at = 1;
}

abbrev pub acme_account : UserRow
acme_account = record {
  id = pos 20;
  email = "jobs@acme.com";
  hashed_password = "h-20";
  role = "employer";
  created_at = 1;
  updated_at = 1;
}

abbrev pub tables_with : BatchRow → Tables
tables_with row = record {
  users = ana_account ∷ acme_account ∷ [];
  refresh_tokens = [];
  batches = row ∷ [];
  recommendations = [];
  employees = ana ∷ [];
  employee_files = [];
  job_positions = opening ∷ [];
  employers = acme ∷ [];
  next_batch_id = 2;
  next_recommendation_id = 1;
  next_job_position_id = 6;
  next_employer_id = 3;
  next_user_id = 71;
  next_employee_id = 8;
  next_education_id = 1;
  next_file_id = 1;
  now = 10;
}

abbrev pub asked : JobRequestedEvent
asked = record {
  event_id = "e-1";
  version = pos 1;
  subject_type = employee;
  subject_id = pos 7;
  batch_id = pos 1;
  emitted_at = 4;
}

-- A codec that knows one event.
abbrev pub one_event : Codec
one_event = record { marshal = λ event. ok "job"; unmarshal = λ body. some asked }

abbrev pub two_places : ℕ → String
two_places score = "1.0000"

at_most_one : (p : BatchRow → Bool) (row : BatchRow) → count p (row ∷ []) ≤ 1
unfolding count
at_most_one p row = ground arith

pub waiting-IsConsistent : IsConsistent (tables_with waiting)
unfolding row_checked exclusive status_valid issued
waiting-IsConsistent = record {
  ids_unique = λ i. at_most_one (has_id i) waiting;
  one_per_employee = λ i. at_most_one (employee_in_flight i) waiting;
  one_per_job_position = λ i. at_most_one (job_position_in_flight i) waiting;
  rows_checked = (refl, tt);
  ids_issued = (refl, tt);
  referenced = tt;
}

abbrev pub for_opening : BatchRow
for_opening = record waiting {
  subject_type = job_position;
  employee_id = none;
  job_position_id = some (pos 5);
}

pub for_opening-IsConsistent : IsConsistent (tables_with for_opening)
unfolding row_checked exclusive status_valid issued
for_opening-IsConsistent = record {
  ids_unique = λ i. at_most_one (has_id i) for_opening;
  one_per_employee = λ i. at_most_one (employee_in_flight i) for_opening;
  one_per_job_position = λ i. at_most_one (job_position_in_flight i) for_opening;
  rows_checked = (refl, tt);
  ids_issued = (refl, tt);
  referenced = tt;
}

pub waiting-IsActive : IsActive (pos 1) (tables_with waiting)
unfolding find has_id in_flight laburi_to.Base.int_beq
waiting-IsActive = record {
  consistent = waiting-IsConsistent;
  row = waiting;
  found = refl;
  active = refl;
}

pub asked_decodes : decode_job_requested_event one_event "job" ≡ ok asked
unfolding decode_job_requested_event laburi_to.Base.int_beq int_leb
    laburi_to.Recommendation.Models.subject_type_valid
asked_decodes = refl

abbrev pub closed : BatchRow
closed = record waiting { status = completed }

pub closed-IsConsistent : IsConsistent (tables_with closed)
unfolding row_checked exclusive status_valid issued
closed-IsConsistent = record {
  ids_unique = λ i. at_most_one (has_id i) closed;
  one_per_employee = λ i. at_most_one (employee_in_flight i) closed;
  one_per_job_position = λ i. at_most_one (job_position_in_flight i) closed;
  rows_checked = (refl, tt);
  ids_issued = (refl, tt);
  referenced = tt;
}
