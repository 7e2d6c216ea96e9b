-- ===== src/Tests/Positions.antt =====
-- Job positions at concrete inputs: the position of an employer, edited, deleted and created.
use laburi_to.Base.{
  ℕ, ℤ, pos, String, ◌≡◌, refl, Bool, true, false, Option, none, some, List, [], ◌∷◌, find, ◌==◌,
  int_eq, string_eq,
}
use laburi_to.Errors.{
  ok, err, sentinel, job_position_forbidden, job_position_not_found, subject_not_found,
}
use laburi_to.Database.Schema.{Tables}
use laburi_to.Database.Connection.{Connection}
use laburi_to.Database.Total.{calm}
use laburi_to.Database.JobPositions.{PositionColumns, active_with_id}
use laburi_to.Queue.Fake.{Fake, new}
use laburi_to.Recommendation.Candidates.{pairs_for_job_position}
use laburi_to.Recommendation.Owners.{job_position_owner}
use laburi_to.Recommendation.Publisher.{World}
use laburi_to.Recommendation.Service.{Principal, role_employer}
use laburi_to.JobPosition.Models.{JobPosition}
use laburi_to.JobPosition.Repo.{repository, get_active_job_position_by_id}
use laburi_to.JobPosition.Service.{
  create_job_position, update_job_position, delete_job_position, get_job_position,
}
use laburi_to.JobPosition.Service.Denied.{update_job_position-err}
use laburi_to.JobPosition.Service.Owned.{Owns, update_job_position-owner}
use laburi_to.JobPosition.Service.Deletion.{delete_job_position-gone}
use laburi_to.JobPosition.Service.RoundTrip.{AreIssued, get-create_job_position}
use laburi_to.Tests.{waiting, tables_with, opening}

abbrev timezones : String → Bool
timezones name = name == "America/Argentina/Buenos_Aires"

abbrev employer_20 : Principal
employer_20 = record { user_id = pos 20; role = role_employer }

abbrev request : PositionColumns
request = record {
  position = "frontend";
  role = "developer";
  required_experience = "1y";
  required_education_level = "tertiary";
  available_hours_per_day = pos 6;
  timezone = "America/Argentina/Buenos_Aires";
  technical_resources = some [];
}

abbrev start : World Fake
start = record { connection = calm (tables_with waiting); queue = new }

-- The position of another employer
abbrev foreign_start : World Fake
foreign_start = record {
  connection = calm (record (tables_with waiting) {
    job_positions = record opening { employer_id = pos 9 } ∷ [];
  });
  queue = new;
}

update_denied :
    (update_job_position (repository timezones) none (pos 5) request employer_20 foreign_start).0
    ≡ err (sentinel job_position_forbidden)
unfolding update_job_position laburi_to.Database.Connection.◌>>=◌
    laburi_to.Recommendation.Service.authorize_profile_role laburi_to.Database.Connection.pure
    repository laburi_to.JobPosition.Repo.get_employer_id_by_user_id
    laburi_to.Database.Connection.on_error laburi_to.Database.Connection.call
    laburi_to.Database.JobPositions.get_employer_by_user_id laburi_to.Database.Batches.the_row find
    laburi_to.Base.int_beq get_active_job_position_by_id
    laburi_to.Database.JobPositions.get_active_job_position_row
    laburi_to.Database.Profiles.is_active laburi_to.JobPosition.Models.normalize
    laburi_to.Database.Connection.raise
update_denied = refl

update_job_position-err_example :
    ((update_job_position
        (repository timezones)
        none
        (pos 5)
        request
        employer_20
        foreign_start).1.connection.tables
      ≡ foreign_start.connection.tables)
    × ((update_job_position
          (repository timezones)
          none
          (pos 5)
          request
          employer_20
          foreign_start).1.queue
        ≡ foreign_start.queue)
update_job_position-err_example =
    update_job_position-err timezones none (pos 5) request employer_20 foreign_start
      (sentinel job_position_forbidden) update_denied

delete_done :
    (delete_job_position (repository timezones) (pos 5) employer_20 start.connection).0 ≡ ok tt
unfolding delete_job_position laburi_to.Database.Connection.◌>>=◌
    laburi_to.Recommendation.Service.authorize_profile_role laburi_to.Database.Connection.pure
    repository laburi_to.JobPosition.Repo.get_employer_id_by_user_id
    laburi_to.Database.Connection.on_error laburi_to.Database.Connection.call
    laburi_to.Database.JobPositions.get_employer_by_user_id laburi_to.Database.Batches.the_row find
    laburi_to.Base.int_beq get_active_job_position_by_id
    laburi_to.Database.JobPositions.get_active_job_position_row
    laburi_to.Database.Profiles.is_active laburi_to.JobPosition.Models.normalize
    laburi_to.JobPosition.Repo.soft_delete_job_position
    laburi_to.Database.JobPositions.soft_delete_job_position_row
delete_done = refl

abbrev edited : JobPosition
edited = record {
  id = pos 5;
  employer_id = pos 2;
  position = "frontend";
  role = "developer";
  required_experience = "1y";
  required_education_level = "tertiary";
  available_hours_per_day = pos 6;
  timezone = "America/Argentina/Buenos_Aires";
  technical_resources = some [];
  created_at = 1;
  updated_at = 10;
}

update_done :
    (update_job_position (repository timezones) none (pos 5) request employer_20 start).0
    ≡ ok edited
unfolding update_job_position laburi_to.Database.Connection.◌>>=◌
    laburi_to.Recommendation.Service.authorize_profile_role laburi_to.Database.Connection.pure
    repository laburi_to.JobPosition.Repo.get_employer_id_by_user_id
    laburi_to.Database.Connection.on_error laburi_to.Database.Connection.call
    laburi_to.Database.JobPositions.get_employer_by_user_id laburi_to.Database.Batches.the_row find
    laburi_to.Base.int_beq get_active_job_position_by_id
    laburi_to.Database.JobPositions.get_active_job_position_row
    laburi_to.Database.Profiles.is_active laburi_to.JobPosition.Models.normalize
    laburi_to.JobPosition.Repo.update_active_job_position
    laburi_to.Database.JobPositions.update_active_job_position_row
    laburi_to.Database.JobPositions.position_checked laburi_to.Base.int_leb
update_done = refl

update_job_position-owner_example :
    (employer_20.role ≡ role_employer) × Owns (pos 20) (pos 5) (tables_with waiting)
update_job_position-owner_example =
    update_job_position-owner timezones none (pos 5) request employer_20 start edited update_done

abbrev emptied : Tables
emptied = (delete_job_position (repository timezones) (pos 5) employer_20 start.connection).1.tables

delete_job_position-gone_example :
    ((get_active_job_position_by_id (pos 5) (calm emptied)).0
      ≡ err (sentinel job_position_not_found))
    × ((job_position_owner (pos 5) (calm emptied)).0 ≡ err (sentinel subject_not_found))
    × ((pairs_for_job_position (pos 5) (calm emptied)).0 ≡ err (sentinel subject_not_found))
delete_job_position-gone_example =
    delete_job_position-gone timezones (pos 5) employer_20 start.connection tt delete_done

abbrev made : JobPosition
made = record edited { id = pos 6; created_at = 10 }

create_done :
    (create_job_position (repository timezones) none (pos 2) request employer_20 start).0 ≡ ok made
unfolding create_job_position laburi_to.Database.Connection.◌>>=◌
    laburi_to.Recommendation.Service.authorize_profile_role laburi_to.Database.Connection.pure
    repository laburi_to.JobPosition.Repo.get_employer_id_by_user_id
    laburi_to.Database.Connection.on_error laburi_to.Database.Connection.call
    laburi_to.Database.JobPositions.get_employer_by_user_id laburi_to.Database.Batches.the_row find
    laburi_to.Base.int_beq laburi_to.JobPosition.Repo.create_job_position
    laburi_to.Database.JobPositions.create_job_position_row
    laburi_to.Database.JobPositions.position_checked laburi_to.Base.int_leb laburi_to.Base.any
    laburi_to.JobPosition.Models.normalize
create_done = refl

positions_issued : AreIssued (tables_with waiting)
unfolding laburi_to.Database.Schema.issued
positions_issued = (refl, tt)

get-create_job_position_example :
    (get_job_position (repository timezones) (pos 6) employer_20 (
      calm
        (create_job_position
          (repository timezones)
          none
          (pos 2)
          request
          employer_20
          start).1.connection.tables)).0
    ≡ ok made
get-create_job_position_example =
    get-create_job_position timezones (pos 2) request employer_20 start made positions_issued
      create_done
