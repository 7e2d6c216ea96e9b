-- ===== src/Recommendation/Models.antt =====
-- internal/recommendation/models.go, and batchSubjectID of events.go. A Go string type is the data
-- type of its declared constants, with `other` for any other text.
use laburi_to.Base.{ℕ, ℤ, pos, String, Bool, true, false, Option, none, some}
use laburi_to.Errors.{Result, ok, err, sentinel, invalid_subject}

pub data SubjectType : Type 0 where
  employee job_position : SubjectType
  other : String → SubjectType

unfoldable pub subject_type_valid : SubjectType → Bool
subject_type_valid employee = true
subject_type_valid job_position = true
subject_type_valid (other _) = false

pub data BatchStatus : Type 0 where
  pending processing completed failed : BatchStatus
  other : String → BatchStatus

unfoldable pub status_valid : BatchStatus → Bool
status_valid pending = true
status_valid processing = true
status_valid completed = true
status_valid failed = true
status_valid (other _) = false

-- Times are numbers of a clock; pointers that may be nil are options.
pub record Batch : Type 0 where
  pub id : ℤ
  pub subject_type : SubjectType
  pub employee_id : Option ℤ
  pub job_position_id : Option ℤ
  pub status : BatchStatus
  pub created_at : ℕ
  pub updated_at : ℕ

pub record Subject : Type 0 where
  pub type : SubjectType
  pub employee_id : Option ℤ
  pub job_position_id : Option ℤ

unfoldable pub new_employee_subject : ℤ → Subject
new_employee_subject i = record { type = employee; employee_id = some i; job_position_id = none }

unfoldable pub new_job_position_subject : ℤ → Subject
new_job_position_subject i = record {
  type = job_position;
  employee_id = none;
  job_position_id = some i;
}

-- exactly one of the two pointers is set, and the type says which
unfoldable pub exclusive : SubjectType → Option ℤ → Option ℤ → Bool
exclusive employee (some _) none = true
exclusive job_position none (some _) = true
exclusive _ _ _ = false

unfoldable pub subject_valid : Subject → Bool
unfolding exclusive
subject_valid s = exclusive s.type s.employee_id s.job_position_id

-- Subject.id
unfoldable pub subject_id : Subject → ℤ
subject_id s = elim s.employee_id [
  | some i ↦ i
  | none ↦ elim s.job_position_id [ some i ↦ i | none ↦ pos 0 ]
]

unfoldable pub single_subject : SubjectType → Option ℤ → Option ℤ → Result ℤ
single_subject employee (some i) none = ok i
single_subject job_position none (some i) = ok i
single_subject _ _ _ = err (sentinel invalid_subject)

unfoldable pub batch_subject_id : Batch → Result ℤ
unfolding single_subject
batch_subject_id b = single_subject b.subject_type b.employee_id b.job_position_id

pub record Candidate (F : Type 0) : Type 0 where
  pub employee_id : ℤ
  pub job_position_id : ℤ
  pub score : Option F

pub record Page : Type 0 where
  pub limit : ℤ
  pub offset : ℤ

pub record PageInfo : Type 0 where
  pub limit : ℤ
  pub offset : ℤ
  pub total : ℤ

pub data QueryStatus : Type 0 where
  status_none status_pending status_processing status_completed status_failed : QueryStatus

unfoldable pub query_status_from : BatchStatus → QueryStatus
query_status_from pending = status_pending
query_status_from processing = status_processing
query_status_from completed = status_completed
query_status_from failed = status_failed
query_status_from (other _) = status_none
