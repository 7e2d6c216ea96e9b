-- ===== src/Errors.antt =====
-- Go error values: the sentinels that the modelled packages declare, the errors of the PostgreSQL
-- driver, errors of any other origin, and the two ways in which `fmt.Errorf` wraps with `%w`.
-- Messages are left out: the program decides by `errors.Is` and `errors.As` alone.
use laburi_to.Base.{
  ℕ, String, ◌≡◌, refl, Bool, false, ◌||◌, Option, none, some, ◌==◌, nat_eq, ◌⊎◌, inr, inl,
}

-- internal/recommendation/errors.go, worker.go, internal/scoring/errors.go,
-- internal/queue/errors.go, internal/user/models.go and errors.go, internal/auth/jwt.go, internal/employee/errors.go,
-- internal/jobposition/errors.go, internal/employer/errors.go, internal/files/get_pdf_file.go, and `sql.ErrNoRows`.
pub data Sentinel : Type 0 where
  no_rows : Sentinel
  batch_not_found batch_already_in_flight subject_not_found batch_not_claimable : Sentinel
  invalid_subject invalid_batch_status no_current_batch : Sentinel
  invalid_pagination recommendations_forbidden : Sentinel
  unreadable_message unknown_version scoring_failed : Sentinel
  scoring_unavailable invalid_pair invalid_experience_level invalid_education_level : Sentinel
  queue_disabled missing_queue_config invalid_queue_config : Sentinel
  profile_role_forbidden : Sentinel
  profile_access_forbidden employee_profile_not_found : Sentinel
  employer_profile_required job_position_not_found job_position_forbidden : Sentinel
  invalid_timezone : Sentinel
  invalid_certifications invalid_profile_timezone file_not_found : Sentinel
  invalid_user_role invalid_credentials could_not_validate_user invalid_token : Sentinel
  employer_not_found employer_already_exists employer_profile_conflict : Sentinel
  invalid_file file_too_large unsupported_file_type : Sentinel

abbrev code : Sentinel → ℕ
code no_rows = 0
code batch_not_found = 1
code batch_already_in_flight = 2
code subject_not_found = 3
code batch_not_claimable = 4
code invalid_subject = 5
code invalid_batch_status = 6
code no_current_batch = 7
code invalid_pagination = 8
code recommendations_forbidden = 9
code unreadable_message = 10
code unknown_version = 11
code scoring_failed = 12
code scoring_unavailable = 13
code invalid_pair = 14
code invalid_experience_level = 15
code invalid_education_level = 16
code queue_disabled = 17
code missing_queue_config = 18
code invalid_queue_config = 19
code profile_role_forbidden = 20
code profile_access_forbidden = 21
code employee_profile_not_found = 22
code employer_profile_required = 23
code job_position_not_found = 24
code job_position_forbidden = 25
code invalid_timezone = 26
code employer_not_found = 27
code employer_already_exists = 28
code employer_profile_conflict = 29
code invalid_user_role = 30
code invalid_credentials = 31
code could_not_validate_user = 32
code invalid_token = 33
code invalid_certifications = 34
-- ErrInvalidTimezone of internal/employee
code invalid_profile_timezone = 35
code file_not_found = 36
code invalid_file = 37
code file_too_large = 38
code unsupported_file_type = 39

pub data GoError : Type 0 where
  -- a package variable made by errors.New
  sentinel : Sentinel → GoError
  -- *pq.Error with its SQLSTATE code
  pq_error : String → GoError
  -- an error that is none of the above and wraps none
  foreign : String → GoError
  -- fmt.Errorf("…: %w", err)
  wrap : GoError → GoError
  -- fmt.Errorf("%w: %w", err, cause)
  wrap_both : GoError → GoError → GoError

-- errors.Is(err, target) for a sentinel target
unfoldable pub is : GoError → Sentinel → Bool
is (sentinel s) target = code s == code target
is (pq_error _) target = false
is (foreign _) target = false
is (wrap e) target = is e target
is (wrap_both e cause) target = is e target || is cause target

-- The SQLSTATE of the first *pq.Error in the chain, as errors.As finds it.
unfoldable pub as_pq : GoError → Option String
as_pq (sentinel _) = none
as_pq (pq_error state) = some state
as_pq (foreign _) = none
as_pq (wrap e) = as_pq e
as_pq (wrap_both e cause) = elim (as_pq e) [ some state ↦ some state | none ↦ as_pq cause ]

-- A pair (value, err): the value counts only when err is nil.
pub data Result {ℓ} (A : Type ℓ) : Type ℓ where
  ok : A → Result A
  err : GoError → Result A

-- The `err` half of a result, `none` for nil.
abbrev pub error_of {ℓ} : {A : Type ℓ} → Result A → Option GoError
error_of (ok _) = none
error_of (err e) = some e

infixl 5 ◌>>=◌
-- the chain of `if err != nil { return err }`
abbrev pub ◌>>=◌ {ℓ κ} : {A : Type ℓ} {B : Type κ} → Result A → (A → Result B) → Result B
err cause >>= f = err cause
ok value >>= f = f value

pub Result-cases {ℓ} :
    {A : Type ℓ} (r : Result A) → ((e : GoError) × (r ≡ err e)) ⊎ ((a : A) × (r ≡ ok a))
Result-cases (ok a) = inr (a, refl)
Result-cases (err e) = inl (e, refl)
