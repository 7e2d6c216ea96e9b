-- ===== src/Scoring/Validate.antt =====
-- internal/scoring/validate.go. `none` is Go's nil error.
use laburi_to.Base.{
  pos, int_leb, ◌≡◌, ◌↔◌, Bool, true, false, Option, none, some, arith, if◌then◌else◌,
}
use laburi_to.Errors.{
  Sentinel, GoError, sentinel, wrap, wrap_both, is, invalid_pair, invalid_experience_level,
  invalid_education_level,
}
use laburi_to.Scoring.Levels.{EducationLevel, experience_valid, education_valid}
use laburi_to.Scoring.Models.{Pair}

abbrev level_error : Sentinel → Option GoError
level_error s = some (wrap_both (sentinel invalid_pair) (sentinel s))

unfoldable pub education_known : Option EducationLevel → Bool
education_known none = true
education_known (some level) = education_valid level

unfoldable pub validate : Pair → Option GoError
unfolding education_known
validate p =
    if int_leb p.employee.employee_id (pos 0)
    then some (wrap (sentinel invalid_pair))
    else if int_leb p.job.job_position_id (pos 0)
    then some (wrap (sentinel invalid_pair))
    else if experience_valid p.employee.experience
    then if experience_valid p.job.required_experience
      then if education_valid p.job.required_education_level
        then if education_known p.employee.highest_education
          then none
          else level_error invalid_education_level
        else level_error invalid_education_level
      else level_error invalid_experience_level
    else level_error invalid_experience_level

-- Every error of `Validate` is an ErrInvalidPair.
pub validate-error : (p : Pair) (e : GoError) → validate p ≡ some e → is e invalid_pair ≡ true
unfolding validate is
validate-error p e h = ground arith

-- A pair is valid exactly when both identifiers are positive, the employee's experience, the
-- required experience and the required education are known levels, and the employee's education is
-- absent or a known level.
pub validate_iff :
    (p : Pair)
    → (validate p ≡ none) ↔ (
        (int_leb p.employee.employee_id (pos 0) ≡ false)
        × (int_leb p.job.job_position_id (pos 0) ≡ false)
        × (experience_valid p.employee.experience ≡ true)
        × (experience_valid p.job.required_experience ≡ true)
        × (education_valid p.job.required_education_level ≡ true)
        × (education_known p.employee.highest_education ≡ true))
unfolding validate
validate_iff p = (
  λ h. (ground arith, ground arith, ground arith, ground arith, ground arith, ground arith),
  λ h. ground arith,
)
