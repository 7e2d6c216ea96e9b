-- ===== src/Scoring/Levels.antt =====
-- internal/scoring/levels.go. A level is a Go string; its values are the declared constants and
-- any other text. A rank is looked up in the package's map, and a level outside it has none.
use laburi_to.Base.{
  ◌↔◌, ℕ, String, ◌≡◌, ◌⊎◌, Bool, true, false, Option, none, some, arith, leb, ◌==◌, string_eq,
  if◌then◌else◌,
}

pub data ExperienceLevel : Type 0 where
  less_1y one_year two_to_5y five_to_10y more_10y : ExperienceLevel
  other : String → ExperienceLevel

-- scoring.ExperienceLevel(raw)
unfoldable pub experience_of : String → ExperienceLevel
experience_of raw =
    if raw == "less_1y"
    then less_1y
    else if raw == "1y"
    then one_year
    else if raw == "2_to_5y"
    then two_to_5y
    else if raw == "5_to_10y"
    then five_to_10y
    else if raw == "more_10y"
    then more_10y
    else other raw

-- experienceRanks, and ExperienceLevel.Rank
unfoldable pub experience_rank : ExperienceLevel → Option ℕ
experience_rank less_1y = some 0
experience_rank one_year = some 1
experience_rank two_to_5y = some 2
experience_rank five_to_10y = some 3
experience_rank more_10y = some 4
experience_rank (other _) = none

unfoldable pub experience_valid : ExperienceLevel → Bool
unfolding experience_rank
experience_valid e = elim (experience_rank e) [ some _ ↦ true | none ↦ false ]

-- both AtLeast methods, over the two ranks
abbrev pub reaches : Option ℕ → Option ℕ → Bool
reaches none target = false
reaches (some own) none = false
reaches (some own) (some target) = leb target own

unfoldable pub experience_at_least : ExperienceLevel → ExperienceLevel → Bool
unfolding experience_rank
experience_at_least e other_level = reaches (experience_rank e) (experience_rank other_level)

pub data EducationLevel : Type 0 where
  high_school_orientation tertiary university postgraduate : EducationLevel
  other : String → EducationLevel

-- scoring.EducationLevel(raw)
unfoldable pub education_of : String → EducationLevel
education_of raw =
    if raw == "high-school-orientation"
    then high_school_orientation
    else if raw == "tertiary"
    then tertiary
    else if raw == "university"
    then university
    else if raw == "postgraduate"
    then postgraduate
    else other raw

-- educationRanks, and EducationLevel.Rank
unfoldable pub education_rank : EducationLevel → Option ℕ
education_rank high_school_orientation = some 0
education_rank tertiary = some 1
education_rank university = some 2
education_rank postgraduate = some 3
education_rank (other _) = none

unfoldable pub education_valid : EducationLevel → Bool
unfolding education_rank
education_valid e = elim (education_rank e) [ some _ ↦ true | none ↦ false ]

unfoldable pub education_at_least : EducationLevel → EducationLevel → Bool
unfolding education_rank
education_at_least e other_level = reaches (education_rank e) (education_rank other_level)

-- `AtLeast` of experience levels is transitive.
pub experience_at_least-transitive :
    (a b c : ExperienceLevel)
    → experience_at_least a b ≡ true
    → experience_at_least b c ≡ true
    → experience_at_least a c ≡ true
unfolding experience_at_least
experience_at_least-transitive a b c h k = ground arith

-- Two valid experience levels are ordered one way or the other, and both ways only when they are
-- equal.
pub experience_at_least-total :
    (a b : ExperienceLevel)
    → experience_valid a ≡ true
    → experience_valid b ≡ true
    → ((experience_at_least a b ≡ true) ⊎ (experience_at_least b a ≡ true))
      × (((experience_at_least a b ≡ true) × (experience_at_least b a ≡ true)) ↔ (a ≡ b))
unfolding experience_at_least experience_valid
experience_at_least-total a b h k = ground arith
