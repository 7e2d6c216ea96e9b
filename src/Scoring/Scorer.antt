-- ===== src/Scoring/Scorer.antt =====
-- internal/scoring/scorer.go and unavailable.go: the port that the worker consumes, the contract
-- that its documentation states, and the implementation of production, which always fails.
use laburi_to.Base.{◌≡◌, true, Option, some, List, [], ◌∷◌, map, arith}
use laburi_to.Errors.{GoError, Result, ok, err, sentinel, is, scoring_unavailable}
use laburi_to.Scoring.Models.{Pair, Outcome, Eligibility}

-- `available` is none where the implementation has no method Available; otherwise it is what that
-- method returns, with none for nil.
pub record Scorer (F : Type 0) : Type 0 where
  pub available : Option (Option GoError)
  pub score : Pair → Result (Outcome F)
  pub score_all : List Pair → Result (List (Outcome F))

-- The rules of the contract: ScoreAll gives one result for each pair, in order, each the result of
-- Score on that pair, and Available fails with ErrScoringUnavailable alone.
pub record MeetsContract {F : Type 0} (s : Scorer F) : Type 0 where
  pub pointwise :
      (pairs : List Pair) (results : List (Outcome F))
      → s.score_all pairs ≡ ok results
      → map s.score pairs ≡ map ok results
  pub unavailability : (e : GoError) → s.available ≡ some (some e) → is e scoring_unavailable ≡ true

unavailable_score : {F : Type 0} → Pair → Result (Outcome F)
unavailable_score _ = err (sentinel scoring_unavailable)

unavailable_score_all : {F : Type 0} → List Pair → Result (List (Outcome F))
unavailable_score_all [] = ok []
unavailable_score_all (_ ∷ _) = err (sentinel scoring_unavailable)

unfoldable pub unavailable : {F : Type 0} → Scorer F
unfolding unavailable_score_all unavailable_score
unavailable = record {
  available = some (some (sentinel scoring_unavailable));
  score = unavailable_score;
  score_all = unavailable_score_all;
}

-- HardFilter of Unavailable
unfoldable pub unavailable_eligible : Pair → Result Eligibility
unavailable_eligible _ = err (sentinel scoring_unavailable)

unavailable_pointwise :
    {F : Type 0} (pairs : List Pair) (results : List (Outcome F))
    → unavailable_score_all pairs ≡ ok results
    → map unavailable_score pairs ≡ map ok results
unfolding unavailable_score_all unavailable_score
unavailable_pointwise [] results h = ground arith
unavailable_pointwise (p ∷ pairs) results h = cc

-- The implementation of production keeps the contract.
pub unavailable-MeetsContract : {F : Type 0} → MeetsContract (unavailable {F = F})
unfolding unavailable is
unavailable-MeetsContract = record {
  pointwise = unavailable_pointwise;
  unavailability = λ e h. ground arith;
}
