-- ===== src/Recommendation/Worker/Safety.antt =====
-- What holds of the database after a message is handled, whichever calls fail on the way.
use laburi_to.Base.{String, int_eq}
use laburi_to.Scoring.Scorer.{Scorer}
use laburi_to.Recommendation.Models.{failed}
use laburi_to.Recommendation.Events.{Codec}
use laburi_to.Recommendation.Repo.Consistency.{
  claim_batch-Keeps, transition_batch-Keeps, complete_batch-Keeps,
}
use laburi_to.Database.Schema.{IsConsistent}
use laburi_to.Database.Connection.{Connection}
use laburi_to.Recommendation.Worker.{handle}
use laburi_to.Recommendation.Worker.Keeps.{handle-Keeps}

module _ {F : Type 0} (format : F → String) (scorer : Scorer F) (codec : Codec)
    (body : String) where
  -- A consistent database is consistent after any message is handled, with any scorer, whichever
  -- calls of the database fail: at most one batch of each subject is in flight, identifiers are
  -- unique, the checks of the rows hold and every recommendation is of a batch that exists.
  pub handle-IsConsistent :
      (c : Connection)
      → IsConsistent c.tables
      → IsConsistent (handle format scorer codec body c).1.tables
  handle-IsConsistent c v =
      (handle-Keeps format scorer codec IsConsistent claim_batch-Keeps
          (λ i. transition_batch-Keeps i failed) (complete_batch-Keeps format) body).at
        c v
