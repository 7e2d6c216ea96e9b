-- ===== src/Recommendation/Worker/Serve.antt =====
-- processMessage and Run of internal/recommendation/worker.go: the loop between the transport and
-- the handling of a message.
use laburi_to.Base.{ℕ, zero, suc, String, List, [], ◌∷◌, if◌then◌else◌, int_eq}
use laburi_to.Errors.{Result, ok, err, error_of}
use laburi_to.Scoring.Scorer.{Scorer}
use laburi_to.Queue.Client.{Client, Message}
use laburi_to.Database.Connection.{Connection}
use laburi_to.Recommendation.Events.{Codec}
use laburi_to.Recommendation.Publisher.{World}
use laburi_to.Recommendation.Worker.{acknowledges, handle}

module _ {F Q H : Type 0} (client : Client Q H) (format : F → String) (scorer : Scorer F)
    (codec : Codec) where
  -- A failed Delete is only logged.
  unfoldable pub settle : H → Q → Result (Unit {0}) × Connection → World Q
  settle receipt_handle q (r, c) =
      if acknowledges (error_of r)
      then record { connection = c; queue = (client.delete receipt_handle q).1 }
      else record { connection = c; queue = q }

  -- Worker.processMessage
  unfoldable pub process_message : Message H → World Q → World Q
  unfolding settle
  process_message message w =
      settle message.receipt_handle w.queue (handle format scorer codec message.body w.connection)

  -- The messages of a round: none where Receive fails, which is only logged.
  unfoldable pub received : Result (List (Message H)) → List (Message H)
  received (ok messages) = messages
  received (err e) = []

  -- Worker.Run, with the messages of the round that are still to process. The first argument is how
  -- many more times the loop finds the context not cancelled: at its head, before a message, and
  -- after the wait that follows a failed Receive.
  unfoldable pub run : ℕ → List (Message H) → World Q → World Q
  unfolding process_message received
  run zero messages w = w
  run (suc n) (message ∷ rest) w = run n rest (process_message message w)
  run (suc n) [] w =
      run n (received (client.receive w.queue).0) (record w { queue = (client.receive w.queue).1 })
