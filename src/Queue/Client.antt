-- ===== src/Queue/Client.antt =====
-- internal/queue/client.go and disabled.go. An operation of a client takes the state of the
-- transport and returns the new one; none is Go's nil error.
use laburi_to.Base.{ℕ, ℤ, String, Option, some, List}
use laburi_to.Errors.{GoError, Result, err, sentinel, queue_disabled}

-- `H` is the type of receipt handles: a string that only the transport reads.
pub record Message (H : Type 0) : Type 0 where
  pub id : ℕ
  pub body : String
  pub receipt_handle : H
  pub receive_count : ℕ

pub record Client (Q H : Type 0) : Type 0 where
  pub send : String → Q → Option GoError × Q
  pub receive : Q → Result (List (Message H)) × Q
  pub delete : H → Q → Option GoError × Q
  pub extend_visibility : H → ℤ → Q → Option GoError × Q

-- queue.Disabled: every operation fails with ErrQueueDisabled.
unfoldable pub disabled : {Q H : Type 0} → Client Q H
disabled = record {
  send = λ body q. (some (sentinel queue_disabled), q);
  receive = λ q. (err (sentinel queue_disabled), q);
  delete = λ h q. (some (sentinel queue_disabled), q);
  extend_visibility = λ h seconds q. (some (sentinel queue_disabled), q);
}
