-- ===== src/Queue/Fake.antt =====
-- internal/queue/queuetest/fake.go, the in-memory queue. A time is a number of the double's clock,
-- in seconds; a receipt handle is the pair of numbers that its text is written from. None is Go's
-- nil error.
pub mod Delivery
use laburi_to.Base.{
  ℕ, ℤ, pos, negsuc, String, Bool, true, false, Option, none, some, List, [], ◌∷◌, ◌++◌,
  if◌then◌else◌, ltb, nat_beq, ◌&&◌, ◌+◌, ◌-◌, length,
}
use laburi_to.Errors.{GoError, Result, ok, err}
use laburi_to.Queue.Client.{Message, Client}

pub data Receipt : Type 0 where
  -- the empty handle of a message that was never received
  unreceived : Receipt
  receipt : ℕ → ℕ → Receipt

unfoldable pub same_receipt : Receipt → Receipt → Bool
same_receipt unreceived unreceived = true
same_receipt (receipt i n) (receipt j m) = nat_beq i j && nat_beq n m
same_receipt _ _ = false

pub record FakeMessage : Type 0 where
  pub id : ℕ
  pub body : String
  pub receipt_handle : Receipt
  pub receive_count : ℕ
  -- none is the zero time
  pub invisible_until : Option ℕ

pub record Fake : Type 0 where
  pub messages : List FakeMessage
  pub sent : List String
  pub next_id : ℕ
  pub now : ℕ
  pub visible_in : ℕ
  pub send_err : Option GoError
  pub receive_err : Option GoError
  pub delete_err : Option GoError
  pub extend_err : Option GoError

unfoldable pub new : Fake
new = record {
  messages = [];
  sent = [];
  next_id = 0;
  now = 0;
  visible_in = 60;
  send_err = none;
  receive_err = none;
  delete_err = none;
  extend_err = none;
}

unfoldable pub with_visibility_timeout : ℕ → Fake → Fake
with_visibility_timeout d f = record f { visible_in = d }

unfoldable pub advance : ℕ → Fake → Fake
advance d f = record f { now = f.now + d }

unfoldable pub fail_send : Option GoError → Fake → Fake
fail_send e f = record f { send_err = e }

unfoldable pub fail_receive : Option GoError → Fake → Fake
fail_receive e f = record f { receive_err = e }

unfoldable pub fail_delete : Option GoError → Fake → Fake
fail_delete e f = record f { delete_err = e }

unfoldable pub fail_extend : Option GoError → Fake → Fake
fail_extend e f = record f { extend_err = e }

unfoldable pub sent_bodies : Fake → List String
sent_bodies f = f.sent

unfoldable pub pending_messages : Fake → ℕ
pending_messages f = length f.messages

new_message : ℕ → String → FakeMessage
new_message i body = record {
  id = i;
  body = body;
  receipt_handle = unreceived;
  receive_count = 0;
  invisible_until = none;
}

unfoldable pub send : String → Fake → Option GoError × Fake
unfolding new_message
send body f = elim f.send_err [
  | some e ↦ (some e, f)
  | none ↦ (
    none,
    record f {
      next_id = f.next_id + 1;
      messages = f.messages ++ (new_message (f.next_id + 1) body ∷ []);
      sent = f.sent ++ (body ∷ []);
    },
  )
]

-- message.invisibleUntil.After(f.now)
unfoldable pub hidden : ℕ → Option ℕ → Bool
hidden now none = false
hidden now (some until) = ltb now until

-- The message as one more delivery leaves it.
unfoldable pub delivered : ℕ → ℕ → FakeMessage → FakeMessage
delivered now visible_in m = record m {
  receive_count = m.receive_count + 1;
  receipt_handle = receipt m.id (m.receive_count + 1);
  invisible_until = some (now + visible_in);
}

unfoldable pub message_of : FakeMessage → Message Receipt
message_of m = record {
  id = m.id;
  body = m.body;
  receipt_handle = m.receipt_handle;
  receive_count = m.receive_count;
}

-- What one Receive hands out, and the messages it leaves.
unfoldable pub delivery : ℕ → ℕ → List FakeMessage → List (Message Receipt) × List FakeMessage
unfolding hidden delivered message_of
delivery now visible_in [] = ([], [])
delivery now visible_in (m ∷ rest) =
    let (received, left) = delivery now visible_in rest in
    if hidden now m.invisible_until
    then (received, m ∷ left)
    else (message_of (delivered now visible_in m) ∷ received, delivered now visible_in m ∷ left)

unfoldable pub receive : Fake → Result (List (Message Receipt)) × Fake
unfolding delivery
receive f = elim f.receive_err [
  | some e ↦ (err e, f)
  | none ↦
      let (received, left) = delivery f.now f.visible_in f.messages in
      (ok received, record f { messages = left })
]

-- the first message with this handle is taken out
unfoldable pub removed : Receipt → List FakeMessage → List FakeMessage
unfolding same_receipt
removed handle [] = []
removed handle (m ∷ rest) =
    let left = removed handle rest in
    if same_receipt m.receipt_handle handle then rest else m ∷ left

unfoldable pub delete : Receipt → Fake → Option GoError × Fake
unfolding removed
delete handle f = elim f.delete_err [
  | some e ↦ (some e, f)
  | none ↦ (none, record f { messages = removed handle f.messages })
]

-- f.now.Add(seconds): a time before the clock's origin is as visible as the origin.
unfoldable pub later : ℕ → ℤ → ℕ
later now (pos n) = now + n
later now (negsuc n) = now - (n + 1)

unfoldable pub extended : Receipt → ℕ → List FakeMessage → List FakeMessage
unfolding same_receipt
extended handle until [] = []
extended handle until (m ∷ rest) =
    let left = extended handle until rest in
    if same_receipt m.receipt_handle handle
    then record m { invisible_until = some until } ∷ rest
    else m ∷ left

unfoldable pub extend_visibility : Receipt → ℤ → Fake → Option GoError × Fake
unfolding extended later
extend_visibility handle seconds f = elim f.extend_err [
  | some e ↦ (some e, f)
  | none ↦ (none, record f { messages = extended handle (later f.now seconds) f.messages })
]

unfoldable pub fake_client : Client Fake Receipt
unfolding send receive delete extend_visibility
fake_client = record {
  send = send;
  receive = receive;
  delete = delete;
  extend_visibility = extend_visibility;
}
