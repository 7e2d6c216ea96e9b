-- ===== src/Queue/Fake/Delivery.antt =====
-- Visibility: a message that is received is out of sight until its time is up, and is never lost.
use laburi_to.Base.{
  ◌≡◌, refl, ap, ℕ, String, true, false, none, List, [], ◌∷◌, Bool-cases, inl, inr, arith, ◌+◌, ◌<◌,
  ◌≤◌, ◌∙◌,
}
use laburi_to.Errors.{ok}
use laburi_to.Queue.Fake.{FakeMessage, Fake, hidden, delivered, delivery, receive}

-- The identifiers and bodies of the messages, in order.
unfoldable pub contents : List FakeMessage → List (ℕ × String)
contents [] = []
contents (m ∷ rest) = (m.id, m.body) ∷ contents rest

delivery-contents :
    (now visible_in : ℕ) (messages : List FakeMessage)
    → contents (delivery now visible_in messages).1 ≡ contents messages
unfolding delivery delivered contents
delivery-contents now visible_in [] = refl
delivery-contents now visible_in (m ∷ rest) =
    let ih = delivery-contents now visible_in rest in
    elim (Bool-cases (hidden now m.invisible_until)) [
      | inl e ↦ rw e (ap (λ l. (m.id, m.body) ∷ l) ih)
      | inr e ↦ rw e (ap (λ l. (m.id, m.body) ∷ l) ih)
    ]

hidden-delivered :
    (now visible_in : ℕ) (m : FakeMessage)
    → 0 < visible_in
    → hidden now (delivered now visible_in m).invisible_until ≡ true
unfolding hidden delivered
hidden-delivered now visible_in m p = ground arith

-- After a delivery that hides for some time, another at the same time finds nothing.
delivery-again :
    (now visible_in : ℕ) (messages : List FakeMessage)
    → 0 < visible_in
    → delivery now visible_in (delivery now visible_in messages).1
      ≡ ([], (delivery now visible_in messages).1)
unfolding delivery
delivery-again now visible_in [] p = refl
delivery-again now visible_in (m ∷ rest) p =
    let ih = delivery-again now visible_in rest p in
    elim (Bool-cases (hidden now m.invisible_until)) [
      | inl e ↦ rw e (rw e (rw ih refl))
      | inr e ↦ rw e (rw (hidden-delivered now visible_in m p) (rw ih refl))
    ]

-- How many messages a delivery hands out when every message is visible.
shown-delivered :
    (now d visible_in : ℕ) (m : FakeMessage)
    → visible_in ≤ d
    → hidden now m.invisible_until ≡ false
    → hidden (now + d) (delivered now visible_in m).invisible_until ≡ false
unfolding hidden delivered
shown-delivered now d visible_in m p h = ground arith

receive_calm :
    (f : Fake)
    → f.receive_err ≡ none
    → receive f ≡ (
      ok (delivery f.now f.visible_in f.messages).0,
      record f { messages = (delivery f.now f.visible_in f.messages).1 },
    )
unfolding receive
receive_calm f calm = rw calm refl

module _ (f : Fake) (calm : f.receive_err ≡ none) where
  -- A receive of a queue that does not fail loses no message and alters no body.
  pub receive-contents : contents (receive f).1.messages ≡ contents f.messages
  unfolding receive
  receive-contents = rw calm (delivery-contents f.now f.visible_in f.messages)

  -- With a positive visibility timeout, a second receive at the same time gets no message: what
  -- the first one handed out is hidden from everyone.
  pub receive-exclusive : 0 < f.visible_in → receive (receive f).1 ≡ (ok [], (receive f).1)
  receive-exclusive p =
      let left = record f { messages = (delivery f.now f.visible_in f.messages).1 } in
      rw (receive_calm f calm) (
        receive_calm left calm
        ∙ ap (λ d. (ok d.0, record f { messages = d.1 }))
            (delivery-again f.now f.visible_in f.messages p))
