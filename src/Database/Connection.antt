-- ===== src/Database/Connection.antt =====
-- A connection to the database: the tables, and which of the calls to come fail for a reason
-- outside the tables (the network, a timeout, a shutdown). Every call takes the next entry of
-- `faults`: `some` is a call that fails with that error and changes nothing. After the last entry
-- no call fails.
use laburi_to.Base.{
  String, Option, none, some, List, [], ◌∷◌, ◌≡◌, refl, Bool, Bool-cases, inl, inr, if◌then◌else◌,
}
use laburi_to.Errors.{GoError, Result, ok, err, foreign}
use laburi_to.Database.Schema.{Tables, with_sequences}

pub record Connection : Type 0 where
  pub tables : Tables
  pub faults : List (Option String)

abbrev pub Query : Type 0 → Type 0
Query A = Tables → Result A × Tables

abbrev pub M : Type 0 → Type 0
M A = Connection → Result A × Connection

-- What an abandoned transaction leaves: the tables as they were, but for the sequences that its
-- inserts have advanced.
unfoldable pub rolled_back : Connection → Connection → Connection
rolled_back before after = record {
  tables = with_sequences before.tables after.tables;
  faults = after.faults;
}

module _ {A : Type 0} where
  unfoldable pub answered : List (Option String) → Result A × Tables → Result A × Connection
  answered rest (r, t) = (r, record { tables = t; faults = rest })

  unfoldable pub called : Query A → Tables → List (Option String) → Result A × Connection
  unfolding answered
  called q t [] = answered [] (q t)
  called q t (none ∷ rest) = answered rest (q t)
  called q t (some reason ∷ rest) = (err (foreign reason), record { tables = t; faults = rest })

  -- one statement sent to the database
  unfoldable pub call : Query A → M A
  unfolding called
  call q c = called q c.tables c.faults

  unfoldable pub pure : A → M A
  pure a c = (ok a, c)

  unfoldable pub raise : GoError → M A
  raise e c = (err e, c)

  -- a step with no call to the database
  unfoldable pub of_result : Result A → M A
  of_result r c = (r, c)

  abbrev pub translated : (GoError → GoError) → Result A × Connection → Result A × Connection
  translated f (ok a, c) = (ok a, c)
  translated f (err e, c) = (err (f e), c)

  -- `if err != nil { return f(err) }`
  unfoldable pub on_error : (GoError → GoError) → M A → M A
  on_error f m c = translated f (m c)

  abbrev pub settled : Connection → Result A × Connection → Result A × Connection
  settled before (ok a, after) = (ok a, after)
  settled before (err e, after) = (err e, rolled_back before after)

  -- `defer tx.Rollback()` over steps the last of which is the commit
  unfoldable pub transaction : M A → M A
  unfolding rolled_back
  transaction m c = settled c (m c)

module _ {A B : Type 0} where
  abbrev pub continue : (A → M B) → Result A × Connection → Result B × Connection
  continue f (ok a, c) = f a c
  continue f (err e, c) = (err e, c)

  infixl 5 ◌>>=◌ ◌>>◌
  unfoldable pub ◌>>=◌ : M A → (A → M B) → M B
  ◌>>=◌ m f c = continue f (m c)

  abbrev pub ◌>>◌ : M A → M B → M B
  m >> k = m >>= λ _. k

-- BEGIN and COMMIT: statements that touch no table.
unfoldable pub idle : Query (Unit {0})
idle t = (ok tt, t)

-- A property of the tables that a computation keeps, whether it succeeds or fails.
pub record Keeps {A : Type 0} (P : Tables → Type 0) (m : M A) : Type 0 where
  pub at : (c : Connection) → P c.tables → P (m c).1.tables

module _ (P : Tables → Type 0) {A : Type 0} where
  answered-keeps :
      (rest : List (Option String)) (a : Result A × Tables) → P a.1 → P (answered rest a).1.tables
  unfolding answered
  answered-keeps rest a h = h

  called-keeps :
      (q : Query A) (t : Tables) (faults : List (Option String))
      → P (q t).1
      → P t
      → P (called q t faults).1.tables
  unfolding called
  called-keeps q t [] h k = h
  called-keeps q t (none ∷ rest) h k = h
  called-keeps q t (some reason ∷ rest) h k = k

  pub Keeps-call : (q : Query A) → ((t : Tables) → P t → P (q t).1) → Keeps P (call q)
  unfolding call
  Keeps-call q h = record { at = λ c k. called-keeps q c.tables c.faults (h c.tables k) k }

  pub Keeps-pure : (a : A) → Keeps P (pure a)
  unfolding pure
  Keeps-pure a = record { at = λ c k. k }

  pub Keeps-raise : (e : GoError) → Keeps P (raise {A = A} e)
  unfolding raise
  Keeps-raise e = record { at = λ c k. k }

  pub Keeps-if : (b : Bool) (m n : M A) → Keeps P m → Keeps P n → Keeps P (if b then m else n)
  Keeps-if b m n k l = elim (Bool-cases b) [ inl e ↦ rw e k | inr e ↦ rw e l ]

  pub Keeps-of_result : (r : Result A) → Keeps P (of_result r)
  unfolding of_result
  Keeps-of_result r = record { at = λ c k. k }

  translated-keeps :
      (f : GoError → GoError) (r : Result A) (c : Connection)
      → P c.tables
      → P (translated f (r, c)).1.tables
  translated-keeps f (ok a) c h = h
  translated-keeps f (err e) c h = h

  pub Keeps-on_error : (f : GoError → GoError) (m : M A) → Keeps P m → Keeps P (on_error f m)
  unfolding on_error
  Keeps-on_error f m k = record {
    at = λ c h. let (r, after) = m c in translated-keeps f r after (k.at c h);
  }

module _ (P : Tables → Type 0) {A B : Type 0} where
  continue-keeps :
      (f : A → M B) (r : Result A) (c : Connection)
      → ((a : A) → Keeps P (f a))
      → P c.tables
      → P (continue f (r, c)).1.tables
  continue-keeps f (ok a) c kf h = (kf a).at c h
  continue-keeps f (err e) c kf h = h

  pub Keeps-bind :
      (m : M A) (f : A → M B) → Keeps P m → ((a : A) → Keeps P (f a)) → Keeps P (m >>= f)
  unfolding ◌>>=◌
  Keeps-bind m f km kf = record {
    at = λ c h. let (r, after) = m c in continue-keeps f r after kf (km.at c h);
  }

pub ruleset keeps_rules = (Keeps-call, Keeps-pure, Keeps-raise, Keeps-on_error, Keeps-bind)

module _ (P : Tables → Type 0)
    (sequence_free : (t after : Tables) → P t → P (with_sequences t after)) {A : Type 0} where
  settled-keeps :
      (before : Connection) (r : Result A) (after : Connection)
      → P before.tables
      → P after.tables
      → P (settled before (r, after)).1.tables
  unfolding rolled_back
  settled-keeps before (ok a) after h k = k
  settled-keeps before (err e) after h k = sequence_free before.tables after.tables h

  pub Keeps-transaction : (m : M A) → Keeps P m → Keeps P (transaction m)
  unfolding transaction
  Keeps-transaction m k = record {
    at = λ c h. let (r, after) = m c in settled-keeps c r after h (k.at c h);
  }

module _ {A : Type 0} where
  settled-err :
      (before : Connection) (r : Result A) (after : Connection) (e : GoError)
      → (settled before (r, after)).0 ≡ err e
      → (settled before (r, after)).1.tables ≡ with_sequences before.tables after.tables
  unfolding rolled_back
  settled-err before (ok a) after e h = cc
  settled-err before (err _) after e h = refl

  -- A transaction that returns an error leaves the tables as they were, up to the sequences.
  pub transaction-err :
      (m : M A) (c : Connection) (e : GoError)
      → (transaction m c).0 ≡ err e
      → (transaction m c).1.tables ≡ with_sequences c.tables (m c).1.tables
  unfolding transaction
  transaction-err m c e h = let (r, after) = m c in settled-err c r after e h
