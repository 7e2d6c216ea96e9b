-- ===== src/Database/Triples.antt =====
-- What a computation over a connection leaves behind, given what it returns: a precondition on the
-- tables before, and a postcondition on the result and the tables after.
use laburi_to.Base.{String, ◌≡◌, refl, sym, subst, Option, none, some, List, [], ◌∷◌}
use laburi_to.Errors.{GoError, Result, ok, err}
use laburi_to.Database.Schema.{Tables, with_sequences}
use laburi_to.Database.Connection.{
  Connection, Query, M, Keeps, call, called, answered, on_error, translated, transaction, settled,
  rolled_back, continue, ◌>>=◌,
}

pub record Triple {A : Type 0} (Pre : Tables → Type 0) (m : M A) (Post : Result A → Tables → Type 0)
    : Type 0 where
  pub at : (c : Connection) → Pre c.tables → Post (m c).0 (m c).1.tables

-- The property holds where an error is returned.
abbrev pub OnError : {A : Type 0} → (Tables → Type 0) → Result A → Tables → Type 0
OnError P (ok a) t = Unit
OnError P (err e) t = P t

module _ (P : Tables → Type 0) {A : Type 0} where
  OnError-of : (r : Result A) (t : Tables) → P t → OnError P r t
  OnError-of (ok a) t h = tt
  OnError-of (err e) t h = h

  pub Triple-Keeps : (m : M A) → Keeps P m → Triple P m (OnError P)
  Triple-Keeps m k = record { at = λ c h. OnError-of (m c).0 (m c).1.tables (k.at c h) }

  inert-step :
      (q : Query A) (t : Tables) (r : Result A) (t' : Tables)
      → ((e : GoError) → r ≡ err e → t' ≡ t)
      → P t
      → OnError P r t'
  inert-step q t (ok a) t' k h = tt
  inert-step q t (err e) t' k h = subst P (sym (k e refl)) h

  called-inert :
      (q : Query A) (t : Tables) (faults : List (Option String))
      → ((e : GoError) → (q t).0 ≡ err e → (q t).1 ≡ t)
      → P t
      → OnError P (called q t faults).0 (called q t faults).1.tables
  unfolding called answered
  called-inert q t [] k h = inert-step q t (q t).0 (q t).1 k h
  called-inert q t (none ∷ rest) k h = inert-step q t (q t).0 (q t).1 k h
  called-inert q t (some reason ∷ rest) k h = h

  -- A statement that changes nothing when it fails.
  pub Triple-call :
      (q : Query A)
      → ((t : Tables) (e : GoError) → (q t).0 ≡ err e → (q t).1 ≡ t)
      → Triple P (call q) (OnError P)
  unfolding call
  Triple-call q k = record { at = λ c h. called-inert q c.tables c.faults (k c.tables) h }

  translated-inert :
      (f : GoError → GoError) (r : Result A) (c : Connection)
      → OnError P r c.tables
      → OnError P (translated f (r, c)).0 (translated f (r, c)).1.tables
  translated-inert f (ok a) c h = tt
  translated-inert f (err e) c h = h

  pub Triple-on_error :
      (f : GoError → GoError) (m : M A)
      → Triple P m (OnError P)
      → Triple P (on_error f m) (OnError P)
  unfolding on_error
  Triple-on_error f m k = record { at = λ c h. translated-inert f (m c).0 (m c).1 (k.at c h) }

  settled-inert :
      (before : Connection) (r : Result A) (after : Connection)
      → ((t after : Tables) → P t → P (with_sequences t after))
      → P before.tables
      → OnError P (settled before (r, after)).0 (settled before (r, after)).1.tables
  unfolding rolled_back
  settled-inert before (ok a) after k h = tt
  settled-inert before (err e) after k h = k before.tables after.tables h

  -- A transaction that fails, wherever it does, leaves what held before it.
  pub Triple-transaction :
      (m : M A)
      → ((t after : Tables) → P t → P (with_sequences t after))
      → Triple P (transaction m) (OnError P)
  unfolding transaction
  Triple-transaction m k = record { at = λ c h. settled-inert c (m c).0 (m c).1 k h }

module _ {A B : Type 0} (Pre Mid : Tables → Type 0) (Post : Result B → Tables → Type 0) where
  continue-step :
      (f : A → M B) (r : Result A) (c : Connection)
      → OnError Mid r c.tables
      → ((e : GoError) (t : Tables) → Mid t → Post (err e) t)
      → ((a : A) → Triple (λ t. Unit {0}) (f a) Post)
      → Post (continue f (r, c)).0 (continue f (r, c)).1.tables
  continue-step f (ok a) c h k g = (g a).at c tt
  continue-step f (err e) c h k g = k e c.tables h

  -- The rest needs nothing of the tables.
  pub Triple-bind :
      (m : M A) (f : A → M B)
      → Triple Pre m (OnError Mid)
      → ((e : GoError) (t : Tables) → Mid t → Post (err e) t)
      → ((a : A) → Triple (λ t. Unit {0}) (f a) Post)
      → Triple Pre (m >>= f) Post
  unfolding ◌>>=◌
  Triple-bind m f t k g = record { at = λ c h. continue-step f (m c).0 (m c).1 (t.at c h) k g }

  continue-kept :
      (f : A → M B) (r : Result A) (c : Connection)
      → Pre c.tables
      → ((e : GoError) (t : Tables) → Pre t → Post (err e) t)
      → ((a : A) → Triple Pre (f a) Post)
      → Post (continue f (r, c)).0 (continue f (r, c)).1.tables
  continue-kept f (ok a) c h k g = (g a).at c h
  continue-kept f (err e) c h k g = k e c.tables h

  -- The first part keeps what the rest needs.
  pub Triple-then :
      (m : M A) (f : A → M B)
      → Keeps Pre m
      → ((e : GoError) (t : Tables) → Pre t → Post (err e) t)
      → ((a : A) → Triple Pre (f a) Post)
      → Triple Pre (m >>= f) Post
  unfolding ◌>>=◌
  Triple-then m f t k g = record { at = λ c h. continue-kept f (m c).0 (m c).1 (t.at c h) k g }
