-- ===== src/Database/Outcomes.antt =====
-- What a computation over a connection establishes where it succeeds.
use laburi_to.Base.{◌≡◌, refl, subst, String, Option, none, some, List, [], ◌∷◌}
use laburi_to.Errors.{GoError, Result, ok, err}
use laburi_to.Database.Schema.{Tables}
use laburi_to.Database.Connection.{
  Connection, Query, M, Keeps, call, called, answered, pure, raise, on_error, translated,
  transaction, settled, rolled_back, continue, ◌>>=◌,
}
use laburi_to.Database.Triples.{Triple}

-- The property holds of the result and the tables where there is a result.
abbrev pub OnOk : {A : Type 0} → (A → Tables → Type 0) → Result A → Tables → Type 0
OnOk P (ok a) t = P a t
OnOk P (err e) t = Unit

pub OnOk-of :
    {A : Type 0} (P : A → Tables → Type 0) (r : Result A) (t : Tables) (a : A)
    → OnOk P r t
    → r ≡ ok a
    → P a t
OnOk-of P (ok b) t a h k = let e : b ≡ a = cc in subst (λ x. P x t) e h
OnOk-of P (err e) t a h k = cc

pub OnOk-mono :
    {A : Type 0} (P R : A → Tables → Type 0) (r : Result A) (t : Tables)
    → ((a : A) (t' : Tables) → P a t' → R a t')
    → OnOk P r t
    → OnOk R r t
OnOk-mono P R (ok a) t k h = k a t h
OnOk-mono P R (err e) t k h = tt

module _ {A : Type 0} (Pre : Tables → Type 0) (P : A → Tables → Type 0) where
  called-OnOk :
      (q : Query A) (t : Tables) (faults : List (Option String))
      → OnOk P (q t).0 (q t).1
      → OnOk P (called q t faults).0 (called q t faults).1.tables
  unfolding called answered
  called-OnOk q t [] h = h
  called-OnOk q t (none ∷ rest) h = h
  called-OnOk q t (some reason ∷ rest) h = tt

  pub OnOk-call :
      (q : Query A) → ((t : Tables) → Pre t → OnOk P (q t).0 (q t).1) → Triple Pre (call q) (OnOk P)
  unfolding call
  OnOk-call q k = record { at = λ c h. called-OnOk q c.tables c.faults (k c.tables h) }

  translated-OnOk :
      (f : GoError → GoError) (r : Result A) (c : Connection)
      → OnOk P r c.tables
      → OnOk P (translated f (r, c)).0 (translated f (r, c)).1.tables
  translated-OnOk f (ok a) c h = h
  translated-OnOk f (err e) c h = tt

  pub OnOk-on_error :
      (f : GoError → GoError) (m : M A) → Triple Pre m (OnOk P) → Triple Pre (on_error f m) (OnOk P)
  unfolding on_error
  OnOk-on_error f m k = record { at = λ c h. translated-OnOk f (m c).0 (m c).1 (k.at c h) }

  pub OnOk-pure : (a : A) → ((t : Tables) → Pre t → P a t) → Triple Pre (pure a) (OnOk P)
  unfolding pure
  OnOk-pure a k = record { at = λ c h. k c.tables h }

  settled-OnOk :
      (before : Connection) (r : Result A) (c : Connection)
      → OnOk P r c.tables
      → OnOk P (settled before (r, c)).0 (settled before (r, c)).1.tables
  unfolding rolled_back
  settled-OnOk before (ok a) c h = h
  settled-OnOk before (err e) c h = tt

  pub OnOk-transaction : (m : M A) → Triple Pre m (OnOk P) → Triple Pre (transaction m) (OnOk P)
  unfolding transaction
  OnOk-transaction m k = record { at = λ c h. settled-OnOk c (m c).0 (m c).1 (k.at c h) }

  pub OnOk-raise : (e : GoError) → Triple Pre (raise e) (OnOk P)
  unfolding raise
  OnOk-raise e = record { at = λ c h. tt }

module _ {A B : Type 0} (Pre : Tables → Type 0) (P : A → Tables → Type 0)
    (R : B → Tables → Type 0) where
  continue-OnOk :
      (f : A → M B) (r : Result A) (c : Connection)
      → OnOk P r c.tables
      → ((a : A) → Triple (P a) (f a) (OnOk R))
      → OnOk R (continue f (r, c)).0 (continue f (r, c)).1.tables
  continue-OnOk f (ok a) c h k = (k a).at c h
  continue-OnOk f (err e) c h k = tt

  -- What the first part establishes is what the rest begins with.
  pub OnOk-bind :
      (m : M A) (f : A → M B)
      → Triple Pre m (OnOk P)
      → ((a : A) → Triple (P a) (f a) (OnOk R))
      → Triple Pre (m >>= f) (OnOk R)
  unfolding ◌>>=◌
  OnOk-bind m f t k = record { at = λ c h. continue-OnOk f (m c).0 (m c).1 (t.at c h) k }

any_ok : {A : Type 0} (r : Result A) (t : Tables) → OnOk (λ _ _. Unit {0}) r t
any_ok (ok a) t = tt
any_ok (err e) t = tt

-- A computation of which nothing is known.
pub OnOk-any :
    {A : Type 0} (Pre : Tables → Type 0) (m : M A) → Triple Pre m (OnOk (λ _ _. Unit {0}))
OnOk-any Pre m = record { at = λ c h. any_ok (m c).0 (m c).1.tables }

module _ {A : Type 0} (P : Tables → Type 0) where
  kept_ok : (r : Result A) (t : Tables) → P t → OnOk (λ _. P) r t
  kept_ok (ok a) t h = h
  kept_ok (err e) t h = tt

  pub OnOk-Keeps : (m : M A) → Keeps P m → Triple P m (OnOk (λ _. P))
  OnOk-Keeps m k = record { at = λ c h. kept_ok (m c).0 (m c).1.tables (k.at c h) }

module _ {A : Type 0} (P : Tables → Type 0) (R : A → Type 0) where
  known_ok :
      (r : Result A) (t : Tables) → ((a : A) → r ≡ ok a → R a) → P t → OnOk (λ a t'. P t' × R a) r t
  known_ok (ok a) t k h = (h, k a refl)
  known_ok (err e) t k h = tt

  -- A computation that keeps `P`, whose results satisfy `R`.
  pub OnOk-known :
      (m : M A)
      → Keeps P m
      → ((c : Connection) (a : A) → P c.tables → (m c).0 ≡ ok a → R a)
      → Triple P m (OnOk (λ a t. P t × R a))
  OnOk-known m keeps k = record {
    at = λ c h. known_ok (m c).0 (m c).1.tables (λ a e. k c a h e) (keeps.at c h);
  }
