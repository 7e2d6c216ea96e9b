-- ===== src/Database/Total.antt =====
-- Computations on a connection none of whose calls fails: they succeed, and what they establish.
use laburi_to.Base.{◌≡◌, refl, ap, [], ◌∙◌}
use laburi_to.Errors.{GoError, ok}
use laburi_to.Database.Schema.{Tables}
use laburi_to.Database.Connection.{
  Connection, Query, M, call, called, answered, pure, on_error, translated, transaction, settled,
  continue, ◌>>=◌,
}

-- No call to come fails.
abbrev pub calm : Tables → Connection
calm t = record { tables = t; faults = [] }

pub record Total {A : Type 0} (Pre : Tables → Type 0) (m : M A) (Post : A → Tables → Type 0)
    : Type 0 where
  pub at :
      (t : Tables)
      → Pre t
      → (a : A) × (after : Tables) × (m (calm t) ≡ (ok a, calm after)) × Post a after

module _ {A : Type 0} (Pre : Tables → Type 0) (Post : A → Tables → Type 0) where
  pub Total-call :
      (q : Query A)
      → ((t : Tables) → Pre t → (a : A) × (after : Tables) × (q t ≡ (ok a, after)) × Post a after)
      → Total Pre (call q) Post
  unfolding call called answered
  Total-call q h = record {
    at = λ t p. let (a, after, e, post) = h t p in (a, after, ap (answered []) e, post);
  }

  pub Total-pure : (a : A) → ((t : Tables) → Pre t → Post a t) → Total Pre (pure a) Post
  unfolding pure
  Total-pure a h = record { at = λ t p. (a, t, refl, h t p) }

  pub Total-on_error :
      (f : GoError → GoError) (m : M A) → Total Pre m Post → Total Pre (on_error f m) Post
  unfolding on_error
  Total-on_error f m h = record {
    at = λ t p. let (a, after, e, post) = h.at t p in (a, after, ap (translated f) e, post);
  }

  pub Total-transaction : (m : M A) → Total Pre m Post → Total Pre (transaction m) Post
  unfolding transaction
  Total-transaction m h = record {
    at = λ t p. let (a, after, e, post) = h.at t p in (a, after, ap (settled (calm t)) e, post);
  }

module _ {A B : Type 0} (Pre : Tables → Type 0) (Mid : A → Tables → Type 0)
    (Post : B → Tables → Type 0) where
  pub Total-bind :
      (m : M A) (f : A → M B)
      → Total Pre m Mid
      → ((a : A) → Total (Mid a) (f a) Post)
      → Total Pre (m >>= f) Post
  unfolding ◌>>=◌
  Total-bind m f h k = record {
    at = λ t p.
        let (a, between, e, mid) = h.at t p in
        let (b, after, e', post) = (k a).at between mid in (b, after, ap (continue f) e ∙ e', post);
  }
