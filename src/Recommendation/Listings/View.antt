-- ===== src/Recommendation/Listings/View.antt =====
-- A read of the current set as a function of the rows, where no call to the database fails.
use laburi_to.Base.{ℕ, ℤ, pos, ◌≡◌, refl, Option, none, some, List, [], length}
use laburi_to.Errors.{Result, ok, err, sentinel, no_current_batch, wrap, is}
use laburi_to.Recommendation.Models.{BatchStatus, Page}
use laburi_to.Recommendation.Service.{RecommendationSet}
use laburi_to.Recommendation.Listings.{
  int32_of, items_from, current_set, completed_set, batch_set, no_current,
}
use laburi_to.Database.Schema.{BatchRow, Tables}
use laburi_to.Database.Connection.{
  of_result, M, call, called, answered, pure, on_error, translated, continue, ◌>>=◌,
}
use laburi_to.Database.Batches.{the_row}
use laburi_to.Database.Listings.{window}
use laburi_to.Database.Total.{calm}

module _ {A B : Type 0} (item : A → Result B) where
  unfoldable pub made : BatchStatus → ℕ → Result (List B) → Result (RecommendationSet B)
  made status n (err e) = err e
  made status n (ok items) = ok (record { status = status; items = items; total = int32_of n })

  unfoldable pub read : BatchStatus → ℕ → Result (List A) → Result (RecommendationSet B)
  unfolding made
  read status n (err e) = err (wrap e)
  read status n (ok rows) = made status n (items_from item rows)

  unfoldable pub done_set :
      BatchStatus → Option BatchRow → (ℤ → ℕ) → (ℤ → Result (List A)) → Result (RecommendationSet B)
  unfolding read
  done_set status none size rows = ok (record { status = status; items = []; total = pos 0 })
  done_set status (some last) size rows = read status (size last.id) (rows last.id)

  -- The answer as a function of the rows: the newest batch, the last completed one, the number of
  -- its matches and the part of them that the page asks for.
  unfoldable pub set_of :
      Option BatchRow
      → Option BatchRow
      → (ℤ → ℕ)
      → (ℤ → Result (List A))
      → Result (RecommendationSet B)
  unfolding done_set
  set_of none last size rows = err (sentinel no_current_batch)
  set_of (some row) last size rows = done_set row.status last size rows

  module _ (newest last : Tables → Option BatchRow) (matches : ℤ → Tables → List A)
      (sorted : List A → List A) where
    abbrev pub reads : Page → M (RecommendationSet B)
    reads =
        current_set (λ i t. (ok (length (matches i t)), t))
          (λ i limit offset t. (window limit offset (sorted (matches i t)), t)) item
          (λ t. (the_row (newest t), t)) (λ t. (the_row (last t), t))

    finished :
        (status : BatchStatus) (n : ℕ) (items : Result (List B)) (t : Tables)
        → continue
            (λ items. pure (record { status = status; items = items; total = int32_of n }))
            (items, calm t)
          ≡ (made status n items, calm t)
    unfolding pure made
    finished status n (ok items) t = refl
    finished status n (err e) t = refl

    listed :
        (status : BatchStatus) (n : ℕ) (rows : Result (List A)) (t : Tables)
        → continue
            (λ rows. of_result (items_from item rows) >>= λ items.
              pure (record { status = status; items = items; total = int32_of n }))
            (translated wrap (rows, calm t))
          ≡ (read status n rows, calm t)
    unfolding ◌>>=◌ of_result read
    listed status n (ok rows) t = finished status n (items_from item rows) t
    listed status n (err e) t = refl

    completed_read :
        (status : BatchStatus) (page : Page) (o : Option BatchRow) (t : Tables)
        → completed_set
            (λ i t'. (ok (length (matches i t')), t'))
            (λ i limit offset t'. (window limit offset (sorted (matches i t')), t'))
            item
            status
            page
            (the_row o, calm t)
          ≡ (
            done_set status o
                (λ i. length (matches i t))
                (λ i. window page.limit page.offset (sorted (matches i t))),
            calm t,
          )
    unfolding batch_set done_set call called answered on_error ◌>>=◌ the_row is
    completed_read status page none t = refl
    completed_read status page (some row) t =
        listed status (length (matches row.id t))
          (window page.limit page.offset (sorted (matches row.id t))) t

    started :
        (page : Page) (o : Option BatchRow) (t : Tables)
        → continue
            (λ row c.
              completed_set
                (λ i t'. (ok (length (matches i t')), t'))
                (λ i limit offset t'. (window limit offset (sorted (matches i t')), t'))
                item
                row.status
                page
                (call (λ t'. (the_row (last t'), t')) c))
            (translated no_current (the_row o, calm t))
          ≡ (
            set_of o
                (last t)
                (λ i. length (matches i t))
                (λ i. window page.limit page.offset (sorted (matches i t))),
            calm t,
          )
    unfolding call called answered set_of the_row no_current is
    started page none t = refl
    started page (some row) t = completed_read row.status page (last t) t

    pub current_set-set_of :
        (page : Page) (t : Tables)
        → reads page (calm t) ≡ (
          set_of
              (newest t)
              (last t)
              (λ i. length (matches i t))
              (λ i. window page.limit page.offset (sorted (matches i t))),
          calm t,
        )
    unfolding current_set call called answered on_error ◌>>=◌
    current_set-set_of page t = started page (newest t) t
