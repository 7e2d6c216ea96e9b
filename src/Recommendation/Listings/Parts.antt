-- ===== src/Recommendation/Listings/Parts.antt =====
-- Parts of the current set: how many items a page has, and pages that follow each other.
use laburi_to.Base.{
  ℕ, ℤ, pos, ◌≡◌, refl, sym, ap, ◌∙◌, subst, take-add, drop-add, length-drop, length-take, Option,
  none, some, List, [], ◌∷◌, ◌++◌, ◌+◌, ◌-◌, suc, length, take, drop, arith, if◌then◌else◌, ltb,
}
use laburi_to.Errors.{Result, ok, err}
use laburi_to.Recommendation.Models.{BatchStatus}
use laburi_to.Recommendation.Service.{RecommendationSet}
use laburi_to.Recommendation.Listings.{int32_of, items_from, consed}
use laburi_to.Recommendation.Listings.View.{made, read, done_set, set_of}
use laburi_to.Database.Schema.{BatchRow}
use laburi_to.Database.Listings.{window}

module _ {A B : Type 0} (item : A → Result B) where
  consed-ok :
      (r : Result B) (rest : Result (List B)) (zs : List B)
      → consed r rest ≡ ok zs
      → (z : B) × (ys : List B) × (r ≡ ok z) × (rest ≡ ok ys) × (zs ≡ z ∷ ys)
  unfolding consed
  consed-ok (err e) rest zs h = cc
  consed-ok (ok z) (err e) zs h = cc
  consed-ok (ok z) (ok ys) zs h = (z, ys, refl, refl, cc)

  consed-both :
      (r : Result B) (rest : Result (List B)) (z : B) (ys : List B)
      → r ≡ ok z
      → rest ≡ ok ys
      → consed r rest ≡ ok (z ∷ ys)
  unfolding consed
  consed-both r rest z ys e f = rw (e, f) refl

  items_from-append :
      (xs ys : List A) (zs : List B)
      → items_from item (xs ++ ys) ≡ ok zs
      → (a b : List B) × (items_from item xs ≡ ok a) × (items_from item ys ≡ ok b) × (zs ≡ a ++ b)
  unfolding items_from
  items_from-append [] ys zs h = ([], zs, refl, h, refl)
  items_from-append (x ∷ xs) ys zs h =
      let (z, rest, first, others, e) = consed-ok (item x) (items_from item (xs ++ ys)) zs h in
      let (a, b, ea, eb, split) = items_from-append xs ys rest others in
      (
        z ∷ a,
        b,
        consed-both (item x) (items_from item xs) z a first ea,
        eb,
        e ∙ ap (λ l. z ∷ l) split,
      )

  length-items_from :
      (xs : List A) (zs : List B) → items_from item xs ≡ ok zs → length zs ≡ length xs
  unfolding items_from
  length-items_from [] zs h = ground arith
  length-items_from (x ∷ xs) zs h =
      let (z, rest, first, others, e) = consed-ok (item x) (items_from item xs) zs h in
      ap length e ∙ ap suc (length-items_from xs rest others)

  made-ok :
      (status : BatchStatus) (n : ℕ) (items : Result (List B)) (set : RecommendationSet B)
      → made item status n items ≡ ok set
      → items ≡ ok set.items × (set.status ≡ status) × (set.total ≡ int32_of n)
  unfolding made
  made-ok status n (err e) set h = cc
  made-ok status n (ok items) set h =
      let e : record { status = status; items = items; total = int32_of n } ≡ set = cc in
      (ap (λ s. ok s.items) e, sym (ap (λ s. s.status) e), sym (ap (λ s. s.total) e))

  -- A page of a set of `k` has as many items as fit, `k` the total.
  pub set_of-size :
      (newest last : Option BatchRow) (matches sorted : ℤ → List A) (o n : ℕ)
      (set : RecommendationSet B)
      → ((i : ℤ) → length (sorted i) ≡ length (matches i))
      → set_of item newest last (λ i. length (matches i)) (λ i. window (pos n) (pos o) (sorted i))
        ≡ ok set
      → (k : ℕ) × (set.total ≡ int32_of k)
        × (length set.items ≡ (if ltb (k - o) n then k - o else n))
  unfolding set_of done_set read window int32_of
  set_of-size none last matches sorted o n set same h = cc
  set_of-size (some row) none matches sorted o n set same h =
      let e : record { status = row.status; items = []; total = pos 0 } ≡ set = cc in
      (0, sym (ap (λ s. s.total) e), sym (ap (λ s. length s.items) e) ∙ ground arith)
  set_of-size (some row) (some last) matches sorted o n set same h =
      let (items, _, total) = made-ok row.status (length (matches last.id)) _ set h in
      let xs = sorted last.id in
      (
        length (matches last.id),
        total,
        subst (λ k. length set.items ≡ (if ltb (k - o) n then k - o else n)) (same last.id)
            (length-items_from (take n (drop o xs)) set.items items
              ∙ length-take n (drop o xs)
              ∙ ap (λ k. if ltb k n then k else n) (length-drop o xs)),
      )

  -- A part of a set and the part after it are the part that spans both.
  pub set_of-tile :
      (newest last : Option BatchRow) (size : ℤ → ℕ) (rows : ℤ → List A) (o n m : ℕ)
      (whole : RecommendationSet B)
      → set_of item newest last size (λ i. window (pos (n + m)) (pos o) (rows i)) ≡ ok whole
      → (first second : RecommendationSet B) × (set_of item newest last size
            (λ i. window (pos n) (pos o) (rows i))
          ≡ ok first)
        × (set_of item newest last size (λ i. window (pos m) (pos (o + n)) (rows i)) ≡ ok second)
        × (whole.items ≡ first.items ++ second.items)
        × (first.total ≡ whole.total)
        × (second.total ≡ whole.total)
  unfolding set_of done_set read window
  set_of-tile none last size rows o n m whole h = cc
  set_of-tile (some row) none size rows o n m whole h =
      let e : record { status = row.status; items = []; total = pos 0 } ≡ whole = cc in
      (whole, whole, h, h, subst (λ s. s.items ≡ s.items ++ s.items) e refl, refl, refl)
  set_of-tile (some row) (some last) size rows o n m whole h =
      let (items, status, total) = made-ok row.status (size last.id) _ whole h in
      let xs = drop o (rows last.id) in
      let (a, b, first, second, split) =
        items_from-append (take n xs) (take m (drop n xs)) whole.items
          (subst (λ l. items_from item l ≡ ok whole.items) (take-add n m xs) items) in
      (
        record whole { status = row.status; items = a; total = int32_of (size last.id) },
        record whole { status = row.status; items = b; total = int32_of (size last.id) },
        ap (made {A = A} item row.status (size last.id)) first,
        ap (made {A = A} item row.status (size last.id))
            (ap (λ l. items_from item (take m l)) (drop-add o n (rows last.id)) ∙ second),
        split,
        sym total,
        sym total,
      )
