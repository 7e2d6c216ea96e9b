-- ===== src/Base/Lists.antt =====
-- Lists of rows: counting, searching, replacing and filtering by a Boolean test.
use Prim.Native.Nat.{ℕ, zero, suc, ◌+◌, ◌≤◌, ◌<◌}
use mathlib.Core.Path.{◌≡◌, refl, subst}
use mathlib.Core.Logic.{inl, inr}
use mathlib.Core.Bool.{Bool, true, false, ◌&&◌, ◌||◌}
use mathlib.Core.List.{List, [], ◌∷◌, ◌++◌}
use mathlib.Core.Option.{Option, none, some}
use native.Mathlib.Omega.{arith}
use laburi_to.Base.Tests.{if◌then◌else◌, weight, Bool-cases}

module _ {ℓ} {A : Type ℓ} where
  abbrev pub length : List A → ℕ
  length [] = 0
  length (x ∷ xs) = suc (length xs)

  -- The number of elements that pass a test.
  unfoldable pub count : (A → Bool) → List A → ℕ
  count p [] = 0
  count p (x ∷ xs) = weight (p x) + count p xs

  unfoldable pub any : (A → Bool) → List A → Bool
  any p [] = false
  any p (x ∷ xs) = p x || any p xs

  -- The first element that passes a test.
  unfoldable pub find : (A → Bool) → List A → Option A
  find p [] = none
  find p (x ∷ xs) = if p x then some x else find p xs

  -- The elements that pass a test, in order.
  unfoldable pub keep : (A → Bool) → List A → List A
  keep p [] = []
  keep p (x ∷ xs) = let rest = keep p xs in if p x then x ∷ rest else rest

  -- Writes `v` over every element that passes a test.
  unfoldable pub overwrite : (A → Bool) → A → List A → List A
  overwrite p v [] = []
  overwrite p v (x ∷ xs) = (if p x then v else x) ∷ overwrite p v xs

  abbrev pub take : ℕ → List A → List A
  take zero xs = []
  take (suc n) [] = []
  take (suc n) (x ∷ xs) = x ∷ take n xs

  abbrev pub drop : ℕ → List A → List A
  drop zero xs = xs
  drop (suc n) [] = []
  drop (suc n) (x ∷ xs) = drop n xs

-- Every element satisfies a predicate.
abbrev pub All {ℓ κ} : {A : Type ℓ} → (A → Type κ) → List A → Type κ
All P [] = Unit
All P (x ∷ xs) = P x × All P xs

module _ {ℓ} {A : Type ℓ} where
  pub count-append : (p : A → Bool) (xs ys : List A) → count p (xs ++ ys) ≡ count p xs + count p ys
  unfolding count
  count-append p [] ys = omega arith
  count-append p (x ∷ xs) ys = omega (arith, count-append p xs ys)

  pub any-false : (p : A → Bool) (xs : List A) → any p xs ≡ false → count p xs ≡ 0
  unfolding any count
  any-false p [] h = refl
  any-false p (x ∷ xs) h = ground (arith, any-false p xs)

  pub any-true : (p : A → Bool) (xs : List A) → any p xs ≡ true → 0 < count p xs
  unfolding any count
  any-true p [] h = ground arith
  any-true p (x ∷ xs) h = ground (arith, any-true p xs)

  pub count-any : (p : A → Bool) (xs : List A) → 0 < count p xs → any p xs ≡ true
  unfolding any count
  count-any p [] h = ground arith
  count-any p (x ∷ xs) h = ground (arith, count-any p xs)

  pub find-some : (p : A → Bool) (xs : List A) (x : A) → find p xs ≡ some x → p x ≡ true
  unfolding find
  find-some p [] x h = ground arith
  find-some p (y ∷ xs) x h = ground (arith, find-some p xs x)

  pub any-find : (p : A → Bool) (xs : List A) → any p xs ≡ true → (x : A) × (find p xs ≡ some x)
  unfolding any find
  any-find p [] h = cc
  any-find p (y ∷ xs) h = elim (Bool-cases (p y)) [
    | inl e ↦ rw e (y, refl)
    | inr e ↦ rw e (any-find p xs (rw e at h))
  ]

  pub find-count : (p : A → Bool) (xs : List A) (x : A) → find p xs ≡ some x → 0 < count p xs
  unfolding find count
  find-count p [] x h = ground arith
  find-count p (y ∷ xs) x h = ground (arith, find-count p xs x)

  pub find-none : (p : A → Bool) (xs : List A) → find p xs ≡ none → count p xs ≡ 0
  unfolding find count
  find-none p [] h = refl
  find-none p (y ∷ xs) h = ground (arith, find-none p xs)

  pub count-find : (p : A → Bool) (xs : List A) → count p xs ≡ 0 → find p xs ≡ none
  unfolding find count
  count-find p [] h = refl
  count-find p (y ∷ xs) h = ground (arith, count-find p xs)

  pub count_mono :
      (q p : A → Bool) (xs : List A) → ((x : A) → q x ≡ true → p x ≡ true) → count q xs ≤ count p xs
  unfolding count
  count_mono q p [] h = omega arith
  count_mono q p (y ∷ xs) h = ground (arith, h y, count_mono q p xs h)

  -- A search by two tests finds what a search by the first finds, where that is unique.
  pub find-both :
      (p q : A → Bool) (xs : List A) (x : A)
      → count p xs ≤ 1
      → find (λ y. p y && q y) xs ≡ some x
      → (find p xs ≡ some x) × (q x ≡ true)
  unfolding find count
  find-both p q [] x u h = cc
  find-both p q (y ∷ xs) x u h = ground (
    arith,
    find-both p q xs x,
    find-count (λ z. p z && q z) xs x,
    count_mono (λ z. p z && q z) p xs (λ z e. ground arith),
  )

  pub overwrite-absent :
      (p : A → Bool) (v : A) (xs : List A) → count p xs ≡ 0 → overwrite p v xs ≡ xs
  unfolding overwrite count
  overwrite-absent p v [] h = refl
  overwrite-absent p v (y ∷ xs) h = ground (arith, overwrite-absent p v xs)

  -- Writing over the one element that passes `p` changes a count by that element alone.
  pub count-overwrite :
      (q p : A → Bool) (v x : A) (xs : List A)
      → count p xs ≤ 1
      → find p xs ≡ some x
      → count q (overwrite p v xs) + weight (q x) ≡ count q xs + weight (q v)
  unfolding overwrite count find
  count-overwrite q p v x [] u h = ground arith
  count-overwrite q p v x (y ∷ xs) u h =
      ground (arith, overwrite-absent p v xs, count-overwrite q p v x xs)

  pub find-overwrite_ne :
      (q p : A → Bool) (v : A) (xs : List A)
      → ((x : A) → p x ≡ true → q x ≡ false)
      → q v ≡ false
      → find q (overwrite p v xs) ≡ find q xs
  unfolding overwrite find
  find-overwrite_ne q p v [] h e = refl
  find-overwrite_ne q p v (y ∷ xs) h e = ground (arith, h y, find-overwrite_ne q p v xs h)

  pub find-overwrite_self :
      (p : A → Bool) (v x : A) (xs : List A)
      → p v ≡ true
      → find p xs ≡ some x
      → find p (overwrite p v xs) ≡ some v
  unfolding overwrite find
  find-overwrite_self p v x [] e h = ground arith
  find-overwrite_self p v x (y ∷ xs) e h = ground (arith, find-overwrite_self p v x xs e)

  pub count-keep : (q p : A → Bool) (xs : List A) → count q (keep p xs) ≡ count (λ x. p x && q x) xs
  unfolding keep count
  count-keep q p [] = refl
  count-keep q p (y ∷ xs) = ground (arith, count-keep q p xs)

  pub count-never : (q : A → Bool) (xs : List A) → ((x : A) → q x ≡ false) → count q xs ≡ 0
  unfolding count
  count-never q [] h = refl
  count-never q (y ∷ xs) h = ground (arith, h y, count-never q xs h)

  pub find-keep :
      (q p : A → Bool) (xs : List A)
      → ((x : A) → q x ≡ true → p x ≡ true)
      → find q (keep p xs) ≡ find q xs
  unfolding keep find
  find-keep q p [] h = refl
  find-keep q p (y ∷ xs) h = ground (arith, h y, find-keep q p xs h)

module _ {ℓ κ} {A : Type ℓ} (P : A → Type κ) where
  -- What holds of every element holds of the one found.
  pub All-find : (p : A → Bool) (xs : List A) (x : A) → All P xs → find p xs ≡ some x → P x
  unfolding find
  All-find p [] x a h = cc
  All-find p (y ∷ xs) x a h = elim (Bool-cases (p y)) [
    | inl e ↦ (let same : y ≡ x = ground arith in subst P same a.0)
    | inr e ↦ All-find p xs x a.1 (rw e at h)
  ]

  pub All-append : (xs ys : List A) → All P xs → All P ys → All P (xs ++ ys)
  All-append [] ys a b = b
  All-append (x ∷ xs) ys a b = (a.0, All-append xs ys a.1 b)

  pub All-keep : (p : A → Bool) (xs : List A) → All P xs → All P (keep p xs)
  unfolding keep
  All-keep p [] a = tt
  All-keep p (y ∷ xs) a = elim (Bool-cases (p y)) [
    | inl e ↦ rw e (a.0, All-keep p xs a.1)
    | inr e ↦ rw e (All-keep p xs a.1)
  ]

  pub All-overwrite :
      (p : A → Bool) (v : A) (xs : List A) → P v → All P xs → All P (overwrite p v xs)
  unfolding overwrite
  All-overwrite p v [] h a = tt
  All-overwrite p v (y ∷ xs) h a = elim (Bool-cases (p y)) [
    | inl e ↦ rw e (h, All-overwrite p v xs h a.1)
    | inr e ↦ rw e (a.0, All-overwrite p v xs h a.1)
  ]

  pub All-of : (xs : List A) → ((x : A) → P x) → All P xs
  All-of [] h = tt
  All-of (x ∷ xs) h = (h x, All-of xs h)
