-- ===== src/Base/Keep.antt =====
-- What is left of a list when the elements that pass a test are taken out.
use Prim.Native.Nat.{◌+◌, ◌≤◌}
use mathlib.Core.Path.{◌≡◌, refl, subst, sym, ◌∙◌}
use mathlib.Core.Logic.{inl, inr}
use mathlib.Core.Bool.{Bool, true, false, not, ◌||◌, ◌&&◌}
use mathlib.Core.List.{List, [], ◌∷◌, ◌++◌}
use mathlib.Core.Option.{some}
use native.Mathlib.Omega.{arith}
use laburi_to.Base.Tests.{weight, Bool-cases}
use laburi_to.Base.Lists.{count, any, find, keep, All}

module _ {ℓ} {A : Type ℓ} where
  pub keep-absent : (p : A → Bool) (xs : List A) → count p xs ≡ 0 → keep (λ x. not (p x)) xs ≡ xs
  unfolding keep count
  keep-absent p [] h = refl
  keep-absent p (x ∷ xs) h = ground (arith, keep-absent p xs)

  -- Taking out the one element that passes `p` lowers a count by that element.
  pub count-keep-not :
      (q p : A → Bool) (x : A) (xs : List A)
      → count p xs ≤ 1
      → find p xs ≡ some x
      → count q (keep (λ y. not (p y)) xs) + weight (q x) ≡ count q xs
  unfolding keep count find
  count-keep-not q p x [] u h = ground arith
  count-keep-not q p x (y ∷ xs) u h = ground (arith, keep-absent p xs, count-keep-not q p x xs)

  pub any-split :
      (q p : A → Bool) (xs : List A)
      → any q xs ≡ any q (keep p xs) || any q (keep (λ x. not (p x)) xs)
  unfolding any keep
  any-split q p [] = refl
  any-split q p (x ∷ xs) = ground (arith, any-split q p xs)

  pub any-append : (q : A → Bool) (xs ys : List A) → any q (xs ++ ys) ≡ any q xs || any q ys
  unfolding any
  any-append q [] ys = refl
  any-append q (x ∷ xs) ys = ground (arith, any-append q xs ys)

  pub any-append_last :
      (p : A → Bool) (xs : List A) (x : A) → p x ≡ true → any p (xs ++ x ∷ []) ≡ true
  unfolding any
  any-append_last p xs x h = any-append p xs (x ∷ []) ∙ ground arith

  -- Where nothing before passes the test, the last element is the one that is found.
  pub find-append_last :
      (p : A → Bool) (xs : List A) (x : A)
      → any p xs ≡ false
      → p x ≡ true
      → find p (xs ++ x ∷ []) ≡ some x
  unfolding find any
  find-append_last p [] x h k = rw k refl
  find-append_last p (y ∷ xs) x h k = ground (arith, find-append_last p xs x)

  pub keep-append : (p : A → Bool) (xs ys : List A) → keep p (xs ++ ys) ≡ keep p xs ++ keep p ys
  unfolding keep
  keep-append p [] ys = refl
  keep-append p (x ∷ xs) ys = ground (arith, keep-append p xs ys)

  pub count-keep-le : (q p : A → Bool) (xs : List A) → count q (keep p xs) ≤ count q xs
  unfolding keep count
  count-keep-le q p [] = omega arith
  count-keep-le q p (x ∷ xs) = ground (arith, count-keep-le q p xs)

-- An element found by one test that passes another is found by both.
pub find-and {ℓ} :
    {A : Type ℓ} (p q : A → Bool) (xs : List A) (x : A)
    → find p xs ≡ some x
    → q x ≡ true
    → find (λ y. p y && q y) xs ≡ some x
unfolding find
find-and p q [] x h k = h
find-and p q (y ∷ xs) x h k = elim (Bool-cases (p y)) [
  | inl e ↦
      (let same : y ≡ x = ground arith in
        let here : q y ≡ true = subst (λ z. q z ≡ true) (sym same) k in ground arith)
  | inr e ↦ rw e (find-and p q xs x (rw e at h) k)
]

pub All-mono {ℓ κ μ} :
    {A : Type ℓ} (P : A → Type κ) (Q : A → Type μ) (xs : List A)
    → ((x : A) → P x → Q x)
    → All P xs
    → All Q xs
All-mono P Q [] h a = tt
All-mono P Q (x ∷ xs) h a = (h x a.0, All-mono P Q xs h a.1)

-- What holds of the elements that are kept, where the test may be used.
pub All-keep_if {ℓ κ μ} :
    {A : Type ℓ} (P : A → Type κ) (Q : A → Type μ) (p : A → Bool) (xs : List A)
    → ((x : A) → p x ≡ true → P x → Q x)
    → All P xs
    → All Q (keep p xs)
unfolding keep
All-keep_if P Q p [] h a = tt
All-keep_if P Q p (x ∷ xs) h a = elim (Bool-cases (p x)) [
  | inl e ↦ rw e (h x e a.0, All-keep_if P Q p xs h a.1)
  | inr e ↦ rw e (All-keep_if P Q p xs h a.1)
]
