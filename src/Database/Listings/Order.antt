-- ===== src/Database/Listings/Order.antt =====
-- The order in which the two listings return their rows.
use laburi_to.Base.{
  ℕ, ℤ, pos, negsuc, String, ◌≡◌, refl, Bool, true, false, Option, none, some, List, [], ◌∷◌, count,
  Bool-cases, inl, inr, arith, int_ltb, length, suc, ap, ◌∙◌,
}
use laburi_to.Database.Listings.{placed, ordered, score_above, listed_before, employee_before}

module _ {ℓ} {A : Type ℓ} (before : A → A → Bool) where
  -- No element is followed directly by one that belongs before it.
  abbrev pub IsSorted : List A → Type 0
  IsSorted [] = Unit
  IsSorted (x ∷ []) = Unit
  IsSorted (x ∷ y ∷ rest) = (before y x ≡ false) × IsSorted (y ∷ rest)

  -- A strict order is asymmetric.
  abbrev pub IsAsymmetric : Type ℓ
  IsAsymmetric = (x y : A) → before x y ≡ true → before y x ≡ false

  IsSorted-after :
      IsAsymmetric
      → (y x : A) (ys : List A) → before y x ≡ true
      → IsSorted (y ∷ ys)
      → IsSorted (y ∷ placed before x ys)
  unfolding placed
  IsSorted-after asym y x [] h s = (asym y x h, tt)
  IsSorted-after asym y x (z ∷ zs) h s = elim (Bool-cases (before z x)) [
    | inl e ↦ rw e (s.0, IsSorted-after asym z x zs e s.1)
    | inr e ↦ rw e (asym y x h, (e, s.1))
  ]

  placed-IsSorted :
      IsAsymmetric → (x : A) (xs : List A) → IsSorted xs → IsSorted (placed before x xs)
  unfolding placed
  placed-IsSorted asym x [] s = tt
  placed-IsSorted asym x (y ∷ ys) s = elim (Bool-cases (before y x)) [
    | inl e ↦ rw e (IsSorted-after asym y x ys e s)
    | inr e ↦ rw e (e, s)
  ]

  pub ordered-IsSorted : IsAsymmetric → (xs : List A) → IsSorted (ordered before xs)
  unfolding ordered
  ordered-IsSorted asym [] = tt
  ordered-IsSorted asym (x ∷ xs) =
      placed-IsSorted asym x (ordered before xs) (ordered-IsSorted asym xs)

  count-placed :
      (p : A → Bool) (x : A) (xs : List A) → count p (placed before x xs) ≡ count p (x ∷ xs)
  unfolding placed count
  count-placed p x [] = refl
  count-placed p x (y ∷ ys) = ground (arith, count-placed p x ys)

  pub count-ordered : (p : A → Bool) (xs : List A) → count p (ordered before xs) ≡ count p xs
  unfolding ordered count
  count-ordered p [] = refl
  count-ordered p (x ∷ xs) = omega (arith, count-placed p x (ordered before xs), count-ordered p xs)

  length-placed : (x : A) (xs : List A) → length (placed before x xs) ≡ suc (length xs)
  unfolding placed
  length-placed x [] = refl
  length-placed x (y ∷ xs) = ground (arith, length-placed x xs)

  pub length-ordered : (xs : List A) → length (ordered before xs) ≡ length xs
  unfolding ordered
  length-ordered [] = refl
  length-ordered (x ∷ xs) = length-placed x (ordered before xs) ∙ ap suc (length-ordered xs)

int_ltb-asymmetric : IsAsymmetric int_ltb
unfolding int_ltb
int_ltb-asymmetric (pos a) (pos b) h = ground arith
int_ltb-asymmetric (negsuc a) (negsuc b) h = ground arith
int_ltb-asymmetric (pos a) (negsuc b) h = cc
int_ltb-asymmetric (negsuc a) (pos b) h = refl

module _ (below : String → String → Bool) (asym : IsAsymmetric below) where
  score_above-asymmetric : IsAsymmetric (score_above below)
  unfolding score_above
  score_above-asymmetric (some a) (some b) h = asym b a h
  score_above-asymmetric (some _) none h = refl
  score_above-asymmetric none _ h = cc

  listed_before-asymmetric :
      (score score' : Option String) (time time' : ℕ) (i i' : ℤ)
      → listed_before below score time i score' time' i' ≡ true
      → listed_before below score' time' i' score time i ≡ false
  unfolding listed_before
  listed_before-asymmetric score score' time time' i i' h = ground (
    arith,
    score_above-asymmetric score score',
    score_above-asymmetric score' score,
    int_ltb-asymmetric i i',
  )

  employee_before-asymmetric : IsAsymmetric (employee_before below)
  unfolding employee_before
  employee_before-asymmetric a b =
      listed_before-asymmetric a.recommendation.score b.recommendation.score a.employee.updated_at
        b.employee.updated_at a.recommendation.id b.recommendation.id
