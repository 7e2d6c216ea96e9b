-- ===== src/Recommendation/Candidates/Highest.antt =====
-- The highest education of an employee is not below any that is registered.
use laburi_to.Base.{
  sym, subst, ℕ, String, ◌≡◌, refl, Option, none, some, List, [], ◌∷◌, ◌++◌, ◌≤◌, leb, Bool-cases,
  inl, inr, arith,
}
use laburi_to.Scoring.Levels.{EducationLevel, education_of, education_rank}
use laburi_to.Recommendation.Candidates.{Highest, raise_highest, highest_from, highest_education}

-- The rank that the search keeps is that of the level it keeps.
abbrev IsSound : Highest → Type 0
IsSound none = Unit
IsSound (some (best, rank)) = education_rank best ≡ some rank

-- The search has a level of rank `n` or above.
abbrev Reaches : ℕ → Highest → Type 0
Reaches n h =
    (best : EducationLevel) × (rank : ℕ) × (h ≡ some (best, rank))
    × (education_rank best ≡ some rank)
    × (n ≤ rank)

raise_highest-IsSound :
    (level : EducationLevel) (r : Option ℕ) (h : Highest)
    → education_rank level ≡ r
    → IsSound h
    → IsSound (raise_highest level r h)
unfolding raise_highest
raise_highest-IsSound level none h e s = s
raise_highest-IsSound level (some rank) none e s = e
raise_highest-IsSound level (some rank) (some (best, best_rank)) e s =
    elim (Bool-cases (leb rank best_rank)) [ inl k ↦ rw k s | inr k ↦ rw k e ]

raise_highest-Reaches :
    (level : EducationLevel) (r : Option ℕ) (n : ℕ) (h : Highest)
    → education_rank level ≡ r
    → Reaches n h
    → Reaches n (raise_highest level r h)
unfolding raise_highest
raise_highest-Reaches level none n h e s = s
raise_highest-Reaches level (some rank) n none e (best, m, found, ranked, above) = cc
raise_highest-Reaches level (some rank) n (some (held, held_rank)) e
      (best, m, found, ranked, above) =
    elim (Bool-cases (leb rank held_rank)) [
      | inl k ↦ rw k (best, m, found, ranked, above)
      | inr k ↦ rw k (level, rank, refl, e, (let same : held_rank ≡ m = cc in ground arith))
    ]

raise_highest_reached :
    (level : EducationLevel) (n : ℕ) (h : Highest)
    → education_rank level ≡ some n
    → IsSound h
    → Reaches n (raise_highest level (some n) h)
unfolding raise_highest
raise_highest_reached level n none e s = (level, n, refl, e, omega arith)
raise_highest_reached level n (some (held, held_rank)) e s = elim (Bool-cases (leb n held_rank)) [
  | inl k ↦ rw k (held, held_rank, refl, s, ground arith)
  | inr k ↦ rw k (level, n, refl, e, omega arith)
]

highest_from-Reaches :
    (types : List String) (n : ℕ) (h : Highest) → Reaches n h → Reaches n (highest_from h types)
unfolding highest_from
highest_from-Reaches [] n h s = s
highest_from-Reaches (raw ∷ rest) n h s =
    let level = education_of raw in
    highest_from-Reaches rest n (raise_highest level (education_rank level) h)
      (raise_highest-Reaches level (education_rank level) n h refl s)

highest_from_reached :
    (xs ys : List String) (raw : String) (n : ℕ) (h : Highest)
    → education_rank (education_of raw) ≡ some n
    → IsSound h
    → Reaches n (highest_from h (xs ++ raw ∷ ys))
unfolding highest_from
highest_from_reached [] ys raw n h e s =
    let level = education_of raw in
    highest_from-Reaches ys n (raise_highest level (education_rank level) h) (
      subst (λ r. Reaches n (raise_highest level r h)) (sym e)
        (raise_highest_reached level n h e s))
highest_from_reached (x ∷ xs) ys raw n h e s =
    let level = education_of x in
    highest_from_reached xs ys raw n (raise_highest level (education_rank level) h) e
      (raise_highest-IsSound level (education_rank level) h refl s)

-- Where a level with a rank is registered, wherever it stands among the others, known or not, the
-- employee has a highest education, of that rank or above.
pub highest_education_above :
    (xs ys : List String) (raw : String) (n : ℕ)
    → education_rank (education_of raw) ≡ some n
    → (best : EducationLevel) × (rank : ℕ) × (highest_education (xs ++ raw ∷ ys) ≡ some best)
      × (education_rank best ≡ some rank)
      × (n ≤ rank)
unfolding highest_education
highest_education_above xs ys raw n e =
    let (best, rank, found, ranked, above) = highest_from_reached xs ys raw n none e tt in
    (best, rank, rw found refl, ranked, above)
