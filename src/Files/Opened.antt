-- ===== src/Files/Opened.antt =====
-- Which files are open after GetPDF.
use laburi_to.Base.{
  ℕ, ◌==◌, nat_eq, any, keep, List, [], ◌∷◌, Bool, true, false, not, ◌&&◌, ◌||◌, ◌≡◌, refl, ◌≤◌,
  ◌<◌, arith, Bool-cases, inl, inr, ◌++◌, any-append, ◌∙◌,
}
use laburi_to.Files.{Handles, close}

abbrev pub is_open : ℕ → Handles → Bool
is_open j s = any (λ i. i == j) s.open_files

abbrev pub among : ℕ → List ℕ → Bool
among j files = any (λ i. i == j) files

-- The files that are open are older than the next one.
abbrev pub IsFresh : Handles → Type 0
IsFresh s = (j : ℕ) → is_open j s ≡ true → j < s.next

-- From `s` to `s'`, these files were opened and are still open; whatever else was opened is closed again.
pub record Opens (s : Handles) (files : List ℕ) (s' : Handles) : Type 0 where
  pub grown : s.next ≤ s'.next
  pub same : (j : ℕ) → is_open j s' ≡ is_open j s || among j files
  pub recent : (j : ℕ) → among j files ≡ true → (s.next ≤ j) × (j < s'.next)

any-keep_other :
    (i j : ℕ) (files : List ℕ)
    → among j (keep (λ k. not (k == i)) files) ≡ among j files && not (j == i)
unfolding any keep
any-keep_other i j [] = refl
any-keep_other i j (k ∷ files) = ground (arith, any-keep_other i j files)

pub Opens-IsFresh :
    (s : Handles) (files : List ℕ) (s' : Handles) → IsFresh s → Opens s files s' → IsFresh s'
Opens-IsFresh s files s' fresh o j h = elim (Bool-cases (is_open j s)) [
  | inl e ↦ omega (arith, fresh j e, o.grown)
  | inr e ↦ (o.recent j (rw (o.same j, e) at h)).1
]

pub Opens-none : (s : Handles) → Opens s [] s
unfolding any
Opens-none s = record {
  grown = omega arith;
  same = λ j. ground arith;
  recent = λ j h. ground (arith, h);
}

or_assoc : (x y z : Bool) → (x || y) || z ≡ x || (y || z)
or_assoc false y z = refl
or_assoc true y z = refl

pub Opens-append :
    (s : Handles) (fs : List ℕ) (s1 : Handles) (gs : List ℕ) (s2 : Handles)
    → Opens s fs s1
    → Opens s1 gs s2
    → Opens s (fs ++ gs) s2
Opens-append s fs s1 gs s2 o p = record {
  grown = omega (arith, o.grown, p.grown);
  same = λ j.
      rw (any-append (λ i. i == j) fs gs, p.same j, o.same j)
        (or_assoc (is_open j s) (among j fs) (among j gs));
  recent = λ j h. elim (Bool-cases (among j fs)) [
    | inl e ↦
        (let b : s.next ≤ j × j < s1.next = o.recent j e in (b.0, omega (arith, b.1, p.grown)))
    | inr e ↦
        (let b : s1.next ≤ j × j < s2.next =
            p.recent j (rw (any-append (λ i. i == j) fs gs, e) at h) in
          (omega (arith, b.0, o.grown), b.1))
  ];
}

abbrev pub close_all : List ℕ → Handles → Handles
close_all [] s = s
close_all (i ∷ files) s = close_all files (close i s)

close_all-next : (files : List ℕ) (s : Handles) → (close_all files s).next ≡ s.next
unfolding close
close_all-next [] s = refl
close_all-next (i ∷ files) s = close_all-next files (close i s)

is_open-close_all :
    (j : ℕ) (files : List ℕ) (s : Handles)
    → is_open j (close_all files s) ≡ is_open j s && not (among j files)
unfolding close any
is_open-close_all j [] s = ground arith
is_open-close_all j (i ∷ files) s =
    is_open-close_all j files (close i s) ∙ rw (any-keep_other i j s.open_files) (ground arith)

closed :
    (s : Handles) (files : List ℕ) (s' : Handles)
    → IsFresh s
    → Opens s files s'
    → (j : ℕ) → (is_open j s || among j files) && not (among j files) ≡ is_open j s || among j []
unfolding any
closed s files s' fresh o j = elim (Bool-cases (among j files)) [
  | inl e ↦
      (let b : s.next ≤ j × j < s'.next = o.recent j e in
        elim (Bool-cases (is_open j s)) [
          | inl f ↦ ground (arith, b.0, fresh j f)
          | inr f ↦ rw (e, f) refl
        ])
  | inr e ↦ rw e (ground arith)
]

-- Closing what was opened gives back the files that were open before.
pub Opens-close_all :
    (s : Handles) (files : List ℕ) (s' : Handles)
    → IsFresh s
    → Opens s files s'
    → Opens s [] (close_all files s')
unfolding any
Opens-close_all s files s' fresh o = record {
  grown = rw (close_all-next files s') o.grown;
  same = λ j. is_open-close_all j files s' ∙ rw (o.same j) (closed s files s' fresh o j);
  recent = λ j h. ground (arith, h);
}
