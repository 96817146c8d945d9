-- ===== src/Projection/Newer.antt =====
-- The rows above a cursor, as appshak_projection/projector.py selects and sorts them, when a listing
-- grows.
use app_shak_hq.Prelude.{
  All, Bool, Bool-cases, List, [], ap, arith, inl, inr, keep_if, leb, ltb, max, refl, sym, ℕ, ◌++◌,
  ◌<◌, ◌∙◌, ◌∷◌, ◌≡◌, ◌≤◌,
}
use app_shak_hq.Projection.Projector.{cursor_after, newer, place_by, sorted_by}

module _ {A : Type 0} (id_of : A → ℕ) where
  abbrev pub AtMost : ℕ → List A → Type 0
  AtMost k xs = All (λ x. id_of x ≤ k) xs

  abbrev pub Above : ℕ → List A → Type 0
  Above k xs = All (λ x. k < id_of x) xs

  place_by-All :
      (P : A → Type 0) (x : A) (xs : List A) → P x → All P xs → All P (place_by id_of x xs)
  place_by-All P x [] p h = (p, tt)
  place_by-All P x (y ∷ ys) p h = elim (Bool-cases (leb (id_of x) (id_of y))) [
    | inl here ↦ rw here (p, h)
    | inr later ↦ rw later (h.0, place_by-All P x ys p h.1)
  ]

  sorted_by-All : (P : A → Type 0) (xs : List A) → All P xs → All P (sorted_by id_of xs)
  sorted_by-All P [] h = tt
  sorted_by-All P (x ∷ xs) h = place_by-All P x (sorted_by id_of xs) h.0 (sorted_by-All P xs h.1)

  kept : (P : A → Type 0) (test : A → Bool) (xs : List A) → All P xs → All P (keep_if test xs)
  kept P test [] h = tt
  kept P test (x ∷ xs) h = elim (Bool-cases (test x)) [
    | inl in_ ↦ rw in_ (h.0, kept P test xs h.1)
    | inr out ↦ rw out (kept P test xs h.1)
  ]

  pub newer-All : (P : A → Type 0) (c : ℕ) (xs : List A) → All P xs → All P (newer id_of c xs)
  unfolding newer
  newer-All P c xs h = sorted_by-All P _ (kept P _ xs h)

  keep_if-append :
      (test : A → Bool) (xs ys : List A)
      → keep_if test (xs ++ ys) ≡ keep_if test xs ++ keep_if test ys
  keep_if-append test [] ys = refl
  keep_if-append test (x ∷ xs) ys = ground (arith, keep_if-append test xs ys)

  -- A row above all of the first list goes into the second.
  place_above :
      (k : ℕ) (x : A) (xs ys : List A)
      → AtMost k xs
      → k < id_of x
      → place_by id_of x (xs ++ ys) ≡ xs ++ place_by id_of x ys
  place_above k x [] ys h b = refl
  place_above k x (y ∷ xs) ys h b = ground (arith, h.0, place_above k x xs ys h.1 b)

  -- A row below all of the second list goes into the first.
  place_below :
      (k : ℕ) (x : A) (xs ys : List A)
      → Above k ys
      → id_of x ≤ k
      → place_by id_of x (xs ++ ys) ≡ place_by id_of x xs ++ ys
  place_below k x [] [] h b = refl
  place_below k x [] (y ∷ ys) h b = ground (arith, h.0)
  place_below k x (z ∷ xs) ys h b = ground (arith, place_below k x xs ys h b)

  -- Rows that were listed later come later, wherever the listing has them.
  sorted_after :
      (k : ℕ) (xs ys : List A)
      → AtMost k xs
      → Above k ys
      → sorted_by id_of (xs ++ ys) ≡ sorted_by id_of xs ++ sorted_by id_of ys
  sorted_after k [] ys h b = refl
  sorted_after k (x ∷ xs) ys h b = rw (sorted_after k xs ys h.1 b) (
      place_below k x (sorted_by id_of xs) (sorted_by id_of ys)
        (sorted_by-All (λ y. k < id_of y) ys b) h.0)

  append_nil : (xs : List A) → xs ++ [] ≡ xs
  append_nil [] = refl
  append_nil (x ∷ xs) = rw (append_nil xs) refl

  sorted_before :
      (k : ℕ) (xs ys : List A)
      → AtMost k xs
      → Above k ys
      → sorted_by id_of (ys ++ xs) ≡ sorted_by id_of xs ++ sorted_by id_of ys
  sorted_before k xs [] h b = sym (append_nil (sorted_by id_of xs))
  sorted_before k xs (y ∷ ys) h b = rw (sorted_before k xs ys h b.1) (
      place_above k y (sorted_by id_of xs) (sorted_by id_of ys)
        (sorted_by-All (λ x. id_of x ≤ k) xs h) b.0)

  newer_after :
      (c k : ℕ) (xs ys : List A)
      → AtMost k xs
      → Above k ys
      → newer id_of c (xs ++ ys) ≡ newer id_of c xs ++ newer id_of c ys
  unfolding newer
  newer_after c k xs ys h b =
      rw (keep_if-append (λ x. ltb c (id_of x)) xs ys)
        (sorted_after k _ _ (kept (λ x. id_of x ≤ k) _ xs h) (kept (λ y. k < id_of y) _ ys b))

  newer_before :
      (c k : ℕ) (xs ys : List A)
      → AtMost k xs
      → Above k ys
      → newer id_of c (ys ++ xs) ≡ newer id_of c xs ++ newer id_of c ys
  unfolding newer
  newer_before c k xs ys h b =
      rw (keep_if-append (λ x. ltb c (id_of x)) ys xs)
        (sorted_before k _ _ (kept (λ x. id_of x ≤ k) _ xs h) (kept (λ y. k < id_of y) _ ys b))

  none_kept : (c : ℕ) (xs : List A) → AtMost c xs → keep_if (λ x. ltb c (id_of x)) xs ≡ []
  none_kept c [] h = refl
  none_kept c (x ∷ xs) h = ground (arith, h.0, none_kept c xs h.1)

  newer_none : (c : ℕ) (xs : List A) → AtMost c xs → newer id_of c xs ≡ []
  unfolding newer
  newer_none c xs h = rw (none_kept c xs h) refl

  same_kept :
      (c c' k : ℕ) (ys : List A)
      → c ≤ c'
      → c' ≤ max c k
      → Above k ys
      → keep_if (λ y. ltb c' (id_of y)) ys ≡ keep_if (λ y. ltb c (id_of y)) ys
  same_kept c c' k [] up low b = refl
  same_kept c c' k (y ∷ ys) up low b = ground (arith, b.0, same_kept c c' k ys up low b.1)

  newer_same :
      (c c' k : ℕ) (ys : List A)
      → c ≤ c'
      → c' ≤ max c k
      → Above k ys
      → newer id_of c' ys ≡ newer id_of c ys
  unfolding newer
  newer_same c c' k ys up low b = rw (same_kept c c' k ys up low b) refl

  pub cursor-append :
      (c : ℕ) (xs ys : List A)
      → cursor_after id_of c (xs ++ ys) ≡ cursor_after id_of (cursor_after id_of c xs) ys
  cursor-append c [] ys = refl
  cursor-append c (x ∷ xs) ys = cursor-append (max c (id_of x)) xs ys

  pub cursor_max :
      (a t : ℕ) (xs : List A) → cursor_after id_of (max a t) xs ≡ max (cursor_after id_of a xs) t
  cursor_max a t [] = refl
  cursor_max a t (x ∷ xs) =
      ap (λ c. cursor_after id_of c xs) (omega arith) ∙ cursor_max (max a (id_of x)) t xs

  cursor_up : (c : ℕ) (xs : List A) → c ≤ cursor_after id_of c xs
  cursor_up c [] = omega arith
  cursor_up c (x ∷ xs) = omega (arith, cursor_up (max c (id_of x)) xs)

  cursor_low : (c k : ℕ) (xs : List A) → AtMost k xs → cursor_after id_of c xs ≤ max c k
  cursor_low c k [] h = omega arith
  cursor_low c k (x ∷ xs) h = omega (arith, h.0, cursor_low (max c (id_of x)) k xs h.1)

  cursor_place :
      (c : ℕ) (x : A) (xs : List A)
      → cursor_after id_of c (place_by id_of x xs) ≡ max (cursor_after id_of c xs) (id_of x)
  cursor_place c x [] = refl
  cursor_place c x (y ∷ ys) = elim (Bool-cases (leb (id_of x) (id_of y))) [
    | inl here ↦ rw here (
        ap (λ n. cursor_after id_of n ys) (omega arith) ∙ cursor_max (max c (id_of y)) (id_of x) ys)
    | inr later ↦ rw later (cursor_place (max c (id_of y)) x ys)
  ]

  abbrev pub reached : ℕ → List A → ℕ
  reached c xs = cursor_after id_of c (newer id_of c xs)

  reached-cons : (c : ℕ) (x : A) (xs : List A) → reached c (x ∷ xs) ≡ max (reached c xs) (id_of x)
  unfolding newer
  reached-cons c x xs = elim (Bool-cases (ltb c (id_of x))) [
    | inl above ↦ rw above (cursor_place c x (sorted_by id_of (keep_if (λ y. ltb c (id_of y)) xs)))
    | inr below ↦ rw below (
        let up = cursor_up c (sorted_by id_of (keep_if (λ y. ltb c (id_of y)) xs)) in
        ground (arith, up))
  ]

  weaken : (a b : ℕ) (xs : List A) → a ≤ b → AtMost a xs → AtMost b xs
  weaken a b [] h all = tt
  weaken a b (x ∷ xs) h all = (omega (arith, h, all.0), weaken a b xs h all.1)

  -- The cursor reaches every row.
  all_passed : (c : ℕ) (xs : List A) → AtMost (reached c xs) xs
  all_passed c [] = tt
  all_passed c (x ∷ xs) = (
    omega (arith, reached-cons c x xs),
    weaken (reached c xs) (reached c (x ∷ xs)) xs (omega (arith, reached-cons c x xs))
        (all_passed c xs),
  )

  -- What a listing that has grown holds above the cursor of the shorter one.
  pub record Grown (c k : ℕ) (old fresh all : List A) : Type 0 where
    pub parts : newer id_of c all ≡ newer id_of c old ++ newer id_of c fresh
    pub rest :
        (c' : ℕ) → reached c old ≤ c' → c' ≤ max c k → newer id_of c' all ≡ newer id_of c fresh
    pub low : reached c old ≤ max c k

  Grown-parts :
      (c k : ℕ) (old fresh all : List A)
      → AtMost k old
      → Above k fresh
      → ((d : ℕ) → newer id_of d all ≡ newer id_of d old ++ newer id_of d fresh)
      → Grown c k old fresh all
  Grown-parts c k old fresh all h b parts = record {
    parts = parts c;
    rest = λ c' up low.
        parts c'
        ∙ ap (λ xs. xs ++ newer id_of c' fresh)
            (newer_none c' old (weaken (reached c old) c' old up (all_passed c old)))
        ∙ newer_same c c' k fresh (omega (arith, up, cursor_up c (newer id_of c old))) low b;
    low = cursor_low c k (newer id_of c old) (newer-All (λ x. id_of x ≤ k) c old h);
  }

  -- rows that are listed at the end, and at the front
  pub Grown-after :
      (c k : ℕ) (old fresh : List A)
      → AtMost k old
      → Above k fresh
      → Grown c k old fresh (old ++ fresh)
  Grown-after c k old fresh h b =
      Grown-parts c k old fresh (old ++ fresh) h b (λ d. newer_after d k old fresh h b)

  pub Grown-before :
      (c k : ℕ) (old fresh : List A)
      → AtMost k old
      → Above k fresh
      → Grown c k old fresh (fresh ++ old)
  Grown-before c k old fresh h b =
      Grown-parts c k old fresh (fresh ++ old) h b (λ d. newer_before d k old fresh h b)
