-- ===== src/Kernel/Replay/Deque.antt =====
-- What a bounded `deque` keeps, as appshak/memory.py uses it for a replay: the last entries.
use app_shak_hq.Prelude.{
  Bool-cases, List, [], arith, false, if◌then◌else◌, inl, inr, leb, length, length-append, map,
  refl, sym, ℕ, ◌++◌, ◌+◌, ◌∷◌, ◌≡◌, ◌≤◌,
}
use app_shak_hq.Kernel.Replay.{append_bounded}

-- the last `bound` entries of a list
abbrev pub last_n {ℓ} : {A : Type ℓ} → ℕ → List A → List A
last_n bound [] = []
last_n bound (x ∷ xs) =
    let later = last_n bound xs in if leb (length (x ∷ xs)) bound then x ∷ xs else later

last_n-short {ℓ} : {A : Type ℓ} (bound : ℕ) (xs : List A) → length xs ≤ bound → last_n bound xs ≡ xs
last_n-short bound [] short = refl
last_n-short bound (x ∷ xs) short = ground arith

pub append_nil {ℓ} : {A : Type ℓ} (xs : List A) → xs ++ [] ≡ xs
append_nil [] = refl
append_nil (x ∷ xs) = rw (append_nil xs) refl

length-snoc {ℓ} : {A : Type ℓ} (xs : List A) (x : A) → length (xs ++ x ∷ []) ≡ length xs + 1
length-snoc xs x = length-append xs (x ∷ [])

pub append_bounded-last_n {ℓ} :
    {A : Type ℓ} (bound : ℕ) (x : A) (xs : List A)
    → 1 ≤ bound
    → append_bounded bound x (last_n bound xs) ≡ last_n bound (xs ++ x ∷ [])
unfolding append_bounded
append_bounded-last_n bound x [] room = ground arith
append_bounded-last_n bound x (y ∷ xs) room = elim (Bool-cases (leb (length (y ∷ xs)) bound)) [
  | inl fits ↦ elim (Bool-cases (leb (length ((y ∷ xs) ++ x ∷ [])) bound)) [
    | inl longer_fits ↦ rw (fits, longer_fits) refl
    | inr full ↦
        rw (fits, full) (sym (last_n-short bound (xs ++ x ∷ []) (ground (arith, length-snoc xs x))))
  ]
  | inr over ↦
      let longer_over : leb (length ((y ∷ xs) ++ x ∷ [])) bound ≡ false =
        ground (arith, length-snoc xs x) in
      rw (over, longer_over) (append_bounded-last_n bound x xs room)
]

length-map : {A B : Type 0} (f : A → B) (xs : List A) → length (map f xs) ≡ length xs
length-map f [] = refl
length-map f (x ∷ xs) = rw (length-map f xs) refl

pub last_n-map :
    {A B : Type 0} (f : A → B) (bound : ℕ) (xs : List A)
    → last_n bound (map f xs) ≡ map f (last_n bound xs)
last_n-map f bound [] = refl
last_n-map f bound (x ∷ xs) = elim (Bool-cases (leb (length (x ∷ xs)) bound)) [
  | inl fits ↦ rw (length-map f xs, fits) refl
  | inr over ↦ rw (length-map f xs, over) (last_n-map f bound xs)
]
