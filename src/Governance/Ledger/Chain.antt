-- ===== src/Governance/Ledger/Chain.antt =====
-- That appending keeps the chain of appshak_governance/ledger.py valid, and what a valid chain fixes.
use app_shak_hq.Prelude.{
  All, Bool-cases, List, String, [], arith, eq_iff, inl, inr, leb, length, refl, true, ℕ, ◌++◌, ◌+◌,
  ◌<◌, ◌∷◌, ◌≡◌, ◌≤◌,
}
use app_shak_hq.Python.Value.{Fields, field, str}
use app_shak_hq.Governance.Ledger.{
  LedgerEntry, append_entry, canonical_type, chain, hashed_record, last_hash, place, read_entries,
  validate_hash_chain,
}

place-All :
    (P : LedgerEntry → Type 0) (e : LedgerEntry) (es : List LedgerEntry)
    → All P (place e es)
    → P e × All P es
unfolding place
place-All P e [] h = h
place-All P e (f ∷ fs) h = elim (Bool-cases (leb e.seq f.seq)) [
  | inl here ↦ rw here at h
  | inr later ↦
      let h' = rw later at h in let rest = place-All P e fs h'.1 in (rest.0, (h'.0, rest.1))
]

read_entries-All :
    (P : LedgerEntry → Type 0) (es : List LedgerEntry) → All P (read_entries es) → All P es
unfolding read_entries
read_entries-All P [] h = tt
read_entries-All P (e ∷ es) h =
    let both = place-All P e (read_entries es) h in (both.0, read_entries-All P es both.1)

place-append :
    (e x : LedgerEntry) (es : List LedgerEntry)
    → e.seq < x.seq
    → place e (es ++ x ∷ []) ≡ place e es ++ x ∷ []
unfolding place
place-append e x [] h = ground arith
place-append e x (f ∷ fs) h = ground (arith, place-append e x fs h)

-- A row whose number is above all others is read last.
read_entries-append :
    (x : LedgerEntry) (es : List LedgerEntry)
    → All (λ e. e.seq < x.seq) es
    → read_entries (es ++ x ∷ []) ≡ read_entries es ++ x ∷ []
unfolding read_entries place
read_entries-append x [] h = refl
read_entries-append x (e ∷ es) h =
    rw (read_entries-append x es h.1) (place-append e x (read_entries es) h.0)

-- no entry has the hash of a different record that stands in its place in the other ledger
abbrev pub NoCollision : (Fields → String) → List LedgerEntry → List LedgerEntry → Type 0
NoCollision canonical_hash (e ∷ es) (f ∷ fs) =
    (canonical_hash (hashed_record e) ≡ canonical_hash (hashed_record f)
      → hashed_record e ≡ hashed_record f)
    × NoCollision canonical_hash es fs
NoCollision canonical_hash _ _ = Unit {0}

abbrev pub prev_of : Fields → String
prev_of (field _ _ (field _ _ (field _ _ (field _ _ (field _ (str p) _))))) = p
prev_of _ = ""

module _ (canonical_hash : Fields → String) where
  -- what a valid chain says of its first entry
  chain-cons :
      (n : ℕ) (p : String) (e : LedgerEntry) (es : List LedgerEntry)
      → chain canonical_hash n p (e ∷ es) ≡ true
      → (e.seq ≡ n)
        × (e.prev_hash ≡ p)
        × (e.entry_hash ≡ canonical_hash (hashed_record e))
        × (chain canonical_hash (n + 1) e.entry_hash es ≡ true)
  unfolding chain
  chain-cons n p e es h =
      ground (arith, eq_iff e.prev_hash p, eq_iff e.entry_hash (canonical_hash (hashed_record e)))

  chain_numbers :
      (n k : ℕ) (p : String) (es : List LedgerEntry)
      → chain canonical_hash n p es ≡ true
      → n + length es ≤ k
      → All (λ e. e.seq < k) es
  chain_numbers n k p [] h b = tt
  chain_numbers n k p (e ∷ es) h b =
      let c = chain-cons n p e es h in
      (omega (arith, c.0, b), chain_numbers (n + 1) k e.entry_hash es c.3 (omega (arith, b)))

  chain-append :
      (n : ℕ) (p : String) (x : LedgerEntry) (es : List LedgerEntry)
      → chain canonical_hash n p es ≡ true
      → x.seq ≡ n + length es
      → x.prev_hash ≡ last_hash p es
      → x.entry_hash ≡ canonical_hash (hashed_record x)
      → chain canonical_hash n p (es ++ x ∷ []) ≡ true
  unfolding chain
  chain-append n p x [] h number linked sealed =
      ground (arith, eq_iff x.prev_hash p, eq_iff x.entry_hash (canonical_hash (hashed_record x)))
  chain-append n p x (e ∷ es) h number linked sealed =
      let c = chain-cons n p e es h in
      let rest = chain-append (n + 1) e.entry_hash x es c.3 (omega (arith, number)) linked sealed in
      ground (arith, rest, h)

  -- Appending an entry to a ledger with a valid chain leaves a ledger with a valid chain, if the type
  -- of the entry is written in capitals without space around it, as the program's types are.
  pub append_entry-valid :
      (kind : String) (payload : Fields) (timestamp : String) (file : List LedgerEntry)
      → canonical_type kind ≡ kind
      → validate_hash_chain canonical_hash file ≡ true
      → validate_hash_chain canonical_hash
          (append_entry canonical_hash kind payload timestamp file).1
        ≡ true
  unfolding append_entry validate_hash_chain
  append_entry-valid kind payload timestamp file canonical h =
      let x = (append_entry canonical_hash kind payload timestamp file).0 in
      let entries = read_entries file in
      let low =
        read_entries-All (λ e. e.seq < length entries + 1) file
          (chain_numbers 1 (length entries + 1) "GENESIS" entries h (omega arith)) in
      rw (read_entries-append x file low)
        (chain-append 1 "GENESIS" x entries h (omega arith) refl (rw (canonical, canonical) refl))
