-- ===== src/Substrate/MailStore/Select.antt =====
-- What the selection of `_try_claim_next` finds.
use app_shak_hq.Prelude.{
  Bool-cases, List, [], arith, false, inl, inr, ltb, nat_eq, none, some, string_eq, true, ℕ, ◌+◌,
  ◌<◌, ◌==◌, ◌∷◌, ◌≡◌, ◌≤◌,
}
use app_shak_hq.Substrate.Types.{EventRow}
use app_shak_hq.Substrate.MailStore.Tables.{Lease, find_event}
use app_shak_hq.Substrate.MailStore.Claim.{Filter, first_eligible, is_eligible}
use app_shak_hq.Substrate.MailStore.Lookup.{IdsIn, find_event_fresh, find_event_outside}

pub find_event-id :
    (j : ℕ) (es : List EventRow) {e : EventRow} → find_event j es ≡ some e → e.id ≡ j
unfolding find_event
find_event-id j [] h = cc
find_event-id j (x ∷ es) {e} h = ground (arith, find_event-id j es {e = e})

pub find_event_range :
    (j lo hi : ℕ) (es : List EventRow) {e : EventRow}
    → IdsIn lo hi es
    → find_event j es ≡ some e
    → (lo ≤ j) × (j < hi)
find_event_range j lo hi es {e} r h = elim (Bool-cases (ltb j lo)) [
  | inl low ↦ cc (h, find_event_outside j lo hi es r (ground arith))
  | inr high ↦ elim (Bool-cases (ltb j hi)) [
    | inl below ↦ (ground arith, ground arith)
    | inr above ↦ cc (h, find_event_fresh j lo hi es r (ground arith))
  ]
]

module _ (q : Filter) (ls : List Lease) where
  pub first_eligible-is_eligible :
      (es : List EventRow) {row : EventRow}
      → first_eligible q ls es ≡ some row
      → is_eligible q ls row ≡ true
  unfolding first_eligible
  first_eligible-is_eligible [] h = cc
  first_eligible-is_eligible (x ∷ es) {row} h = elim (Bool-cases (is_eligible q ls x)) [
    | inl hit ↦ ground arith
    | inr miss ↦ first_eligible-is_eligible es (ground arith)
  ]

  pub find_event-first_eligible :
      (lo hi : ℕ) (es : List EventRow) {row : EventRow}
      → IdsIn lo hi es
      → first_eligible q ls es ≡ some row
      → find_event row.id es ≡ some row
  unfolding first_eligible find_event
  find_event-first_eligible lo hi [] r h = cc
  find_event-first_eligible lo hi (x ∷ es) {row} r h = elim (Bool-cases (is_eligible q ls x)) [
    | inl hit ↦ ground arith
    | inr miss ↦
        let later = find_event-first_eligible (x.id + 1) hi es {row = row} r.1 (ground arith) in
        ground (arith, later, find_event_range row.id (x.id + 1) hi es r.1 later)
  ]

  -- No eligible row has a smaller id.
  pub first_eligible_least :
      (lo hi j : ℕ) (es : List EventRow) {row e : EventRow}
      → IdsIn lo hi es
      → first_eligible q ls es ≡ some row
      → find_event j es ≡ some e
      → is_eligible q ls e ≡ true
      → row.id ≤ j
  unfolding first_eligible find_event
  first_eligible_least lo hi j [] r h f t = cc
  first_eligible_least lo hi j (x ∷ es) {row} {e} r h f t = elim (Bool-cases (is_eligible q ls x)) [
    | inl hit ↦ ground (arith, find_event_range j (x.id + 1) hi es {e = e} r.1)
    | inr miss ↦
        first_eligible_least (x.id + 1) hi j es {row = row} {e = e} r.1 (ground arith)
          (ground arith) t
  ]

  -- Nothing is found only if no row is eligible.
  pub first_eligible-none :
      (j : ℕ) (es : List EventRow) {e : EventRow}
      → first_eligible q ls es ≡ none
      → find_event j es ≡ some e
      → is_eligible q ls e ≡ false
  unfolding first_eligible find_event
  first_eligible-none j [] h f = cc
  first_eligible-none j (x ∷ es) {e} h f = elim (Bool-cases (x.id == j)) [
    | inl here ↦ ground arith
    | inr there ↦ first_eligible-none j es {e = e} (ground arith) (ground arith)
  ]
