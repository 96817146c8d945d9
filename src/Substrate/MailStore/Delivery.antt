-- ===== src/Substrate/MailStore/Delivery.antt =====
-- Which event a claim returns, described on the tables as they stand before the claim.
use app_shak_hq.Prelude.{
  Bool, Bool-cases, Option, Option-cases, String, and_true, arith, eq_iff, if◌then◌else◌, inl, inr,
  leb, nat_eq, none, refl, some, some_inj, string_eq, sym, true, ℕ, ◌&&◌, ◌+◌, ◌==◌, ◌↔◌, ◌∙◌, ◌≡◌,
  ◌≤◌, ◌⊎◌,
}
use app_shak_hq.Python.Value.{pos}
use app_shak_hq.Substrate.Types.{EventRow, SubstrateEvent, from_row}
use app_shak_hq.Substrate.MailStore.Tables.{Lease, Store, find_event, find_lease}
use app_shak_hq.Substrate.MailStore.Claim.{
  Filter, first_eligible, has_expired, is_eligible, release_expired_leases, routed, try_claim_next,
}
use app_shak_hq.Substrate.MailStore.Lookup.{
  find_event-back_to_pending, find_event-update, find_lease-append, find_lease-drop_expired,
  has_expired-find_lease,
}
use app_shak_hq.Substrate.MailStore.Select.{
  find_event-first_eligible, find_event-id, first_eligible-is_eligible, first_eligible-none,
  first_eligible_least,
}
use app_shak_hq.Substrate.MailStore.Invariant.{
  IsWellFormed, is_eligible_unleased, release-IsWellFormed, status_of, try_claim_next-eq,
  try_claim_next-some,
}

-- Nobody works on the event: it waits and is not leased, or its lease has run out.
abbrev pub IsFree : ℕ → Store → EventRow → Type 0
IsFree now s e =
    ((e.status ≡ "PENDING") × (find_lease e.id s.leases ≡ none))
    ⊎ ((l : Lease) × (find_lease e.id s.leases ≡ some l) × (l.lease_expiry ≤ now))

-- The event with the id is free, and its route fits what the consumer asks for.
pub record IsClaimable (q : Filter) (now : ℕ) (s : Store) (j : ℕ) : Type 0 where
  pub row : EventRow
  pub there : find_event j s.events ≡ some row
  pub fits : routed q.target_agent q.include_unrouted row.target_agent ≡ true
  pub free : IsFree now s row

module _ (q : Filter) (now : ℕ) (s : Store) (w : IsWellFormed s) where
  -- the row after expired leases have been released
  after_release : EventRow → EventRow
  after_release e = if has_expired now s.leases e.id then record e { status = "PENDING" } else e

  find_released :
      (j : ℕ) (e : EventRow)
      → find_event j s.events ≡ some e
      → find_event j (release_expired_leases now s).events ≡ some (after_release e)
  unfolding release_expired_leases after_release
  find_released j e h = rw (find_event-back_to_pending, h, find_event-id j s.events h) refl

  over : ℕ → Option Lease → String → Bool
  over t none status = status == "PENDING"
  over t (some l) status = leb l.lease_expiry t

  eligible-after_release :
      (e : EventRow)
      → is_eligible q (release_expired_leases now s).leases (after_release e) ≡ (
          over now (find_lease e.id s.leases) e.status
          && routed q.target_agent q.include_unrouted e.target_agent)
  unfolding release_expired_leases is_eligible after_release over
  eligible-after_release e =
      let h = has_expired-find_lease now e.id s.leases w.unique in
      let d = find_lease-drop_expired now e.id s.leases w.unique in
      elim (Option-cases (find_lease e.id s.leases)) [
        | inl u ↦ rw (h, u) (rw (d, u) (ground arith))
        | inr (l, u) ↦ elim (Bool-cases (leb l.lease_expiry now)) [
          | inl yes_over ↦ rw (h, u, yes_over) (rw (d, u, yes_over) refl)
          | inr live ↦ rw (h, u, live) (rw (d, u, live) (ground arith))
        ]
      ]

  IsFree-over :
      (e : EventRow) → IsFree now s e → over now (find_lease e.id s.leases) e.status ≡ true
  unfolding over
  IsFree-over e (inl (pending, none_found)) =
      rw (none_found, over) (ground (arith, eq_iff e.status "PENDING"))
  IsFree-over e (inr (l, found, past)) = rw (found, over) (ground arith)

  over-IsFree :
      (e : EventRow) → over now (find_lease e.id s.leases) e.status ≡ true → IsFree now s e
  unfolding over
  over-IsFree e h = elim (Option-cases (find_lease e.id s.leases)) [
    | inl u ↦ inl (ground (arith, eq_iff e.status "PENDING"), u)
    | inr (l, u) ↦ inr (l, u, ground arith)
  ]

  claimable_eligible :
      (j : ℕ)
      → IsClaimable q now s j
      → (e : EventRow) × (find_event j (release_expired_leases now s).events ≡ some e)
        × (is_eligible q (release_expired_leases now s).leases e ≡ true)
  claimable_eligible j c = (
    after_release c.row,
    find_released j c.row c.there,
    rw (eligible-after_release c.row, IsFree-over c.row c.free, c.fits) refl,
  )

  eligible-IsClaimable :
      (j : ℕ) (e : EventRow)
      → find_event j (release_expired_leases now s).events ≡ some e
      → is_eligible q (release_expired_leases now s).leases e ≡ true
      → IsClaimable q now s j
  eligible-IsClaimable j e there hit = elim (Option-cases (find_event j s.events)) [
    | inl nothing ↦
        let h : find_event j (release_expired_leases now s).events ≡ none =
          unfold release_expired_leases in rw (find_event-back_to_pending, nothing) refl in
        cc
    | inr (row, found) ↦
        let same : some (after_release row) ≡ some e = sym (find_released j row found) ∙ there in
        let again : is_eligible q (release_expired_leases now s).leases (after_release row) ≡ true =
          rw (some_inj same) hit in
        let both = and_true _ _ (sym (eligible-after_release row) ∙ again) in
        record { row = row; there = found; fits = both.1; free = over-IsFree row both.0 }
  ]

-- On a well-formed store, a claim that returns an event returns the claimable event of the
-- smallest id, leases it to the consumer for the whole window, and sets its status to CLAIMED.
pub claim_least :
    (consumer : String) (q : Filter) (window now : ℕ) (text : String) (s : Store)
    {e : SubstrateEvent}
    → IsWellFormed s
    → (try_claim_next consumer q window now text s).0 ≡ some e
    → let s' = (try_claim_next consumer q window now text s).1 in
      (j : ℕ) × (e.event_id ≡ some (pos j))
      × IsClaimable q now s j
      × ((k : ℕ) → IsClaimable q now s k → j ≤ k)
      × (find_lease j s'.leases
          ≡ some (record {
            event_id = j;
            claimed_by = consumer;
            claim_ts = now;
            lease_expiry = now + window;
          }))
      × (status_of (find_event j s'.events) ≡ some "CLAIMED")
unfolding from_row
claim_least consumer q window now text s {e} w got =
    let r = release_expired_leases now s in
    let wr = release-IsWellFormed now s w in
    let (row, found, made, left) = try_claim_next-some consumer q window now text s {e = e} w got in
    let hit = first_eligible-is_eligible q r.leases r.events found in
    let there = find_event-first_eligible q r.leases 1 r.next_event r.events wr.rising found in
    (
      row.id,
      rw made refl,
      eligible-IsClaimable q now s w row.id row there hit,
      (λ k c.
          let (e', here, good) = claimable_eligible q now s w k c in
          first_eligible_least q r.leases 1 r.next_event k r.events {row = row} {e = e'} wr.rising
            found here good),
      rw (left, find_lease-append, is_eligible_unleased q r.leases row hit) (ground arith),
      rw
          (
            left,
            find_event-update (λ x. record x { status = "CLAIMED" }) row.id row.id r.events
                (λ x. refl),
            there,
          )
          (ground arith),
    )

-- On a well-formed store, a claim returns nothing exactly when no event is claimable: pending
-- without a lease, or leased until no later than now, and with a route that fits the consumer.
pub claim_none_iff :
    (consumer : String) (q : Filter) (window now : ℕ) (text : String) (s : Store)
    → IsWellFormed s
    → ((try_claim_next consumer q window now text s).0 ≡ none) ↔ ((j : ℕ) → ¬ IsClaimable q now s j)
claim_none_iff consumer q window now text s w =
    let r = release_expired_leases now s in
    let eq = try_claim_next-eq consumer q window now text s w in
    (
      (λ h j c.
          let (e, here, good) = claimable_eligible q now s w j c in
          elim (Option-cases (first_eligible q r.leases r.events)) [
            | inl nothing ↦
                cc (first_eligible-none q r.leases j r.events {e = e} nothing here, good)
            | inr (row, found) ↦ let k = rw (eq, found) at h in cc
          ]),
      λ none_free. elim (Option-cases (first_eligible q r.leases r.events)) [
        | inl nothing ↦ rw (eq, nothing) refl
        | inr (row, found) ↦
            let wr = release-IsWellFormed now s w in
            absurd (
              none_free row.id (
                eligible-IsClaimable q now s w row.id row
                  (find_event-first_eligible q r.leases 1 r.next_event r.events wr.rising found)
                  (first_eligible-is_eligible q r.leases r.events found)))
      ],
    )
