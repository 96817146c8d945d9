-- ===== src/Substrate/MailStore/Invariant.antt =====
-- The well-formedness of the tables of events and leases.
use app_shak_hq.Prelude.{
  List, Option, Option-cases, String, [], arith, inl, inr, none, refl, some, true, ℕ, ◌++◌, ◌+◌,
  ◌∷◌, ◌≡◌,
}
use app_shak_hq.Substrate.Types.{EventRow, SubstrateEvent, from_row}
use app_shak_hq.Substrate.MailStore.Tables.{
  Lease, Store, empty, find_event, find_lease, insert_lease, update_event,
}
use app_shak_hq.Substrate.MailStore.Events.{insert_event, row_of}
use app_shak_hq.Substrate.MailStore.Claim.{
  Filter, claim_row, first_eligible, is_eligible, release_expired_leases, try_claim_next,
}
use app_shak_hq.Substrate.MailStore.Lookup.{
  IdsIn, UniqueLeases, append-IdsIn, back_to_pending-IdsIn, drop_expired-UniqueLeases,
  find_event-append, find_event-back_to_pending, find_lease-drop_expired, has_expired-find_lease,
}
use app_shak_hq.Substrate.MailStore.Select.{find_event-first_eligible, first_eligible-is_eligible}

-- the status of the event, if there is one
abbrev pub status_of : Option EventRow → Option String
status_of none = none
status_of (some e) = some e.status

-- Event ids rise in the table and stay below the next one; an event has at most one lease; and
-- what is leased is there and has the status CLAIMED.
pub record IsWellFormed (s : Store) : Type 0 where
  pub rising : IdsIn 1 s.next_event s.events
  pub unique : UniqueLeases s.leases
  pub leased_claimed :
      (j : ℕ) (l : Lease)
      → find_lease j s.leases ≡ some l
      → status_of (find_event j s.events) ≡ some "CLAIMED"

pub empty-IsWellFormed : IsWellFormed empty
unfolding find_lease
empty-IsWellFormed = record { rising = omega arith; unique = tt; leased_claimed = λ j l h. cc }

pub insert_event-IsWellFormed :
    (e : SubstrateEvent) (s : Store) → IsWellFormed s → IsWellFormed (insert_event e s).1
unfolding insert_event
insert_event-IsWellFormed e s w = record {
  rising = append-IdsIn 1 s.next_event (row_of s.next_event e) s.events refl w.rising;
  unique = w.unique;
  leased_claimed = λ j l h.
      rw find_event-append
        (ground (arith, w.leased_claimed j l h, Option-cases (find_event j s.events)));
}

pub release-IsWellFormed :
    (now : ℕ) (s : Store) → IsWellFormed s → IsWellFormed (release_expired_leases now s)
unfolding release_expired_leases
release-IsWellFormed now s w = record {
  rising = back_to_pending-IdsIn now 1 s.next_event s.leases s.events w.rising;
  unique = drop_expired-UniqueLeases now s.leases w.unique;
  leased_claimed = λ j l h. rw find_event-back_to_pending (
      ground (
        arith,
        find_lease-drop_expired now j s.leases w.unique,
        has_expired-find_lease now j s.leases w.unique,
        w.leased_claimed j l,
      ));
}

-- The state after the row has been lent to the consumer.
abbrev pub lent : String → ℕ → ℕ → EventRow → Store → Store
lent consumer now window row s = record s {
  leases =
      s.leases
      ++ record {
        event_id = row.id;
        claimed_by = consumer;
        claim_ts = now;
        lease_expiry = now + window;
      }
        ∷ [];
  events = update_event row.id (λ e. record e { status = "CLAIMED" }) s.events;
}

abbrev pub claims :
    String → ℕ → ℕ → String → Store → Option EventRow → Option SubstrateEvent × Store
claims consumer now window text released none = (none, released)
claims consumer now window text released (some row) =
    (some (from_row row text), lent consumer now window row released)

pub is_eligible_unleased :
    (q : Filter) (ls : List Lease) (e : EventRow)
    → is_eligible q ls e ≡ true
    → find_lease e.id ls ≡ none
unfolding is_eligible
is_eligible_unleased q ls e h = ground arith

-- In a well-formed store the insertion of a lease is never an IntegrityError.
claim_row-eq :
    (consumer : String) (q : Filter) (now window : ℕ) (row : EventRow) (s : Store)
    → IsWellFormed s
    → first_eligible q s.leases s.events ≡ some row
    → claim_row consumer now window row s ≡ some (lent consumer now window row s)
unfolding claim_row insert_lease
claim_row-eq consumer q now window row s w h = ground (
  arith,
  find_event-first_eligible q s.leases 1 s.next_event s.events {row = row} w.rising h,
  is_eligible_unleased q s.leases row (first_eligible-is_eligible q s.leases s.events h),
)

pub try_claim_next-eq :
    (consumer : String) (q : Filter) (window now : ℕ) (text : String) (s : Store)
    → IsWellFormed s
    → try_claim_next consumer q window now text s ≡ (
        let r = release_expired_leases now s in
        claims consumer now window text r (first_eligible q r.leases r.events))
unfolding try_claim_next
try_claim_next-eq consumer q window now text s w =
    let r = release_expired_leases now s in
    elim (Option-cases (first_eligible q r.leases r.events)) [
      | inl e ↦ rw (e, try_claim_next)
      | inr (row, e) ↦ rw (
        e,
        try_claim_next,
        claim_row-eq consumer q now window row r (release-IsWellFormed now s w) e,
      )
    ]

-- What a successful claim says of the store.
pub try_claim_next-some :
    (consumer : String) (q : Filter) (window now : ℕ) (text : String) (s : Store)
    {e : SubstrateEvent}
    → IsWellFormed s
    → (try_claim_next consumer q window now text s).0 ≡ some e
    → let r = release_expired_leases now s in
      (row : EventRow) × (first_eligible q r.leases r.events ≡ some row)
      × (e ≡ from_row row text)
      × ((try_claim_next consumer q window now text s).1 ≡ lent consumer now window row r)
try_claim_next-some consumer q window now text s {e} w got =
    let r = release_expired_leases now s in
    let eq = try_claim_next-eq consumer q window now text s w in
    elim (Option-cases (first_eligible q r.leases r.events)) [
      | inl nothing ↦ let h = rw (eq, nothing) at got in cc
      | inr (row, found) ↦ let h = rw (eq, found) at got in (row, found, cc, rw (eq, found) refl)
    ]
