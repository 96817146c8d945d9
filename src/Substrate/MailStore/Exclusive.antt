-- ===== src/Substrate/MailStore/Exclusive.antt =====
-- Who may take or settle a leased event.
use app_shak_hq.Prelude.{
  All, Bool-cases, List, Option, Option-cases, String, [], arith, eq_iff, inl, inr, nat_eq, none,
  refl, some, string_eq, ℕ, ◌<◌, ◌==◌, ◌∷◌, ◌≡◌, ◌≢◌, ◌⊎◌,
}
use app_shak_hq.Python.Text.{filled}
use app_shak_hq.Python.Value.{pos}
use app_shak_hq.Python.Exec.{Result-cases}
use app_shak_hq.Substrate.Types.{EventRow, SubstrateEvent, coerce, from_row}
use app_shak_hq.Substrate.MailStore.Tables.{Lease, Store, find_event, find_lease}
use app_shak_hq.Substrate.MailStore.Events.{append_event, insert_event}
use app_shak_hq.Substrate.MailStore.Claim.{
  Filter, first_eligible, release_expired_leases, try_claim_next,
}
use app_shak_hq.Substrate.MailStore.Settle.{ack_event, blocker, fail_event, requeue_event, settle}
use app_shak_hq.Substrate.MailStore.Keys.{record_worker_heartbeat}
use app_shak_hq.Substrate.MailStore.Audit.{append_tool_audit}
use app_shak_hq.Substrate.MailStore.Select.{first_eligible-is_eligible}
use app_shak_hq.Substrate.MailStore.Lookup.{
  find_lease-append, find_lease-delete, find_lease-drop_expired,
}
use app_shak_hq.Substrate.MailStore.Invariant.{
  IsWellFormed, is_eligible_unleased, status_of, try_claim_next-eq, try_claim_next-some,
}
use app_shak_hq.Substrate.MailStore.History.{
  Call, acks, after, appends, audits, beats, fails, requeues, reserve-SameMail, reserves, run,
  run-IsWellFormed, set_idempotency_result-SameMail, sets_result, settle-after, step,
  step-IsWellFormed, tries,
}

-- A settlement of another event, or in the name of a consumer that does not hold the lease.
abbrev pub Barred : Lease → ℕ → Option String → Type 0
Barred l id consumer =
    (id ≢ l.event_id) ⊎ ((c : String) × (filled consumer ≡ some c) × (l.claimed_by ≢ c))

-- A call that is not the holder's: a claim before the lease runs out, a settlement of another
-- event or of another consumer, or a call on other tables.
abbrev pub Foreign : Lease → Call → Type 0
Foreign l (tries consumer q window now text) = now < l.lease_expiry
Foreign l (acks id status consumer) = Barred l id consumer
Foreign l (fails id error consumer) = Barred l id consumer
Foreign l (requeues id consumer error) = Barred l id consumer
Foreign l _ = Unit {0}

abbrev pub IsHeld : Lease → Store → Type 0
IsHeld l s = find_lease l.event_id s.leases ≡ some l

-- Whoever is not the holder is refused.
pub blocker_held :
    (consumer : Option String) (c : String) (id : ℕ) (s : Store) (l : Lease)
    → filled consumer ≡ some c
    → find_lease id s.leases ≡ some l
    → l.claimed_by ≢ c
    → blocker consumer id s ≡ some l.claimed_by
blocker_held none c id s l named h ne = cc
blocker_held (some d) c id s l named h ne = ground (arith, eq_iff l.claimed_by c, ne)

settle-IsHeld :
    (l : Lease) (write : EventRow → EventRow) (id : ℕ) (consumer : Option String) (s : Store)
    → Barred l id consumer
    → IsHeld l s
    → IsHeld l (after s (settle write id consumer s))
unfolding settle
settle-IsHeld l write id consumer s (inl ne) h =
    settle-after (IsHeld l) write id consumer s h (rw find_lease-delete (ground (arith, ne)))
settle-IsHeld l write id consumer s (inr (c, named, ne)) h = elim (Bool-cases (id == l.event_id)) [
  | inl same ↦
      let e : id ≡ l.event_id = ground arith in
      let b = blocker_held consumer c id s l named (rw e h) ne in rw (b, settle) h
  | inr different ↦
      settle-after (IsHeld l) write id consumer s h (rw find_lease-delete (ground arith))
]

released-IsHeld :
    (l : Lease) (now : ℕ) (s : Store)
    → IsWellFormed s
    → now < l.lease_expiry
    → IsHeld l s
    → IsHeld l (release_expired_leases now s)
unfolding release_expired_leases
released-IsHeld l now s w early h =
    rw (find_lease-drop_expired now l.event_id s.leases w.unique, h) (ground arith)

try_claim_next-IsHeld :
    (l : Lease) (consumer : String) (q : Filter) (window now : ℕ) (text : String) (s : Store)
    → IsWellFormed s
    → now < l.lease_expiry
    → IsHeld l s
    → IsHeld l (try_claim_next consumer q window now text s).1
try_claim_next-IsHeld l consumer q window now text s w early h =
    let r = release_expired_leases now s in
    let hr = released-IsHeld l now s w early h in
    elim (Option-cases (first_eligible q r.leases r.events)) [
      | inl e ↦ rw (try_claim_next-eq consumer q window now text s w, e) hr
      | inr (row, e) ↦
          rw (try_claim_next-eq consumer q window now text s w, e) (rw (find_lease-append, hr) refl)
    ]

step-IsHeld :
    (l : Lease) (c : Call) (s : Store)
    → Foreign l c
    → IsWellFormed s
    → IsHeld l s
    → IsHeld l (step s c)
unfolding step ack_event fail_event requeue_event record_worker_heartbeat append_tool_audit
step-IsHeld l (appends show now raw) s f w h = elim (Result-cases (coerce show now raw)) [
  | inl (e, eq) ↦ unfold append_event insert_event in rw (eq, append_event) h
  | inr (err, eq) ↦ unfold append_event in rw (eq, append_event) h
]
step-IsHeld l (tries consumer q window now text) s f w h =
    try_claim_next-IsHeld l consumer q window now text s w f h
step-IsHeld l (acks id status consumer) s f w h = settle-IsHeld l _ id consumer s f h
step-IsHeld l (fails id error consumer) s f w h = settle-IsHeld l _ id consumer s f h
step-IsHeld l (requeues id consumer error) s f w h = settle-IsHeld l _ id consumer s f h
step-IsHeld l (reserves key agent action ev now) s f w h =
    rw (reserve-SameMail key agent action ev now s).2 h
step-IsHeld l (sets_result key result) s f w h =
    rw (set_idempotency_result-SameMail key result s).2 h
step-IsHeld l (beats agent consumer pid ts now) s f w h = h
step-IsHeld l (audits entry now) s f w h = h

pub run-IsHeld :
    (l : Lease) (cs : List Call) (s : Store)
    → All (Foreign l) cs
    → IsWellFormed s
    → IsHeld l s
    → IsHeld l (run s cs)
unfolding run
run-IsHeld l [] s f w h = h
run-IsHeld l (c ∷ cs) s f w h =
    run-IsHeld l cs (step s c) f.1 (step-IsWellFormed c s w) (step-IsHeld l c s f.0 w h)

-- A claim before the lease runs out returns another event.
claims_another :
    (l : Lease) (consumer : String) (q : Filter) (window now : ℕ) (text : String) (s : Store)
    {e : SubstrateEvent}
    → IsWellFormed s
    → now < l.lease_expiry
    → IsHeld l s
    → (try_claim_next consumer q window now text s).0 ≡ some e
    → e.event_id ≢ some (pos l.event_id)
unfolding from_row
claims_another l consumer q window now text s {e} w early h got same =
    let r = release_expired_leases now s in
    let (row, found, made, _) = try_claim_next-some consumer q window now text s {e = e} w got in
    let free =
      is_eligible_unleased q r.leases row (first_eligible-is_eligible q r.leases r.events found) in
    ground (arith, made, same, free, released-IsHeld l now s w early h)

-- From a well-formed store, while a lease has not run out, and whatever others call in between
-- (claims of any consumer, settlements of other events or in the name of other consumers, and
-- calls on the other tables), the lease stays as it is and its event stays CLAIMED.
pub run_keeps_lease :
    (l : Lease) (cs : List Call) (s : Store)
    → IsWellFormed s
    → IsHeld l s
    → All (Foreign l) cs
    → IsHeld l (run s cs) × (status_of (find_event l.event_id (run s cs).events) ≡ some "CLAIMED")
run_keeps_lease l cs s w h f =
    let hr = run-IsHeld l cs s f w h in
    (hr, (run-IsWellFormed cs s w).leased_claimed l.event_id l hr)

-- Mutual exclusion: from a well-formed store in which an event is leased, after any calls that are
-- not the holder's (claims before the lease runs out, settlements of other events or by other
-- consumers, calls on other tables), a claim by anybody before the lease runs out does not return
-- the leased event.
pub leased_not_reclaimed :
    (l : Lease) (cs : List Call) (s : Store) (consumer : String) (q : Filter) (window now : ℕ)
    (text : String) {e : SubstrateEvent}
    → IsWellFormed s
    → IsHeld l s
    → All (Foreign l) cs
    → now < l.lease_expiry
    → (try_claim_next consumer q window now text (run s cs)).0 ≡ some e
    → e.event_id ≢ some (pos l.event_id)
leased_not_reclaimed l cs s consumer q window now text {e} w h f early got =
    claims_another l consumer q window now text (run s cs) {e = e} (run-IsWellFormed cs s w) early
      (run-IsHeld l cs s f w h) got
