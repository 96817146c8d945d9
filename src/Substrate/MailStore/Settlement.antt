-- ===== src/Substrate/MailStore/Settlement.antt =====
-- What `ack_event`, `fail_event` and `requeue_event` do on each branch.
use app_shak_hq.Prelude.{
  All, List, Option, String, arith, eq_iff, if◌then◌else◌, inl, inr, nat_eq, none, refl, some,
  string_eq, ℕ, ◌==◌, ◌≡◌, ◌≢◌, ◌⊎◌,
}
use app_shak_hq.Python.Text.{filled, is_blank, prefix, strip, upper}
use app_shak_hq.Python.Exec.{Result, ok, permission_error, raised}
use app_shak_hq.Substrate.Types.{EventRow}
use app_shak_hq.Substrate.MailStore.Tables.{Lease, Store, find_event, find_lease}
use app_shak_hq.Substrate.MailStore.Settle.{
  ack_event, blocker, fail_event, final_status, kept_error, name_of, requeue_event, settle,
}
use app_shak_hq.Substrate.MailStore.Lookup.{find_event-update, find_lease-delete, written}
use app_shak_hq.Substrate.MailStore.Invariant.{IsWellFormed, status_of}
use app_shak_hq.Substrate.MailStore.History.{Call, run, settled}
use app_shak_hq.Substrate.MailStore.Exclusive.{Foreign, IsHeld, blocker_held, run-IsHeld}

-- The call names nobody, or the event is not leased, or the caller holds the lease.
abbrev pub MaySettle : Option String → ℕ → Store → Type 0
MaySettle consumer id s =
    (filled consumer ≡ none)
    ⊎ ((find_lease id s.leases ≡ none)
        ⊎ ((l : Lease) × (find_lease id s.leases ≡ some l) × (filled consumer ≡ some l.claimed_by)))

blocker-none :
    (consumer : Option String) (id : ℕ) (s : Store)
    → MaySettle consumer id s
    → blocker consumer id s ≡ none
blocker-none none id s h = refl
blocker-none (some c) id s (inl h) = ground (arith, h)
blocker-none (some c) id s (inr (inl h)) = ground (arith, h)
blocker-none (some c) id s (inr (inr (l, h, named))) =
    ground (arith, h, named, eq_iff l.claimed_by c)

-- The result is `ok`: the event has the status and the error and is not leased, and every other
-- event and lease is as before.
abbrev pub Settles : Result Store → ℕ → String → Option String → Store → Type 0
Settles m id status error s =
    (s' : Store) × (m ≡ ok s')
    × ((j : ℕ)
        → find_event j s'.events ≡ (
            if id == j
            then written (λ e. record e { status = status; error = error }) (find_event j s.events)
            else find_event j s.events))
    × ((j : ℕ) → find_lease j s'.leases ≡ (if id == j then none else find_lease j s.leases))
    × (s'.next_event ≡ s.next_event)
    × (s'.keys ≡ s.keys)

settle-Settles :
    (id : ℕ) (status : String) (error consumer : Option String) (s : Store)
    → MaySettle consumer id s
    → Settles
        (settle (λ e. record e { status = status; error = error }) id consumer s)
        id
        status
        error
        s
unfolding settle
settle-Settles id status error consumer s may =
    let b = blocker-none consumer id s may in
    (
      settled (λ e. record e { status = status; error = error }) id s,
      rw (b, settle) refl,
      (λ j. find_event-update _ id j s.events (λ e. refl)),
      (λ j. find_lease-delete id j s.leases),
      refl,
      refl,
    )

kept_reason :
    (reason : Option String)
    → kept_error (filled reason) ≡ (elim reason [
      | none ↦ none
      | some text ↦ if text == "" then none else some (prefix 4000 text)
    ])
kept_reason none = refl
kept_reason (some text) = ground arith

-- Whoever may settle an event does: ack writes DONE where the status is blank, else the stripped
-- status in upper case, and clears the error; fail writes FAILED and at most 4000 characters of the
-- error; requeue writes PENDING and at most 4000 characters of the reason, or no error where there is
-- no reason or an empty one. The lease goes, and no other event or lease changes.
pub settlement_done :
    (id : ℕ) (status error : String) (reason consumer : Option String) (s : Store)
    → MaySettle consumer id s
    → Settles
        (ack_event id status consumer s)
        id
        (if is_blank status then "DONE" else upper (strip status))
        none
        s
      × Settles (fail_event id error consumer s) id "FAILED" (some (prefix 4000 error)) s
      × Settles
          (requeue_event id consumer reason s)
          id
          "PENDING"
          (elim reason [
            | none ↦ none
            | some text ↦ if text == "" then none else some (prefix 4000 text)
          ])
          s
unfolding ack_event fail_event requeue_event
settlement_done id status error reason consumer s may = (
  settle-Settles id (final_status status) none consumer s may,
  settle-Settles id "FAILED" (some (prefix 4000 error)) consumer s may,
  rw (← kept_reason reason)
      (settle-Settles id "PENDING" (kept_error (filled reason)) consumer s may),
)

-- A named consumer that does not hold the lease can neither ack, fail nor requeue the event.
pub settlement_refused :
    (id : ℕ) (status error c : String) (reason consumer : Option String) (s : Store) (l : Lease)
    → find_lease id s.leases ≡ some l
    → filled consumer ≡ some c
    → l.claimed_by ≢ c
    → let refusal = raised (permission_error (name_of consumer) id l.claimed_by) in
      (ack_event id status consumer s ≡ refusal)
      × (fail_event id error consumer s ≡ refusal)
      × (requeue_event id consumer reason s ≡ refusal)
unfolding ack_event fail_event requeue_event
settlement_refused id status error c reason consumer s l h named ne =
    let b = blocker_held consumer c id s l named h ne in
    (rw (b, settle) refl, rw (b, settle) refl, rw (b, settle) refl)

name_of-filled :
    (consumer : Option String) (c : String) → filled consumer ≡ some c → name_of consumer ≡ c
name_of-filled none c named = cc
name_of-filled (some d) c named = ground (arith, named)

-- From a well-formed store in which an event is leased, after any calls that are not the holder's, a
-- named consumer that is not the holder can neither ack, fail nor requeue the event: each of the
-- three raises the permission error that names it and the holder. The ack of the holder (whose name
-- is not empty) goes through.
pub only_holder-Settles :
    (l : Lease) (cs : List Call) (s : Store) (status error c : String)
    (reason consumer : Option String)
    → IsWellFormed s
    → IsHeld l s
    → All (Foreign l) cs
    → filled consumer ≡ some c
    → l.claimed_by ≢ c
    → l.claimed_by ≢ ""
    → let later = run s cs in
      let refusal = raised (permission_error c l.event_id l.claimed_by) in
      (ack_event l.event_id status consumer later ≡ refusal)
      × (fail_event l.event_id error consumer later ≡ refusal)
      × (requeue_event l.event_id consumer reason later ≡ refusal)
      × Settles
          (ack_event l.event_id status (some l.claimed_by) later)
          l.event_id
          (if is_blank status then "DONE" else upper (strip status))
          none
          later
only_holder-Settles l cs s status error c reason consumer w held foreign named ne filled_name =
    let later = run s cs in
    let kept : IsHeld l later = run-IsHeld l cs s foreign w held in
    let (ack, fail, requeue) =
      settlement_refused l.event_id status error c reason consumer later l kept named ne in
    let same = name_of-filled consumer c named in
    let mine : filled (some l.claimed_by) ≡ some l.claimed_by =
      ground (arith, eq_iff l.claimed_by "") in
    let done =
      settlement_done l.event_id status error reason (some l.claimed_by) later
        (inr (inr (l, kept, mine))) in
    (rw (← same) ack, rw (← same) fail, rw (← same) requeue, done.0)

-- After the holder of an event's lease (whose name is not empty) has acked the event, a failure
-- reported by any consumer goes through, one whose lease ran out before included, and overwrites
-- the final status with FAILED.
pub late_failure_overwrites :
    (l : Lease) (status error : String) (late : Option String) (s : Store) (row : EventRow)
    → find_lease l.event_id s.leases ≡ some l
    → find_event l.event_id s.events ≡ some row
    → l.claimed_by ≢ ""
    → (acked failed : Store) × (ack_event l.event_id status (some l.claimed_by) s ≡ ok acked)
      × (status_of (find_event l.event_id acked.events)
          ≡ some (if is_blank status then "DONE" else upper (strip status)))
      × (fail_event l.event_id error late acked ≡ ok failed)
      × (status_of (find_event l.event_id failed.events) ≡ some "FAILED")
late_failure_overwrites l status error late s row held there named =
    let id = l.event_id in
    let mine : filled (some l.claimed_by) ≡ some l.claimed_by =
      ground (arith, eq_iff l.claimed_by "") in
    let (acked, is_ok, events, leases, _, _) =
      (settlement_done id status error none (some l.claimed_by) s (inr (inr (l, held, mine)))).0 in
    let (failed, is_ok', events', _, _, _) =
      (settlement_done id status error none late acked
        (inr (inl (rw (leases id) (ground arith))))).1 in
    (
      acked,
      failed,
      is_ok,
      rw (events id, there) (ground arith),
      is_ok',
      rw (events' id, events id, there) (ground arith),
    )
