-- ===== src/Substrate/MailStore/Final.antt =====
-- What other calls do to an event that is settled.
use app_shak_hq.Prelude.{
  All, List, Option-cases, String, [], arith, eq_iff, inl, inr, none, refl, some, ℕ, ◌∷◌, ◌≡◌, ◌≢◌,
}
use app_shak_hq.Substrate.Types.{EventRow, SubstrateEvent, coerce, from_row}
use app_shak_hq.Substrate.MailStore.Tables.{Store, find_event, find_lease}
use app_shak_hq.Substrate.MailStore.Claim.{
  Filter, first_eligible, is_eligible, release_expired_leases, try_claim_next,
}
use app_shak_hq.Substrate.MailStore.Lookup.{
  KeepsId, find_event-append, find_event-back_to_pending, find_event-update, find_lease-append,
  find_lease-delete, find_lease-drop_expired, has_expired-find_lease,
}
use app_shak_hq.Substrate.MailStore.Select.{find_event-first_eligible, first_eligible-is_eligible}
use app_shak_hq.Substrate.MailStore.Invariant.{
  IsWellFormed, release-IsWellFormed, status_of, try_claim_next-eq, try_claim_next-some,
}
use app_shak_hq.Substrate.MailStore.History.{
  Call, SameMail, acks, appends, audits, beats, fails, requeues, reserve-SameMail, reserves, run,
  run-IsWellFormed, set_idempotency_result-SameMail, sets_result, settle-after, settled, step,
  step-IsWellFormed, tries,
}
use app_shak_hq.Python.Value.{pos}
use app_shak_hq.Python.Exec.{Result-cases}
use app_shak_hq.Substrate.MailStore.Events.{append_event, insert_event}
use app_shak_hq.Substrate.MailStore.Settle.{ack_event, fail_event, requeue_event}
use app_shak_hq.Substrate.MailStore.Keys.{record_worker_heartbeat}
use app_shak_hq.Substrate.MailStore.Audit.{append_tool_audit}

-- A call that does not settle the event with the id.
abbrev pub Spares : ℕ → Call → Type 0
Spares id (acks i status consumer) = i ≢ id
Spares id (fails i error consumer) = i ≢ id
Spares id (requeues i consumer error) = i ≢ id
Spares id _ = Unit {0}

-- The event is there with the status, and nobody holds a lease on it.
pub record IsSettled (id : ℕ) (status : String) (s : Store) : Type 0 where
  pub final : status_of (find_event id s.events) ≡ some status
  pub unleased : find_lease id s.leases ≡ none

settled-IsSettled :
    (id i : ℕ) (status : String) (write : EventRow → EventRow) (s : Store)
    → KeepsId write
    → i ≢ id
    → IsSettled id status s
    → IsSettled id status (settled write i s)
settled-IsSettled id i status write s k ne h = record {
  final = rw (find_event-update write i id s.events k) (ground (arith, ne, h.final));
  unleased = rw find_lease-delete (ground (arith, ne, h.unleased));
}

release-IsSettled :
    (id now : ℕ) (status : String) (s : Store)
    → IsWellFormed s
    → IsSettled id status s
    → IsSettled id status (release_expired_leases now s)
unfolding release_expired_leases
release-IsSettled id now status s w h = record {
  final =
      rw (find_event-back_to_pending, has_expired-find_lease now id s.leases w.unique, h.unleased)
        (elim (Option-cases (find_event id s.events)) [
          | inl e ↦ let k = rw e at (h.final) in cc
          | inr (row, e) ↦ rw e (rw e at (h.final))
        ]);
  unleased = rw (find_lease-drop_expired now id s.leases w.unique, h.unleased) refl;
}

-- The row that a claim takes is not the settled one.
claimed_ne_settled :
    (id : ℕ) (status : String) (q : Filter) (s : Store) (row : EventRow)
    → IsWellFormed s
    → status ≢ "PENDING"
    → IsSettled id status s
    → first_eligible q s.leases s.events ≡ some row
    → row.id ≢ id
unfolding is_eligible
claimed_ne_settled id status q s row w ne h found same = ground (
  arith,
  ne,
  h.final,
  same,
  first_eligible-is_eligible q s.leases s.events found,
  find_event-first_eligible q s.leases 1 s.next_event s.events {row = row} w.rising found,
  eq_iff row.status "PENDING",
)

try_claim_next-IsSettled :
    (id : ℕ) (status consumer : String) (q : Filter) (window now : ℕ) (text : String) (s : Store)
    → IsWellFormed s
    → status ≢ "PENDING"
    → IsSettled id status s
    → IsSettled id status (try_claim_next consumer q window now text s).1
try_claim_next-IsSettled id status consumer q window now text s w ne h =
    let r = release_expired_leases now s in
    let wr = release-IsWellFormed now s w in
    let hr = release-IsSettled id now status s w h in
    elim (Option-cases (first_eligible q r.leases r.events)) [
      | inl e ↦ rw (try_claim_next-eq consumer q window now text s w, e) hr
      | inr (row, e) ↦
          let ne' = claimed_ne_settled id status q r row wr ne hr e in
          rw (try_claim_next-eq consumer q window now text s w, e)
            (record {
              final =
                  rw
                    (find_event-update (λ x. record x { status = "CLAIMED" }) row.id id r.events
                      (λ x. refl))
                    (ground (arith, ne', hr.final));
              unleased = rw (find_lease-append, hr.unleased) (ground (arith, ne'));
            })
    ]

appends-IsSettled :
    (id : ℕ) (status : String) (e : SubstrateEvent) (s : Store)
    → IsSettled id status s
    → IsSettled id status (insert_event e s).1
unfolding insert_event
appends-IsSettled id status e s h = record {
  final = rw find_event-append (elim (Option-cases (find_event id s.events)) [
    | inl n ↦ let k = rw n at (h.final) in cc
    | inr (row, n) ↦ rw n (rw n at (h.final))
  ]);
  unleased = h.unleased;
}

same-IsSettled :
    (id : ℕ) (status : String) (s t : Store)
    → SameMail s t
    → IsSettled id status s
    → IsSettled id status t
same-IsSettled id status s t (e, _, l) h = record {
  final = rw e h.final;
  unleased = rw l h.unleased;
}

step-IsSettled :
    (id : ℕ) (status : String) (c : Call) (s : Store)
    → Spares id c
    → IsWellFormed s
    → status ≢ "PENDING"
    → IsSettled id status s
    → IsSettled id status (step s c)
unfolding step ack_event fail_event requeue_event record_worker_heartbeat append_tool_audit
step-IsSettled id status (appends show now raw) s f w ne h =
    elim (Result-cases (coerce show now raw)) [
      | inl (e, eq) ↦
          unfold append_event in rw (eq, append_event) (appends-IsSettled id status e s h)
      | inr (err, eq) ↦ unfold append_event in rw (eq, append_event) h
    ]
step-IsSettled id status (tries consumer q window now text) s f w ne h =
    try_claim_next-IsSettled id status consumer q window now text s w ne h
step-IsSettled id status (acks i new consumer) s f w ne h =
    settle-after (IsSettled id status) _ i consumer s h
      (settled-IsSettled id i status _ s (λ e. refl) f h)
step-IsSettled id status (fails i error consumer) s f w ne h =
    settle-after (IsSettled id status) _ i consumer s h
      (settled-IsSettled id i status _ s (λ e. refl) f h)
step-IsSettled id status (requeues i consumer error) s f w ne h =
    settle-after (IsSettled id status) _ i consumer s h
      (settled-IsSettled id i status _ s (λ e. refl) f h)
step-IsSettled id status (reserves key agent action ev now) s f w ne h =
    same-IsSettled id status s _ (reserve-SameMail key agent action ev now s) h
step-IsSettled id status (sets_result key result) s f w ne h =
    same-IsSettled id status s _ (set_idempotency_result-SameMail key result s) h
step-IsSettled id status (beats agent consumer pid ts now) s f w ne h =
    same-IsSettled id status s _ (refl, refl, refl) h
step-IsSettled id status (audits entry now) s f w ne h =
    same-IsSettled id status s _ (refl, refl, refl) h

run-IsSettled :
    (id : ℕ) (status : String) (cs : List Call) (s : Store)
    → All (Spares id) cs
    → IsWellFormed s
    → status ≢ "PENDING"
    → IsSettled id status s
    → IsSettled id status (run s cs)
unfolding run
run-IsSettled id status [] s f w ne h = h
run-IsSettled id status (c ∷ cs) s f w ne h =
    run-IsSettled id status cs (step s c) f.1 (step-IsWellFormed c s w) ne
      (step-IsSettled id status c s f.0 w ne h)

-- From a well-formed store, an event that is not leased and whose status is not PENDING keeps its
-- status through any calls but settlements of that event, and no claim after them returns it.
pub IsSettled-not_redelivered :
    (id : ℕ) (status : String) (cs : List Call) (s : Store) (consumer : String) (q : Filter)
    (window now : ℕ) (text : String) {e : SubstrateEvent}
    → IsWellFormed s
    → status ≢ "PENDING"
    → IsSettled id status s
    → All (Spares id) cs
    → (try_claim_next consumer q window now text (run s cs)).0 ≡ some e
    → IsSettled id status (run s cs) × (e.event_id ≢ some (pos id))
unfolding from_row
IsSettled-not_redelivered id status cs s consumer q window now text {e} w ne h f got =
    let wr = run-IsWellFormed cs s w in
    let hr = run-IsSettled id status cs s f w ne h in
    let r = release_expired_leases now (run s cs) in
    let (row, found, made, _) =
      try_claim_next-some consumer q window now text (run s cs) {e = e} wr got in
    let other =
      claimed_ne_settled id status q r row (release-IsWellFormed now (run s cs) wr) ne
        (release-IsSettled id now status (run s cs) wr hr) found in
    (hr, λ same. ground (arith, made, same, other))
