-- ===== src/Substrate/MailStore/History.antt =====
-- Every call that changes the tables, as one data type, and the runs of any connections' calls.
use app_shak_hq.Prelude.{
  List, Option, Option-cases, String, [], arith, inl, inr, none, refl, some, ℕ, ◌+◌, ◌∷◌, ◌≡◌,
}
use app_shak_hq.Python.Value.{Fields, Value}
use app_shak_hq.Python.Exec.{Result, Result-cases, ok, raised}
use app_shak_hq.Substrate.Types.{EventRow, RawEvent, coerce}
use app_shak_hq.Substrate.MailStore.Tables.{
  Store, delete_lease, find_event, find_lease, update_event,
}
use app_shak_hq.Substrate.MailStore.Events.{append_event}
use app_shak_hq.Substrate.MailStore.Claim.{
  Filter, first_eligible, release_expired_leases, try_claim_next,
}
use app_shak_hq.Substrate.MailStore.Settle.{ack_event, blocker, fail_event, requeue_event, settle}
use app_shak_hq.Substrate.MailStore.Keys.{
  record_worker_heartbeat, reserve_idempotency_key, set_idempotency_result,
}
use app_shak_hq.Substrate.MailStore.Audit.{AuditEntry, append_tool_audit}
use app_shak_hq.Substrate.MailStore.Lookup.{
  KeepsId, append-UniqueLeases, delete_lease-UniqueLeases, find_event-update, find_lease-append,
  find_lease-delete, update_event-IdsIn,
}
use app_shak_hq.Substrate.MailStore.Select.{find_event-first_eligible, first_eligible-is_eligible}
use app_shak_hq.Substrate.MailStore.Invariant.{
  IsWellFormed, insert_event-IsWellFormed, is_eligible_unleased, lent, release-IsWellFormed,
  try_claim_next-eq,
}

pub data Call : Type 0 where
  appends : (Value → String) → String → RawEvent → Call
  -- one transaction of `_try_claim_next`
  tries : String → Filter → ℕ → ℕ → String → Call
  acks : ℕ → String → Option String → Call
  fails : ℕ → String → Option String → Call
  requeues : ℕ → Option String → Option String → Call
  reserves : String → String → String → Option ℕ → String → Call
  sets_result : String → Fields → Call
  beats : String → String → ℕ → Option String → String → Call
  audits : AuditEntry → String → Call

-- a call that raises leaves the tables as they were
abbrev pub after : Store → Result Store → Store
after s (ok s') = s'
after s (raised e) = s

abbrev pub after_both {ℓ} : {A : Type ℓ} → Store → Result (A × Store) → Store
after_both s (ok (_, s')) = s'
after_both s (raised e) = s

unfoldable pub step : Store → Call → Store
step s (appends show now raw) = after_both s (append_event show now raw s)
step s (tries consumer q window now text) = (try_claim_next consumer q window now text s).1
step s (acks id status consumer) = after s (ack_event id status consumer s)
step s (fails id error consumer) = after s (fail_event id error consumer s)
step s (requeues id consumer error) = after s (requeue_event id consumer error s)
step s (reserves key agent action ev now) =
    after_both s (reserve_idempotency_key key agent action ev now s)
step s (sets_result key result) = set_idempotency_result key result s
step s (beats agent consumer pid ts now) = record_worker_heartbeat agent consumer pid ts now s
step s (audits entry now) = (append_tool_audit entry now s).1

unfoldable pub run : Store → List Call → Store
run s [] = s
run s (c ∷ cs) = run (step s c) cs

-- The tables of events and leases after a settlement that is not refused.
abbrev pub settled : (EventRow → EventRow) → ℕ → Store → Store
settled write id s = record s {
  events = update_event id write s.events;
  leases = delete_lease id s.leases;
}

settled-IsWellFormed :
    (write : EventRow → EventRow) (id : ℕ) (s : Store)
    → KeepsId write
    → IsWellFormed s
    → IsWellFormed (settled write id s)
settled-IsWellFormed write id s k w = record {
  rising = update_event-IdsIn write id 1 s.next_event s.events k w.rising;
  unique = delete_lease-UniqueLeases id s.leases w.unique;
  leased_claimed = λ j l h. ground (
    arith,
    find_event-update write id j s.events k,
    find_lease-delete id j s.leases,
    w.leased_claimed j l,
  );
}

-- A settlement is refused, or does its two writes.
pub settle-after :
    (P : Store → Type 0) (write : EventRow → EventRow) (id : ℕ) (consumer : Option String)
    (s : Store)
    → P s
    → P (settled write id s)
    → P (after s (settle write id consumer s))
unfolding settle
settle-after P write id consumer s keep done = elim (Option-cases (blocker consumer id s)) [
  | inl e ↦ rw (e, settle) done
  | inr (holder, e) ↦ rw (e, settle) keep
]

lent-IsWellFormed :
    (consumer : String) (now window : ℕ) (row : EventRow) (s : Store)
    → find_lease row.id s.leases ≡ none
    → find_event row.id s.events ≡ some row
    → IsWellFormed s
    → IsWellFormed (lent consumer now window row s)
lent-IsWellFormed consumer now window row s free there w = record {
  rising = update_event-IdsIn _ row.id 1 s.next_event s.events (λ e. refl) w.rising;
  unique = append-UniqueLeases _ s.leases free w.unique;
  leased_claimed = λ j l h. ground (
    arith,
    find_event-update (λ e. record e { status = "CLAIMED" }) row.id j s.events (λ e. refl),
    find_lease-append j
        (record {
          event_id = row.id;
          claimed_by = consumer;
          claim_ts = now;
          lease_expiry = now + window;
        })
        s.leases,
    w.leased_claimed j l,
  );
}

try_claim_next-IsWellFormed :
    (consumer : String) (q : Filter) (window now : ℕ) (text : String) (s : Store)
    → IsWellFormed s
    → IsWellFormed (try_claim_next consumer q window now text s).1
try_claim_next-IsWellFormed consumer q window now text s w =
    let r = release_expired_leases now s in
    let wr = release-IsWellFormed now s w in
    elim (Option-cases (first_eligible q r.leases r.events)) [
      | inl e ↦ rw (try_claim_next-eq consumer q window now text s w, e) wr
      | inr (row, e) ↦
          rw (try_claim_next-eq consumer q window now text s w, e)
            (lent-IsWellFormed consumer now window row r
              (is_eligible_unleased q r.leases row
                (first_eligible-is_eligible q r.leases r.events e))
              (find_event-first_eligible q r.leases 1 r.next_event r.events wr.rising e) wr)
    ]

append_event-IsWellFormed :
    (show : Value → String) (now : String) (raw : RawEvent) (s : Store)
    → IsWellFormed s
    → IsWellFormed (after_both s (append_event show now raw s))
unfolding append_event
append_event-IsWellFormed show now raw s w = elim (Result-cases (coerce show now raw)) [
  | inl (e, eq) ↦ rw (eq, append_event) (insert_event-IsWellFormed e s w)
  | inr (err, eq) ↦ rw (eq, append_event) w
]

-- Methods on the other tables do not touch events and leases.
abbrev pub SameMail : Store → Store → Type 0
SameMail s t = (t.events ≡ s.events) × (t.next_event ≡ s.next_event) × (t.leases ≡ s.leases)

pub reserve-SameMail :
    (key agent action : String) (ev : Option ℕ) (now : String) (s : Store)
    → SameMail s (after_both s (reserve_idempotency_key key agent action ev now s))
unfolding reserve_idempotency_key
reserve-SameMail key agent action ev now s = ground arith

pub set_idempotency_result-SameMail :
    (key : String) (result : Fields) (s : Store) → SameMail s (set_idempotency_result key result s)
unfolding set_idempotency_result
set_idempotency_result-SameMail key result s = ground arith

SameMail-IsWellFormed : (s t : Store) → SameMail s t → IsWellFormed s → IsWellFormed t
SameMail-IsWellFormed s t (e, n, l) w = record {
  rising = rw (e, n) w.rising;
  unique = rw l w.unique;
  leased_claimed = rw (e, l) w.leased_claimed;
}

-- Every call, refused or not, leaves the tables well formed.
pub step-IsWellFormed : (c : Call) (s : Store) → IsWellFormed s → IsWellFormed (step s c)
unfolding step ack_event fail_event requeue_event record_worker_heartbeat append_tool_audit
step-IsWellFormed (appends show now raw) s w = append_event-IsWellFormed show now raw s w
step-IsWellFormed (tries consumer q window now text) s w =
    try_claim_next-IsWellFormed consumer q window now text s w
step-IsWellFormed (acks id status consumer) s w =
    settle-after IsWellFormed _ id consumer s w (settled-IsWellFormed _ id s (λ e. refl) w)
step-IsWellFormed (fails id error consumer) s w =
    settle-after IsWellFormed _ id consumer s w (settled-IsWellFormed _ id s (λ e. refl) w)
step-IsWellFormed (requeues id consumer error) s w =
    settle-after IsWellFormed _ id consumer s w (settled-IsWellFormed _ id s (λ e. refl) w)
step-IsWellFormed (reserves key agent action ev now) s w =
    SameMail-IsWellFormed s _ (reserve-SameMail key agent action ev now s) w
step-IsWellFormed (sets_result key result) s w =
    SameMail-IsWellFormed s _ (set_idempotency_result-SameMail key result s) w
step-IsWellFormed (beats agent consumer pid ts now) s w =
    SameMail-IsWellFormed s _ (refl, refl, refl) w
step-IsWellFormed (audits entry now) s w = SameMail-IsWellFormed s _ (refl, refl, refl) w

-- From a store where this holds, after any calls of any connections, in any order: event ids rise
-- and stay below the next one, no event has two leases, and each lease is of an event that is
-- there and has the status CLAIMED.
pub run-IsWellFormed : (cs : List Call) (s : Store) → IsWellFormed s → IsWellFormed (run s cs)
unfolding run
run-IsWellFormed [] s w = w
run-IsWellFormed (c ∷ cs) s w = run-IsWellFormed cs (step s c) (step-IsWellFormed c s w)
