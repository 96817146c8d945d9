-- ===== src/Substrate/MailStore/Once.antt =====
-- The reservation of idempotency keys, and the heartbeats of agents.
use app_shak_hq.Prelude.{
  Bool, List, Option, Option-cases, String, [], arith, eq_iff, false, if◌then◌else◌, inl, inr,
  is_none, is_some, nat_eq, none, refl, some, string_eq, true, ℕ, ◌++◌, ◌==◌, ◌||◌, ◌∷◌, ◌≡◌, ◌≢◌,
}
use app_shak_hq.Python.Value.{Fields}
use app_shak_hq.Substrate.MailStore.Tables.{KeyRow, Store}
use app_shak_hq.Substrate.MailStore.Keys.{
  find_heartbeat-upsert, find_key, get_worker_heartbeat, record_worker_heartbeat,
  reserve_idempotency_key, set_idempotency_result, set_key_result, stamp,
}
use app_shak_hq.Python.Text.{strip}
use app_shak_hq.Python.Exec.{Result-cases, ok}
use app_shak_hq.Substrate.Types.{coerce}
use app_shak_hq.Substrate.MailStore.Events.{append_event, insert_event}
use app_shak_hq.Substrate.MailStore.Claim.{
  Filter, claim_row, release_expired_leases, try_claim_next,
}
use app_shak_hq.Substrate.MailStore.Settle.{ack_event, fail_event, requeue_event}
use app_shak_hq.Substrate.MailStore.Audit.{append_tool_audit}
use app_shak_hq.Substrate.MailStore.History.{
  Call, acks, appends, audits, beats, fails, requeues, reserves, run, sets_result, settle-after,
  step, tries,
}

-- The key is in the table.
abbrev pub IsReserved : String → Store → Type 0
IsReserved k s = is_some (find_key k s.keys) ≡ true

pub find_key-append :
    (k : String) (row : KeyRow) (rs : List KeyRow)
    → is_some (find_key k (rs ++ row ∷ [])) ≡ (is_some (find_key k rs) || row.idempotency_key == k)
unfolding find_key
find_key-append k row [] = ground arith
find_key-append k row (r ∷ rs) = ground (arith, find_key-append k row rs)

pub find_key-set_key_result :
    (k j : String) (v : Fields) (rs : List KeyRow)
    → is_some (find_key k (set_key_result j v rs)) ≡ is_some (find_key k rs)
unfolding find_key set_key_result
find_key-set_key_result k j v [] = refl
find_key-set_key_result k j v (r ∷ rs) = ground (arith, find_key-set_key_result k j v rs)

try_claim_next-keys :
    (consumer : String) (q : Filter) (window now : ℕ) (text : String) (s : Store)
    → (try_claim_next consumer q window now text s).1.keys ≡ s.keys
unfolding try_claim_next claim_row release_expired_leases
try_claim_next-keys consumer q window now text s = ground arith

step-IsReserved : (k : String) (c : Call) (s : Store) → IsReserved k s → IsReserved k (step s c)
unfolding step ack_event fail_event requeue_event record_worker_heartbeat append_tool_audit
step-IsReserved k (appends show now raw) s h = elim (Result-cases (coerce show now raw)) [
  | inl (e, eq) ↦ unfold append_event insert_event in rw (eq, append_event) h
  | inr (err, eq) ↦ unfold append_event in rw (eq, append_event) h
]
step-IsReserved k (tries consumer q window now text) s h = rw try_claim_next-keys h
step-IsReserved k (acks id status consumer) s h = settle-after (IsReserved k) _ id consumer s h h
step-IsReserved k (fails id error consumer) s h = settle-after (IsReserved k) _ id consumer s h h
step-IsReserved k (requeues id consumer error) s h = settle-after (IsReserved k) _ id consumer s h h
step-IsReserved k (reserves key agent action ev now) s h =
    unfold reserve_idempotency_key in
    ground (
      arith,
      find_key-append k
          (record {
            idempotency_key = strip key;
            created_ts = now;
            agent_id = agent;
            action_type = action;
            event_id = ev;
            result = none;
          })
          s.keys,
    )
step-IsReserved k (sets_result key result) s h =
    unfold set_idempotency_result in
    ground (arith, find_key-set_key_result k (strip key) result s.keys)
step-IsReserved k (beats agent consumer pid ts now) s h = h
step-IsReserved k (audits entry now) s h = h

pub run-IsReserved :
    (k : String) (cs : List Call) (s : Store) → IsReserved k s → IsReserved k (run s cs)
unfolding run
run-IsReserved k [] s h = h
run-IsReserved k (c ∷ cs) s h = run-IsReserved k cs (step s c) (step-IsReserved k c s h)

-- A key that is not blank is given out exactly if it is not in the table; it is in the table
-- afterwards, and no other key comes or goes.
pub reserve_exact :
    (key agent action : String) (ev : Option ℕ) (now : String) (s : Store)
    → strip key ≢ ""
    → (s' : Store) × (reserve_idempotency_key key agent action ev now s
        ≡ ok (is_none (find_key (strip key) s.keys), s'))
      × ((k : String)
          → is_some (find_key k s'.keys) ≡ (is_some (find_key k s.keys) || strip key == k))
unfolding reserve_idempotency_key
reserve_exact key agent action ev now s ne =
    let row : KeyRow = record {
      idempotency_key = strip key;
      created_ts = now;
      agent_id = agent;
      action_type = action;
      event_id = ev;
      result = none;
    } in
    elim (Option-cases (find_key (strip key) s.keys)) [
      | inl free ↦ (
        record s { keys = s.keys ++ row ∷ [] },
        ground (arith, eq_iff (strip key) "", free),
        λ k. find_key-append k row s.keys,
      )
      | inr (old, found) ↦ (
        s,
        ground (arith, eq_iff (strip key) "", found),
        λ k. reserved_already k (strip key) s.keys old found,
      )
    ]
  where
    reserved_already :
        (k j : String) (rs : List KeyRow) (old : KeyRow)
        → find_key j rs ≡ some old
        → is_some (find_key k rs) ≡ (is_some (find_key k rs) || j == k)
    reserved_already k j rs old found = ground (arith, eq_iff j k, found)

-- At most one reservation of a key that is not blank succeeds: once a reservation has returned,
-- whatever calls follow, every later one of the same stripped key returns false and changes
-- nothing.
pub reserved_once :
    (key key' agent agent' action action' : String) (ev ev' : Option ℕ) (now now' : String)
    (s s' : Store) (first : Bool) (cs : List Call)
    → strip key ≢ ""
    → strip key' ≡ strip key
    → reserve_idempotency_key key agent action ev now s ≡ ok (first, s')
    → reserve_idempotency_key key' agent' action' ev' now' (run s' cs) ≡ ok (false, run s' cs)
reserved_once key key' agent agent' action action' ev ev' now now' s s' first cs ne same got =
    let (t, is_ok, keys) = reserve_exact key agent action ev now s ne in
    let e : t ≡ s' = cc in
    let now_there : IsReserved (strip key) s' =
      rw (← e, keys (strip key)) (ground (arith, eq_iff (strip key) (strip key))) in
    let still = run-IsReserved (strip key) cs s' now_there in
    unfold reserve_idempotency_key in rw same (ground (arith, eq_iff (strip key) "", still))

-- The heartbeat that is read for an agent is the last one recorded for it.
pub heartbeat_last :
    (agent other consumer : String) (pid : ℕ) (ts : Option String) (now : String) (s : Store)
    → get_worker_heartbeat other (record_worker_heartbeat agent consumer pid ts now s) ≡ (
        if agent == other
        then some
            (record { agent_id = agent; consumer_id = consumer; pid = pid; ts = stamp ts now })
        else get_worker_heartbeat other s)
unfolding get_worker_heartbeat record_worker_heartbeat
heartbeat_last agent other consumer pid ts now s =
    find_heartbeat-upsert other
      (record { agent_id = agent; consumer_id = consumer; pid = pid; ts = stamp ts now })
      s.heartbeats
