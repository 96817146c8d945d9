-- ===== src/Substrate/MailStore/Keys.antt =====
-- Idempotency records and worker heartbeats: tables with a text as primary key.
use app_shak_hq.Prelude.{
  Bool, List, Option, String, [], arith, eq_iff, false, if◌then◌else◌, is_some, map, nat_eq, none,
  not, refl, some, string_eq, true, ℕ, ◌++◌, ◌==◌, ◌∷◌, ◌≡◌,
}
use app_shak_hq.Python.Text.{filled, strip}
use app_shak_hq.Python.Value.{Fields}
use app_shak_hq.Python.Exec.{Result, ok, require, value_error, ◌>>◌}
use app_shak_hq.Substrate.MailStore.Tables.{Heartbeat, KeyRow, Store}

unfoldable pub find_key : String → List KeyRow → Option KeyRow
find_key k [] = none
find_key k (r ∷ rs) = if r.idempotency_key == k then some r else find_key k rs

unfoldable pub set_key_result : String → Fields → List KeyRow → List KeyRow
set_key_result k v [] = []
set_key_result k v (r ∷ rs) =
    (if r.idempotency_key == k then record r { result = some v } else r) ∷ set_key_result k v rs

-- A key that is in the table already is an IntegrityError, which is rolled back.
unfoldable pub reserve_idempotency_key :
    String → String → String → Option ℕ → String → Store → Result (Bool × Store)
unfolding find_key
reserve_idempotency_key idempotency_key agent action event now s =
    let key = strip idempotency_key in
    do
      require (not (key == "")) (value_error "idempotency_key must be non-empty.")
      let row : KeyRow = record {
        idempotency_key = key;
        created_ts = now;
        agent_id = agent;
        action_type = action;
        event_id = event;
        result = none;
      }
      ok (
          if is_some (find_key key s.keys)
          then (false, s)
          else (true, record s { keys = s.keys ++ row ∷ [] }))

unfoldable pub get_idempotency_record : String → Store → Option KeyRow
unfolding find_key
get_idempotency_record idempotency_key s =
    let key = strip idempotency_key in if key == "" then none else find_key key s.keys

unfoldable pub set_idempotency_result : String → Fields → Store → Store
unfolding set_key_result
set_idempotency_result idempotency_key result s =
    let key = strip idempotency_key in
    if key == "" then s else record s { keys = set_key_result key result s.keys }

-- INSERT … ON CONFLICT(agent_id) DO UPDATE
unfoldable pub upsert : Heartbeat → List Heartbeat → List Heartbeat
upsert h [] = h ∷ []
upsert h (g ∷ gs) = if g.agent_id == h.agent_id then h ∷ gs else g ∷ upsert h gs

unfoldable pub find_heartbeat : String → List Heartbeat → Option Heartbeat
find_heartbeat agent [] = none
find_heartbeat agent (g ∷ gs) = if g.agent_id == agent then some g else find_heartbeat agent gs

pub find_heartbeat-upsert :
    (agent : String) (h : Heartbeat) (hs : List Heartbeat)
    → find_heartbeat agent (upsert h hs)
      ≡ (if h.agent_id == agent then some h else find_heartbeat agent hs)
unfolding find_heartbeat upsert
find_heartbeat-upsert agent h [] = refl
find_heartbeat-upsert agent h (g ∷ gs) = ground (
  arith,
  eq_iff g.agent_id h.agent_id,
  eq_iff g.agent_id agent,
  eq_iff h.agent_id agent,
  find_heartbeat-upsert agent h gs,
)

abbrev pub stamp : Option String → String → String
stamp ts now = elim (filled ts) [ none ↦ now | some t ↦ t ]

unfoldable pub record_worker_heartbeat :
    String → String → ℕ → Option String → String → Store → Store
unfolding upsert
record_worker_heartbeat agent consumer pid ts now s = record s {
  heartbeats =
      upsert (record { agent_id = agent; consumer_id = consumer; pid = pid; ts = stamp ts now })
        s.heartbeats;
}

unfoldable pub get_worker_heartbeat : String → Store → Option Heartbeat
unfolding find_heartbeat
get_worker_heartbeat agent s = find_heartbeat agent s.heartbeats

-- the dictionary by agent that the method returns: its keys are the primary keys
unfoldable pub list_worker_heartbeats : Store → List (String × Heartbeat)
list_worker_heartbeats s = map (λ h. (h.agent_id, h)) s.heartbeats
