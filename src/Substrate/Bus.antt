-- ===== src/Substrate/Bus.antt =====
-- appshak_substrate/bus_adapter.py: the durable event bus, an adapter over the mail store. A hook
-- is known by a number: what it does is its own, and what it raises is dropped.
pub mod Fifo
pub mod Refines
use app_shak_hq.Prelude.{Bool, List, Option, String, [], map, none, some, ℕ, ◌++◌, ◌∷◌}
use app_shak_hq.Python.Value.{
  Fields, Value, as_int, get, int, negsuc, null, obj, pos, setdefault, ℤ,
}
use app_shak_hq.Python.Exec.{Result, ok, ◌>>=◌, ◌>>◌}
use app_shak_hq.Substrate.Types.{RawEvent, SubstrateEvent, coerce, is_event}
use app_shak_hq.Substrate.MailStore.Tables.{Store}
use app_shak_hq.Substrate.MailStore.Events.{append_event, count_of, status_counts}
use app_shak_hq.Substrate.MailStore.Claim.{
  Filter, Outcome, Turn, claim_next_event, claimed, timed_out, waiting,
}
use app_shak_hq.Substrate.MailStore.Settle.{ack_event, fail_event, requeue_event}

pub record DurableEventBus : Type 0 where
  pub consumer_id : String
  pub target_agent : Option String
  pub include_unrouted : Bool
  pub lease_seconds : ℕ
  pub hooks : List ℕ

abbrev pub add_publish_hook : ℕ → DurableEventBus → DurableEventBus
add_publish_hook hook bus = record bus { hooks = bus.hooks ++ hook ∷ [] }

-- `payload.setdefault("event_id", id)`, and the same under "queue_index"
abbrev pub numbered_payload : ℤ → Fields → Fields
numbered_payload id d = setdefault "queue_index" (int id) (setdefault "event_id" (int id) d)

-- each hook is called with the event, in order
abbrev pub notified : List ℕ → SubstrateEvent → List (ℕ × SubstrateEvent)
notified hooks e = map (λ hook. (hook, e)) hooks

-- the event as it comes back, the calls of the hooks, and the store
unfoldable pub publish :
    (Value → String)
    → String
    → DurableEventBus
    → RawEvent
    → Store
    → Result (SubstrateEvent × List (ℕ × SubstrateEvent) × Store)
publish show now bus raw s = do
  normalized ← coerce show now raw
  stored ← append_event show now (is_event normalized) s
  let id = pos stored.0
  let e = record normalized { event_id = some id; payload = numbered_payload id normalized.payload }
  ok (e, notified bus.hooks e, stored.1)

-- an event that the store has returned has an id
abbrev indexed : SubstrateEvent → SubstrateEvent
indexed e = elim e.event_id [
  | none ↦ record e {
    payload = setdefault "queue_index" null (setdefault "event_id" null e.payload);
  }
  | some id ↦ record e { payload = numbered_payload id e.payload }
]

abbrev pub indexed_outcome : Outcome → Outcome
indexed_outcome (claimed e) = claimed (indexed e)
indexed_outcome timed_out = timed_out
indexed_outcome waiting = waiting

abbrev pub bus_filter : DurableEventBus → Filter
bus_filter bus = record { target_agent = bus.target_agent; include_unrouted = bus.include_unrouted }

unfoldable pub get_next :
    DurableEventBus → ℕ → ℕ → Option ℕ → List Turn → Store → Result (Outcome × Store)
get_next bus own start timeout turns s = do
  got ←
      claim_next_event bus.consumer_id (bus_filter bus) (some bus.lease_seconds) own start timeout
        turns s
  ok (indexed_outcome got.0, got.1)

-- what a caller hands in to have an event settled: a number, an event, a mapping, or another value
pub data EventOrId : Type 0 where
  id_of : ℤ → EventOrId
  with_event_id : Value → EventOrId
  mapping : Fields → EventOrId
  other_object : EventOrId

abbrev first_int : List Value → Option ℤ
first_int [] = none
first_int (v ∷ vs) = elim (as_int v) [ some n ↦ some n | none ↦ first_int vs ]

abbrev payload_id : Value → Value
payload_id (obj d) = get "event_id" d
payload_id _ = null

unfoldable pub extract_event_id : EventOrId → Option ℤ
extract_event_id (id_of n) = some n
extract_event_id (with_event_id v) = as_int v
extract_event_id (mapping d) =
    first_int (get "event_id" d ∷ get "id" d ∷ payload_id (get "payload" d) ∷ [])
extract_event_id other_object = none

-- The call of the store, if there is an id. No event has a negative id: the statement that looks
-- for one finds no lease and changes no row.
abbrev pub settled_by : EventOrId → (ℕ → Store → Result Store) → Store → Result Store
settled_by target call s = elim (extract_event_id target) [
  | none ↦ ok s
  | some (pos id) ↦ call id s
  | some (negsuc n) ↦ ok s
]

unfoldable pub ack : DurableEventBus → EventOrId → String → Store → Result Store
unfolding extract_event_id
ack bus target status s = settled_by target (λ id. ack_event id status (some bus.consumer_id)) s

unfoldable pub fail : DurableEventBus → EventOrId → String → Store → Result Store
unfolding extract_event_id
fail bus target error s = settled_by target (λ id. fail_event id error (some bus.consumer_id)) s

unfoldable pub requeue : DurableEventBus → EventOrId → Option String → Store → Result Store
unfolding extract_event_id
requeue bus target error s =
    settled_by target (λ id. requeue_event id (some bus.consumer_id) error) s

-- `qsize`
unfoldable pub qsize : Store → ℕ
qsize s = count_of "PENDING" (status_counts s)
