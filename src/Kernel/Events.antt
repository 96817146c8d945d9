-- ===== src/Kernel/Events.antt =====
-- appshak/event_bus.py: the event types, the event and the queue in memory. A value of the
-- enumeration, which is a text too, stands for itself in a mapping by that text. A hook is a number,
-- as in Substrate/Bus.
use app_shak_hq.Prelude.{
  List, Option, String, [], if◌then◌else◌, length, map, nat_eq, none, some, string_eq, zero, ℕ,
  ◌++◌, ◌+◌, ◌==◌, ◌∷◌,
}
use app_shak_hq.Python.Text.{concat, strip}
use app_shak_hq.Python.Value.{
  Fields, Value, end, field, get, int, nonblank, obj, or_else, pos, setdefault, str,
}
use app_shak_hq.Python.Exec.{Result, ok, raised, value_error, ◌>>=◌}

pub data EventType : Type 0 where
  proposal proposal_invalid proposal_decision proposal_vote_modified : EventType
  external_action_request external_action_result constitution_violation : EventType
  kernel_start kernel_shutdown kernel_error kernel_recovery : EventType
  agent_status intent_dispatch : EventType

abbrev pub type_text : EventType → String
type_text proposal = "PROPOSAL"
type_text proposal_invalid = "PROPOSAL_INVALID"
type_text proposal_decision = "PROPOSAL_DECISION"
type_text proposal_vote_modified = "PROPOSAL_VOTE_MODIFIED"
type_text external_action_request = "EXTERNAL_ACTION_REQUEST"
type_text external_action_result = "EXTERNAL_ACTION_RESULT"
type_text constitution_violation = "CONSTITUTION_VIOLATION"
type_text kernel_start = "KERNEL_START"
type_text kernel_shutdown = "KERNEL_SHUTDOWN"
type_text kernel_error = "KERNEL_ERROR"
type_text kernel_recovery = "KERNEL_RECOVERY"
type_text agent_status = "AGENT_STATUS"
type_text intent_dispatch = "INTENT_DISPATCH"

abbrev event_types : List EventType
event_types =
    proposal ∷ proposal_invalid ∷ proposal_decision ∷ proposal_vote_modified
    ∷ external_action_request ∷ external_action_result ∷ constitution_violation ∷ kernel_start
    ∷ kernel_shutdown ∷ kernel_error ∷ kernel_recovery ∷ agent_status ∷ intent_dispatch ∷ []

abbrev among : String → List EventType → Option EventType
among s [] = none
among s (t ∷ ts) = if type_text t == s then some t else among s ts

-- `EventType(text)`; `none` is a ValueError
unfoldable pub event_type_of : String → Option EventType
event_type_of s = among s event_types

pub record Event : Type 0 where
  pub event_type : EventType
  pub timestamp : String
  pub origin_id : String
  pub payload : Fields

abbrev pub event_dict : Event → Fields
event_dict e = field "type" (str (type_text e.event_type)) (
    field "timestamp" (str e.timestamp)
      (field "origin_id" (str e.origin_id) (field "payload" (obj e.payload) end)))

-- the counter gives out 1 first
pub record EventBus : Type 0 where
  pub queue : List Event
  pub next_index : ℕ
  pub hooks : List ℕ

abbrev pub new_bus : EventBus
new_bus = record { queue = []; next_index = 1; hooks = [] }

abbrev pub bus_add_hook : ℕ → EventBus → EventBus
bus_add_hook hook bus = record bus { hooks = bus.hooks ++ hook ∷ [] }

-- an event, or a mapping
pub data Raw : Type 0 where
  an_event : Event → Raw
  a_mapping : Fields → Raw

abbrev pub own_payload : Value → Fields
own_payload (obj d) = d
own_payload _ = end

abbrev pub indexed_payload : ℕ → Fields → Fields
indexed_payload index d = setdefault "queue_index" (int (pos index)) d

abbrev pub raw_type : Fields → Result EventType
raw_type d = elim (nonblank (get "type" d)) [
  | none ↦ raised (value_error "Event must include a valid 'type'.")
  | some s ↦ elim (event_type_of (strip s)) [
    | none ↦ raised (value_error (concat "'" (concat (strip s) "' is not a valid EventType")))
    | some t ↦ ok t
  ]
]

abbrev pub raw_timestamp : String → Fields → String
raw_timestamp now d = elim (nonblank (get "timestamp" d)) [ none ↦ now | some s ↦ s ]

abbrev pub raw_origin : Fields → Fields → Result String
raw_origin d payload =
    let origin = or_else (or_else (get "origin_id" d) (get "origin" d)) (get "origin_id" payload) in
    elim (nonblank origin) [
      | none ↦ raised (value_error "Event must include a non-empty 'origin_id'.")
      | some s ↦ ok (strip s)
    ]

unfoldable pub normalize : String → ℕ → Raw → Result Event
normalize now index (an_event e) = ok (record e {
  timestamp = if e.timestamp == "" then now else e.timestamp;
  payload = indexed_payload index e.payload;
})
normalize now index (a_mapping d) = do
  type_found ← raw_type d
  let payload = indexed_payload index (own_payload (get "payload" d))
  origin ← raw_origin d payload
  ok (record {
    event_type = type_found;
    timestamp = raw_timestamp now d;
    origin_id = origin;
    payload = payload;
  })

abbrev enqueued : EventBus → Result Event → Result (Event × List (ℕ × Event)) × EventBus
enqueued bus (raised e) = (raised e, bus)
enqueued bus (ok e) =
    (ok (e, map (λ hook. (hook, e)) bus.hooks), record bus { queue = bus.queue ++ e ∷ [] })

-- the event and the calls of the hooks; the index is used up even where the event is refused
unfoldable pub publish_event :
    String → Raw → EventBus → Result (Event × List (ℕ × Event)) × EventBus
unfolding normalize
publish_event now raw bus =
    enqueued (record bus { next_index = bus.next_index + 1 }) (normalize now bus.next_index raw)

pub data Next : Type 0 where
  got : Event → Next
  too_late : Next
  -- without a timeout it waits on
  blocked : Next

abbrev given_up : Option ℕ → Next
given_up none = blocked
given_up (some timeout) = too_late

abbrev head_of : List Event → Next → EventBus → Next × EventBus
head_of [] otherwise bus = (otherwise, bus)
head_of (e ∷ es) otherwise bus = (got e, record bus { queue = es })

-- what is put on the bus while the call waits
abbrev after_wait : (EventBus → EventBus) → Option ℕ → EventBus → EventBus
after_wait others (some zero) bus = bus
after_wait others _ bus = others bus

-- An event that is there is taken at once; else the call waits, if it may.
unfoldable pub bus_get_next : (EventBus → EventBus) → Option ℕ → EventBus → Next × EventBus
bus_get_next others timeout bus = elim bus.queue [
  | [] ↦ let later = after_wait others timeout bus in head_of later.queue (given_up timeout) later
  | e ∷ es ↦ (got e, record bus { queue = es })
]

abbrev pub bus_size : EventBus → ℕ
bus_size bus = length bus.queue
