-- ===== src/Substrate/Types.antt =====
-- appshak_substrate/types.py: the event record, its construction from what callers hand in and
-- from a row of the `events` table, and the requests and results of the tool gateway.
-- `str(value)` of a value that is no text is Python's printer, the parameter `show`; the time that
-- `iso_now()` returns is an argument.
use app_shak_hq.Prelude.{
  Bool, Option, String, if◌then◌else◌, nat_eq, none, some, string_eq, ℕ, ◌==◌,
}
use app_shak_hq.Python.Text.{strip}
use app_shak_hq.Python.Value.{
  Fields, Value, as_int, as_str, end, field, get, get?, int, nonblank, null, obj, opt_str, or_else,
  pos, setdefault, str, ℤ,
}
use app_shak_hq.Python.Exec.{Result, ok, raised, type_error, value_error}

pub record SubstrateEvent : Type 0 where
  pub event_type : String
  pub origin_id : String
  pub payload : Fields
  pub timestamp : String
  pub event_id : Option ℤ
  pub justification : Option String
  pub status : String
  pub error : Value
  pub correlation_id : Option String
  pub target_agent : Option String

-- a row of the table `events`; the column `payload_json` holds the payload that it was written from
pub record EventRow : Type 0 where
  pub id : ℕ
  pub ts : String
  pub event_type : String
  pub origin_id : String
  pub target_agent : Option String
  pub payload : Fields
  pub justification : Option String
  pub status : String
  pub error : Option String
  pub correlation_id : Option String

-- what a caller may hand in as an event: an event, an object with `to_dict`, a mapping, or
-- something else
pub data RawEvent : Type 0 where
  is_event : SubstrateEvent → RawEvent
  has_to_dict : Fields → RawEvent
  is_mapping : Fields → RawEvent
  unsupported : RawEvent

abbrev pub opt_int : Option ℤ → Value
opt_int none = null
opt_int (some n) = int n

-- `text or default`
abbrev pub text_or : String → String → String
text_or s default = if s == "" then default else s

-- `if x is not None: payload.setdefault("event_id", x)`
abbrev set_event_id : Option ℤ → Fields → Fields
set_event_id none d = d
set_event_id (some n) d = setdefault "event_id" (int n) d

-- a value that is a text and not blank, or else the payload's under the key, on the same condition
abbrev own_or_payload : Value → Value → Option String
own_or_payload own from_payload = elim (nonblank own) [
  | some s ↦ some s
  | none ↦ nonblank from_payload
]

-- the justification falls back on any text of the payload, blank or not
abbrev justification_of : Value → Value → Option String
justification_of own from_payload = elim (nonblank own) [
  | some s ↦ some s
  | none ↦ as_str from_payload
]

unfoldable pub to_dict : SubstrateEvent → Fields
to_dict e = field "id" (opt_int e.event_id) (
    field "type" (str e.event_type) (
      field "timestamp" (str e.timestamp) (
        field "origin_id" (str e.origin_id) (
          field "payload" (obj (set_event_id e.event_id e.payload)) (
            field "justification" (opt_str e.justification) (
              field "status" (str e.status) (
                field "error" e.error (
                  field "correlation_id" (opt_str e.correlation_id)
                    (field "target_agent" (opt_str e.target_agent) end)))))))))

unfoldable pub from_row : EventRow → String → SubstrateEvent
from_row row now =
    let payload = setdefault "event_id" (int (pos row.id)) row.payload in
    record {
      event_type = row.event_type;
      origin_id = text_or row.origin_id "unknown";
      payload = payload;
      timestamp = text_or row.ts now;
      event_id = some (pos row.id);
      justification = row.justification;
      status = text_or row.status "PENDING";
      error = opt_str row.error;
      correlation_id = row.correlation_id;
      target_agent = elim row.target_agent [
        | some t ↦ some t
        | none ↦ nonblank (get "target_agent" payload)
      ];
    }

abbrev payload_of : Option Value → Fields
payload_of (some (obj d)) = d
payload_of _ = end

module _ (show : Value → String) (now : String) where
  -- `str(value)`
  abbrev str_of : Value → String
  str_of (str s) = s
  str_of v = show v

  abbrev timestamp_of : Value → String
  timestamp_of v = elim (nonblank v) [ some s ↦ s | none ↦ now ]

  -- the last part of `coerce`, once the type and the origin are known
  coerce_rest : Fields → Fields → String → String → SubstrateEvent
  coerce_rest raw payload event_type origin_id =
      let event_id = as_int (or_else (get "event_id" raw) (get "id" raw)) in
      record {
        event_type = event_type;
        origin_id = strip origin_id;
        payload = set_event_id event_id payload;
        timestamp = timestamp_of (get "timestamp" raw);
        event_id = event_id;
        justification =
            justification_of (get "justification" raw)
              (get "prime_directive_justification" payload);
        status = str_of (or_else (get "status" raw) (str "PENDING"));
        error = get "error" raw;
        correlation_id = own_or_payload (get "correlation_id" raw) (get "correlation_id" payload);
        target_agent = own_or_payload (get "target_agent" raw) (get "target_agent" payload);
      }

  origin_of : Fields → Fields → Value
  origin_of raw payload =
      or_else (or_else (get "origin_id" raw) (get "origin" raw)) (get "origin_id" payload)

  unfoldable pub coerce_mapping : Fields → Result SubstrateEvent
  unfolding coerce_rest origin_of
  coerce_mapping raw =
      let payload = payload_of (get? "payload" raw) in
      let event_type = str_of (or_else (get "type" raw) (str "")) in
      if event_type == ""
      then raised (value_error "Event must include a non-empty type.")
      else elim (nonblank (origin_of raw payload)) [
        | none ↦ raised (value_error "Event must include a non-empty origin_id.")
        | some origin_id ↦ ok (coerce_rest raw payload event_type origin_id)
      ]

  unfoldable pub coerce : RawEvent → Result SubstrateEvent
  unfolding coerce_mapping
  coerce (is_event e) =
      ok (record e { timestamp = text_or e.timestamp now; status = text_or e.status "PENDING" })
  coerce (has_to_dict d) = coerce_mapping d
  coerce (is_mapping d) = coerce_mapping d
  coerce unsupported = raised (type_error "Unsupported event type for coercion")

pub data ToolActionType : Type 0 where
  run_cmd write_file read_file git_commit git_diff open_pr : ToolActionType

-- the enumeration's values
abbrev pub value_of : ToolActionType → String
value_of run_cmd = "RUN_CMD"
value_of write_file = "WRITE_FILE"
value_of read_file = "READ_FILE"
value_of git_commit = "GIT_COMMIT"
value_of git_diff = "GIT_DIFF"
value_of open_pr = "OPEN_PR"

pub record ToolRequest : Type 0 where
  pub agent_id : String
  pub action_type : ToolActionType
  pub working_dir : String
  pub payload : Fields
  pub authorized_by : Option String
  pub correlation_id : Option String

pub record ToolResult : Type 0 where
  pub allowed : Bool
  pub action_type : ToolActionType
  pub agent_id : String
  pub working_dir : String
  pub stdout : String
  pub stderr : String
  pub return_code : Option ℤ
  pub error : Option String
  pub reason : Option String
  pub audit_event_id : Option ℕ
  pub correlation_id : Option String
