-- ===== src/Substrate/Runtime.antt =====
-- appshak_substrate/agent_runtime.py: how a worker handles the events that it claims.
-- The log file is a list of the records written to it. A `reply_to` that is no text goes to SQLite as
-- it is, which keeps it as a text or raises; the payload keeps the value itself.
pub mod Acts
use app_shak_hq.Prelude.{
  Bool, List, Option, String, [], false, if◌then◌else◌, nat_eq, none, not, some, string_eq, ℕ, ◌&&◌,
  ◌++◌, ◌==◌, ◌∷◌,
}
use app_shak_hq.Python.Text.{concat, filled}
use app_shak_hq.Python.Value.{
  Fields, Value, bool, end, field, get, get?, int, nonblank, null, obj, opt_str, or_else, pos,
  setdefault, str, truthy,
}
use app_shak_hq.Python.Exec.{Result, ok, raised, runtime_error, ◌>>=◌, ◌>>◌}
use app_shak_hq.Substrate.Types.{
  SubstrateEvent, ToolResult, is_event, opt_int, text_or, value_of, write_file,
}
use app_shak_hq.Substrate.MailStore.Tables.{Store}
use app_shak_hq.Substrate.MailStore.Events.{append_event}
use app_shak_hq.Substrate.Policy.{Host}
use app_shak_hq.Substrate.Gateway.Request.{is_dict}
use app_shak_hq.Substrate.Gateway.Execute.{System}
use app_shak_hq.Substrate.Gateway.Handle.{ToolGateway, execute}

-- `logs` says whether there is a runtime_log_path
pub record AgentRuntime : Type 0 where
  pub agent_id : String
  pub tool_gateway : Option ToolGateway
  pub logs : Bool

-- what the runtime works on: the mail store, the world outside, and the log
pub record Surroundings (W : Type 0) : Type 0 where
  pub store : Store
  pub world : W
  pub journal : List Fields

-- the event names another agent as its target
unfoldable pub is_for_other : AgentRuntime → SubstrateEvent → Bool
is_for_other runtime e = elim (filled e.target_agent) [
  | none ↦ false
  | some target ↦ not (target == runtime.agent_id)
]

abbrev pub outcome_of : String → SubstrateEvent → Fields → Fields
outcome_of status e more = field "status" (str status) (field "event_id" (opt_int e.event_id) more)

unfoldable pub log_runtime : {W : Type 0} → AgentRuntime → Fields → Surroundings W → Surroundings W
log_runtime runtime entry now =
    if runtime.logs then record now { journal = now.journal ++ entry ∷ [] } else now

abbrev pub opt_nat : Option ℕ → Value
opt_nat none = null
opt_nat (some n) = int (pos n)

-- the request of a TOOL_REQUEST event, with what it leaves open filled in
unfoldable pub request_data : AgentRuntime → SubstrateEvent → Fields → Fields
request_data runtime e raw =
    let named = setdefault "agent_id" (str runtime.agent_id) raw in
    let placed =
      setdefault "working_dir" (or_else (get "working_dir" e.payload) (get "working_dir" named))
        named in
    setdefault "correlation_id" (opt_str e.correlation_id)
      (setdefault "authorized_by" (get "authorized_by" e.payload) placed)

-- `request_data.get("payload", {}).get("idempotency_key")`; no dictionary has no `get`
unfoldable pub request_key : Fields → Result Value
request_key req = elim (get? "payload" req) [
  | none ↦ ok null
  | some (obj payload) ↦ ok (get "idempotency_key" payload)
  | some _ ↦ raised (runtime_error "AttributeError")
]

-- `payload.get("reply_to") or "command"`: the text that the column gets, and what the stored payload
-- says of it where it is no text
reply_target : (Value → Result String) → Value → Result (String × Fields)
reply_target bind (str s) = ok (text_or s "command", end)
reply_target bind v =
    if truthy v
    then (do text ← bind v; ok (text, field "target_agent" v end))
    else ok ("command", end)

reply_to :
    String → AgentRuntime → SubstrateEvent → Value → ToolResult → String → Fields → SubstrateEvent
reply_to now runtime e key t target more = record {
  event_type = "TOOL_RESULT";
  origin_id = runtime.agent_id;
  payload = field "source_event_id" (opt_int e.event_id) (
      field "allowed" (bool t.allowed) (
        field "reason" (opt_str t.reason) (
          field "return_code" (opt_int t.return_code) (
            field "stdout" (str t.stdout) (
              field "stderr" (str t.stderr) (
                field "audit_event_id" (opt_nat t.audit_event_id)
                  (field "idempotency_key" key more)))))));
  timestamp = now;
  event_id = none;
  justification = none;
  status = "PENDING";
  error = null;
  correlation_id = e.correlation_id;
  target_agent = some target;
}

-- the TOOL_RESULT event that answers a request
unfoldable pub reply :
    (Value → Result String)
    → String
    → AgentRuntime
    → SubstrateEvent
    → Value
    → ToolResult
    → Result SubstrateEvent
unfolding reply_target reply_to
reply bind now runtime e key t = do
  (target, more) ← reply_target bind (get "reply_to" e.payload)
  ok (reply_to now runtime e key t target more)

-- the part of an outcome that says what the gateway decided
abbrev pub decision_fields : ToolResult → Fields
decision_fields t =
    field "allowed" (bool t.allowed)
      (field "reason" (opt_str t.reason) (field "audit_event_id" (opt_nat t.audit_event_id) end))

-- `FORGE_PROPOSE_CHANGE` as a write of a file
unfoldable pub forge_request : SubstrateEvent → String → Value → Fields
forge_request e workdir key = field "agent_id" (str "forge") (
    field "authorized_by" (get "authorized_by" e.payload) (
      field "action_type" (str (value_of write_file)) (
        field "working_dir" (str workdir) (
          field "correlation_id" (opt_str e.correlation_id) (
            field "payload"
              (obj (
                field "path"
                  (elim (get? "path" e.payload) [ none ↦ str "FORGE_OUTPUT.txt" | some v ↦ v ])
                  (field "content" (elim (get? "content" e.payload) [ none ↦ str "" | some v ↦ v ])
                    (field "idempotency_key" key end))))
              end)))))

module _ {W : Type 0} (sys : System W) (host : Host) (now : String) where
  -- after the gateway: the reply is sent, and the outcome returned
  unfoldable pub send_reply :
      AgentRuntime
      → SubstrateEvent
      → ToolResult
      → Result Value
      → Surroundings W
      → Result Fields × Surroundings W
  unfolding reply
  send_reply runtime e t (raised err) st = (raised err, st)
  send_reply runtime e t (ok key) st =
      elim (reply sys.bind_text now runtime e key t >>= λ answer.
      append_event sys.show now (is_event answer) st.store) [
        | raised err ↦ (raised err, st)
        | ok (id, store) ↦ (
          ok (outcome_of "tool_request_handled" e (decision_fields t)),
          record st { store = store },
        )
      ]

  unfoldable pub after_request :
      AgentRuntime
      → SubstrateEvent
      → Fields
      → Result ToolResult
      → Surroundings W
      → Result Fields × Surroundings W
  after_request runtime e req (raised err) st = (raised err, st)
  after_request runtime e req (ok t) st = send_reply runtime e t (request_key req) st

  -- with a gateway: the payload's `request` must be a dictionary
  unfoldable pub handle_raw_request :
      AgentRuntime
      → SubstrateEvent
      → ToolGateway
      → Value
      → Surroundings W
      → Result Fields × Surroundings W
  handle_raw_request runtime e g (obj raw) st =
      let req = request_data runtime e raw in
      let (t, store, world) = execute sys host now g (is_dict req) st.store st.world in
      after_request runtime e req t (record st { store = store; world = world })
  handle_raw_request runtime e g _ st = (ok (outcome_of "invalid_request_payload" e end), st)

  unfoldable pub handle_tool_request :
      AgentRuntime → SubstrateEvent → Surroundings W → Result Fields × Surroundings W
  handle_tool_request runtime e st = elim runtime.tool_gateway [
    | none ↦ (ok (outcome_of "tool_gateway_missing" e end), st)
    | some g ↦ handle_raw_request runtime e g (get "request" e.payload) st
  ]

  unfoldable pub after_change :
      SubstrateEvent → Result ToolResult → Surroundings W → Result Fields × Surroundings W
  after_change e (raised err) st = (raised err, st)
  after_change e (ok t) st = (
    ok (
        outcome_of (if t.allowed then "forge_change_applied" else "forge_change_denied") e
          (decision_fields t)),
    st,
  )

  -- the key of the request, or one made of the event's id
  abbrev pub change_key : SubstrateEvent → Value
  change_key e = elim (nonblank (get "idempotency_key" e.payload)) [
    | some key ↦ str key
    | none ↦ str (concat "forge-propose-" (sys.show (opt_int e.event_id)))
  ]

  unfoldable pub handle_forge_change :
      AgentRuntime → SubstrateEvent → Surroundings W → Result Fields × Surroundings W
  handle_forge_change runtime e st = elim runtime.tool_gateway [
    | none ↦ (ok (outcome_of "tool_gateway_missing" e end), st)
    | some g ↦ elim (nonblank (get "working_dir" e.payload)) [
      | none ↦ (ok (outcome_of "missing_working_dir" e end), st)
      | some workdir ↦
          let (t, store, world) =
            execute sys host now g (is_dict (forge_request e workdir (change_key e))) st.store
              st.world in
          after_change e t (record st { store = store; world = world })
    ]
  ]

  -- an outcome is logged with its event and returned; an exception is not logged
  unfoldable pub logged :
      AgentRuntime
      → SubstrateEvent
      → Result Fields × Surroundings W
      → Result Fields × Surroundings W
  logged runtime e (raised err, st) = (raised err, st)
  logged runtime e (ok result, st) = (
    ok result,
    log_runtime runtime
        (field "agent_id" (str runtime.agent_id) (
          field "event_id" (opt_int e.event_id)
            (field "event_type" (str e.event_type) (field "result" (obj result) end))))
        st,
  )

  unfoldable pub handle_event :
      AgentRuntime → SubstrateEvent → Surroundings W → Result Fields × Surroundings W
  handle_event runtime e st =
      if is_for_other runtime e
      then (
        ok (
            field "status" (str "skipped") (
              field "reason" (str "target_agent mismatch")
                (field "event_id" (opt_int e.event_id) end))),
        st,
      )
      else if e.event_type == "SUPERVISOR_HEARTBEAT"
      then (ok (outcome_of "heartbeat_seen" e end), st)
      else if e.event_type == "TOOL_REQUEST"
      then logged runtime e (handle_tool_request runtime e st)
      else if runtime.agent_id == "forge" && e.event_type == "FORGE_PROPOSE_CHANGE"
      then logged runtime e (handle_forge_change runtime e st)
      else (let result =
            outcome_of "processed" e (
              field "event_type" (str e.event_type)
                (field "agent_id" (str runtime.agent_id) end)) in
          (ok result, log_runtime runtime result st))
