-- ===== src/Substrate/Gateway/Handle.antt =====
-- `_deny` and `execute`: the checks in their order, the reservation of the idempotency key, the
-- execution, and the audit row of every outcome.
pub mod Cases
pub mod Audited
pub mod AtMostOnce
use app_shak_hq.Prelude.{
  Bool, List, Option, String, [], false, if◌then◌else◌, nat_eq, none, not, some, string_eq, true, ℕ,
  ◌==◌, ◌∷◌,
}
use app_shak_hq.Python.Text.{concat, strip}
use app_shak_hq.Python.Value.{
  Fields, end, field, get, int, nonblank, null, obj, opt_str, pos, str, truthy,
}
use app_shak_hq.Python.Exec.{Result, ok, raised, ◌>>=◌, ◌>>◌}
use app_shak_hq.Substrate.Types.{
  ToolActionType, ToolRequest, ToolResult, open_pr, opt_int, value_of,
}
use app_shak_hq.Substrate.MailStore.Tables.{KeyRow, Store}
use app_shak_hq.Substrate.MailStore.Keys.{
  get_idempotency_record, reserve_idempotency_key, set_idempotency_result,
}
use app_shak_hq.Substrate.MailStore.Audit.{AuditEntry, append_tool_audit}
use app_shak_hq.Substrate.Policy.{Host, PolicyDecision, ToolPolicy, validate}
use app_shak_hq.Substrate.Gateway.Request.{RawRequest, coerce_request}
use app_shak_hq.Substrate.Gateway.Execute.{System, execute_allowed}

-- `workspace_roots` holds resolved paths
pub record ToolGateway : Type 0 where
  pub policy : ToolPolicy
  pub workspace_roots : List (String × List String)

resolved_roots : Host → List (String × String) → Result (List (String × List String))
resolved_roots host [] = ok []
resolved_roots host ((agent, text) ∷ rest) = do
  root ← host.resolve text
  roots ← resolved_roots host rest
  ok ((agent, root) ∷ roots)

-- `set_workspace_roots`: the roots by agent, resolved
pub set_workspace_roots : Host → List (String × String) → ToolGateway → Result ToolGateway
set_workspace_roots host roots g = do
  resolved ← resolved_roots host roots
  ok (record g { workspace_roots = resolved })

unfoldable pub root_of : String → List (String × List String) → Option (List String)
root_of agent [] = none
root_of agent ((a, root) ∷ rest) = if a == agent then some root else root_of agent rest

unfoldable pub audit_entry :
    ToolRequest → Option String → Bool → Option String → Fields → Option Fields → AuditEntry
audit_entry r key allowed reason payload result = record {
  agent_id = r.agent_id;
  action_type = value_of r.action_type;
  working_dir = r.working_dir;
  idempotency_key = key;
  allowed = allowed;
  reason = reason;
  payload = payload;
  result = result;
  correlation_id = r.correlation_id;
}

unfoldable pub refused : ToolRequest → String → String → ℕ → ToolResult
refused r error reason audit_id = record {
  allowed = false;
  action_type = r.action_type;
  agent_id = r.agent_id;
  working_dir = r.working_dir;
  stdout = "";
  stderr = "";
  return_code = none;
  error = some error;
  reason = some reason;
  audit_event_id = some audit_id;
  correlation_id = r.correlation_id;
}

unfoldable pub deny :
    ToolRequest
    → String
    → Fields
    → Option String
    → Option Fields
    → String
    → Store
    → ToolResult × Store
unfolding audit_entry refused
deny r reason payload key result now s =
    let (id, s') = append_tool_audit (audit_entry r key false (some reason) payload result) now s in
    (refused r reason reason id, s')

-- the record of the first use of the key, as the audit row of a duplicate shows it
duplicate_of : KeyRow → Fields
duplicate_of k =
    field "duplicate_of"
      (obj (
        field "idempotency_key" (str k.idempotency_key) (
          field "created_ts" (str k.created_ts) (
            field "agent_id" (str k.agent_id) (
              field "action_type" (str k.action_type) (
                field "event_id" (elim k.event_id [ none ↦ null | some n ↦ int (pos n) ])
                  (field "result" (elim k.result [ none ↦ null | some d ↦ obj d ]) end)))))))
      end

unfoldable pub result_payload : ToolResult → Fields
result_payload t = field "stdout" (str t.stdout) (
    field "stderr" (str t.stderr)
      (field "return_code" (opt_int t.return_code) (field "error" (opt_str t.error) end)))

-- `if not allow_duplicate: set_idempotency_result(...)`
abbrev note_result : Bool → String → Fields → Store → Store
note_result true key result s = s
note_result false key result s = set_idempotency_result key result s

module _ {W : Type 0} (sys : System W) (host : Host) (now : String) where
  -- what follows the execution: the result is noted under the key, and audited
  unfoldable pub finish :
      ToolRequest → String → Bool → Fields → Result ToolResult → Store → ToolResult × Store
  unfolding audit_entry refused result_payload
  finish r key dup payload (ok t) s =
      let result = result_payload t in
      let (id, s') =
        append_tool_audit (audit_entry r (some key) t.allowed t.reason payload (some result)) now
          (note_result dup key result s) in
      (record t { audit_event_id = some id }, s')
  finish r key dup payload (raised e) s =
      let result = field "error" (str (sys.repr_error e)) end in
      let reason = concat "Execution error: " (sys.show_error e) in
      let (id, s') =
        append_tool_audit (audit_entry r (some key) false (some reason) payload (some result)) now
          (note_result dup key result s) in
      (refused r (sys.repr_error e) reason id, s')

  -- the `try` block and its handler
  unfoldable pub perform : ToolRequest → String → Bool → Fields → Store → W → ToolResult × Store × W
  unfolding finish
  perform r key dup payload s w =
      let (outcome, w') = execute_allowed sys r r.action_type payload w in
      let (t, s') = finish r key dup payload outcome s in (t, s', w')

  -- with a reservation of the key: the execution, or the refusal of a race
  perform_once :
      ToolRequest
      → String
      → Fields
      → Result (Bool × Store)
      → Store
      → W
      → Result ToolResult × Store × W
  unfolding perform
  perform_once r key payload (raised e) s w = (raised e, s, w)
  perform_once r key payload (ok (true, s')) s w =
      let (t, s'', w') = perform r key false payload s' w in (ok t, s'', w')
  perform_once r key payload (ok (false, s')) s w =
      let (t, s'') =
        deny r (concat "Duplicate idempotency_key blocked (race): " key) payload (some key) none now
          s' in
      (ok t, s'', w)

  -- the checks of the key, after those of the policy
  keyed : ToolRequest → String → Bool → Fields → Store → W → Result ToolResult × Store × W
  unfolding perform perform_once duplicate_of
  keyed r key true payload s w = let (t, s', w') = perform r key true payload s w in (ok t, s', w')
  keyed r key false payload s w = elim (get_idempotency_record key s) [
    | some k ↦
        let (t, s') =
          deny r (concat "Duplicate idempotency_key blocked: " key) payload (some key)
            (some (duplicate_of k)) now s in
        (ok t, s', w)
    | none ↦
        perform_once r key payload
          (reserve_idempotency_key key r.agent_id (value_of r.action_type) none now s) s w
  ]

  is_open_pr : ToolActionType → Bool
  is_open_pr open_pr = true
  is_open_pr _ = false

  -- the decision of the policy, and then the checks of the key
  decided : ToolRequest → String → PolicyDecision → Store → W → Result ToolResult × Store × W
  unfolding keyed is_open_pr
  decided r key decision s w =
      if not decision.allowed
      then (let (t, s') = deny r decision.reason r.payload (some key) none now s in (ok t, s', w))
      else if is_open_pr r.action_type
      then (let (t, s') =
            deny r "OPEN_PR is intentionally not implemented in substrate baseline."
              decision.normalized_payload (some key) none now s in
          (ok t, s', w))
      else keyed r key (truthy (get "allow_duplicate" r.payload)) decision.normalized_payload s w

  -- An exception of the policy is not caught.
  after_policy :
      ToolRequest → String → Result PolicyDecision → Store → W → Result ToolResult × Store × W
  unfolding decided
  after_policy r key (raised e) s w = (raised e, s, w)
  after_policy r key (ok decision) s w = decided r key decision s w

  unfoldable pub execute_request :
      ToolGateway → ToolRequest → Store → W → Result ToolResult × Store × W
  unfolding decided after_policy
  execute_request g r s w = elim (nonblank (get "idempotency_key" r.payload)) [
    | none ↦
        let (t, s') =
          deny r "Missing required payload.idempotency_key." r.payload none none now s in
        (ok t, s', w)
    | some raw_key ↦ elim (root_of r.agent_id g.workspace_roots) [
      | none ↦
          let (t, s') =
            deny r (concat "No registered workspace root for agent '" (concat r.agent_id "'."))
              r.payload (some (strip raw_key)) none now s in
          (ok t, s', w)
      | some root ↦ after_policy r (strip raw_key) (validate g.policy host r root) s w
    ]
  ]

  unfoldable pub execute : ToolGateway → RawRequest → Store → W → Result ToolResult × Store × W
  unfolding execute_request
  execute g raw s w = elim (coerce_request sys.show raw) [
    | raised e ↦ (raised e, s, w)
    | ok r ↦ execute_request g r s w
  ]
