-- ===== src/Tests/Data.antt =====
-- A mail store with a leased and a pending event, a gateway with one workspace, and a supervisor
-- with one worker.
use app_shak_hq.Prelude.{
  List, String, [], arith, eq_iff, false, nat_eq, none, some, string_eq, true, ℕ, ◌==◌, ◌∷◌, ◌≡◌,
  ◌≢◌,
}
use app_shak_hq.Python.Value.{end, field, negsuc, null, obj, pos, str}
use app_shak_hq.Python.Exec.{ok}
use app_shak_hq.Substrate.Types.{EventRow, SubstrateEvent, ToolRequest, write_file}
use app_shak_hq.Substrate.MailStore.Tables.{Heartbeat, Lease, Store, empty, find_event, find_lease}
use app_shak_hq.Substrate.MailStore.Claim.{Filter}
use app_shak_hq.Substrate.MailStore.Invariant.{IsWellFormed}
use app_shak_hq.Substrate.Policy.{Host}
use app_shak_hq.Substrate.Gateway.Execute.{System}
use app_shak_hq.Substrate.Gateway.Handle.{ToolGateway}
use app_shak_hq.Substrate.Worker.{Happenings}
use app_shak_hq.Substrate.Runtime.{AgentRuntime, Surroundings}
use app_shak_hq.Substrate.Supervisor.State.{Env, Settings, Supervisor, WorkerState}

-- Texts whose comparison computes to false differ.
pub texts_differ : (a b : String) → (a == b) ≡ false → a ≢ b
texts_differ a b h = λ e. ground (arith, eq_iff a b, h, e)

abbrev pub sample_row : ℕ → String → EventRow
sample_row id status = record {
  id = id;
  ts = "2026-02-19T00:00:00+00:00";
  event_type = "TOOL_REQUEST";
  origin_id = "command";
  target_agent = some "forge";
  payload = end;
  justification = none;
  status = status;
  error = none;
  correlation_id = none;
}

abbrev pub held : Lease
held = record { event_id = 1; claimed_by = "worker:a"; claim_ts = 500; lease_expiry = 1000 }

abbrev pub mail : Store
mail = record empty {
  events = sample_row 1 "CLAIMED" ∷ sample_row 2 "PENDING" ∷ sample_row 3 "DONE" ∷ [];
  next_event = 4;
  leases = held ∷ [];
}

abbrev pub for_forge : Filter
for_forge = record { target_agent = some "forge"; include_unrouted = false }

pub mail-IsWellFormed : IsWellFormed mail
unfolding find_lease find_event
mail-IsWellFormed = record {
  rising = ground arith;
  unique = ground arith;
  leased_claimed = λ j l h. ground arith;
}

abbrev pub sample_event : SubstrateEvent
sample_event = record {
  event_type = "TOOL_REQUEST";
  origin_id = "command";
  payload = end;
  timestamp = "2026-02-19T00:00:00+00:00";
  event_id = none;
  justification = some "test";
  status = "PENDING";
  error = null;
  correlation_id = some "c-1";
  target_agent = some "forge";
}

-- commands print what they are, files are a log of the writes
abbrev pub sample_system : System (List String)
sample_system = record {
  run_process =
      λ argv dir w. (ok (record { stdout = dir; stderr = ""; return_code = pos 0 }), dir ∷ w);
  write_text = λ path text w. (ok tt, path ∷ w);
  exists = λ path w. true;
  read_text = λ path w. (ok path, w);
  show = λ v. "value";
  repr_error = λ e. "Error()";
  show_error = λ e. "error";
  bind_text = λ v. ok "value";
}

abbrev pub sample_host : Host
sample_host = record {
  resolve = λ p. ok ("srv" ∷ "forge" ∷ []);
  join = λ root p. ok ("srv" ∷ "forge" ∷ p ∷ []);
  is_directory = λ p. true;
  path_text = λ p. "/srv/forge/out.txt";
  split_command = λ c. some (c ∷ []);
}

abbrev pub forge_root : List String
forge_root = "srv" ∷ "forge" ∷ []

abbrev pub sample_gateway : ToolGateway
sample_gateway = record {
  policy = record { chief_agent_id = "command"; allowed_command_prefixes = ("pytest" ∷ []) ∷ [] };
  workspace_roots = ("forge", forge_root) ∷ [];
}

abbrev pub write_request : String → ToolRequest
write_request key = record {
  agent_id = "forge";
  action_type = write_file;
  working_dir = "/srv/forge";
  payload =
      field "idempotency_key" (str key)
        (field "path" (str "out.txt") (field "content" (str "hello") end));
  authorized_by = some "command";
  correlation_id = none;
}

abbrev pub sample_settings : Settings
sample_settings = record {
  agent_ids = "forge" ∷ [];
  include_unrouted = false;
  heartbeat_interval = 5000000;
  heartbeat_timeout = 8000000;
  max_restarts = 3;
  restart_backoff = 1000000;
  restart_backoff_cap = 60000000;
  restart_window = 300000000;
  restart_window_limit = 10;
  workspace_roots = ("forge", "/srv/forge") ∷ [];
}

abbrev pub forge_worker : WorkerState
forge_worker = record {
  agent_id = "forge";
  pid = 7;
  consumer_id = "worker:forge:1";
  worktree = "/srv/forge";
  started_monotonic = 90000000;
}

abbrev pub forge_heartbeat : Heartbeat
forge_heartbeat = record {
  agent_id = "forge";
  consumer_id = "worker:forge:0";
  pid = 6;
  ts = "early";
}

abbrev pub supervised : Supervisor
supervised = record {
  settings = sample_settings;
  store = record empty { heartbeats = forge_heartbeat ∷ [] };
  workers = ("forge", forge_worker) ∷ [];
  restart_counts = ("forge", 1) ∷ [];
  restart_history = ("forge", 80000000 ∷ []) ∷ [];
  scheduled_restarts = [];
  disabled_workers = [];
  recent_control_keys = [];
  stop_requested = false;
  journal = [];
}

abbrev pub sample_env : Env
sample_env = record {
  monotonic = 91000000;
  wall = 1000000000;
  now_text = "now";
  poll = λ pid. none;
  code_after_kill = λ pid. some (negsuc 8);
  path_exists = λ path. true;
  current_dir = "/srv";
  next_pid = λ agent. 8;
  show = λ v. "value";
  parse_time = λ text. some 900000000;
}

abbrev pub forge_runtime : AgentRuntime
forge_runtime = record { agent_id = "forge"; tool_gateway = some sample_gateway; logs = true }

abbrev pub around : Surroundings (List String)
around = record { store = mail; world = []; journal = [] }

abbrev pub request_event : SubstrateEvent
request_event = record sample_event {
  payload = field "working_dir" (str "/srv/forge") (
      field "authorized_by" (str "command") (
        field "request"
          (obj (
            field "action_type" (str "WRITE_FILE")
              (field "payload" (obj (write_request "k-1").payload) end)))
          end));
}

-- a turn during which nobody else commits
abbrev pub undisturbed : Happenings
undisturbed = record {
  monotonic = 10;
  now_text = "now";
  claim_start = 10;
  claim_turns = [];
  others = λ s. s;
}

-- a turn during which the lease passes to another worker
abbrev pub overtaken : Happenings
overtaken = record undisturbed {
  others = λ s. record s { leases = record held { claimed_by = "worker:b" } ∷ [] };
}

-- an event that the runtime only notes
abbrev pub noted_event : SubstrateEvent
noted_event = record sample_event { event_type = "SUPERVISOR_HEARTBEAT"; event_id = some (pos 1) }
