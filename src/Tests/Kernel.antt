-- ===== src/Tests/Kernel.antt =====
-- The theorems on appshak/ and on the durable bus at concrete inputs.
use app_shak_hq.Prelude.{
  All, List, String, [], arith, false, if◌then◌else◌, keep_if, length, none, refl, some, true, ℕ,
  ◌&&◌, ◌++◌, ◌↔◌, ◌∷◌, ◌≡◌, ◌≤◌,
}
use app_shak_hq.Python.Text.{is_blank, lstrip, rstrip, strip}
use app_shak_hq.Python.Value.{Fields, Value, bool, end, field, get, get?, str, truthy}
use app_shak_hq.Substrate.Types.{is_mapping, unsupported}
use app_shak_hq.Substrate.MailStore.Tables.{empty}
use app_shak_hq.Substrate.MailStore.Claim.{Turn, lease_window}
use app_shak_hq.Substrate.MailStore.Invariant.{empty-IsWellFormed}
use app_shak_hq.Substrate.Bus.{DurableEventBus}
use app_shak_hq.Substrate.Supervisor.State.{lookup}
use app_shak_hq.Substrate.Bus.Fifo.{BusCall, bus_run, fifo_run, put_event, take_event}
use app_shak_hq.Substrate.Bus.Refines.{bus_run-fifo_run, queue_of}
use app_shak_hq.Kernel.Events.{Event, an_event, event_dict, external_action_request, normalize}
use app_shak_hq.Kernel.Safeguards.{
  Library, SafeguardMonitor, action_key, attempt_of, contains_monetary_operation,
  contains_shell_execution, extract_endpoint, get_or, is_false, is_safe_method, method_of,
  record_attempt,
}
use app_shak_hq.Kernel.Safeguards.Gate.{
  IsSafe, allowed_iff, check_request, execute_in_sandbox, is_allowed, sandbox_agrees,
}
use app_shak_hq.Kernel.Safeguards.Cooldown.{cooldown_exact, cooling_report, failures, own_key}
use app_shak_hq.Kernel.State.{AppShakKernel, Outside}
use app_shak_hq.Kernel.Chief.{approves}
use app_shak_hq.Kernel.Route.{process_external_action, route_event}
use app_shak_hq.Kernel.Route.Stages.{stages, stages_in_order, stages_of}
use app_shak_hq.Kernel.Route.Drain.{IsUnanswered, drain, queue_runs_empty}
use app_shak_hq.Kernel.Life.Builder.{builder_request, builder_request_denied}
use app_shak_hq.Kernel.Replay.{replay_events, replay_justification}
use app_shak_hq.Kernel.Replay.Deque.{last_n}
use app_shak_hq.Kernel.Replay.Again.{again, is_wanted_event, replay_publishes_again, replayed_from}
use app_shak_hq.Python.Exec.{ok}

abbrev shown : Value → String
shown v = "{}"

abbrev durable : DurableEventBus
durable = record {
  consumer_id = "kernel";
  target_agent = none;
  include_unrouted = true;
  lease_seconds = 15000000;
  hooks = [];
}

abbrev one_turn : Turn
one_turn = record { others = λ s. s; now = 1; now_text = "t1"; tested = 1; before_sleep = 1 }

abbrev ping : Fields
ping = field "type" (str "PING") (field "origin_id" (str "forge") end)

abbrev calls : List BusCall
calls =
    put_event "t0" (is_mapping ping)
    ∷ put_event "t0" unsupported
    ∷ take_event 0 (some 5) one_turn
    ∷ take_event 0 (some 5) one_turn
    ∷ []

bus_run-fifo_run_example :
    bus_run shown durable 0 calls empty ≡ fifo_run shown calls (queue_of empty)
unfolding lease_window is_blank strip lstrip rstrip
bus_run-fifo_run_example =
    bus_run-fifo_run shown durable 0 2 calls empty refl refl empty-IsWellFormed tt (
      tt,
      (
        tt,
        (((λ s. refl), omega arith, omega arith), (((λ s. refl), omega arith, omega arith), tt)),
      ),
    )

abbrev library : Library
library = record { show = shown; netloc = λ url. some "api.test"; iso = λ t. "later" }

abbrev monitor : SafeguardMonitor
monitor = record {
  retry_max = 3;
  cooldown = 60000000;
  endpoint_whitelist = "api.test" ∷ [];
  allow_real_world_impact = false;
  attempt_state = [];
}

abbrev visit : Fields
visit = field "action" (str "visit") (
    field "endpoint" (str "https://api.test/x")
      (field "prime_directive_justification" (str "it helps") end))

abbrev visit_key : String
visit_key = action_key library visit "forge" (extract_endpoint library visit)

allowed_iff_example :
    (is_allowed (check_request library visit "forge" 5 monitor).0 ≡ true)
    ↔ (((attempt_of monitor visit_key).cooldown_until ≤ 5) × IsSafe library visit monitor)
allowed_iff_example = allowed_iff library visit "forge" 5 monitor

sandbox_agrees_example :
    let success = truthy (get "success" (execute_in_sandbox library visit "forge")) in
    (monitor.allow_real_world_impact ≡ false
      → is_allowed (check_request library visit "forge" 5 monitor).0 ≡ true
      → success ≡ true)
    × (success ≡ true
        → (contains_shell_execution visit ≡ false)
          × (contains_monetary_operation library visit ≡ false)
          × (is_safe_method (method_of library visit) ≡ true)
          × (is_false (get "simulate" visit) ≡ false))
sandbox_agrees_example = sandbox_agrees library visit "forge" 5 monitor

cooldown_exact_example :
    let m' = failures library visit "forge" (7 ∷ 6 ∷ 5 ∷ []) monitor in
    ((attempt_of m' (own_key library visit "forge")).retries ≡ 3)
    × ((check_request library visit "forge" 8 m').0 ≡ cooling_report library visit "forge" 60000007)
unfolding lookup
cooldown_exact_example =
    cooldown_exact library visit "forge" 8 7 (6 ∷ 5 ∷ []) monitor (omega arith) refl

abbrev outside : Outside
outside = record { library = library; repr = λ e. "Error()"; now = 9; now_text = "t9" }

abbrev request : Event
request = record {
  event_type = external_action_request;
  timestamp = "t8";
  origin_id = "forge";
  payload = visit;
}

abbrev kernel : AppShakKernel
kernel = record {
  running = true;
  stop_set = false;
  bus = record { queue = request ∷ []; next_index = 2; hooks = 0 ∷ [] };
  safeguards = monitor;
  memory = record {
    global_log = [];
    error_log = [];
    external_log = [];
    agent_events = [];
    kernel_state = end;
    external_pipeline = end;
  };
  heartbeat_failures = 0;
  agent_tasks = [];
  heartbeat_task = false;
  recovered_state = end;
}

stages_in_order_example :
    let (r, k') = process_external_action outside request kernel in
    let check = check_request library visit "forge" 9 monitor in
    let success = truthy (get "success" (execute_in_sandbox library visit "forge")) in
    (r ≡ ok tt)
    × (stages k' ≡ stages kernel ++ stages_of (approves visit) (is_allowed check.0))
    × (k'.safeguards ≡ (
        if approves visit
        then (record_attempt library visit "forge" 9 (is_allowed check.0 && success) check.1).1
        else monitor))
stages_in_order_example = stages_in_order outside request kernel

queue_runs_empty_example :
    let (r, k') = drain outside 3 kernel in
    (r ≡ ok tt)
    × (k'.bus.queue ≡ [])
    × ((new : List Event) × ((route_event outside request kernel).1.bus.queue
          ≡ kernel.bus.queue ++ new)
        × (length new ≤ 2)
        × All (IsUnanswered outside) new)
queue_runs_empty_example = queue_runs_empty outside kernel request

abbrev plan : Fields
plan = field "target_action" (str "ship") end

builder_request_denied_example :
    (e : Event) × (normalize "t9" 4 (an_event (builder_request outside plan)) ≡ ok e)
    × (e.event_type ≡ external_action_request)
    × (stages (process_external_action outside e kernel).1
        ≡ stages kernel ++ "REQUEST" ∷ "CHIEF_APPROVAL" ∷ "LOG_RESULT" ∷ [])
    × ((process_external_action outside e kernel).1.safeguards ≡ kernel.safeguards)
builder_request_denied_example = builder_request_denied outside plan 4 "t9" kernel

abbrev published_log : List (String × Fields)
published_log = ("ERROR", end) ∷ ("EVENT_PUBLISHED", event_dict request) ∷ []

abbrev logging_kernel : AppShakKernel
logging_kernel = record kernel { memory = record kernel.memory { global_log = published_log } }

replay_publishes_again_example :
    let (r, k') = replay_events outside 200 none "replay" logging_kernel in
    let chosen = last_n 200 (keep_if (is_wanted_event none) (request ∷ [])) in
    (r ≡ ok (length chosen))
    × (k'.bus.queue ≡ request ∷ [] ++ replayed_from outside "replay" 2 chosen)
    × ((index : ℕ) (e : Event)
        → let payload = (again outside "replay" index e).payload in
          (get? "replayed" payload ≡ some (bool true))
          × (get? "prime_directive_justification" payload
              ≡ some (get_or "prime_directive_justification" (str replay_justification) e.payload))
          × (get? "action" payload ≡ get? "action" e.payload))
unfolding is_blank strip lstrip rstrip
replay_publishes_again_example =
    replay_publishes_again outside 200 none "replay" "action" (request ∷ []) logging_kernel refl
      refl refl
