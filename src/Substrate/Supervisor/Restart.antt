-- ===== src/Substrate/Supervisor/Restart.antt =====
-- `_schedule_restart_or_disable` and `_spawn_worker`.
use app_shak_hq.Prelude.{
  Bool, List, String, [], if◌then◌else◌, keep_if, leb, length, ltb, min, none, not, some, ℕ, ◌*◌,
  ◌++◌, ◌+◌, ◌-◌, ◌/◌, ◌^◌, ◌||◌, ◌∷◌,
}
use app_shak_hq.Python.Text.{concat}
use app_shak_hq.Python.Value.{Fields, Value, end, field, int, obj, pos, str, update}
use app_shak_hq.Substrate.Supervisor.State.{
  Action, Env, Settings, Supervisor, WorkerState, contains, insert, lookup, normalized,
  number_or_zero, pure, raise, remove, stamps_or_none, ◌>>=◌, ◌>>◌,
}
use app_shak_hq.Substrate.Supervisor.Control.{
  ControlEvent, millis_text, publish_control_event, record_worker_event, seconds_text,
}
use app_shak_hq.Python.Exec.{Result, ok, overflow_error, raised, runtime_error}

-- `restart_count` restarts so far; the exponent is `max(0, restart_count - 1)`. The backoff is a float,
-- and Python turns the power into one before it multiplies, which no power from 2 ** 1024 on allows.
unfoldable pub restart_delay : Settings → ℕ → Result ℕ
restart_delay cfg restart_count =
    if ltb (restart_count - 1) 1024
    then ok (min cfg.restart_backoff_cap (cfg.restart_backoff * 2 ^ (restart_count - 1)))
    else raised (overflow_error "int too large to convert to float")

-- the failures that lie within the window, and the present one
unfoldable pub recent_failures : Settings → ℕ → List ℕ → List ℕ
recent_failures cfg now stamps = keep_if (λ t. leb (now - t) cfg.restart_window) stamps ++ now ∷ []

unfoldable pub exceeds_limits : Settings → ℕ → ℕ → Bool
exceeds_limits cfg window_count restart_count =
    ltb cfg.restart_window_limit window_count || ltb cfg.max_restarts restart_count

-- the count and the history of the agent with one more failure
unfoldable pub note_failure : String → ℕ → Supervisor → Supervisor
unfolding recent_failures
note_failure agent now s = record s {
  restart_counts =
      insert agent (number_or_zero (lookup agent s.restart_counts) + 1) s.restart_counts;
  restart_history =
      insert agent
        (recent_failures s.settings now (stamps_or_none (lookup agent s.restart_history)))
        s.restart_history;
}

abbrev nat_value : ℕ → Value
nat_value n = int (pos n)

disabled_details : Settings → String → ℕ → ℕ → Fields → Fields
disabled_details cfg reason restart_count window_count details =
    update
      (field "reason" (str reason) (
        field "restart_count" (nat_value restart_count) (
          field "restart_window_count" (nat_value window_count)
            (field "restart_window_seconds" (nat_value (cfg.restart_window / 1000000)) end))))
      details

alert : Env → String → String → ℕ → ℕ → Fields → ControlEvent
alert env agent reason restart_count window_count details = record {
  event_type = "SUPERVISOR_ALERT";
  agent_id = some "command";
  payload = field "agent_id" (str agent) (
      field "alert" (str "worker_disabled") (
        field "reason" (str reason) (
          field "restart_count" (nat_value restart_count) (
            field "restart_window_count" (nat_value window_count)
              (field "details" (obj details) end)))));
  correlation_id = some (concat "alert:" (concat agent (concat ":" (seconds_text env))));
  dedupe_key = some (concat "alert:" agent);
  dedupe_ttl = 2000000;
}

-- The agent joins the disabled ones, and its restart is off.
unfoldable pub disable : String → Supervisor → Supervisor
disable agent s = record s {
  disabled_workers =
      if contains agent s.disabled_workers then s.disabled_workers else agent ∷ s.disabled_workers;
  scheduled_restarts = remove agent s.scheduled_restarts;
}

unfoldable pub schedule : String → ℕ → Supervisor → Supervisor
schedule agent restart_at s = record s {
  scheduled_restarts = insert agent restart_at s.scheduled_restarts;
}

module _ (env : Env) where
  -- with the delay, or what its computation raises
  unfoldable pub schedule_after : Result ℕ → String → String → ℕ → Fields → Action (Unit {0})
  schedule_after (raised e) agent reason restart_count details s = (raised e, s)
  schedule_after (ok delay) agent reason restart_count details s =
      record_worker_event env "WORKER_RESTART_SCHEDULED" agent
        (update
          (field "reason" (str reason) (
            field "restart_count" (nat_value restart_count)
              (field "restart_in_seconds" (nat_value (delay / 1000000)) end)))
          details)
        (schedule agent (env.monotonic + delay) s)

  unfoldable pub schedule_restart_or_disable : String → String → Fields → Action (Unit {0})
  unfolding disabled_details alert schedule_after
  schedule_restart_or_disable agent_id reason details s =
      if s.stop_requested
      then (ok tt, s)
      else (let agent = normalized agent_id in
          let now = env.monotonic in
          let noted = note_failure agent now s in
          let restart_count = number_or_zero (lookup agent noted.restart_counts) in
          let window_count = length (stamps_or_none (lookup agent noted.restart_history)) in
          if exceeds_limits s.settings window_count restart_count
          then (do
            record_worker_event env "WORKER_DISABLED" agent
                (disabled_details s.settings reason restart_count window_count details)
            _ ←
                publish_control_event env
                  (alert env agent reason restart_count window_count details)
            pure tt)
              (disable agent noted)
          else schedule_after (restart_delay s.settings restart_count) agent reason restart_count
              details noted)

  abbrev pub worktree_of : String → Supervisor → String
  worktree_of agent s = elim (lookup agent s.settings.workspace_roots) [
    | none ↦ env.current_dir
    | some w ↦ w
  ]

  pub new_worker : String → String → WorkerState
  new_worker agent worktree = record {
    agent_id = agent;
    pid = env.next_pid agent;
    consumer_id = concat "worker:" (concat agent (concat ":" (millis_text env)));
    worktree = worktree;
    started_monotonic = env.monotonic;
  }

  -- The event's details also hold the command line and the log's path, which are not modelled.
  unfoldable pub spawn_worker : String → Bool → Action (Unit {0})
  unfolding new_worker
  spawn_worker agent_id is_restart s =
      let agent = normalized agent_id in
      let worktree = worktree_of agent s in
      let worker = new_worker agent worktree in
      if contains agent s.disabled_workers
      then (ok tt, s)
      else if not (env.path_exists worktree)
      then raise (runtime_error "Missing worktree path") s
      else record_worker_event env (if is_restart then "WORKER_RESTARTED" else "WORKER_STARTED")
          agent
          (field "pid" (nat_value worker.pid)
            (field "consumer_id" (str worker.consumer_id) (field "worktree" (str worktree) end)))
          (record s { workers = insert agent worker s.workers })
