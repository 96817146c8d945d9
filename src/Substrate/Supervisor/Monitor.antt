-- ===== src/Substrate/Supervisor/Monitor.antt =====
-- `_heartbeat_missing`, `_monitor_workers`, `start` and `stop`.
use app_shak_hq.Prelude.{
  Bool, List, Option, String, [], false, if◌then◌else◌, is_none, is_some, keep_if, ltb, map, none,
  some, true, ℕ, ◌-◌, ◌||◌, ◌∷◌,
}
use app_shak_hq.Python.Value.{Fields, arr, arr_of, end, field, int, pos, str, ℤ}
use app_shak_hq.Substrate.MailStore.Tables.{Heartbeat}
use app_shak_hq.Substrate.MailStore.Keys.{get_worker_heartbeat}
use app_shak_hq.Substrate.Supervisor.State.{
  Action, Env, Settings, Supervisor, WorkerState, contains, get_state, lookup, modify, normalized,
  number_or_zero, pure, remove, ◌>>=◌, ◌>>◌,
}
use app_shak_hq.Substrate.Supervisor.Control.{
  ControlEvent, publish_control_event, record_worker_event,
}
use app_shak_hq.Substrate.Supervisor.Restart.{schedule_restart_or_disable, spawn_worker}
use app_shak_hq.Python.Exec.{ok}
use app_shak_hq.Substrate.Types.{opt_int}

-- A heartbeat whose time cannot be read counts as missing.
abbrev is_stale : Env → ℕ → Option ℕ → Bool
is_stale env timeout none = true
is_stale env timeout (some ts) = ltb timeout (env.wall - ts)

abbrev heartbeat_of : Env → ℕ → WorkerState → Option Heartbeat → Bool
heartbeat_of env timeout worker none = ltb timeout (env.monotonic - worker.started_monotonic)
heartbeat_of env timeout worker (some hb) = is_stale env timeout (env.parse_time hb.ts)

unfoldable pub heartbeat_missing : Env → WorkerState → Supervisor → Bool
heartbeat_missing env worker s =
    heartbeat_of env s.settings.heartbeat_timeout worker
      (get_worker_heartbeat worker.agent_id s.store)

unfoldable pub forget_worker : String → Action (Unit {0})
forget_worker agent = modify λ s. record s { workers = remove agent s.workers }

exit_details : Option ℤ → String → Fields
exit_details code reason = field "exit_code" (opt_int code) (field "reason" (str reason) end)

module _ (env : Env) where
  -- the process has ended
  unfoldable pub exited : String → ℤ → Action (Unit {0})
  unfolding forget_worker exit_details
  exited agent code = do
    forget_worker agent
    record_worker_event env "WORKER_EXITED" agent (exit_details (some code) "process_exit")
    schedule_restart_or_disable env agent "process_exit" (field "exit_code" (int code) end)

  -- the process is killed, since its heartbeat is missing
  unfoldable pub missed : String → WorkerState → Action (Unit {0})
  unfolding forget_worker exit_details
  missed agent worker =
      let code = env.code_after_kill worker.pid in
      do
        record_worker_event env "WORKER_HEARTBEAT_MISSED" agent
            (field "pid" (int (pos worker.pid)) (field "consumer_id" (str worker.consumer_id) end))
        forget_worker agent
        record_worker_event env "WORKER_EXITED" agent (exit_details code "heartbeat_missed")
        schedule_restart_or_disable env agent "heartbeat_missed"
            (field "exit_code" (opt_int code) end)

  -- by what the process's handle says: its exit code, or that it runs
  unfoldable pub check_polled : String → WorkerState → Option ℤ → Action (Unit {0})
  unfolding exited missed
  check_polled agent worker (some code) s = exited agent code s
  check_polled agent worker none s =
      if heartbeat_missing env worker s then missed agent worker s else (ok tt, s)

  unfoldable pub check_worker : String → WorkerState → Action (Unit {0})
  unfolding check_polled
  check_worker agent worker s = check_polled agent worker (env.poll worker.pid) s

  unfoldable pub check_workers : List (String × WorkerState) → Action (Unit {0})
  unfolding check_worker
  check_workers [] = pure tt
  check_workers ((agent, worker) ∷ rest) = do check_worker agent worker; check_workers rest

  unfoldable pub unschedule : String → Action (Unit {0})
  unschedule agent = modify λ s. record s { scheduled_restarts = remove agent s.scheduled_restarts }

  unfoldable pub check_restart : String → ℕ → Action (Unit {0})
  unfolding unschedule
  check_restart agent restart_at s =
      if s.stop_requested || contains agent s.disabled_workers
      then unschedule agent s
      else if ltb env.monotonic restart_at
      then (ok tt, s)
      else (do spawn_worker env agent true; unschedule agent) s

  unfoldable pub check_restarts : List (String × ℕ) → Action (Unit {0})
  unfolding check_restart
  check_restarts [] = pure tt
  check_restarts ((agent, restart_at) ∷ rest) = do
    check_restart agent restart_at
    check_restarts rest

  unfoldable pub restarts_pass : Action (Unit {0})
  unfolding check_restarts
  restarts_pass s = check_restarts s.scheduled_restarts s

  unfoldable pub monitor_workers : Action (Unit {0})
  unfolding check_workers restarts_pass
  monitor_workers s = (do check_workers s.workers; restarts_pass) s

  unfoldable pub spawn_if_missing : String → Action (Unit {0})
  spawn_if_missing agent s =
      if contains agent s.disabled_workers || is_some (lookup agent s.workers)
      then (ok tt, s)
      else spawn_worker env agent false s

  unfoldable pub spawn_missing : List String → Action (Unit {0})
  unfolding spawn_if_missing
  spawn_missing [] = pure tt
  spawn_missing (agent ∷ agents) = do spawn_if_missing agent; spawn_missing agents

  start_event : Settings → String → ControlEvent
  start_event cfg db_path = record {
    event_type = "SUPERVISOR_START";
    agent_id = none;
    payload =
        field "agents" (arr (arr_of (map str cfg.agent_ids))) (field "db_path" (str db_path) end);
    correlation_id = none;
    dedupe_key = some "supervisor_start";
    dedupe_ttl = 1000000;
  }

  unfoldable pub start : String → Action (Unit {0})
  unfolding spawn_missing start_event
  start db_path = do
    modify λ s. record s { stop_requested = false }
    s ← get_state
    _ ← publish_control_event env (start_event s.settings db_path)
    spawn_missing s.settings.agent_ids

  -- the exit code that is reported: the process's own, or that after the termination
  unfoldable pub stop_worker : String → WorkerState → Action (Unit {0})
  unfolding forget_worker exit_details
  stop_worker agent worker =
      let code : Option ℤ = elim (env.poll worker.pid) [
        | some c ↦ some c
        | none ↦ env.code_after_kill worker.pid
      ] in
      do
        forget_worker agent
        record_worker_event env "WORKER_EXITED" agent (exit_details code "stop")

  unfoldable pub stop_workers : List (String × WorkerState) → Action (Unit {0})
  unfolding stop_worker
  stop_workers [] = pure tt
  stop_workers ((agent, worker) ∷ rest) = do stop_worker agent worker; stop_workers rest

  stop_event : ControlEvent
  stop_event = record {
    event_type = "SUPERVISOR_STOP";
    agent_id = none;
    payload = end;
    correlation_id = none;
    dedupe_key = some "supervisor_stop";
    dedupe_ttl = 1000000;
  }

  unfoldable pub stop : Action (Unit {0})
  unfolding stop_workers stop_event
  stop s =
      if s.stop_requested
      then (ok tt, s)
      else (do stop_workers s.workers; _ ← publish_control_event env stop_event; pure tt)
          (record s { stop_requested = true })

-- `worker_pids`: the workers whose process runs
unfoldable pub worker_pids : Env → Supervisor → List (String × ℕ)
worker_pids env s = map (λ e. (e.0, e.1.pid)) (keep_if (λ e. is_none (env.poll e.1.pid)) s.workers)

unfoldable pub restart_count : String → Supervisor → ℕ
restart_count agent_id s = number_or_zero (lookup (normalized agent_id) s.restart_counts)

unfoldable pub is_worker_disabled : String → Supervisor → Bool
is_worker_disabled agent_id s = contains (normalized agent_id) s.disabled_workers
