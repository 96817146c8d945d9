-- ===== src/Substrate/Supervisor/Pass.antt =====
-- What a pass of the monitor keeps: a predicate that every change to the decisions on restarts
-- keeps.
use app_shak_hq.Prelude.{
  Bool, List, Option, String, [], false, length, ltb, none, not, refl, some, true, ℕ, ◌+◌, ◌||◌,
  ◌∷◌, ◌≡◌,
}
use app_shak_hq.Python.Exec.{Result, ok, raised}
use app_shak_hq.Python.Value.{Fields, ℤ}
use app_shak_hq.Substrate.Supervisor.State.{
  Action, Env, Supervisor, WorkerState, contains, insert, lookup, normalized, number_or_zero,
  remove, stamps_or_none,
}
use app_shak_hq.Substrate.Supervisor.Restart.{
  disable, exceeds_limits, new_worker, note_failure, restart_delay, schedule, schedule_after,
  schedule_restart_or_disable, spawn_worker, worktree_of,
}
use app_shak_hq.Substrate.Supervisor.Monitor.{
  check_polled, check_restart, check_restarts, check_worker, check_workers, exited, forget_worker,
  heartbeat_missing, missed, monitor_workers, restarts_pass, unschedule,
}
use app_shak_hq.Substrate.Supervisor.Keeps.{
  Keeps, Keeps-bind, Keeps-pure, KeepsLive, if-holds, live, publish_control_event-KeepsLive,
  record_worker_event-KeepsLive,
}

-- what a predicate owes to each change that the supervisor makes to its decisions on restarts
pub record Rules (P : Supervisor → Type 0) : Type 0 where
  pub same : (s s' : Supervisor) → live s' ≡ live s → P s → P s'
  pub disabled :
      (agent : String) (now : ℕ) (s : Supervisor)
      → P s
      → P (disable agent (note_failure agent now s))
  pub scheduled :
      (agent : String) (now restart_at : ℕ) (s : Supervisor)
      → exceeds_limits s.settings
          (length (stamps_or_none (lookup agent (note_failure agent now s).restart_history)))
          (number_or_zero (lookup agent (note_failure agent now s).restart_counts))
        ≡ false
      → P s
      → P (schedule agent restart_at (note_failure agent now s))
  pub spawned :
      (agent : String) (worker : WorkerState) (s : Supervisor)
      → contains agent s.disabled_workers ≡ false
      → P s
      → P (record s { workers = insert agent worker s.workers })
  pub forgotten :
      (agent : String) (s : Supervisor) → P s → P (record s { workers = remove agent s.workers })
  -- the failure is noted, and the computation of the delay raises
  pub noted :
      (agent : String) (now : ℕ) (s : Supervisor)
      → exceeds_limits s.settings
          (length (stamps_or_none (lookup agent (note_failure agent now s).restart_history)))
          (number_or_zero (lookup agent (note_failure agent now s).restart_counts))
        ≡ false
      → P s
      → P (note_failure agent now s)
  pub unscheduled :
      (agent : String) (s : Supervisor)
      → P s
      → P (record s { scheduled_restarts = remove agent s.scheduled_restarts })
  pub requested : (asked : Bool) (s : Supervisor) → P s → P (record s { stop_requested = asked })

module _ (env : Env) {P : Supervisor → Type 0} (rules : Rules P) where
  pub by_live : {A : Type 0} {m : Action A} → KeepsLive m → Keeps P m
  by_live {A} {m} k = record { at = λ s h. rules.same s (m s).1 ((k (live s)).at s refl) h }

  schedule_after-holds :
      (agent reason : String) (n : ℕ) (details : Fields) (s : Supervisor) (delay : Result ℕ)
      → P s
      → ((d : ℕ) → P (schedule agent (env.monotonic + d) s))
      → P (schedule_after env delay agent reason n details s).1
  unfolding schedule_after
  schedule_after-holds agent reason n details s (raised e) h k = h
  schedule_after-holds agent reason n details s (ok d) h k =
      (by_live (record_worker_event-KeepsLive env _ _ _)).at _ (k d)

  schedule_restart-Keeps :
      (agent_id reason : String) (details : Fields)
      → Keeps P (schedule_restart_or_disable env agent_id reason details)
  unfolding schedule_restart_or_disable
  schedule_restart-Keeps agent_id reason details = record {
    at = λ s h.
        let agent = normalized agent_id in
        let noted = note_failure agent env.monotonic s in
        let n = number_or_zero (lookup agent noted.restart_counts) in
        let k = length (stamps_or_none (lookup agent noted.restart_history)) in
        if-holds P s.stop_requested _ _ (λ stopping. h)
          λ running.
            if-holds P (exceeds_limits s.settings k n) _ _
              (λ over.
                (Keeps-bind _ _ (by_live (record_worker_event-KeepsLive env _ _ _)) λ _.
                    Keeps-bind _ _ (by_live (publish_control_event-KeepsLive env _))
                      λ _. Keeps-pure tt).at
                  (disable agent noted) (rules.disabled agent env.monotonic s h))
              λ within.
                schedule_after-holds agent reason n details noted (restart_delay s.settings n)
                  (rules.noted agent env.monotonic s within h)
                  (λ delay. rules.scheduled agent env.monotonic (env.monotonic + delay) s within h);
  }

  pub spawn_worker-Keeps :
      (agent_id : String) (is_restart : Bool) → Keeps P (spawn_worker env agent_id is_restart)
  unfolding spawn_worker
  spawn_worker-Keeps agent_id is_restart = record {
    at = λ s h.
        let agent = normalized agent_id in
        if-holds P (contains agent s.disabled_workers) _ _ (λ disabled. h)
          λ enabled.
            if-holds P (not (env.path_exists (worktree_of env agent s))) _ _ (λ missing. h)
              λ present.
                (by_live (record_worker_event-KeepsLive env _ _ _)).at _ (
                  rules.spawned agent (new_worker env agent (worktree_of env agent s)) s enabled h);
  }

  pub forget_worker-Keeps : (agent : String) → Keeps P (forget_worker agent)
  unfolding forget_worker
  forget_worker-Keeps agent = record { at = λ s h. rules.forgotten agent s h }

  unschedule-Keeps : (agent : String) → Keeps P (unschedule env agent)
  unfolding unschedule
  unschedule-Keeps agent = record { at = λ s h. rules.unscheduled agent s h }

  exited-Keeps : (agent : String) (code : ℤ) → Keeps P (exited env agent code)
  unfolding exited
  exited-Keeps agent code = Keeps-bind _ _ (forget_worker-Keeps agent) λ _.
      Keeps-bind _ _ (by_live (record_worker_event-KeepsLive env _ _ _))
        λ _. schedule_restart-Keeps agent _ _

  missed-Keeps : (agent : String) (worker : WorkerState) → Keeps P (missed env agent worker)
  unfolding missed
  missed-Keeps agent worker =
      Keeps-bind _ _ (by_live (record_worker_event-KeepsLive env _ _ _)) λ _.
        Keeps-bind _ _ (forget_worker-Keeps agent) λ _.
          Keeps-bind _ _ (by_live (record_worker_event-KeepsLive env _ _ _))
            λ _. schedule_restart-Keeps agent _ _

  check_polled-Keeps :
      (agent : String) (worker : WorkerState) (code : Option ℤ)
      → Keeps P (check_polled env agent worker code)
  unfolding check_polled
  check_polled-Keeps agent worker (some code) = record {
    at = λ s h. (exited-Keeps agent code).at s h;
  }
  check_polled-Keeps agent worker none = record {
    at = λ s h.
        if-holds P (heartbeat_missing env worker s) _ _
          (λ stale. (missed-Keeps agent worker).at s h) λ fresh. h;
  }

  check_worker-Keeps :
      (agent : String) (worker : WorkerState) → Keeps P (check_worker env agent worker)
  unfolding check_worker
  check_worker-Keeps agent worker = record {
    at = λ s h. (check_polled-Keeps agent worker (env.poll worker.pid)).at s h;
  }

  check_workers-Keeps : (ws : List (String × WorkerState)) → Keeps P (check_workers env ws)
  unfolding check_workers
  check_workers-Keeps [] = Keeps-pure tt
  check_workers-Keeps ((agent, worker) ∷ ws) =
      Keeps-bind _ _ (check_worker-Keeps agent worker) λ _. check_workers-Keeps ws

  check_restart-Keeps :
      (agent : String) (restart_at : ℕ) → Keeps P (check_restart env agent restart_at)
  unfolding check_restart
  check_restart-Keeps agent restart_at = record {
    at = λ s h.
        if-holds P (s.stop_requested || contains agent s.disabled_workers) _ _
          (λ off. (unschedule-Keeps agent).at s h)
          λ on.
            if-holds P (ltb env.monotonic restart_at) _ _ (λ early. h)
              λ due.
                (Keeps-bind _ _ (spawn_worker-Keeps agent true) λ _. unschedule-Keeps agent).at s h;
  }

  check_restarts-Keeps : (rs : List (String × ℕ)) → Keeps P (check_restarts env rs)
  unfolding check_restarts
  check_restarts-Keeps [] = Keeps-pure tt
  check_restarts-Keeps ((agent, restart_at) ∷ rs) =
      Keeps-bind _ _ (check_restart-Keeps agent restart_at) λ _. check_restarts-Keeps rs

  pub monitor_workers-Keeps : (s : Supervisor) → P s → P (monitor_workers env s).1
  unfolding monitor_workers restarts_pass
  monitor_workers-Keeps s h =
      (Keeps-bind _ _ (check_workers-Keeps s.workers)
          λ _. record { at = λ s' h'. (check_restarts-Keeps s'.scheduled_restarts).at s' h' }).at
        s h
