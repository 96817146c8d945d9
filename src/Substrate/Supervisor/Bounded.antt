-- ===== src/Substrate/Supervisor/Bounded.antt =====
-- The limits on restarts and the disabled agents, through a pass of the monitor.
use app_shak_hq.Prelude.{
  Bool-cases, String, arith, eq_iff, false, inl, inr, length, nat_eq, none, refl, string_eq, true,
  ℕ, ◌+◌, ◌==◌, ◌∙◌, ◌≡◌, ◌≤◌,
}
use app_shak_hq.Substrate.Supervisor.State.{
  Env, Supervisor, WorkerState, contains, insert, lookup, lookup-insert, lookup-remove,
  number_or_zero, remove, stamps_or_none,
}
use app_shak_hq.Substrate.Supervisor.Restart.{
  disable, exceeds_limits, note_failure, recent_failures, schedule,
}
use app_shak_hq.Substrate.Supervisor.Monitor.{monitor_workers}
use app_shak_hq.Substrate.Supervisor.Keeps.{live}
use app_shak_hq.Substrate.Supervisor.Pass.{Rules, monitor_workers-Keeps}

-- An agent that is not disabled has failed no more often than the settings allow, neither in all
-- nor within the window.
unfoldable pub IsBounded : Supervisor → Type 0
IsBounded s =
    (agent : String)
    → contains agent s.disabled_workers ≡ false
    → (number_or_zero (lookup agent s.restart_counts) ≤ s.settings.max_restarts)
      × (length (stamps_or_none (lookup agent s.restart_history)) ≤ s.settings.restart_window_limit)

live-IsBounded : (s s' : Supervisor) → live s' ≡ live s → IsBounded s → IsBounded s'
unfolding IsBounded
live-IsBounded s s' same h agent up =
    let e0 : s'.disabled_workers ≡ s.disabled_workers = λ i. (same i).disabled_workers in
    let e1 : s'.restart_counts ≡ s.restart_counts = λ i. (same i).restart_counts in
    let e2 : s'.restart_history ≡ s.restart_history = λ i. (same i).restart_history in
    let e3 : s'.settings ≡ s.settings = λ i. (same i).settings in
    let (c, w) = h agent (rw e0 at up) in (rw (e1, e3) c, rw (e2, e3) w)

module _ (agent : String) (now : ℕ) (s : Supervisor) where
  others_count :
      (a : String)
      → (agent == a) ≡ false
      → lookup a (note_failure agent now s).restart_counts ≡ lookup a s.restart_counts
  unfolding note_failure
  others_count a other =
      lookup-insert agent a (number_or_zero (lookup agent s.restart_counts) + 1) s.restart_counts
      ∙ rw other refl

  others_history :
      (a : String)
      → (agent == a) ≡ false
      → lookup a (note_failure agent now s).restart_history ≡ lookup a s.restart_history
  unfolding note_failure
  others_history a other =
      lookup-insert agent a
        (recent_failures s.settings now (stamps_or_none (lookup agent s.restart_history)))
        s.restart_history
      ∙ rw other refl

  -- what a state must keep for the others, when the failure of the agent has been noted
  bounded_others :
      IsBounded s
      → (a : String) → (agent == a) ≡ false
      → contains a s.disabled_workers ≡ false
      → (number_or_zero (lookup a (note_failure agent now s).restart_counts)
          ≤ s.settings.max_restarts)
        × (length (stamps_or_none (lookup a (note_failure agent now s).restart_history))
            ≤ s.settings.restart_window_limit)
  unfolding IsBounded
  bounded_others h a other up =
      let (c, w) = h a up in (rw (others_count a other) c, rw (others_history a other) w)

  disable_others :
      (a : String)
      → contains a (disable agent (note_failure agent now s)).disabled_workers ≡ false
      → ((agent == a) ≡ false) × (contains a s.disabled_workers ≡ false)
  unfolding disable note_failure contains
  disable_others a up =
      ground
        (arith, eq_iff agent a, contains agent s.disabled_workers, contains a s.disabled_workers)

  disable-IsBounded : IsBounded s → IsBounded (disable agent (note_failure agent now s))
  unfolding IsBounded disable note_failure
  disable-IsBounded h a up = let (other, up') = disable_others a up in bounded_others h a other up'

  agent_within :
      exceeds_limits s.settings
          (length (stamps_or_none (lookup agent (note_failure agent now s).restart_history)))
          (number_or_zero (lookup agent (note_failure agent now s).restart_counts))
        ≡ false
      → (number_or_zero (lookup agent (note_failure agent now s).restart_counts)
          ≤ s.settings.max_restarts)
        × (length (stamps_or_none (lookup agent (note_failure agent now s).restart_history))
            ≤ s.settings.restart_window_limit)
  unfolding exceeds_limits
  agent_within within = ground arith

  schedule-IsBounded :
      (at : ℕ)
      → exceeds_limits s.settings
          (length (stamps_or_none (lookup agent (note_failure agent now s).restart_history)))
          (number_or_zero (lookup agent (note_failure agent now s).restart_counts))
        ≡ false
      → IsBounded s
      → IsBounded (schedule agent at (note_failure agent now s))
  unfolding IsBounded schedule note_failure exceeds_limits
  schedule-IsBounded at within h a up = elim (Bool-cases (agent == a)) [
    | inl same ↦ let e : a ≡ agent = ground (arith, eq_iff agent a) in rw e (agent_within within)
    | inr other ↦ bounded_others h a other up
  ]

noted-IsBounded :
    (agent : String) (now : ℕ) (s : Supervisor)
    → exceeds_limits s.settings
        (length (stamps_or_none (lookup agent (note_failure agent now s).restart_history)))
        (number_or_zero (lookup agent (note_failure agent now s).restart_counts))
      ≡ false
    → IsBounded s
    → IsBounded (note_failure agent now s)
unfolding IsBounded schedule note_failure exceeds_limits
noted-IsBounded agent now s within h = schedule-IsBounded agent now s 0 within h

pub IsBounded-rules : Rules IsBounded
unfolding IsBounded
IsBounded-rules = record {
  same = live-IsBounded;
  disabled = disable-IsBounded;
  scheduled = λ agent now at s within h. schedule-IsBounded agent now s at within h;
  noted = λ agent now s within h. noted-IsBounded agent now s within h;
  spawned = λ agent worker s enabled h. h;
  forgotten = λ agent s h. h;
  unscheduled = λ agent s h. h;
  requested = λ asked s h. h;
}

-- No pass of the monitor lets an agent fail more often than the settings allow, in all or within
-- the window, and still keeps it enabled: whatever the processes and clocks do, IsBounded holds
-- after the pass if it holds before, also where the pass raises.
pub monitor_keeps_bounds :
    (env : Env) (s : Supervisor) → IsBounded s → IsBounded (monitor_workers env s).1
monitor_keeps_bounds env s h = monitor_workers-Keeps env IsBounded-rules s h

-- The agent is disabled and no worker of it is kept.
unfoldable pub IsDown : String → Supervisor → Type 0
IsDown a s = (contains a s.disabled_workers ≡ true) × (lookup a s.workers ≡ none)

module _ (a : String) where
  live-IsDown : (s s' : Supervisor) → live s' ≡ live s → IsDown a s → IsDown a s'
  unfolding IsDown
  live-IsDown s s' same (off, gone) =
      let e0 : s'.disabled_workers ≡ s.disabled_workers = λ i. (same i).disabled_workers in
      let e1 : s'.workers ≡ s.workers = λ i. (same i).workers in (rw e0 off, rw e1 gone)

  disable-IsDown :
      (agent : String) (now : ℕ) (s : Supervisor)
      → IsDown a s
      → IsDown a (disable agent (note_failure agent now s))
  unfolding IsDown disable note_failure contains
  disable-IsDown agent now s (off, gone) = (ground (arith, contains agent s.disabled_workers), gone)

  spawn-IsDown :
      (agent : String) (worker : WorkerState) (s : Supervisor)
      → contains agent s.disabled_workers ≡ false
      → IsDown a s
      → IsDown a (record s { workers = insert agent worker s.workers })
  unfolding IsDown
  spawn-IsDown agent worker s enabled (off, gone) =
      (off, lookup-insert agent a worker s.workers ∙ ground (arith, eq_iff agent a))

  forget-IsDown :
      (agent : String) (s : Supervisor)
      → IsDown a s
      → IsDown a (record s { workers = remove agent s.workers })
  unfolding IsDown
  forget-IsDown agent s (off, gone) =
      (off, lookup-remove agent a s.workers ∙ ground (arith, eq_iff agent a))

  IsDown-rules : Rules (IsDown a)
  unfolding IsDown schedule note_failure
  IsDown-rules = record {
    same = live-IsDown;
    disabled = disable-IsDown;
    scheduled = λ agent now at s within h. h;
    noted = λ agent now s within h. h;
    spawned = spawn-IsDown;
    forgotten = forget-IsDown;
    unscheduled = λ agent s h. h;
    requested = λ asked s h. h;
  }

  -- A disabled agent without a worker stays disabled and without a worker through a pass of the
  -- monitor, whatever restarts are still scheduled.
  pub disabled_stays-IsDown :
      (env : Env) (s : Supervisor) → IsDown a s → IsDown a (monitor_workers env s).1
  disabled_stays-IsDown env s h = monitor_workers-Keeps env IsDown-rules s h
