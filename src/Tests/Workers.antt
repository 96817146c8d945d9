-- ===== src/Tests/Workers.antt =====
-- The theorems on the supervisor at a supervisor with one worker.
use app_shak_hq.Prelude.{[], arith, min, refl, ℕ, ◌*◌, ◌∷◌, ◌≡◌, ◌≤◌}
use app_shak_hq.Python.Exec.{ok, overflow_error, raised}
use app_shak_hq.Substrate.Supervisor.State.{Supervisor, contains, lookup}
use app_shak_hq.Substrate.Supervisor.Restart.{restart_delay}
use app_shak_hq.Substrate.Supervisor.Monitor.{monitor_workers}
use app_shak_hq.Substrate.Supervisor.Bounds.{restart_delay_bounds}
use app_shak_hq.Substrate.Supervisor.Bounded.{IsDown, disabled_stays-IsDown}
use app_shak_hq.Tests.Data.{sample_env, sample_settings, supervised}

-- the worker is gone and the agent disabled, while a restart is due
abbrev down : Supervisor
down = record supervised {
  workers = [];
  disabled_workers = "forge" ∷ [];
  scheduled_restarts = ("forge", 1) ∷ [];
}

disabled_stays-IsDown_example : IsDown "forge" (monitor_workers sample_env down).1
unfolding IsDown lookup contains
disabled_stays-IsDown_example = disabled_stays-IsDown "forge" sample_env down (refl, refl)

restart_delay_bounds_example :
    (a : ℕ) × (b : ℕ) × (restart_delay sample_settings 2 ≡ ok a)
    × (restart_delay sample_settings 9 ≡ ok b)
    × (restart_delay sample_settings 1 ≡ ok 1000000)
    × (restart_delay sample_settings 3 ≡ ok (min 60000000 (2 * a)))
    × (1000000 ≤ a)
    × (a ≤ b)
    × (b ≤ 60000000)
    × (restart_delay sample_settings 1025
        ≡ raised (overflow_error "int too large to convert to float"))
restart_delay_bounds_example =
    restart_delay_bounds sample_settings 2 9 0 (omega arith) (omega arith) (omega arith)
      (omega arith)
