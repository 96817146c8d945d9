-- ===== src/Substrate/Supervisor/Run.antt =====
-- `run` and `kill_worker`: the supervisor's outer loop, with the clocks of each pass.
use app_shak_hq.Prelude.{
  Bool, List, Option, String, [], false, if◌then◌else◌, is_some, leb, none, some, ℕ, ◌+◌, ◌∷◌,
}
use app_shak_hq.Substrate.Supervisor.State.{
  Action, Env, Supervisor, get_state, lookup, normalized, pure, ◌>>=◌, ◌>>◌,
}
use app_shak_hq.Substrate.Supervisor.Control.{publish_heartbeat}
use app_shak_hq.Substrate.Supervisor.Monitor.{monitor_workers, start, stop}
use app_shak_hq.Python.Exec.{Result, ok, raised}

-- the deadline of the run is over
abbrev is_over : Option ℕ → ℕ → Bool
is_over none now = false
is_over (some deadline) now = leb deadline now

abbrev deadline_from : ℕ → Option ℕ → Option ℕ
deadline_from now none = none
deadline_from now (some duration) = some (now + duration)

unfoldable pub heartbeat_if : Bool → Env → Action (Unit {0})
heartbeat_if due env = if due then publish_heartbeat env else pure tt

-- The passes that are given, until a stop is requested or the deadline is over; a heartbeat is
-- published when it is due.
unfoldable pub passes : Option ℕ → ℕ → List Env → Action (Unit {0})
passes deadline next [] s = (ok tt, s)
passes deadline next (env ∷ envs) s =
    let due = leb next env.monotonic in
    let later = passes deadline (env.monotonic + s.settings.heartbeat_interval) envs in
    let same = passes deadline next envs in
    if s.stop_requested
    then (ok tt, s)
    else (do
      monitor_workers env
      heartbeat_if due env
      (if is_over deadline env.monotonic then pure tt else if due then later else same))
        s

-- `try: … finally: …`: what the last part raises comes first
abbrev pub ended :
    Result (Unit {0}) → Result (Unit {0}) × Supervisor → Result (Unit {0}) × Supervisor
ended r (ok _, s) = (r, s)
ended r (raised e, s) = (raised e, s)

unfoldable pub finally : Action (Unit {0}) → Action (Unit {0}) → Action (Unit {0})
finally m k s = let (r, s') = m s in ended r (k s')

-- from the start under the first clocks to the stop under the last ones
unfoldable pub run : String → Option ℕ → Env → List Env → Env → Action (Unit {0})
run db_path duration first envs last = do
  start first db_path
  s ← get_state
  finally
      (passes (deadline_from first.monotonic duration)
        (first.monotonic + s.settings.heartbeat_interval) envs)
      (stop last)

-- whether a worker is there to be killed; its process is outside
pub kill_worker : String → Supervisor → Bool
kill_worker agent_id s = is_some (lookup (normalized agent_id) s.workers)
