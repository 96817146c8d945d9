-- ===== src/Substrate/Supervisor/Whole.antt =====
-- What a whole run keeps.
use app_shak_hq.Substrate.Supervisor.State.{Supervisor}
use app_shak_hq.Substrate.Supervisor.Keeps.{Keeps}
