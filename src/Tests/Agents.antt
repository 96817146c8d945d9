-- ===== src/Tests/Agents.antt =====
-- The theorems on the agent runtime and the worker at a runtime with a gateway.
use app_shak_hq.Prelude.{[], false, inr, refl, ◌≡◌, ◌⊎◌}
use app_shak_hq.Substrate.Runtime.{handle_event, is_for_other}
use app_shak_hq.Substrate.Runtime.Acts.{AskedAndPassed, acts_only_if_passed}
use app_shak_hq.Python.Exec.{ok, permission_error, raised}
use app_shak_hq.Substrate.MailStore.Tables.{find_lease}
use app_shak_hq.Substrate.MailStore.Settlement.{Settles}
use app_shak_hq.Substrate.Worker.{handled, process_event}
use app_shak_hq.Substrate.Worker.Ends.{
  end_error, end_status, handled_event_settled, lost_lease_ends_worker,
}
use app_shak_hq.Tests.Data.{
  around, forge_runtime, held, noted_event, overtaken, request_event, sample_host, sample_system,
  texts_differ, undisturbed,
}

acts_only_if_passed_example :
    ((handle_event sample_system sample_host "now" forge_runtime request_event around).1.world ≡ [])
    ⊎ ((is_for_other forge_runtime request_event ≡ false)
        × AskedAndPassed sample_system sample_host "now" forge_runtime request_event)
acts_only_if_passed_example =
    acts_only_if_passed sample_system sample_host "now" forge_runtime request_event around

handled_event_settled_example :
    ((process_event sample_system sample_host forge_runtime "worker:a" 1 noted_event undisturbed
        around).0
      ≡ ok tt)
    × Settles
        (ok
          (process_event sample_system sample_host forge_runtime "worker:a" 1 noted_event
            undisturbed around).1.store)
        1
        (end_status sample_system sample_host
          (handled sample_system sample_host forge_runtime noted_event undisturbed around).0)
        (end_error sample_system sample_host
          (handled sample_system sample_host forge_runtime noted_event undisturbed around).0)
        (handled sample_system sample_host forge_runtime noted_event undisturbed around).1.store
unfolding handled handle_event is_for_other find_lease
handled_event_settled_example =
    handled_event_settled sample_system sample_host forge_runtime "worker:a" 1 noted_event
      undisturbed around (inr (inr (held, refl, refl)))

lost_lease_ends_worker_example :
    process_event sample_system sample_host forge_runtime "worker:a" 1 noted_event overtaken around
    ≡ (
      raised (permission_error "worker:a" 1 "worker:b"),
      (handled sample_system sample_host forge_runtime noted_event overtaken around).1,
    )
unfolding handled handle_event is_for_other find_lease
lost_lease_ends_worker_example =
    lost_lease_ends_worker sample_system sample_host forge_runtime "worker:a" 1 noted_event
      overtaken around (record held { claimed_by = "worker:b" }) refl refl (texts_differ _ _ refl)
