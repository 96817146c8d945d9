-- ===== src/Tests/Tools.antt =====
-- The theorems on the policy and the tool gateway at a gateway with one workspace.
use app_shak_hq.Prelude.{List, String, [], false, none, refl, true, ◌∷◌, ◌≡◌, ◌⊎◌}
use app_shak_hq.Python.Value.{Fields, end, field, get, get?, put, str, truthy, update}
use app_shak_hq.Python.Text.{contains_any, is_blank, strip}
use app_shak_hq.Python.Exec.{Error, ok, raised, value_error}
use app_shak_hq.Substrate.Types.{ToolResult, write_file}
use app_shak_hq.Substrate.MailStore.Tables.{Store}
use app_shak_hq.Substrate.MailStore.History.{run}
use app_shak_hq.Substrate.Policy.{
  Host, PolicyDecision, argv_of, begins_with, check_argv, command_is_whitelisted, decide_command,
  file_path, is_subpath, nonempty_list, normalized_argv, resolve_path, strs, validate,
  validate_action, validate_command_payload,
}
use app_shak_hq.Substrate.Policy.Allowed.{
  IsPermitted, IsSafeCommand, allowed_command, allowed_needs,
}
use app_shak_hq.Substrate.Policy.Inside.{IsInside, allowed_file}
use app_shak_hq.Substrate.Gateway.Handle.{execute_request}
use app_shak_hq.Substrate.Gateway.Handle.Audited.{PassedPolicy, executed_only_if_allowed}
use app_shak_hq.Substrate.Gateway.Handle.AtMostOnce.{at_most_once}
use app_shak_hq.Tests.Data.{
  forge_root, mail, sample_gateway, sample_host, sample_system, write_request,
}

at_most_once_example :
    ((execute_request sample_system sample_host "now" sample_gateway
        (write_request "k-1")
        mail
        []).2
      ≡ [])
    ⊎ (((execute_request sample_system sample_host "later" sample_gateway
            (write_request " k-1 ")
            (run
              (execute_request sample_system sample_host "now" sample_gateway
                (write_request "k-1")
                mail
                []).1
              [])
            ("/srv" ∷ [])).2
          ≡ "/srv" ∷ [])
        × (((t : ToolResult) × ((execute_request sample_system sample_host "later" sample_gateway
                  (write_request " k-1 ")
                  (run
                    (execute_request sample_system sample_host "now" sample_gateway
                      (write_request "k-1")
                      mail
                      []).1
                    [])
                  ("/srv" ∷ [])).0
                ≡ ok t)
              × (t.allowed ≡ false))
            ⊎ ((e : Error) × ((execute_request sample_system sample_host "later" sample_gateway
                    (write_request " k-1 ")
                    (run
                      (execute_request sample_system sample_host "now" sample_gateway
                        (write_request "k-1")
                        mail
                        []).1
                      [])
                    ("/srv" ∷ [])).0
                  ≡ raised e))))
unfolding strip get? get is_blank truthy
at_most_once_example =
    at_most_once sample_system sample_host "now" "later" sample_gateway (write_request "k-1")
      (write_request " k-1 ") mail [] ("/srv" ∷ []) [] "k-1" " k-1 " refl refl refl refl refl

-- a store in which the key k-1 is taken
abbrev taken : Store
taken = record mail {
  keys =
      record {
        idempotency_key = "k-1";
        created_ts = "now";
        agent_id = "forge";
        action_type = "WRITE_FILE";
        event_id = none;
        result = none;
      }
      ∷ [];
}

executed_only_if_allowed_example :
    PassedPolicy sample_system sample_host "now" sample_gateway (write_request "k-1")
    ⊎ (((t : ToolResult) × ((execute_request sample_system sample_host "now" sample_gateway
              (write_request "k-1")
              mail
              [])
            ≡ (
              ok t,
              (execute_request sample_system sample_host "now" sample_gateway
                  (write_request "k-1")
                  mail
                  []).1,
              [],
            ))
          × (t.allowed ≡ false))
        ⊎ ((e : Error) × ((execute_request sample_system sample_host "now" sample_gateway
                (write_request "k-1")
                mail
                [])
              ≡ (raised e, mail, []))))
executed_only_if_allowed_example =
    executed_only_if_allowed sample_system sample_host "now" sample_gateway (write_request "k-1")
      mail []

-- a host that cannot resolve any path
abbrev broken_host : Host
broken_host = record sample_host { resolve = λ p. raised (value_error "embedded null byte") }

abbrev write_decision : PolicyDecision
write_decision = record {
  allowed = true;
  reason = "File path policy checks passed.";
  normalized_payload = put "path" (str "/srv/forge/out.txt") (write_request "k-1").payload;
}

allowed_needs_example :
    (working_dir : List String) × (sample_host.resolve (write_request "k-1").working_dir
      ≡ ok working_dir)
    × (is_subpath working_dir forge_root ≡ true)
    × (sample_host.is_directory working_dir ≡ true)
    × IsPermitted sample_gateway.policy (write_request "k-1")
    × (validate_action sample_gateway.policy sample_host forge_root write_file
          (write_request "k-1").payload
        ≡ ok write_decision)
unfolding validate validate_action is_subpath begins_with resolve_path file_path get? get is_blank
    truthy
allowed_needs_example =
    allowed_needs sample_gateway.policy sample_host (write_request "k-1") forge_root
      {d = write_decision} refl refl

allowed_file_example :
    (s : String) × (get "path" write_decision.normalized_payload ≡ str s)
    × IsInside sample_host forge_root s
unfolding validate_action is_subpath begins_with resolve_path file_path get? get is_blank truthy
allowed_file_example =
    allowed_file sample_gateway.policy sample_host forge_root (write_request "k-1").payload
      write_file {d = write_decision} tt refl refl

abbrev commit_payload : Fields
commit_payload = field "message" (str "add") (field "paths" (strs ("out.txt" ∷ [])) end)

abbrev pytest_payload : Fields
pytest_payload = field "argv" (strs ("pytest" ∷ "-q" ∷ [])) end

abbrev pytest_decision : PolicyDecision
pytest_decision = record {
  allowed = true;
  reason = "RUN_CMD policy checks passed.";
  normalized_payload = update pytest_payload (field "argv" (strs ("pytest" ∷ "-q" ∷ [])) end);
}

allowed_command_example :
    (argv : List String) × (get "argv" pytest_decision.normalized_payload ≡ strs argv)
    × IsSafeCommand sample_gateway.policy argv
unfolding validate_action validate_command_payload decide_command command_is_whitelisted
    normalized_argv argv_of nonempty_list check_argv begins_with get? get is_blank truthy
    contains_any
allowed_command_example =
    allowed_command sample_gateway.policy sample_host forge_root pytest_payload
      {d = pytest_decision} refl refl
