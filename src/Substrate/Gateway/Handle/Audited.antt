-- ===== src/Substrate/Gateway/Handle/Audited.antt =====
-- The audit rows of `execute`, and which requests are executed.
use app_shak_hq.Prelude.{List, String, [], false, inl, inr, refl, some, true, ◌++◌, ◌∷◌, ◌≡◌, ◌⊎◌}
use app_shak_hq.Python.Exec.{Error, ok, raised}
use app_shak_hq.Substrate.Types.{ToolRequest, ToolResult}
use app_shak_hq.Substrate.MailStore.Tables.{AuditRow, Store}
use app_shak_hq.Substrate.Policy.{Host, PolicyDecision, validate}
use app_shak_hq.Substrate.Gateway.Execute.{System}
use app_shak_hq.Substrate.Gateway.Handle.{ToolGateway, deny, execute_request, root_of}
use app_shak_hq.Substrate.Gateway.Handle.Cases.{Outcome, execute_request_cases}

-- The answer is a result, and one audit row has been added that agrees with it.
pub record IsAudited {W : Type 0} (s : Store) (o : Outcome W) : Type 0 where
  pub answer : ToolResult
  pub row : AuditRow
  pub answered : o.0 ≡ ok answer
  pub added : o.1.audit ≡ s.audit ++ row ∷ []
  pub numbered : row.id ≡ s.next_audit
  pub reported : answer.audit_event_id ≡ some s.next_audit
  pub agreed : row.allowed ≡ answer.allowed

module _ {W : Type 0} (sys : System W) (host : Host) (now : String) where
  -- The policy has allowed the request, in the workspace of its agent.
  abbrev pub PassedPolicy : ToolGateway → ToolRequest → Type 0
  PassedPolicy g r =
      (root : List String) × (d : PolicyDecision) × (root_of r.agent_id g.workspace_roots
        ≡ some root)
      × (validate g.policy host r root ≡ ok d)
      × (d.allowed ≡ true)

  -- A request has passed the policy in its agent's workspace, or it is refused and leaves the world
  -- outside as it is, or it ends in an exception and leaves the store and the world as they are.
  pub executed_only_if_allowed :
      (g : ToolGateway) (r : ToolRequest) (s : Store) (w : W)
      → PassedPolicy g r
        ⊎ (((t : ToolResult) × (execute_request sys host now g r s w
                ≡ (ok t, (execute_request sys host now g r s w).1, w))
              × (t.allowed ≡ false))
            ⊎ ((e : Error) × (execute_request sys host now g r s w ≡ (raised e, s, w))))
  unfolding deny
  executed_only_if_allowed g r s w =
      execute_request_cases sys host now
        (λ o.
          PassedPolicy g r
          ⊎ (((t : ToolResult) × (o ≡ (ok t, o.1, w)) × (t.allowed ≡ false))
              ⊎ ((e : Error) × (o ≡ (raised e, s, w)))))
        r s w g (λ reason d k result. inr (inl ((deny r reason d k result now s).0, refl, refl)))
        (λ root e _ _. inr (inr (e, refl)))
        (λ raw root d _ rooted judged good _. inl (root, d, rooted, judged, good))
        (λ raw root d _ rooted judged good _ _. inl (root, d, rooted, judged, good))
