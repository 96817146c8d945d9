-- ===== src/Kernel/Route/Stages.antt =====
-- The stages of the pipeline for external actions in appshak/kernel.py.
use app_shak_hq.Prelude.{
  Bool, Bool-cases, List, String, [], false, if◌then◌else◌, inl, inr, map, refl, true, ◌&&◌, ◌++◌,
  ◌∷◌, ◌≡◌,
}
use app_shak_hq.Python.Value.{Fields, get, get?, truthy}
use app_shak_hq.Python.Exec.{ok}
use app_shak_hq.Kernel.Events.{Event}
use app_shak_hq.Kernel.Safeguards.{Library, SafeguardMonitor, record_attempt}
use app_shak_hq.Kernel.Safeguards.Gate.{check_request, execute_in_sandbox, is_allowed}
use app_shak_hq.Kernel.State.{AppShakKernel, Outside}
use app_shak_hq.Kernel.Chief.{approve_external_action, approves}
use app_shak_hq.Kernel.Route.{
  blocked_by_safeguard, checked_action, denied_by_chief, executed, log_external_stage,
  process_external_action,
}
use app_shak_hq.Kernel.Route.Known.{handle_external_action-eq, publish_system_event-eq}

abbrev pub stages : AppShakKernel → List String
stages k = map (λ entry. entry.0) k.memory.external_log

map-append : {A B : Type 0} (f : A → B) (xs ys : List A) → map f (xs ++ ys) ≡ map f xs ++ map f ys
map-append f [] ys = refl
map-append f (x ∷ xs) ys = rw (map-append f xs ys) refl

pub append_assoc : {A : Type 0} (xs ys zs : List A) → (xs ++ ys) ++ zs ≡ xs ++ (ys ++ zs)
append_assoc [] ys zs = refl
append_assoc (x ∷ xs) ys zs = rw (append_assoc xs ys zs) refl

-- what the pipeline writes in its log, by the two decisions
abbrev pub stages_of : Bool → Bool → List String
stages_of false allowed = "REQUEST" ∷ "CHIEF_APPROVAL" ∷ "LOG_RESULT" ∷ []
stages_of true false = "REQUEST" ∷ "CHIEF_APPROVAL" ∷ "SAFEGUARD_CHECK" ∷ "LOG_RESULT" ∷ []
stages_of true true =
    "REQUEST" ∷ "CHIEF_APPROVAL" ∷ "SAFEGUARD_CHECK" ∷ "EXECUTE" ∷ "LOG_RESULT" ∷ []

module _ (out : Outside) (e : Event) (k : AppShakKernel) where
  abbrev lib : Library
  lib = out.library

  abbrev check : Fields × SafeguardMonitor
  check = check_request lib e.payload e.origin_id out.now k.safeguards

  abbrev success : Bool
  success = truthy (get "success" (execute_in_sandbox lib e.payload e.origin_id))

  pub approved-eq : truthy (get "approved" (approve_external_action out e)) ≡ approves e.payload
  unfolding approve_external_action get get? truthy
  approved-eq = refl

  -- The pipeline for an external action never raises. It logs its stages in the one order of the
  -- source: the check of the safeguards is made only after the chief's approval, and the action is
  -- executed only after both; each run ends with its result. The safeguards count an attempt exactly
  -- if the chief has approved, as a success only if the action was allowed and succeeded.
  pub stages_in_order :
      let (r, k') = process_external_action out e k in
      (r ≡ ok tt)
      × (stages k' ≡ stages k ++ stages_of (approves e.payload) (is_allowed check.0))
      × (k'.safeguards ≡ (
          if approves e.payload
          then (record_attempt lib e.payload e.origin_id out.now
              (is_allowed check.0 && success)
              check.1).1
          else k.safeguards))
  unfolding process_external_action log_external_stage denied_by_chief checked_action
      blocked_by_safeguard executed
  stages_in_order = elim (Bool-cases (approves e.payload)) [
    | inr denied ↦
        rw (approved-eq, denied, handle_external_action-eq)
          (refl, simp (map-append, append_assoc) refl, refl)
    | inl approved ↦ elim (Bool-cases (is_allowed check.0)) [
      | inr stopped ↦
          rw (approved-eq, approved, stopped, publish_system_event-eq, handle_external_action-eq)
            (refl, simp (map-append, append_assoc) refl, refl)
      | inl allowed ↦
          rw (approved-eq, approved, allowed, handle_external_action-eq)
            (refl, simp (map-append, append_assoc) refl, refl)
    ]
  ]
