-- ===== src/Governance/Relationship/Bounded.antt =====
-- The bounds of reputation and trust under appshak_governance/relationship.py and registry.py.
use app_shak_hq.Prelude.{
  All, Bool-cases, List, Option-cases, String, [], ap, arith, inl, inr, length, map, nat_eq, not,
  refl, some, some_inj, string_eq, sym, true, ◌+◌, ◌==◌, ◌||◌, ◌∙◌, ◌∷◌, ◌≡◌,
}
use app_shak_hq.Substrate.Supervisor.State.{insert}
use app_shak_hq.Governance.Floats.{FloatOps, IsUnit, clamp-IsBetween}
use app_shak_hq.Governance.Registry.{
  AgentRegistry, AgentState, agent_ids, apply_outcome_update, bump_version, has_agent,
  normalize_agent_id, update_agents, updated_agent,
}
use app_shak_hq.Governance.Relationship.{
  GovernanceOutcome, RelationshipWeightEngine, TrustChange, apply_outcomes, change_of,
}

module _ {F : Type 0} (ops : FloatOps F) where
  -- The agent's reputation and the trust it has in others are 0, 1 or strictly between.
  pub record IsSound (a : AgentState F) : Type 0 where
    pub reputation : IsUnit ops a.reputation_score
    pub trust : All (λ entry. IsUnit ops entry.1) a.trust_weights

  abbrev pub IsBounded : AgentRegistry F → Type 0
  IsBounded r = All (λ entry. IsSound entry.1) r.agents

  insert-All :
      (key : String) (x : F) (weights : List (String × F))
      → IsUnit ops x
      → All (λ entry. IsUnit ops entry.1) weights
      → All (λ entry. IsUnit ops entry.1) (insert key x weights)
  unfolding insert
  insert-All key x [] u all = (u, tt)
  insert-All key x ((other, w) ∷ weights) u all = elim (Bool-cases (other == key)) [
    | inl same ↦ rw same (u, all.1)
    | inr different ↦ rw different (all.0, insert-All key x weights u all.1)
  ]

  updated-IsSound :
      (subject : String) (delta : F) (deltas : List (String × F)) (id : String) (a : AgentState F)
      → IsSound a
      → IsSound (updated_agent ops subject delta deltas id a)
  updated-IsSound subject delta deltas id a s = elim (Bool-cases (id == subject)) [
    | inl same ↦ rw same (record {
      reputation = clamp-IsBetween ops _ _ _;
      trust = insert-All subject _ a.trust_weights (clamp-IsBetween ops _ _ _) s.trust;
    })
    | inr other ↦ rw other (record {
      reputation = s.reputation;
      trust = insert-All subject _ a.trust_weights (clamp-IsBetween ops _ _ _) s.trust;
    })
  ]

  all_updated :
      (subject : String) (delta : F) (deltas : List (String × F))
      (agents : List (String × AgentState F))
      → All (λ entry. IsSound entry.1) agents
      → All
          (λ entry. IsSound entry.1)
          (update_agents ops (updated_agent ops subject delta deltas) agents)
  all_updated subject delta deltas [] s = tt
  all_updated subject delta deltas ((id, a) ∷ agents) s =
      (updated-IsSound subject delta deltas id a s.0, all_updated subject delta deltas agents s.1)

  update-IsBounded :
      (subject : String) (delta : F) (deltas : List (String × F)) (moment : String)
      (r : AgentRegistry F)
      → IsBounded r
      → IsBounded (apply_outcome_update ops subject delta deltas moment r)
  unfolding apply_outcome_update bump_version
  update-IsBounded subject delta deltas moment r b = elim (Bool-cases (has_agent ops subject r)) [
    | inl known ↦ rw known (all_updated (normalize_agent_id subject) delta deltas r.agents b)
    | inr unknown ↦ rw unknown b
  ]

  update_ids :
      (f : String → AgentState F → AgentState F) (agents : List (String × AgentState F))
      → map (λ entry. entry.0) (update_agents ops f agents) ≡ map (λ entry. entry.0) agents
  update_ids f [] = refl
  update_ids f ((id, a) ∷ agents) = rw (update_ids f agents) refl

  -- A known subject's update counts as one version and keeps the agents.
  update_known :
      (subject : String) (delta : F) (deltas : List (String × F)) (moment : String)
      (r : AgentRegistry F)
      → has_agent ops subject r ≡ true
      → let r' = apply_outcome_update ops subject delta deltas moment r in
        (r'.version ≡ r.version + 1) × (agent_ids ops r' ≡ agent_ids ops r)
  unfolding apply_outcome_update bump_version
  update_known subject delta deltas moment r known = rw known (refl, update_ids _ r.agents)

  change_known :
      (engine : RelationshipWeightEngine F) (r : AgentRegistry F) (o : GovernanceOutcome)
      {c : TrustChange F}
      → change_of ops engine r o ≡ some c
      → has_agent ops c.subject_id r ≡ true
  unfolding change_of
  change_known engine r o {c} h =
      let id = normalize_agent_id o.agent_id in
      elim (Bool-cases (id == "" || not (has_agent ops id r))) [
        | inl passed ↦ let none_made = rw passed at h in cc
        | inr known ↦
            let made = rw known at h in
            let same : c.subject_id ≡ id = sym (ap (λ x. x.subject_id) (some_inj made)) in
            rw same (ground (arith, known))
      ]

  -- Whatever the outcomes and the steps of the engine, applying outcomes to a registry in which every
  -- reputation and every trust weight is 0, 1 or strictly between leaves one in which they are, with
  -- the same agents; and the version counts the changes, each of which is about a known agent.
  pub apply_outcomes-IsBounded :
      (engine : RelationshipWeightEngine F) (os : List GovernanceOutcome) (r : AgentRegistry F)
      → IsBounded r
      → let (changes, r') = apply_outcomes ops engine os r in
        IsBounded r'
        × (agent_ids ops r' ≡ agent_ids ops r)
        × (r'.version ≡ r.version + length changes)
  unfolding apply_outcomes
  apply_outcomes-IsBounded engine [] r b = (b, refl, omega arith)
  apply_outcomes-IsBounded engine (o ∷ os) r b = elim (Option-cases (change_of ops engine r o)) [
    | inl ignored ↦ rw ignored (apply_outcomes-IsBounded engine os r b)
    | inr (c, made) ↦
        let known = change_known engine r o {c = c} made in
        let r' =
          apply_outcome_update ops c.subject_id c.reputation_delta c.observer_trust_deltas
            c.source_timestamp r in
        let once =
          update_known c.subject_id c.reputation_delta c.observer_trust_deltas c.source_timestamp r
            known in
        let kept =
          update-IsBounded c.subject_id c.reputation_delta c.observer_trust_deltas
            c.source_timestamp r b in
        let rest = apply_outcomes-IsBounded engine os r' kept in
        rw made (rest.0, rest.1 ∙ once.1, omega (arith, rest.2, once.0))
  ]
