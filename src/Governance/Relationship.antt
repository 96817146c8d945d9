-- ===== src/Governance/Relationship.antt =====
-- appshak_governance/relationship.py: how outcomes change reputation and trust.
pub mod Bounded
use app_shak_hq.Prelude.{
  Bool, List, Option, String, [], if◌then◌else◌, nat_eq, none, not, some, string_eq, ◌==◌, ◌||◌,
  ◌∷◌,
}
use app_shak_hq.Python.Text.{strip, upper}
use app_shak_hq.Python.Value.{ℤ}
use app_shak_hq.Governance.Floats.{FloatOps, clamp, half_float, one_float, py_max, zero_float}
use app_shak_hq.Governance.Registry.{
  AgentRegistry, agent_ids, apply_outcome_update, authority_of, has_agent, normalize_agent_id,
}

-- an outcome as appshak_governance/constants.py has it
pub record GovernanceOutcome : Type 0 where
  pub agent_id : String
  pub outcome : String
  pub escalated : Bool
  pub source_event_type : String
  pub source_event_id : ℤ
  pub source_timestamp : String

pub record TrustChange (F : Type 0) : Type 0 where
  pub subject_id : String
  pub outcome : String
  pub escalated : Bool
  pub reputation_delta : F
  pub observer_trust_deltas : List (String × F)
  pub source_event_type : String
  pub source_event_id : ℤ
  pub source_timestamp : String

pub record RelationshipWeightEngine (F : Type 0) : Type 0 where
  pub success_step : F
  pub failure_step : F
  pub escalation_penalty : F

module _ {F : Type 0} (ops : FloatOps F) where
  -- `__init__`
  unfoldable pub new_engine : F → F → F → RelationshipWeightEngine F
  new_engine success failure penalty = record {
    success_step = py_max ops (zero_float ops) success;
    failure_step = py_max ops (zero_float ops) failure;
    escalation_penalty = py_max ops (zero_float ops) penalty;
  }

  unfoldable pub authority_scale : F → F
  authority_scale level =
      let x = clamp ops level (zero_float ops) (one_float ops) in
      if ops.le (ops.literal "0.8") x
      then ops.literal "1.2"
      else (if ops.le (half_float ops) x then one_float ops else ops.literal "0.8")

  unfoldable pub compute_reputation_delta : RelationshipWeightEngine F → String → Bool → F → F
  unfolding authority_scale
  compute_reputation_delta engine outcome escalated authority =
      let scale = authority_scale authority in
      if outcome == "SUCCESS"
      then ops.mul engine.success_step scale
      else ops.mul
          (ops.neg (
            if escalated
            then ops.add engine.failure_step engine.escalation_penalty
            else engine.failure_step))
          scale

  abbrev observer_deltas : F → AgentRegistry F → List String → List (String × F)
  observer_deltas delta r [] = []
  observer_deltas delta r (id ∷ ids) =
      (id, ops.mul delta (authority_scale (authority_of ops id r))) ∷ observer_deltas delta r ids

  -- the change that an outcome makes, if its agent is known
  unfoldable pub change_of :
      RelationshipWeightEngine F → AgentRegistry F → GovernanceOutcome → Option (TrustChange F)
  unfolding compute_reputation_delta
  change_of engine r o =
      let subject = normalize_agent_id o.agent_id in
      let kind = upper (strip o.outcome) in
      let source = upper (strip o.source_event_type) in
      if subject == "" || not (has_agent ops subject r)
      then none
      else (let delta =
            compute_reputation_delta engine kind o.escalated (authority_of ops subject r) in
          some (record {
            subject_id = subject;
            outcome = kind;
            escalated = o.escalated;
            reputation_delta = delta;
            observer_trust_deltas = observer_deltas delta r (agent_ids ops r);
            source_event_type = if source == "" then "UNKNOWN" else source;
            source_event_id = o.source_event_id;
            source_timestamp = o.source_timestamp;
          }))

  abbrev pub changed : AgentRegistry F → Option (TrustChange F) → AgentRegistry F
  changed r none = r
  changed r (some c) =
      apply_outcome_update ops c.subject_id c.reputation_delta c.observer_trust_deltas
        c.source_timestamp r

  abbrev pub noted : Option (TrustChange F) → List (TrustChange F) → List (TrustChange F)
  noted none cs = cs
  noted (some c) cs = c ∷ cs

  unfoldable pub apply_outcomes :
      RelationshipWeightEngine F
      → List GovernanceOutcome
      → AgentRegistry F
      → List (TrustChange F) × AgentRegistry F
  unfolding change_of
  apply_outcomes engine [] r = ([], r)
  apply_outcomes engine (o ∷ os) r =
      let c = change_of engine r o in
      let (cs, r') = apply_outcomes engine os (changed r c) in (noted c cs, r')
