-- ===== src/Governance/Registry.antt =====
-- appshak_governance/registry.py: the agents with their reputation and the trust between them. A
-- registry is what `normalize_registry_state` returns, its agents in the order of their ids; the
-- reading of a registry from JSON is not modelled.
use Prim.Native.Nat.{Ordering}
use Prim.Native.String.{compare}
use app_shak_hq.Prelude.{
  Bool, List, Option, String, [], false, if◌then◌else◌, is_some, map, nat_eq, none, not, some,
  string_eq, true, ℕ, ◌&&◌, ◌++◌, ◌+◌, ◌==◌, ◌∷◌,
}
use app_shak_hq.Python.Text.{lower, strip}
use app_shak_hq.Python.Value.{Value, str}
use app_shak_hq.Substrate.Supervisor.State.{contains, insert, lookup}
use app_shak_hq.Governance.Floats.{FloatOps, clamp, half_float, one_float, zero_float}

-- `normalize_agent_id`, of any value and of a text
abbrev pub normalize_agent_id : String → String
normalize_agent_id agent = lower (strip agent)

abbrev pub agent_id_of : Value → String
agent_id_of (str s) = normalize_agent_id s
agent_id_of _ = ""

pub record AgentState (F : Type 0) : Type 0 where
  pub role : String
  pub authority_level : F
  pub reputation_score : F
  pub trust_weights : List (String × F)
  pub knowledge_lessons : List String

pub record AgentRegistry (F : Type 0) : Type 0 where
  pub version : ℕ
  pub last_updated : String
  pub agents : List (String × AgentState F)
  pub history : List (String × List F)

abbrev pub str_before : String → String → Bool
str_before a b = elim (compare a b) [ Ordering.lt ↦ true | _ ↦ false ]

-- `lessons.append(lesson)`, then `lessons.sort()`, of a list that was in order
abbrev pub with_lesson : String → List String → List String
with_lesson lesson [] = lesson ∷ []
with_lesson lesson (x ∷ xs) =
    let rest = with_lesson lesson xs in if str_before lesson x then lesson ∷ x ∷ xs else x ∷ rest

-- `sorted(texts)`
abbrev pub sorted_texts : List String → List String
sorted_texts [] = []
sorted_texts (x ∷ xs) = with_lesson x (sorted_texts xs)

module _ {F : Type 0} (ops : FloatOps F) where
  abbrev pub agent_ids : AgentRegistry F → List String
  agent_ids r = map (λ entry. entry.0) r.agents

  abbrev pub has_agent : String → AgentRegistry F → Bool
  has_agent agent r = is_some (lookup (normalize_agent_id agent) r.agents)

  abbrev pub authority_of : String → AgentRegistry F → F
  authority_of agent r = elim (lookup (normalize_agent_id agent) r.agents) [
    | none ↦ zero_float ops
    | some a ↦ a.authority_level
  ]

  abbrev pub weight_of : String → List (String × F) → F
  weight_of subject weights = elim (lookup subject weights) [ none ↦ half_float ops | some w ↦ w ]

  abbrev pub trust_weight : String → String → AgentRegistry F → F
  trust_weight observer subject r = elim (lookup (normalize_agent_id observer) r.agents) [
    | none ↦ half_float ops
    | some a ↦ weight_of (normalize_agent_id subject) a.trust_weights
  ]

  -- what becomes of each agent
  abbrev pub update_agents :
      (String → AgentState F → AgentState F)
      → List (String × AgentState F)
      → List (String × AgentState F)
  update_agents f [] = []
  update_agents f ((agent, a) ∷ agents) = (agent, f agent a) ∷ update_agents f agents

  unfoldable pub add_lesson_reference : String → String → AgentRegistry F → AgentRegistry F
  add_lesson_reference agent lesson r = record r {
    agents =
        update_agents
          (λ id a.
            if id == normalize_agent_id agent && not (contains lesson a.knowledge_lessons)
            then record a { knowledge_lessons = with_lesson lesson a.knowledge_lessons }
            else a)
          r.agents;
  }

  abbrev series_of : Option (List F) → List F
  series_of none = []
  series_of (some series) = series

  -- the reputation of each agent is added to its history
  unfoldable pub extend_history :
      List (String × AgentState F) → List (String × List F) → List (String × List F)
  extend_history [] history = history
  extend_history ((agent, a) ∷ agents) history =
      extend_history agents
        (insert agent (series_of (lookup agent history) ++ a.reputation_score ∷ []) history)

  -- `_bump_version`, which is `record_noop_update`
  unfoldable pub bump_version : String → AgentRegistry F → AgentRegistry F
  unfolding extend_history
  bump_version updated_at r = record r {
    version = r.version + 1;
    last_updated = updated_at;
    history = extend_history r.agents r.history;
  }

  abbrev unit_clamp : F → F
  unit_clamp x = clamp ops x (zero_float ops) (one_float ops)

  abbrev with_reputation : F → AgentState F → AgentState F
  with_reputation delta a = record a {
    reputation_score = unit_clamp (ops.add a.reputation_score delta);
  }

  abbrev delta_for : String → List (String × F) → F
  delta_for observer deltas = elim (lookup observer deltas) [ none ↦ zero_float ops | some d ↦ d ]

  abbrev with_trust : String → F → AgentState F → AgentState F
  with_trust subject delta a = record a {
    trust_weights =
        insert subject (unit_clamp (ops.add (weight_of subject a.trust_weights) delta))
          a.trust_weights;
  }

  abbrev pub updated_agent : String → F → List (String × F) → String → AgentState F → AgentState F
  updated_agent subject delta deltas id a =
      with_trust subject (delta_for id deltas)
        (if id == subject then with_reputation delta a else a)

  unfoldable pub apply_outcome_update :
      String → F → List (String × F) → String → AgentRegistry F → AgentRegistry F
  unfolding bump_version
  apply_outcome_update subject delta deltas updated_at r =
      let id = normalize_agent_id subject in
      if has_agent subject r
      then bump_version updated_at
          (record r { agents = update_agents (updated_agent id delta deltas) r.agents })
      else r
