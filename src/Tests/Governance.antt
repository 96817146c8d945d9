-- ===== src/Tests/Governance.antt =====
-- The theorems on appshak_governance/ at concrete inputs.
use app_shak_hq.Prelude.{
  All, List, String, [], false, if◌then◌else◌, inr, is_some, leb, length, ltb, nat_eq, none, refl,
  some, string_eq, true, ℕ, ◌*◌, ◌+◌, ◌/◌, ◌==◌, ◌↔◌, ◌∷◌, ◌≡◌, ◌≤◌,
}
use app_shak_hq.Python.Text.{concat, lower, lstrip, rstrip, strip, upper}
use app_shak_hq.Python.Value.{
  Fields, Value, as_int, bool, end, field, float, get, get?, int, null, obj, pos, str,
}
use app_shak_hq.Governance.Ledger.{
  LedgerEntry, append_entry, chain, place, read_entries, validate_hash_chain,
}
use app_shak_hq.Governance.Ledger.Chain.{append_entry-valid, prev_of}
use app_shak_hq.Governance.Floats.{FloatOps}
use app_shak_hq.Governance.Registry.{
  AgentRegistry, AgentState, agent_ids, has_agent, normalize_agent_id,
}
use app_shak_hq.Governance.Relationship.{
  GovernanceOutcome, RelationshipWeightEngine, apply_outcomes,
}
use app_shak_hq.Governance.Relationship.Bounded.{IsBounded, apply_outcomes-IsBounded}
use app_shak_hq.Governance.Boardroom.{
  IsCounted, aggregate, arbitrate_target, arbitration_counts, decision_threshold,
}
use app_shak_hq.Governance.Outcomes.{Readers, derive_outcomes, dict_of, int_lt, tool_count}
use app_shak_hq.Governance.Outcomes.Known.{IsAbout, derived_outcomes_known}
use app_shak_hq.Governance.WaterCooler.{maybe_propagate}
use app_shak_hq.Governance.WaterCooler.Quiet.{IsQuietMoment}
use app_shak_hq.Governance.WaterCooler.Passed.{IsPassedOn, lesson_reaches_recipients}

-- a hash that keeps the link, so that the ledgers differ in it
abbrev weak_hash : Fields → String
weak_hash d = concat "h" (prev_of d)

abbrev lesson : Fields
lesson = field "triggered" (bool true) end

abbrev one_entry : List LedgerEntry
one_entry = (append_entry weak_hash "WATER_COOLER_LESSON" lesson "t1" []).1

append_entry-valid_example :
    validate_hash_chain weak_hash (append_entry weak_hash "TRUST_CHANGE" end "t2" one_entry).1
    ≡ true
unfolding strip lstrip rstrip upper append_entry read_entries place validate_hash_chain chain
append_entry-valid_example =
    append_entry-valid weak_hash "TRUST_CHANGE" end "t2" one_entry refl refl

abbrev second_entry : LedgerEntry
second_entry = (append_entry weak_hash "TRUST_CHANGE" end "t2" one_entry).0

abbrev shuffled : List LedgerEntry
shuffled = second_entry ∷ one_entry

-- numbers in hundredths
abbrev hundredths : FloatOps ℕ
hundredths = record {
  literal = λ s.
      if s == "0.0"
      then 0
      else (if s == "1.0"
          then 100
          else (if s == "0.5"
              then 50
              else (if s == "0.8" then 80 else (if s == "1.2" then 120 else 35))));
  lt = ltb;
  le = leb;
  add = λ a b. a + b;
  mul = λ a b. a * b / 100;
  div = λ a b. a / b;
  neg = λ a. 0;
  of_nat = λ n. n;
  of_value = λ v. none;
}

abbrev forge_state : AgentState ℕ
forge_state = record {
  role = "builder";
  authority_level = 80;
  reputation_score = 50;
  trust_weights = ("forge", 50) ∷ [];
  knowledge_lessons = [];
}

abbrev registry : AgentRegistry ℕ
registry = record {
  version = 1;
  last_updated = "t0";
  agents = ("forge", forge_state) ∷ [];
  history = ("forge", 50 ∷ []) ∷ [];
}

abbrev success : GovernanceOutcome
success = record {
  agent_id = "forge";
  outcome = "SUCCESS";
  escalated = false;
  source_event_type = "WORKER_STARTED";
  source_event_id = pos 4;
  source_timestamp = "t4";
}

abbrev engine : RelationshipWeightEngine ℕ
engine = record { success_step = 5; failure_step = 7; escalation_penalty = 12 }

apply_outcomes-IsBounded_example :
    let (changes, r') = apply_outcomes hundredths engine (success ∷ success ∷ []) registry in
    IsBounded hundredths r'
    × (agent_ids hundredths r' ≡ "forge" ∷ [])
    × (r'.version ≡ 1 + length changes)
apply_outcomes-IsBounded_example =
    apply_outcomes-IsBounded hundredths engine (success ∷ success ∷ []) registry
      (record { reputation = inr (inr (refl, refl)); trust = (inr (inr (refl, refl)), tt) }, tt)

abbrev ballots : List Fields
ballots =
    field "agent_id" (str "Forge") (field "reasoning_score" (float "0.9") end)
    ∷ field "agent_id" (str "nobody") end
    ∷ []

arbitration_counts_example :
    let result = arbitrate_target hundredths registry " FORGE" ballots in
    let id = normalize_agent_id " FORGE" in
    All (IsCounted hundredths registry id) result.votes
    × (length result.votes ≤ 2)
    × (result.approved ≡ true
        → (has_agent hundredths id registry ≡ true)
          × (leb
                (decision_threshold hundredths registry)
                (aggregate hundredths registry result.votes)
              ≡ true))
arbitration_counts_example = arbitration_counts hundredths registry " FORGE" ballots

abbrev readers : Readers
readers = record { show = λ v. ""; to_int = as_int }

abbrev view_before : Fields
view_before = field "last_seen_event_id" (int (pos 3)) end

abbrev view_after : Fields
view_after = field "last_seen_event_id" (int (pos 4)) (
    field "current_event"
      (obj (
        field "type" (str "WORKER_EXITED")
          (field "payload" (obj (field "worker" (str "Forge") end)) end)))
      end)

derived_outcomes_known_example :
    All
      (IsAbout readers ("forge" ∷ []))
      (derive_outcomes readers view_before view_after ("forge" ∷ []))
    × (int_lt (pos 3) (pos 4) ≡ false
        → tool_count readers "allowed" view_after ≤ tool_count readers "allowed" view_before
        → tool_count readers "denied" view_after ≤ tool_count readers "denied" view_before
        → derive_outcomes readers view_before view_after ("forge" ∷ []) ≡ [])
unfolding get get?
derived_outcomes_known_example =
    derived_outcomes_known readers ("forge" ∷ []) view_before view_after

abbrev two_agents : AgentRegistry ℕ
two_agents = record registry { agents = ("forge", forge_state) ∷ ("recon", forge_state) ∷ [] }

abbrev quiet_view : Value
quiet_view = obj (
    field "last_seen_event_id" (int (pos 4)) (
      field "current_event"
        (obj (field "type" (str "WORKER_STARTED") (field "origin_id" (str "forge") end)))
        (field "derived"
          (obj (field "office_mode" (str "paused") (field "stress_level" (float "0.1") end))) end)))

-- every value is read as 0.1
abbrev calm : FloatOps ℕ
calm = record hundredths { of_value = λ v. some 10 }

lesson_reaches_recipients_example :
    let (p, r') = maybe_propagate calm readers weak_hash null quiet_view two_agents in
    ((p.triggered ≡ true) ↔ (
      IsQuietMoment calm readers (dict_of null) (dict_of quiet_view)
      × ((event_found : Fields) × (get "current_event" (dict_of quiet_view) ≡ obj event_found))))
    × (p.triggered ≡ is_some p.lesson)
    × IsPassedOn calm "recon" two_agents r' p.lesson
unfolding lower strip
lesson_reaches_recipients_example =
    lesson_reaches_recipients calm readers weak_hash null quiet_view "recon" two_agents
      (refl, (refl, tt))
