-- ===== src/Governance/WaterCooler/Taught.antt =====
-- What an agent learns by `add_lesson_reference` of appshak_governance/registry.py, as the water cooler
-- of appshak_governance/ uses it, with the lemmas on lists.
use app_shak_hq.Prelude.{
  All, Bool, Bool-cases, List, String, [], ap, arith, eq_iff, false, if◌then◌else◌, inl, inr,
  keep_if, length, nat_eq, none, not, refl, some, string_eq, suc, take, true, zero, ℕ, ◌&&◌, ◌==◌,
  ◌||◌, ◌∷◌, ◌≡◌, ◌≤◌,
}
use app_shak_hq.Substrate.Supervisor.State.{contains, lookup}
use app_shak_hq.Governance.Floats.{FloatOps}
use app_shak_hq.Governance.Registry.{
  AgentRegistry, AgentState, add_lesson_reference, normalize_agent_id, str_before, update_agents,
  with_lesson,
}

or_true : (b : Bool) → (b || true) ≡ true
or_true true = refl
or_true false = refl

with_lesson-contains :
    (lesson : String) (xs : List String) → contains lesson (with_lesson lesson xs) ≡ true
unfolding contains
with_lesson-contains lesson [] = ground (arith, eq_iff lesson lesson)
with_lesson-contains lesson (x ∷ xs) = elim (Bool-cases (str_before lesson x)) [
  | inl before ↦ rw before (ground (arith, eq_iff lesson lesson))
  | inr after ↦ rw (after, with_lesson-contains lesson xs) (or_true (x == lesson))
]

pub take-All : {A : Type 0} (P : A → Type 0) (n : ℕ) (xs : List A) → All P xs → All P (take n xs)
take-All P zero xs all = tt
take-All P (suc n) [] all = tt
take-All P (suc n) (x ∷ xs) all = (all.0, take-All P n xs all.1)

pub length-take : {A : Type 0} (n : ℕ) (xs : List A) → length (take n xs) ≤ n
length-take zero xs = omega arith
length-take (suc n) [] = omega arith
length-take (suc n) (x ∷ xs) = omega (arith, length-take n xs)

pub All-both :
    {A : Type 0} (P Q : A → Type 0) (xs : List A) → All P xs → All Q xs → All (λ x. P x × Q x) xs
All-both P Q [] p q = tt
All-both P Q (x ∷ xs) p q = ((p.0, q.0), All-both P Q xs p.1 q.1)

pub All-then :
    {A : Type 0} (P Q : A → Type 0) (xs : List A) → ((x : A) → P x → Q x) → All P xs → All Q xs
All-then P Q [] f all = tt
All-then P Q (x ∷ xs) f all = (f x all.0, All-then P Q xs f all.1)

pub kept-All :
    {A : Type 0} (P : A → Type 0) (test : A → Bool) (xs : List A)
    → All P xs
    → All (λ x. P x × (test x ≡ true)) (keep_if test xs)
kept-All P test [] all = tt
kept-All P test (x ∷ xs) all = elim (Bool-cases (test x)) [
  | inl holds ↦ rw holds ((all.0, holds), kept-All P test xs all.1)
  | inr fails ↦ rw fails (kept-All P test xs all.1)
]

module _ {F : Type 0} (ops : FloatOps F) where
  lookup-update_agents :
      (f : String → AgentState F → AgentState F) (asked : String)
      (agents : List (String × AgentState F))
      → lookup asked (update_agents ops f agents)
        ≡ (elim (lookup asked agents) [ none ↦ none | some a ↦ some (f asked a) ])
  unfolding lookup
  lookup-update_agents f asked [] = refl
  lookup-update_agents f asked ((id, a) ∷ agents) = elim (Bool-cases (id == asked)) [
    | inl same ↦
        let equal : id ≡ asked = (eq_iff id asked).0 same in rw same (ap (λ i. some (f i a)) equal)
    | inr other ↦ rw other (lookup-update_agents f asked agents)
  ]

  -- The agent is there and knows the lesson.
  abbrev pub Knows : String → String → AgentRegistry F → Type 0
  Knows lesson id r =
      (a : AgentState F) × (lookup id r.agents ≡ some a)
      × (contains lesson a.knowledge_lessons ≡ true)

  -- what becomes of one agent
  abbrev pub taught : String → String → String → AgentState F → AgentState F
  taught agent lesson id a =
      if id == normalize_agent_id agent && not (contains lesson a.knowledge_lessons)
      then record a { knowledge_lessons = with_lesson lesson a.knowledge_lessons }
      else a

  pub lookup-add_lesson :
      (agent lesson asked : String) (r : AgentRegistry F)
      → lookup asked (add_lesson_reference ops agent lesson r).agents
        ≡ (elim (lookup asked r.agents) [
          | none ↦ none
          | some a ↦ some (taught agent lesson asked a)
        ])
  unfolding add_lesson_reference
  lookup-add_lesson agent lesson asked r = lookup-update_agents (taught agent lesson) asked r.agents

  pub taught-knows :
      (agent lesson id : String) (a : AgentState F)
      → (id == normalize_agent_id agent) ≡ true
      → contains lesson (taught agent lesson id a).knowledge_lessons ≡ true
  taught-knows agent lesson id a same = elim (Bool-cases (contains lesson a.knowledge_lessons)) [
    | inl known ↦ rw (same, known) known
    | inr new ↦ rw (same, new) (with_lesson-contains lesson a.knowledge_lessons)
  ]

  pub taught-keeps :
      (agent lesson id : String) (a : AgentState F)
      → contains lesson a.knowledge_lessons ≡ true
      → taught agent lesson id a ≡ a
  taught-keeps agent lesson id a known = elim (Bool-cases (id == normalize_agent_id agent)) [
    | inl same ↦ rw (same, known) refl
    | inr other ↦ rw other refl
  ]
