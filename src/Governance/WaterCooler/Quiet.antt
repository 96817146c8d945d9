-- ===== src/Governance/WaterCooler/Quiet.antt =====
-- When appshak_governance/water_cooler.py makes a lesson.
use mathlib.Core.Bool.{false≢true}
use app_shak_hq.Prelude.{
  Bool, String, and_true, arith, eq_iff, false, nat_eq, not, refl, string_eq, subst, true, ◌<◌,
  ◌==◌, ◌↔◌, ◌≡◌,
}
use app_shak_hq.Python.Text.{strip, upper}
use app_shak_hq.Python.Value.{
  Fields, Value, arr, bool, float, get, int, negsuc, null, obj, pos, str, ℤ,
}
use app_shak_hq.Governance.Floats.{FloatOps, as_float, one_float}
use app_shak_hq.Governance.Registry.{AgentRegistry}
use app_shak_hq.Governance.Outcomes.{Readers, as_int_or_zero, int_lt, text_at}
use app_shak_hq.Governance.WaterCooler.{idle_trigger, is_paused, with_event}

-- the order of the whole numbers
abbrev pub IsLess : ℤ → ℤ → Type 0
IsLess (pos a) (pos b) = a < b
IsLess (pos a) (negsuc b) = ⊥
IsLess (negsuc a) (pos b) = Unit {0}
IsLess (negsuc a) (negsuc b) = b < a

int_lt_iff : (a b : ℤ) → (int_lt a b ≡ true) ↔ IsLess a b
int_lt_iff (pos a) (pos b) = (λ h. ground arith, λ h. ground arith)
int_lt_iff (pos a) (negsuc b) = (λ h. absurd (false≢true h), λ h. absurd h)
int_lt_iff (negsuc a) (pos b) = (λ h. tt, λ h. refl)
int_lt_iff (negsuc a) (negsuc b) = (λ h. ground arith, λ h. ground arith)

obj_inj : {a b : Fields} → obj a ≡ obj b → a ≡ b
obj_inj h = cc

-- a value that is no dictionary
abbrev IsOther : Value → Type 0
IsOther (obj d) = ⊥
IsOther _ = Unit {0}

not_obj : (v : Value) (d : Fields) → IsOther v → v ≡ obj d → ⊥
not_obj v d other same = subst IsOther same other

pub false_when_not : (b : Bool) → not b ≡ true → b ≡ false
false_when_not false h = refl
false_when_not true h = absurd cc

module _ {F : Type 0} (ops : FloatOps F) (py : Readers) where
  -- the office is paused and its stress level is not above 0.2
  abbrev pub IsPaused : Value → Type 0
  IsPaused v =
      (derived : Fields) × (v ≡ obj derived)
      × (upper (strip (text_at py "office_mode" derived)) ≡ "PAUSED")
      × (ops.lt (ops.literal "0.2") (as_float ops (get "stress_level" derived) (one_float ops))
          ≡ false)

  abbrev pub IsQuietMoment : Fields → Fields → Type 0
  IsQuietMoment previous current =
      IsLess (as_int_or_zero py (get "last_seen_event_id" previous))
        (as_int_or_zero py (get "last_seen_event_id" current))
      × IsPaused (get "derived" current)

  IsPaused-iff :
      (hash : Fields → String) (v : Value) → (is_paused ops py hash v ≡ true) ↔ IsPaused v
  IsPaused-iff hash (obj derived) =
      let mode = upper (strip (text_at py "office_mode" derived)) in
      let strained =
        ops.lt (ops.literal "0.2") (as_float ops (get "stress_level" derived) (one_float ops)) in
      (
        λ h.
            let (paused, calm) = and_true (mode == "PAUSED") (not strained) h in
            (derived, refl, (eq_iff mode "PAUSED").0 paused, false_when_not strained calm),
        λ h.
            let (other, same, paused, calm) = h in
            let e : derived ≡ other = obj_inj same in
            let here : mode ≡ "PAUSED" = rw e paused in
            let quiet : strained ≡ false = rw e calm in
            rw ((eq_iff mode "PAUSED").1 here, quiet) refl,
      )
  IsPaused-iff hash null = (λ h. absurd (false≢true h), λ h. absurd (not_obj _ h.0 tt h.1))
  IsPaused-iff hash (bool b) = (λ h. absurd (false≢true h), λ h. absurd (not_obj _ h.0 tt h.1))
  IsPaused-iff hash (int n) = (λ h. absurd (false≢true h), λ h. absurd (not_obj _ h.0 tt h.1))
  IsPaused-iff hash (float x) = (λ h. absurd (false≢true h), λ h. absurd (not_obj _ h.0 tt h.1))
  IsPaused-iff hash (str t) = (λ h. absurd (false≢true h), λ h. absurd (not_obj _ h.0 tt h.1))
  IsPaused-iff hash (arr vs) = (λ h. absurd (false≢true h), λ h. absurd (not_obj _ h.0 tt h.1))

  module _ (hash : Fields → String) where
    pub idle_iff :
        (previous current : Fields)
        → (idle_trigger ops py hash previous current ≡ true) ↔ IsQuietMoment previous current
    unfolding idle_trigger
    idle_iff previous current =
        let earlier = as_int_or_zero py (get "last_seen_event_id" previous) in
        let later = as_int_or_zero py (get "last_seen_event_id" current) in
        let paused = IsPaused-iff hash (get "derived" current) in
        (
          λ h.
              let (newer, still) =
                and_true (int_lt earlier later) (is_paused ops py hash (get "derived" current)) h in
              ((int_lt_iff earlier later).0 newer, paused.0 still),
          λ h. rw ((int_lt_iff earlier later).1 h.0, paused.1 h.1) refl,
        )

    pub with_event-triggered :
        (current : Fields) (found : Value) (r : AgentRegistry F) (previous : Fields)
        → IsQuietMoment previous current
        → ((with_event ops py hash current found r).0.triggered ≡ true)
          ↔ (IsQuietMoment previous current × ((e : Fields) × (found ≡ obj e)))
    with_event-triggered current (obj e) r previous quiet = (λ h. (quiet, (e, refl)), λ h. refl)
    with_event-triggered current null r previous quiet =
        (λ h. absurd (false≢true h), λ h. absurd (not_obj _ h.1.0 tt h.1.1))
    with_event-triggered current (bool b) r previous quiet =
        (λ h. absurd (false≢true h), λ h. absurd (not_obj _ h.1.0 tt h.1.1))
    with_event-triggered current (int n) r previous quiet =
        (λ h. absurd (false≢true h), λ h. absurd (not_obj _ h.1.0 tt h.1.1))
    with_event-triggered current (float x) r previous quiet =
        (λ h. absurd (false≢true h), λ h. absurd (not_obj _ h.1.0 tt h.1.1))
    with_event-triggered current (str t) r previous quiet =
        (λ h. absurd (false≢true h), λ h. absurd (not_obj _ h.1.0 tt h.1.1))
    with_event-triggered current (arr vs) r previous quiet =
        (λ h. absurd (false≢true h), λ h. absurd (not_obj _ h.1.0 tt h.1.1))
