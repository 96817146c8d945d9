-- ===== src/Kernel/Safeguards.antt =====
-- appshak/safeguards.py: the gate before external actions and the sandbox. The state of the attempts
-- is kept by action; times are counted in microseconds. `str(value)`, the host of a URL and the text
-- of a time come from Python's libraries, and are parameters.
pub mod Gate
pub mod Cooldown
use app_shak_hq.Prelude.{
  Bool, List, Option, String, [], any, false, if◌then◌else◌, is_some, keep_if, leb, ltb, map,
  nat_eq, none, not, some, string_eq, ℕ, ◌+◌, ◌==◌, ◌||◌, ◌∷◌,
}
use app_shak_hq.Python.Text.{concat, filled, is_blank, lower, upper}
use app_shak_hq.Python.Value.{
  Fields, Value, bool, end, field, get, get?, int, null, obj, or_else, pos, str,
}
use app_shak_hq.Kernel.Substring.{is_in}
use app_shak_hq.Substrate.Supervisor.State.{contains, insert, lookup}

-- what the module takes from outside: `str(value)`, `urlparse(url).netloc` (`none` where it raises)
-- and the ISO text of a time
pub record Library : Type 0 where
  pub show : Value → String
  pub netloc : String → Option String
  pub iso : ℕ → String

pub record Attempt : Type 0 where
  pub retries : ℕ
  pub cooldown_until : ℕ

pub record SafeguardMonitor : Type 0 where
  pub retry_max : ℕ
  pub cooldown : ℕ
  pub endpoint_whitelist : List String
  pub allow_real_world_impact : Bool
  pub attempt_state : List (String × Attempt)

abbrev pub monetary_keywords : List String
monetary_keywords =
    "pay" ∷ "payment" ∷ "charge" ∷ "billing" ∷ "invoice" ∷ "wire" ∷ "transfer" ∷ "withdraw"
    ∷ "deposit" ∷ "bank" ∷ "wallet" ∷ "crypto" ∷ "money" ∷ "usd" ∷ "eur" ∷ []

abbrev pub shell_fields : List String
shell_fields = "command" ∷ "shell" ∷ "shell_command" ∷ "exec" ∷ "script" ∷ "process" ∷ []

-- `str(value)`
abbrev pub printed : Library → Value → String
printed lib (str s) = s
printed lib v = lib.show v

-- `d.get(key, default)`
abbrev pub get_or : String → Value → Fields → Value
get_or key default d = elim (get? key d) [ none ↦ default | some v ↦ v ]

-- `__init__`
abbrev pub normalize_host : Library → String → String
normalize_host lib url = elim (filled (lib.netloc url)) [ none ↦ url | some host ↦ host ]

unfoldable pub new_monitor : Library → ℕ → ℕ → List Value → Bool → SafeguardMonitor
new_monitor lib retry_max cooldown configured real_world = record {
  retry_max = retry_max;
  cooldown = cooldown;
  endpoint_whitelist =
      map (λ item. normalize_host lib (printed lib item))
        (keep_if (λ item. not (is_blank (printed lib item))) configured);
  allow_real_world_impact = real_world;
  attempt_state = [];
}

unfoldable pub run_diagnostics : SafeguardMonitor → Bool
run_diagnostics m = ltb 0 m.retry_max

module _ (lib : Library) where
  unfoldable pub extract_endpoint : Fields → String
  extract_endpoint payload =
      printed lib (or_else (or_else (get "endpoint" payload) (get "url" payload)) (str ""))

  unfoldable pub action_key : Fields → String → String → String
  action_key payload origin endpoint = concat origin (
      concat ":"
        (concat (printed lib (get_or "action" (str "default") payload)) (concat ":" endpoint)))

  unfoldable pub contains_monetary_operation : Fields → Bool
  contains_monetary_operation payload =
      let text = lower (printed lib (obj payload)) in
      any (λ word. is_in word text) monetary_keywords

  unfoldable pub method_of : Fields → String
  method_of payload = upper (printed lib (get_or "method" (str "SIMULATE") payload))

unfoldable pub contains_shell_execution : Fields → Bool
contains_shell_execution payload = any (λ k. is_some (get? k payload)) shell_fields

abbrev pub is_safe_method : String → Bool
is_safe_method method = method == "SIMULATE" || method == "NOOP"

-- `value is False`
abbrev pub is_false : Value → Bool
is_false (bool b) = not b
is_false _ = false

unfoldable pub is_whitelisted : Library → SafeguardMonitor → String → Bool
is_whitelisted lib m endpoint = contains (normalize_host lib endpoint) m.endpoint_whitelist

abbrev pub fresh_attempt : Attempt
fresh_attempt = record { retries = 0; cooldown_until = 0 }

-- `self._attempt_state.setdefault(action_key, …)`
abbrev pub attempt_of : SafeguardMonitor → String → Attempt
attempt_of m key = elim (lookup key m.attempt_state) [ none ↦ fresh_attempt | some a ↦ a ]

abbrev pub with_attempt : String → Attempt → SafeguardMonitor → SafeguardMonitor
with_attempt key a m = record m { attempt_state = insert key a m.attempt_state }

abbrev pub iso_or_null : Library → ℕ → Value
iso_or_null lib t = if t == 0 then null else str (lib.iso t)

-- whether the action is cooling down; the entry is made if it is missing
unfoldable pub cooldown_status : String → ℕ → SafeguardMonitor → Bool × ℕ × SafeguardMonitor
cooldown_status key now m =
    let a = attempt_of m key in (ltb now a.cooldown_until, a.cooldown_until, with_attempt key a m)

-- a failure counts up to the maximum; reaching it starts the cooldown
unfoldable pub after_failure : SafeguardMonitor → ℕ → Attempt → Attempt
after_failure m now a =
    if leb m.retry_max (a.retries + 1)
    then record { retries = m.retry_max; cooldown_until = now + m.cooldown }
    else record { retries = a.retries + 1; cooldown_until = a.cooldown_until }

abbrev pub attempt_after : SafeguardMonitor → ℕ → Bool → Attempt → Attempt
attempt_after m now success a = if success then fresh_attempt else after_failure m now a

unfoldable pub record_attempt :
    Library → Fields → String → ℕ → Bool → SafeguardMonitor → Fields × SafeguardMonitor
record_attempt lib payload origin now success m =
    let key = action_key lib payload origin (extract_endpoint lib payload) in
    let a = attempt_after m now success (attempt_of m key) in
    (
      field "action_key" (str key) (
          field "retries" (int (pos a.retries))
            (field "cooldown_until" (iso_or_null lib a.cooldown_until) end)),
      with_attempt key a m,
    )
