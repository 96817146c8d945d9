-- ===== src/Substrate/Supervisor/State.antt =====
-- The settings and the state of a `Supervisor`, and its actions as a monad. Times are counted in
-- microseconds.
use app_shak_hq.Prelude.{
  Bool, List, Option, String, [], arith, eq_iff, false, if◌then◌else◌, keep_if, map, max, nat_eq,
  none, not, refl, some, string_eq, ℕ, ◌*◌, ◌/◌, ◌==◌, ◌||◌, ◌∷◌, ◌≡◌,
}
use app_shak_hq.Python.Text.{is_blank, lower, strip}
use app_shak_hq.Python.Value.{Fields, Value, ℤ}
use app_shak_hq.Python.Exec.{Error, Result, ok, raised, value_error}
use app_shak_hq.Substrate.MailStore.Tables.{Store}

pub record Settings : Type 0 where
  pub agent_ids : List String
  pub include_unrouted : Bool
  pub heartbeat_interval : ℕ
  pub heartbeat_timeout : ℕ
  pub max_restarts : ℕ
  pub restart_backoff : ℕ
  pub restart_backoff_cap : ℕ
  pub restart_window : ℕ
  pub restart_window_limit : ℕ
  pub workspace_roots : List (String × String)

-- `str(agent).strip().lower()`
abbrev pub normalized : String → String
normalized agent = lower (strip agent)

-- the parameters as they are handed to `__init__`, put within their bounds
unfoldable pub checked_settings : Settings → Result Settings
checked_settings p =
    let agents = map normalized (keep_if (λ a. not (is_blank a)) p.agent_ids) in
    let interval = max 200000 p.heartbeat_interval in
    let backoff = max 100000 p.restart_backoff in
    elim agents [
      | [] ↦ raised (value_error "Supervisor requires at least one agent id.")
      | agent ∷ others ↦ ok (record p {
        agent_ids = agent ∷ others;
        heartbeat_interval = interval;
        heartbeat_timeout = max (interval * 3 / 2) p.heartbeat_timeout;
        restart_backoff = backoff;
        restart_backoff_cap = max backoff p.restart_backoff_cap;
        restart_window = max 5000000 p.restart_window;
        restart_window_limit = max 1 p.restart_window_limit;
        workspace_roots = map (λ e. (normalized e.0, e.1)) p.workspace_roots;
      })
    ]

pub record WorkerState : Type 0 where
  pub agent_id : String
  pub pid : ℕ
  pub consumer_id : String
  pub worktree : String
  pub started_monotonic : ℕ

-- dictionaries by agent; `journal` is what `_log_json` has written
pub record Supervisor : Type 0 where
  pub settings : Settings
  pub store : Store
  pub workers : List (String × WorkerState)
  pub restart_counts : List (String × ℕ)
  pub restart_history : List (String × List ℕ)
  pub scheduled_restarts : List (String × ℕ)
  pub disabled_workers : List String
  pub recent_control_keys : List (String × ℕ)
  pub stop_requested : Bool
  pub journal : List (String × Fields)

-- What one pass reads from outside: the clocks, which stand still during the pass, what the
-- processes' handles say by their ids, the working directory, the paths that exist, the id of the
-- next process for an agent, and Python's printer and parser of numbers and times.
pub record Env : Type 0 where
  pub monotonic : ℕ
  pub wall : ℕ
  pub now_text : String
  pub poll : ℕ → Option ℤ
  pub code_after_kill : ℕ → Option ℤ
  pub path_exists : String → Bool
  pub current_dir : String
  pub next_pid : String → ℕ
  pub show : Value → String
  pub parse_time : String → Option ℕ

module _ {ℓ} {V : Type ℓ} where
  -- `d.get(key)`
  unfoldable pub lookup : String → List (String × V) → Option V
  lookup key [] = none
  lookup key ((other, held) ∷ dict) = if other == key then some held else lookup key dict

  -- `d.pop(key, None)`
  unfoldable pub remove : String → List (String × V) → List (String × V)
  remove key [] = []
  remove key ((other, held) ∷ dict) =
      let rest = remove key dict in if other == key then rest else (other, held) ∷ rest

  -- `d[key] = new`
  unfoldable pub insert : String → V → List (String × V) → List (String × V)
  insert key new [] = (key, new) ∷ []
  insert key new ((other, held) ∷ dict) =
      let rest = insert key new dict in
      if other == key then (key, new) ∷ dict else (other, held) ∷ rest

  pub lookup-remove :
      (key asked : String) (dict : List (String × V))
      → lookup asked (remove key dict) ≡ (if key == asked then none else lookup asked dict)
  unfolding lookup remove
  lookup-remove key asked [] = ground arith
  lookup-remove key asked ((other, held) ∷ dict) =
      ground (
        arith,
        lookup-remove key asked dict,
        eq_iff key asked,
        eq_iff other key,
        eq_iff other asked,
      )

  pub lookup-insert :
      (key asked : String) (new : V) (dict : List (String × V))
      → lookup asked (insert key new dict) ≡ (if key == asked then some new else lookup asked dict)
  unfolding lookup insert
  lookup-insert key asked new [] = refl
  lookup-insert key asked new ((other, held) ∷ dict) = ground (
    arith,
    lookup-insert key asked new dict,
    eq_iff key asked,
    eq_iff other key,
    eq_iff other asked,
  )

-- membership in the set of disabled workers
unfoldable pub contains : String → List String → Bool
contains a [] = false
contains a (b ∷ bs) = b == a || contains a bs

abbrev pub number_or_zero : Option ℕ → ℕ
number_or_zero none = 0
number_or_zero (some n) = n

abbrev pub stamps_or_none : Option (List ℕ) → List ℕ
stamps_or_none none = []
stamps_or_none (some ts) = ts

-- an action: its result or the exception, and the state that it leaves
abbrev pub Action : Type 0 → Type 0
Action A = Supervisor → Result A × Supervisor

abbrev pub continue : {A B : Type 0} → Result A → (A → Action B) → Action B
continue (ok a) f s = f a s
continue (raised e) f s = (raised e, s)

infixl 10 ◌>>=◌ ◌>>◌
unfoldable pub ◌>>=◌ : {A B : Type 0} → Action A → (A → Action B) → Action B
◌>>=◌ m f s = let (r, s') = m s in continue r f s'

abbrev pub ◌>>◌ : {A B : Type 0} → Action A → Action B → Action B
m >> n = m >>= λ _. n

abbrev pub pure : {A : Type 0} → A → Action A
pure a s = (ok a, s)

abbrev pub get_state : Action Supervisor
get_state s = (ok s, s)

abbrev pub modify : (Supervisor → Supervisor) → Action (Unit {0})
modify f s = (ok tt, f s)

abbrev pub raise : {A : Type 0} → Error → Action A
raise e s = (raised e, s)

-- a step of the mail store
abbrev pub stored : {A : Type 0} → Result (A × Store) → Action A
stored (ok (a, t)) s = (ok a, record s { store = t })
stored (raised e) s = (raised e, s)

abbrev pub on_store : {A : Type 0} → (Store → Result (A × Store)) → Action A
on_store f s = stored (f s.store) s
