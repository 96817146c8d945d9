-- ===== src/Substrate/Supervisor/Keeps.antt =====
-- Invariants of actions, one rule for each way to build an action, and the part of the state that
-- decides on restarts, which control events do not touch.
use app_shak_hq.Prelude.{
  Bool, Bool-cases, List, String, false, if◌then◌else◌, inl, inr, none, refl, some, true, ℕ, ◌≡◌,
}
use app_shak_hq.Python.Value.{Fields}
use app_shak_hq.Substrate.MailStore.Tables.{Store}
use app_shak_hq.Substrate.Supervisor.State.{
  Action, Env, Settings, Supervisor, WorkerState, continue, lookup, on_store, pure, stored, ◌>>=◌,
}
use app_shak_hq.Substrate.Supervisor.Control.{
  ControlEvent, append_control, event_key, is_recent, or_text, publish_control_event,
  record_worker_event, reserve_and_append,
}
use app_shak_hq.Python.Exec.{Result, ok, raised}

-- `m` keeps `P`, whether it returns or raises.
pub record Keeps {A : Type 0} (P : Supervisor → Type 0) (m : Action A) : Type 0 where
  pub at : (s : Supervisor) → P s → P (m s).1

module _ {P : Supervisor → Type 0} {A : Type 0} where
  pub Keeps-if :
      (test : Bool) (m n : Action A) → Keeps P m → Keeps P n → Keeps P (if test then m else n)
  Keeps-if true m n first second = first
  Keeps-if false m n first second = second

  pub Keeps-pure : (value : A) → Keeps P (pure value)
  Keeps-pure value = record { at = λ state kept. kept }

  module _ {B : Type 0} where
    Keeps-continue :
        (outcome : Result A) (next : A → Action B) (state : Supervisor)
        → P state
        → ((value : A) → Keeps P (next value))
        → P (continue outcome next state).1
    Keeps-continue (raised e) next state kept keeps = kept
    Keeps-continue (ok value) next state kept keeps = (keeps value).at state kept

    pub Keeps-bind :
        (first : Action A) (next : A → Action B)
        → Keeps P first
        → ((value : A) → Keeps P (next value))
        → Keeps P (first >>= next)
    unfolding ◌>>=◌
    Keeps-bind first next k keeps = record {
      at = λ state kept.
          let (outcome, after) = first state in
          Keeps-continue outcome next after (k.at state kept) keeps;
    }

-- A property of the state after a branch on `b`.
pub if-holds :
    {A : Type 0} (P : Supervisor → Type 0) (b : Bool) (x y : Result A × Supervisor)
    → (b ≡ true → P x.1)
    → (b ≡ false → P y.1)
    → P (if b then x else y).1
if-holds P true x y on off = on refl
if-holds P false x y on off = off refl

-- what the decisions on restarts read and write
pub record Liveness : Type 0 where
  pub settings : Settings
  pub workers : List (String × WorkerState)
  pub restart_counts : List (String × ℕ)
  pub restart_history : List (String × List ℕ)
  pub scheduled_restarts : List (String × ℕ)
  pub disabled_workers : List String
  pub stop_requested : Bool

abbrev pub live : Supervisor → Liveness
live s = record {
  settings = s.settings;
  workers = s.workers;
  restart_counts = s.restart_counts;
  restart_history = s.restart_history;
  scheduled_restarts = s.scheduled_restarts;
  disabled_workers = s.disabled_workers;
  stop_requested = s.stop_requested;
}

-- The action leaves all of it as it is.
abbrev pub KeepsLive : {A : Type 0} → Action A → Type 0
KeepsLive m = (l : Liveness) → Keeps (λ s. live s ≡ l) m

on_store-KeepsLive : {A : Type 0} (f : Store → Result (A × Store)) → KeepsLive (on_store f)
on_store-KeepsLive {A} f l = record { at = λ s h. by_result (f s.store) s h }
  where
    by_result : (r : Result (A × Store)) (s : Supervisor) → live s ≡ l → live (stored r s).1 ≡ l
    by_result (ok (a, t)) s h = h
    by_result (raised e) s h = h

module _ (env : Env) where
  append_control-KeepsLive :
      (c : ControlEvent) (corr key : String) → KeepsLive (append_control env c corr key)
  unfolding append_control
  append_control-KeepsLive c corr key l =
      Keeps-bind _ _ (on_store-KeepsLive _ l)
        λ id. Keeps-bind _ _ (record { at = λ s h. h }) λ _. Keeps-pure (some id)

  reserve_and_append-KeepsLive : (c : ControlEvent) → KeepsLive (reserve_and_append env c)
  unfolding reserve_and_append
  reserve_and_append-KeepsLive c l =
      Keeps-bind _ _ (on_store-KeepsLive _ l)
        λ reserved. Keeps-if reserved _ _ (append_control-KeepsLive c _ _ l) (Keeps-pure none)

  pub publish_control_event-KeepsLive : (c : ControlEvent) → KeepsLive (publish_control_event env c)
  unfolding publish_control_event
  publish_control_event-KeepsLive c l = record {
    at = λ s h.
        let key = or_text c.dedupe_key (event_key c) in
        elim (Bool-cases
          (is_recent env.monotonic c.dedupe_ttl (lookup key s.recent_control_keys))) [
            | inl dropped ↦ rw (dropped, publish_control_event) h
            | inr sent ↦
                rw (sent, publish_control_event) ((reserve_and_append-KeepsLive c l).at _ h)
          ];
  }

  pub record_worker_event-KeepsLive :
      (event_type agent : String) (details : Fields)
      → KeepsLive (record_worker_event env event_type agent details)
  unfolding record_worker_event
  record_worker_event-KeepsLive event_type agent details l =
      Keeps-bind _ _ (publish_control_event-KeepsLive _ l) λ _. record { at = λ s h. h }
