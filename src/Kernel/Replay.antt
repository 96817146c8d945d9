-- ===== src/Kernel/Replay.antt =====
-- The replay of what the bus has published: `replay_events` of appshak/kernel.py over
-- `load_published_events_for_replay` of appshak/memory.py. The log is the list of its records: every
-- line is one that the memory has written. A limit below zero is like 0.
pub mod Deque
pub mod Marks
pub mod Again
use app_shak_hq.Prelude.{
  Bool, List, Option, String, [], if◌then◌else◌, leb, length, max, nat_eq, none, some, string_eq,
  true, ℕ, ◌++◌, ◌+◌, ◌==◌, ◌∷◌,
}
use app_shak_hq.Python.Value.{Fields, bool, end, field, get, obj, put, str}
use app_shak_hq.Kernel.Events.{Event, Raw, a_mapping, own_payload}
use app_shak_hq.Kernel.Safeguards.{Library, get_or, printed}
use app_shak_hq.Kernel.State.{
  AppShakKernel, KernelAction, Outside, log_kernel_error, publish_raw, pure, resume, ◌>>◌,
}
use app_shak_hq.Substrate.Supervisor.State.{contains}
use app_shak_hq.Python.Exec.{Result, ok, raised}

abbrev pub drop_first {ℓ} : {A : Type ℓ} → List A → List A
drop_first [] = []
drop_first (x ∷ xs) = xs

-- `deque(maxlen=bound).append(x)`
unfoldable pub append_bounded {ℓ} : {A : Type ℓ} → ℕ → A → List A → List A
append_bounded bound x xs =
    let longer = xs ++ x ∷ [] in if leb (length longer) bound then longer else drop_first longer

-- whether an event with this text for its type is wanted
abbrev pub is_included : Option (List String) → String → Bool
is_included none kind = true
is_included (some allowed_types) kind = contains kind allowed_types

module _ (lib : Library) (bound : ℕ) (include_types : Option (List String)) where
  -- one record of the log
  abbrev pub selected_after : String → Fields → List Fields → List Fields
  selected_after kind payload selected =
      if kind == "EVENT_PUBLISHED"
      then (if is_included include_types (printed lib (get_or "type" (str "") payload))
          then append_bounded bound payload selected
          else selected)
      else selected

  abbrev pub select_from : List Fields → List (String × Fields) → List Fields
  select_from selected [] = selected
  select_from selected ((kind, payload) ∷ log) =
      select_from (selected_after kind payload selected) log

abbrev pub load_published_events :
    Library → ℕ → Option (List String) → List (String × Fields) → List Fields
load_published_events lib limit include_types log =
    select_from lib (max 1 limit) include_types [] log

abbrev pub replay_justification : String
replay_justification = "Replay supports resilience analysis under the Prime Directive."

abbrev pub replay_payload : Fields → Fields
replay_payload source =
    let marked =
      put "replayed_from_timestamp" (get "timestamp" source)
        (put "replayed" (bool true) (own_payload (get "payload" source))) in
    put "prime_directive_justification"
      (get_or "prime_directive_justification" (str replay_justification) marked) marked

module _ (out : Outside) where
  abbrev pub replayed_event : String → Fields → Raw
  replayed_event origin source = a_mapping (
      field "type" (get "type" source) (
        field "origin_id" (str origin) (
          field "timestamp" (str out.now_text)
            (field "payload" (obj (replay_payload source)) end))))

  -- what comes after one publication: the count, or the report of what was raised
  abbrev pub replay_counted : ℕ → Result Event × AppShakKernel → Result ℕ × AppShakKernel
  replay_counted replayed (ok e, k) = (ok (replayed + 1), k)
  replay_counted replayed (raised e, k) = (log_kernel_error out "replay" e >> pure replayed) k

  unfoldable pub replay_each : String → List Fields → ℕ → KernelAction ℕ
  unfolding publish_raw log_kernel_error
  replay_each origin [] replayed k = (ok replayed, k)
  replay_each origin (source ∷ sources) replayed k =
      let (r, k') = replay_counted replayed (publish_raw out (replayed_event origin source) k) in
      resume r (λ n. replay_each origin sources n) k'

  unfoldable pub replay_events : ℕ → Option (List String) → String → KernelAction ℕ
  unfolding replay_each
  replay_events limit include_types origin k =
      replay_each origin (load_published_events out.library limit include_types k.memory.global_log)
        0 k
