-- ===== src/Kernel/Route/Drain.antt =====
-- What the routing of appshak/kernel.py puts back on the bus, and that a queue runs empty.
use app_shak_hq.Prelude.{
  All, Bool, Bool-cases, List, [], arith, false, if◌then◌else◌, inl, inr, length, refl, some, suc,
  sym, true, zero, ℕ, ◌&&◌, ◌*◌, ◌++◌, ◌+◌, ◌∙◌, ◌∷◌, ◌≡◌, ◌≤◌,
}
use app_shak_hq.Python.Text.{is_blank, lstrip, rstrip, strip}
use app_shak_hq.Python.Value.{Fields, get, get?, put, setdefault}
use app_shak_hq.Kernel.Events.{
  Event, EventType, agent_status, blocked, bus_get_next, constitution_violation, event_dict,
  external_action_request, external_action_result, got, intent_dispatch, kernel_error,
  kernel_recovery, kernel_shutdown, kernel_start, proposal, proposal_decision, proposal_invalid,
  proposal_vote_modified, too_late,
}
use app_shak_hq.Kernel.Safeguards.{SafeguardMonitor, record_attempt}
use app_shak_hq.Kernel.State.{
  AppShakKernel, KernelAction, Outside, event_is_compliant, is_justified, resume, violation_details,
}
use app_shak_hq.Kernel.Chief.{approve_external_action, approves, arbitrate}
use app_shak_hq.Kernel.Route.{
  blocked_by_safeguard, blocked_details, blocked_result, checked_action, denied_by_chief,
  denied_result, dispatch, executed, executed_result, log_external_stage, process_external_action,
  route_event, succeeded,
}
use app_shak_hq.Kernel.Route.Known.{
  arbitrate-eq, decision_event, handle_external_action-eq, publish_system_event-eq, report_event,
  system_event,
}
use app_shak_hq.Kernel.Route.Stages.{append_assoc, approved-eq}
use app_shak_hq.Python.Exec.{Result, ok}
use app_shak_hq.Kernel.Safeguards.Gate.{check_request, execute_in_sandbox, is_allowed}

-- the kernel answers events of these types by nothing
abbrev settles : EventType → Bool
settles proposal = false
settles external_action_request = false
settles _ = true

abbrev pub is_quiet : Event → Bool
is_quiet e = is_justified e.payload && settles e.event_type

violation_quiet :
    (out : Outside) (e : Event) (index : ℕ)
    → is_quiet (system_event out constitution_violation (violation_details e) index) ≡ true
unfolding get get? setdefault put is_blank strip lstrip rstrip
violation_quiet out e index = refl

blocked_quiet :
    (out : Outside) (e : Event) (index : ℕ)
    → is_quiet (system_event out constitution_violation (blocked_details out e) index) ≡ true
unfolding get get? setdefault put is_blank strip lstrip rstrip
blocked_quiet out e index = refl

report_quiet :
    (out : Outside) (result : Fields) (index : ℕ) → is_quiet (report_event out result index) ≡ true
unfolding get get? setdefault put is_blank strip lstrip rstrip
report_quiet out result index = refl

decision_quiet :
    (out : Outside) (e : Event) (index : ℕ) → is_quiet (decision_event out e index) ≡ true
unfolding arbitrate get get? setdefault put is_blank strip lstrip rstrip
decision_quiet out e index = refl

-- What a call does to the bus: it does not raise, and what it puts on the bus are at most so many
-- events, all of them quiet.
record Adds (n : ℕ) (k : AppShakKernel) (r : Result (Unit {0}) × AppShakKernel) : Type 0 where
  fine : r.0 ≡ ok tt
  new : List Event
  queued : r.1.bus.queue ≡ k.bus.queue ++ new
  quiet : All (λ x. is_quiet x ≡ true) new
  few : length new ≤ n

append_nil : {A : Type 0} (xs : List A) → xs ++ [] ≡ xs
append_nil [] = refl
append_nil (x ∷ xs) = rw (append_nil xs) refl

same_queue : {k k' : AppShakKernel} → k'.bus ≡ k.bus → Adds 0 k (ok tt, k')
same_queue {k} h = record {
  fine = refl;
  new = [];
  queued = rw h (sym (append_nil k.bus.queue));
  quiet = tt;
  few = omega arith;
}

one_more :
    (e : Event) {k k' : AppShakKernel}
    → k'.bus.queue ≡ k.bus.queue ++ e ∷ []
    → is_quiet e ≡ true
    → Adds 1 k (ok tt, k')
one_more e h q = record {
  fine = refl;
  new = e ∷ [];
  queued = h;
  quiet = (q, tt);
  few = omega arith;
}

module _ (out : Outside) (e : Event) (k : AppShakKernel) where
  check_made : Fields × SafeguardMonitor
  check_made = check_request out.library e.payload e.origin_id out.now k.safeguards

  execution_made : Fields
  execution_made = execute_in_sandbox out.library e.payload e.origin_id

  attempt_made : Bool → Fields
  unfolding check_made
  attempt_made success =
      (record_attempt out.library e.payload e.origin_id out.now success check_made.1).0

  denied_answers : approves e.payload ≡ false → Adds 2 k (process_external_action out e k)
  unfolding process_external_action log_external_stage denied_by_chief
  denied_answers denied =
      let r = denied_result out e (approve_external_action out e) in
      rw (approved-eq out e k, denied, handle_external_action-eq)
        (record {
          fine = refl;
          new = report_event out r k.bus.next_index ∷ [];
          queued = refl;
          quiet = (report_quiet out r _, tt);
          few = omega arith;
        })

  blocked_answers :
      approves e.payload ≡ true
      → is_allowed check_made.0 ≡ false
      → Adds 2 k (process_external_action out e k)
  unfolding process_external_action log_external_stage checked_action blocked_by_safeguard
      check_made attempt_made
  blocked_answers approved stopped =
      let r =
        blocked_result out e (approve_external_action out e) check_made.0 (attempt_made false) in
      let blame =
        system_event out constitution_violation (blocked_details out e) k.bus.next_index in
      let report = report_event out r (k.bus.next_index + 1) in
      rw
        (approved-eq out e k, approved, stopped, publish_system_event-eq, handle_external_action-eq)
        (record {
          fine = refl;
          new = blame ∷ report ∷ [];
          queued = append_assoc k.bus.queue (blame ∷ []) (report ∷ []);
          quiet = (blocked_quiet out e _, (report_quiet out r _, tt));
          few = omega arith;
        })

  executed_answers :
      approves e.payload ≡ true
      → is_allowed check_made.0 ≡ true
      → Adds 2 k (process_external_action out e k)
  unfolding process_external_action log_external_stage checked_action executed check_made
      execution_made attempt_made
  executed_answers approved allowed =
      let r =
        executed_result out e (approve_external_action out e) check_made.0 execution_made
          (attempt_made (succeeded out execution_made)) in
      rw (approved-eq out e k, approved, allowed, handle_external_action-eq)
        (record {
          fine = refl;
          new = report_event out r k.bus.next_index ∷ [];
          queued = refl;
          quiet = (report_quiet out r _, tt);
          few = omega arith;
        })

  answers : Adds 2 k (process_external_action out e k)
  answers = elim (Bool-cases (approves e.payload)) [
    | inr denied ↦ denied_answers denied
    | inl approved ↦ elim (Bool-cases (is_allowed check_made.0)) [
      | inr stopped ↦ blocked_answers approved stopped
      | inl allowed ↦ executed_answers approved allowed
    ]
  ]

-- how many events routing may put on the bus
abbrev fan : Bool → ℕ
fan quiet = if quiet then 0 else 2

module _ (out : Outside) (e : Event) where
  dispatched : (t : EventType) (k : AppShakKernel) → Adds (fan (settles t)) k (dispatch out e t k)
  dispatched proposal k = rw arbitrate-eq (record {
    fine = refl;
    new = decision_event out e k.bus.next_index ∷ [];
    queued = refl;
    quiet = (decision_quiet out e _, tt);
    few = omega arith;
  })
  dispatched external_action_request k = answers out e k
  dispatched proposal_invalid k = same_queue refl
  dispatched proposal_decision k = same_queue refl
  dispatched proposal_vote_modified k = same_queue refl
  dispatched external_action_result k = same_queue refl
  dispatched constitution_violation k = same_queue refl
  dispatched kernel_start k = same_queue refl
  dispatched kernel_shutdown k = same_queue refl
  dispatched kernel_error k = same_queue refl
  dispatched kernel_recovery k = same_queue refl
  dispatched agent_status k = same_queue refl
  dispatched intent_dispatch k = same_queue refl

  abbrev consumed : AppShakKernel → AppShakKernel
  consumed k = record k {
    memory = record k.memory {
      global_log = k.memory.global_log ++ ("EVENT_CONSUMED", event_dict e) ∷ [];
    };
  }

  routed : (k : AppShakKernel) → Adds (fan (is_quiet e)) k (route_event out e k)
  unfolding route_event event_is_compliant
  routed k = elim (Bool-cases (is_justified e.payload)) [
    | inr missing ↦
        rw (missing, publish_system_event-eq)
          (record {
            fine = refl;
            new =
                system_event out constitution_violation (violation_details e) k.bus.next_index ∷ [];
            queued = refl;
            quiet = (violation_quiet out e _, tt);
            few = omega arith;
          })
    | inl just ↦
        let r = dispatched e.event_type (consumed k) in
        rw just
          (record { fine = r.fine; new = r.new; queued = r.queued; quiet = r.quiet; few = r.few })
  ]

-- the turns that an event may cost: its own, and those of what routing it puts on the bus
abbrev turns_of : Event → ℕ
turns_of e = fan (is_quiet e) + 1

abbrev work : List Event → ℕ
work [] = 0
work (e ∷ es) = turns_of e + work es

work-append : (es fs : List Event) → work (es ++ fs) ≡ work es + work fs
work-append [] fs = omega arith
work-append (e ∷ es) fs = omega (arith, work-append es fs)

work-quiet : (es : List Event) → All (λ x. is_quiet x ≡ true) es → work es ≡ length es
work-quiet [] q = refl
work-quiet (e ∷ es) q = rw q.0 (omega (arith, work-quiet es q.1))

work_bound : (es : List Event) → work es ≤ 3 * length es
work_bound [] = omega arith
work_bound (e ∷ es) = elim (Bool-cases (is_quiet e)) [
  | inl quiet ↦ rw quiet (omega (arith, work_bound es))
  | inr loud ↦ rw loud (omega (arith, work_bound es))
]

-- Turns of the kernel that take an event from the bus without waiting and route it, until nothing is
-- there.
unfoldable pub drain : Outside → ℕ → KernelAction (Unit {0})
drain out zero k = (ok tt, k)
drain out (suc n) k =
    let (next, bus) = bus_get_next (λ b. b) (some 0) k.bus in
    elim next [
      | got e ↦
          let (r, k') = route_event out e (record k { bus = bus }) in resume r (λ _. drain out n) k'
      | too_late ↦ (ok tt, k)
      | blocked ↦ (ok tt, k)
    ]

drain-work :
    (out : Outside) (n : ℕ) (es : List Event) (k : AppShakKernel)
    → k.bus.queue ≡ es
    → work es ≤ n
    → ((drain out n k).0 ≡ ok tt) × ((drain out n k).1.bus.queue ≡ [])
unfolding drain bus_get_next
drain-work out zero [] k h w = (refl, h)
drain-work out zero (e ∷ es) k h w = absurd (omega (arith, w))
drain-work out (suc n) [] k h w = rw h (refl, refl)
drain-work out (suc n) (e ∷ es) k h w =
    let k' : AppShakKernel = record k { bus = record k.bus { queue = es } } in
    let r = routed out e k' in
    let fewer : work (es ++ r.new) ≤ n =
      rw (work-append es r.new, work-quiet r.new r.quiet) (omega (arith, w, r.few)) in
    rw (h, r.fine) (drain-work out n (es ++ r.new) (route_event out e k').1 r.queued fewer)

-- Whatever the state, routing the event puts nothing on the bus.
abbrev pub IsUnanswered : Outside → Event → Type 0
IsUnanswered out x = (k : AppShakKernel) → (route_event out x k).1.bus.queue ≡ k.bus.queue

quiet-IsUnanswered : (out : Outside) (x : Event) → is_quiet x ≡ true → IsUnanswered out x
quiet-IsUnanswered out x quiet k =
    let r = routed out x k in
    let none_new : length r.new ≤ 0 = ground (arith, quiet, r.few) in
    r.queued ∙ nothing r.new none_new
  where
    nothing : (new : List Event) → length new ≤ 0 → k.bus.queue ++ new ≡ k.bus.queue
    nothing [] h = append_nil k.bus.queue
    nothing (y ∷ ys) h = absurd (omega arith)

all-IsUnanswered :
    (out : Outside) (es : List Event) → All (λ x. is_quiet x ≡ true) es → All (IsUnanswered out) es
all-IsUnanswered out [] quiet = tt
all-IsUnanswered out (x ∷ es) quiet =
    (quiet-IsUnanswered out x quiet.0, all-IsUnanswered out es quiet.1)

-- The kernel's answers die out: if nobody else publishes, then from any queue, after at most three
-- turns for each event that was on the bus, every turn has ended without an exception and the bus is
-- empty. Routing any event in any state puts at most two events behind the queue, and whatever the
-- state is then, routing one of these puts nothing on the bus.
pub queue_runs_empty :
    (out : Outside) (k : AppShakKernel) (e : Event)
    → let (r, k') = drain out (3 * length k.bus.queue) k in
      (r ≡ ok tt)
      × (k'.bus.queue ≡ [])
      × ((new : List Event) × ((route_event out e k).1.bus.queue ≡ k.bus.queue ++ new)
          × (length new ≤ 2)
          × All (IsUnanswered out) new)
queue_runs_empty out k e =
    let (fine, empty) =
      drain-work out (3 * length k.bus.queue) k.bus.queue k refl (work_bound k.bus.queue) in
    let r = routed out e k in
    (
      fine,
      empty,
      (r.new, r.queued, fan_bound (is_quiet e) r.few, all-IsUnanswered out r.new r.quiet),
    )
  where
    fan_bound : (b : Bool) {n : ℕ} → n ≤ fan b → n ≤ 2
    fan_bound true h = omega (arith, h)
    fan_bound false h = h
