-- ===== src/Projection/Resumes.antt =====
-- That the projector of appshak_projection/projector.py may stop and resume anywhere.
use app_shak_hq.Prelude.{
  Bool-cases, List, Option, String, [], ap, arith, false, inl, inr, keep_if, leb, length, max, none,
  refl, some, sym, true, ℕ, ◌++◌, ◌∙◌, ◌∷◌, ◌≡◌, ◌≤◌, ◌⊎◌,
}
use app_shak_hq.Substrate.Types.{SubstrateEvent}
use app_shak_hq.Substrate.MailStore.Tables.{AuditRow}
use app_shak_hq.Projection.View.{Snapshot, View}
use app_shak_hq.Projection.Projector.{
  apply_event, apply_tool_audit, apply_worker_event, at_worker, audit_id, counted_event,
  cursor_after, fold_rows, is_waiting, max_from, newer, project_once, seen_id, snapshot_of,
  worker_id_of,
}
use app_shak_hq.Projection.Newer.{
  Above, AtMost, Grown-after, Grown-before, cursor-append, cursor_max, reached,
}

module _ {A : Type 0} (id_of : A → ℕ) where
  fold-append :
      (f : A → View → View) (xs ys : List A) (v : View)
      → fold_rows id_of f (xs ++ ys) v ≡ fold_rows id_of f ys (fold_rows id_of f xs v)
  fold-append f [] ys v = refl
  fold-append f (x ∷ xs) ys v = fold-append f xs ys (f x v)

  -- A change that commutes with each row commutes with all of them.
  fold-commute :
      (f : A → View → View) (g : View → View) (xs : List A) (v : View)
      → ((x : A) (v : View) → f x (g v) ≡ g (f x v))
      → fold_rows id_of f xs (g v) ≡ g (fold_rows id_of f xs v)
  fold-commute f g [] v c = refl
  fold-commute f g (x ∷ xs) v c = ap (fold_rows id_of f xs) (c x v) ∙ fold-commute f g xs (f x v) c

-- the fields that the end of a projection writes
abbrev pub marked : String → ℕ → ℕ → ℕ → Option Snapshot → View → View
marked now seen audited size current v = record v {
  view_timestamp = now;
  last_seen_event_id = seen;
  last_seen_tool_audit_id = audited;
  event_queue_size = size;
  current_event = current;
}

event-marked :
    (now : String) (seen audited size : ℕ) (current : Option Snapshot) (e : SubstrateEvent)
    (v : View)
    → apply_event e (marked now seen audited size current v)
      ≡ marked now seen audited size current (apply_event e v)
unfolding apply_event apply_worker_event
event-marked now seen audited size current e v = go (worker_id_of e) _
  where
    go :
        (id : Option String) (w : View)
        → at_worker id e (marked now seen audited size current w)
          ≡ marked now seen audited size current (at_worker id e w)
    go none w = refl
    go (some id) w = refl

audit-marked :
    (now : String) (seen audited size : ℕ) (current : Option Snapshot) (row : AuditRow) (v : View)
    → apply_tool_audit row (marked now seen audited size current v)
      ≡ marked now seen audited size current (apply_tool_audit row v)
unfolding apply_tool_audit
audit-marked now seen audited size current row v = elim (Bool-cases row.allowed) [
  | inl allowed ↦ rw allowed refl
  | inr denied ↦ rw denied refl
]

event-audit :
    (e : SubstrateEvent) (row : AuditRow) (v : View)
    → apply_event e (apply_tool_audit row v) ≡ apply_tool_audit row (apply_event e v)
unfolding apply_event apply_worker_event apply_tool_audit
event-audit e row v = go (worker_id_of e) (Bool-cases row.allowed)
  where
    go :
        (id : Option String)
        → (row.allowed ≡ true) ⊎ (row.allowed ≡ false)
        → at_worker id e (counted_event e (apply_tool_audit row v))
          ≡ apply_tool_audit row (at_worker id e (counted_event e v))
    go none (inl allowed) = rw allowed refl
    go none (inr denied) = rw denied refl
    go (some id) (inl allowed) = rw allowed refl
    go (some id) (inr denied) = rw denied refl

abbrev pub fold_events : List SubstrateEvent → View → View
fold_events = fold_rows seen_id apply_event

abbrev pub fold_audits : List AuditRow → View → View
fold_audits = fold_rows audit_id apply_tool_audit

events-audits :
    (es : List SubstrateEvent) (rows : List AuditRow) (v : View)
    → fold_events es (fold_audits rows v) ≡ fold_audits rows (fold_events es v)
events-audits es rows v = fold-commute seen_id apply_event (fold_audits rows) es v λ e w. sym (
    fold-commute audit_id apply_tool_audit (apply_event e) rows w
      λ row u. sym (event-audit e row u))

top_up : (t : ℕ) (l : Option SubstrateEvent) (es : List SubstrateEvent) → t ≤ (max_from t l es).0
top_up t l [] = omega arith
top_up t l (e ∷ es) = elim (Bool-cases (leb t (seen_id e))) [
  | inl over ↦ rw over (let r = top_up (seen_id e) (some e) es in ground (arith, r))
  | inr under ↦ rw under (top_up t l es)
]

top-append :
    (t : ℕ) (l : Option SubstrateEvent) (es fs : List SubstrateEvent)
    → (max_from t l es).0 ≤ (max_from t l (es ++ fs)).0
top-append t l [] fs = top_up t l fs
top-append t l (e ∷ es) fs = elim (Bool-cases (leb t (seen_id e))) [
  | inl over ↦ rw over (top-append (seen_id e) (some e) es fs)
  | inr under ↦ rw under (top-append t l es fs)
]

top_low :
    (t k : ℕ) (l : Option SubstrateEvent) (es : List SubstrateEvent)
    → AtMost seen_id k es
    → (max_from t l es).0 ≤ max t k
top_low t k l [] h = omega arith
top_low t k l (e ∷ es) h = elim (Bool-cases (leb t (seen_id e))) [
  | inl over ↦ rw over (let r = top_low (seen_id e) k (some e) es h.1 in omega (arith, r, h.0))
  | inr under ↦ rw under (top_low t k l es h.1)
]

pub folds_marked :
    (now : String) (seen audited size : ℕ) (current : Option Snapshot) (es : List SubstrateEvent)
    (rows : List AuditRow) (v : View)
    → fold_audits rows (fold_events es (marked now seen audited size current v))
      ≡ marked now seen audited size current (fold_audits rows (fold_events es v))
folds_marked now seen audited size current es rows v =
    let mark = marked now seen audited size current in
    ap (fold_audits rows) (
      fold-commute seen_id apply_event mark es v
        λ e u. event-marked now seen audited size current e u)
    ∙ fold-commute audit_id apply_tool_audit mark rows (fold_events es v)
        (λ row u. audit-marked now seen audited size current row u)

folds_joined :
    (es fs : List SubstrateEvent) (rows more : List AuditRow) (v : View)
    → fold_audits more (fold_events fs (fold_audits rows (fold_events es v)))
      ≡ fold_audits (rows ++ more) (fold_events (es ++ fs) v)
folds_joined es fs rows more v =
    ap (fold_audits more) (events-audits fs rows (fold_events es v))
    ∙ sym (fold-append audit_id apply_tool_audit rows more (fold_events fs (fold_events es v)))
    ∙ ap (fold_audits (rows ++ more)) (sym (fold-append seen_id apply_event es fs v))

-- The projector resumes, where the old rows of the longer listing are just as they were.
pub same_listing_resumes :
    (now now' : String) (k m : ℕ) (es fs : List SubstrateEvent) (rows more : List AuditRow)
    (v : View)
    → AtMost seen_id k es
    → Above seen_id k fs
    → AtMost audit_id m rows
    → Above audit_id m more
    → project_once now' (es ++ fs) (more ++ rows) (project_once now es rows v)
      ≡ project_once now' (es ++ fs) (more ++ rows) v
unfolding project_once
same_listing_resumes now now' k m es fs rows more v old fresh old_rows fresh_rows =
    let c = v.last_seen_event_id in
    let d = v.last_seen_tool_audit_id in
    let top = (max_from 0 none es).0 in
    let latest = (max_from 0 none es).1 in
    let top' = (max_from 0 none (es ++ fs)).0 in
    let ge = Grown-after seen_id c k es fs old fresh in
    let ga = Grown-before audit_id d m rows more old_rows fresh_rows in
    let c' = max (reached seen_id c es) top in
    let d' = reached audit_id d rows in
    let e2 : newer seen_id c' (es ++ fs) ≡ newer seen_id c fs =
      ge.rest c' (omega arith) (omega (arith, ge.low, top_low 0 k none es old)) in
    let a2 : newer audit_id d' (more ++ rows) ≡ newer audit_id d more =
      ga.rest d' (omega arith) ga.low in
    let ev = newer seen_id c es in
    let ev' = newer seen_id c fs in
    let au = newer audit_id d rows in
    let au' = newer audit_id d more in
    let size = length (keep_if is_waiting (es ++ fs)) in
    let current = snapshot_of (max_from 0 none (es ++ fs)).1 in
    let all_new = newer seen_id c (es ++ fs) in
    let all_audits = newer audit_id d (more ++ rows) in
    let new' = newer seen_id c' (es ++ fs) in
    let audits' = newer audit_id d' (more ++ rows) in
    let mark = marked now c' d' (length (keep_if is_waiting es)) (snapshot_of latest) in
    let w = fold_audits au (fold_events ev v) in
    let seen : max (cursor_after seen_id c' new') top' ≡ max (cursor_after seen_id c all_new) top' =
      rw
        (
          e2,
          ge.parts,
          cursor-append seen_id c ev ev',
          cursor_max seen_id (reached seen_id c es) top ev',
        )
        (omega (arith, top-append 0 none es fs)) in
    let audited : cursor_after audit_id d' audits' ≡ cursor_after audit_id d all_audits =
      rw (a2, ga.parts, cursor-append audit_id d au au') refl in
    let folded : fold_audits audits' (fold_events new' (mark w))
        ≡ mark (fold_audits all_audits (fold_events all_new v)) =
      ap (λ a. fold_audits a (fold_events new' (mark w))) a2
      ∙ ap (λ x. fold_audits au' (fold_events x (mark w))) e2
      ∙ folds_marked now c' d' _ _ ev' au' w
      ∙ ap mark (folds_joined ev ev' au au' v)
      ∙ ap (λ a. mark (fold_audits a (fold_events (ev ++ ev') v))) (sym ga.parts)
      ∙ ap (λ x. mark (fold_audits all_audits (fold_events x v))) (sym ge.parts) in
    let last = fold_audits all_audits (fold_events all_new v) in
    ap
      (marked now' (max (cursor_after seen_id c' new') top') (cursor_after audit_id d' audits') size
        current)
      folded
    ∙ ap (λ s. marked now' s (cursor_after audit_id d' audits') size current last) seen
    ∙ ap (λ a. marked now' (max (cursor_after seen_id c all_new) top') a size current last) audited
