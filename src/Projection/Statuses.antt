-- ===== src/Projection/Statuses.antt =====
-- That the statuses of the events that the projector of appshak_projection/projector.py has already
-- seen do not matter to it.
use app_shak_hq.Prelude.{
  Bool-cases, List, Option, String, [], ap, inl, inr, keep_if, leb, length, ltb, map, max, none,
  refl, some, sym, ℕ, ◌++◌, ◌∙◌, ◌∷◌, ◌≡◌,
}
use app_shak_hq.Python.Value.{null}
use app_shak_hq.Substrate.Types.{SubstrateEvent}
use app_shak_hq.Substrate.MailStore.Tables.{AuditRow}
use app_shak_hq.Projection.View.{Snapshot, View}
use app_shak_hq.Projection.Projector.{
  apply_event, apply_worker_event, at_worker, audit_id, counted_event, cursor_after, is_waiting,
  max_from, newer, place_by, project_once, seen_id, snapshot_of, sorted_by, worker_id_of,
}
use app_shak_hq.Projection.Newer.{Above, AtMost}
use app_shak_hq.Projection.Resumes.{
  fold_audits, fold_events, folds_marked, marked, same_listing_resumes,
}

-- the event apart from what claims and settlements change of it
abbrev pub bare : SubstrateEvent → SubstrateEvent
bare e = record e { status = ""; error = null }

keep-bare :
    (c : ℕ) (es : List SubstrateEvent)
    → keep_if (λ x. ltb c (seen_id x)) (map bare es)
      ≡ map bare (keep_if (λ x. ltb c (seen_id x)) es)
keep-bare c [] = refl
keep-bare c (e ∷ es) = elim (Bool-cases (ltb c (seen_id e))) [
  | inl above ↦ rw (above, keep-bare c es) refl
  | inr below ↦ rw (below, keep-bare c es) refl
]

place-bare :
    (e : SubstrateEvent) (es : List SubstrateEvent)
    → place_by seen_id (bare e) (map bare es) ≡ map bare (place_by seen_id e es)
place-bare e [] = refl
place-bare e (f ∷ fs) = elim (Bool-cases (leb (seen_id e) (seen_id f))) [
  | inl here ↦ rw here refl
  | inr later ↦ rw (later, place-bare e fs) refl
]

sorted-bare :
    (es : List SubstrateEvent) → sorted_by seen_id (map bare es) ≡ map bare (sorted_by seen_id es)
sorted-bare [] = refl
sorted-bare (e ∷ es) = rw (sorted-bare es) (place-bare e (sorted_by seen_id es))

newer-bare :
    (c : ℕ) (es : List SubstrateEvent)
    → newer seen_id c (map bare es) ≡ map bare (newer seen_id c es)
unfolding newer
newer-bare c es = rw (keep-bare c es) (sorted-bare (keep_if (λ x. ltb c (seen_id x)) es))

apply_event-bare : (e : SubstrateEvent) (v : View) → apply_event (bare e) v ≡ apply_event e v
unfolding apply_event apply_worker_event worker_id_of
apply_event-bare e v = go (worker_id_of e)
  where
    go :
        (id : Option String)
        → at_worker id (bare e) (counted_event (bare e) v) ≡ at_worker id e (counted_event e v)
    go none = refl
    go (some id) = refl

fold-bare : (es : List SubstrateEvent) (v : View) → fold_events (map bare es) v ≡ fold_events es v
fold-bare [] v = refl
fold-bare (e ∷ es) v =
    ap (fold_events (map bare es)) (apply_event-bare e v) ∙ fold-bare es (apply_event e v)

cursor-bare :
    (c : ℕ) (es : List SubstrateEvent)
    → cursor_after seen_id c (map bare es) ≡ cursor_after seen_id c es
cursor-bare c [] = refl
cursor-bare c (e ∷ es) = cursor-bare (max c (seen_id e)) es

top-bare :
    (t : ℕ) (l m : Option SubstrateEvent) (es : List SubstrateEvent)
    → (max_from t l (map bare es)).0 ≡ (max_from t m es).0
top-bare t l m [] = refl
top-bare t l m (e ∷ es) = elim (Bool-cases (leb t (seen_id e))) [
  | inl over ↦ rw over (top-bare (seen_id e) (some (bare e)) (some e) es)
  | inr under ↦ rw under (top-bare t l m es)
]

-- The marks of the queue's size and of the current event are not read again.
marks_overwritten :
    (now now' : String) (all : List SubstrateEvent) (rows : List AuditRow) (seen audited : ℕ)
    (size size' : ℕ) (current current' : Option Snapshot) (v : View)
    → project_once now' all rows (marked now seen audited size current v)
      ≡ project_once now' all rows (marked now seen audited size' current' v)
unfolding project_once
marks_overwritten now now' all rows seen audited size size' current current' v =
    let es = newer seen_id seen all in
    let au = newer audit_id audited rows in
    let last =
      marked now' (max (cursor_after seen_id seen es) (max_from 0 none all).0)
        (cursor_after audit_id audited au) (length (keep_if is_waiting all))
        (snapshot_of (max_from 0 none all).1) in
    ap last (folds_marked now seen audited size current es au v)
    ∙ sym (ap last (folds_marked now seen audited size' current' es au v))

-- Projecting a listing and later a longer one gives the same view as projecting the longer one alone,
-- from any view: no event and no tool audit is lost or counted twice, and the workers' states are the
-- same, wherever the projector stopped in between. The new events have greater ids than the old ones
-- and are listed after them; the old events may have changed their statuses and errors meanwhile; the
-- new audits have greater ids than the old ones and are listed before them, as the mail store does.
pub projection_resumes :
    (now now' : String) (k m : ℕ) (before es fs : List SubstrateEvent) (rows more : List AuditRow)
    (v : View)
    → map bare before ≡ map bare es
    → AtMost seen_id k es
    → Above seen_id k fs
    → AtMost audit_id m rows
    → Above audit_id m more
    → project_once now' (es ++ fs) (more ++ rows) (project_once now before rows v)
      ≡ project_once now' (es ++ fs) (more ++ rows) v
unfolding project_once
projection_resumes now now' k m before es fs rows more v same old fresh old_rows fresh_rows =
    let c = v.last_seen_event_id in
    let d = v.last_seen_tool_audit_id in
    let fresh_events : map bare (newer seen_id c before) ≡ map bare (newer seen_id c es) =
      sym (newer-bare c before) ∙ ap (newer seen_id c) same ∙ newer-bare c es in
    let reach : cursor_after seen_id c (newer seen_id c before)
        ≡ cursor_after seen_id c (newer seen_id c es) =
      sym (cursor-bare c (newer seen_id c before))
      ∙ ap (cursor_after seen_id c) fresh_events
      ∙ cursor-bare c (newer seen_id c es) in
    let top : (max_from 0 none before).0 ≡ (max_from 0 none es).0 =
      sym (top-bare 0 none none before)
      ∙ ap (λ x. (max_from 0 none x).0) same
      ∙ top-bare 0 none none es in
    let folded : fold_events (newer seen_id c before) v ≡ fold_events (newer seen_id c es) v =
      sym (fold-bare (newer seen_id c before) v)
      ∙ ap (λ x. fold_events x v) fresh_events
      ∙ fold-bare (newer seen_id c es) v in
    let audits = newer audit_id d rows in
    let waiting_before = length (keep_if is_waiting before) in
    let current_before = snapshot_of (max_from 0 none before).1 in
    let w = fold_audits audits (fold_events (newer seen_id c es) v) in
    let seen = max (cursor_after seen_id c (newer seen_id c es)) (max_from 0 none es).0 in
    let audited = cursor_after audit_id d audits in
    let stopped : project_once now before rows v
        ≡ marked now seen audited waiting_before current_before w =
      ap
        (λ x.
          marked now x audited waiting_before current_before
            (fold_audits audits (fold_events (newer seen_id c before) v)))
        (ap (λ x. max x (max_from 0 none before).0) reach
          ∙ ap (max (cursor_after seen_id c (newer seen_id c es))) top)
      ∙ ap (λ x. marked now seen audited waiting_before current_before (fold_audits audits x))
          folded in
    ap (project_once now' (es ++ fs) (more ++ rows)) stopped
    ∙ marks_overwritten now now' (es ++ fs) (more ++ rows) seen audited waiting_before
        (length (keep_if is_waiting es)) current_before (snapshot_of (max_from 0 none es).1) w
    ∙ same_listing_resumes now now' k m es fs rows more v old fresh old_rows fresh_rows
