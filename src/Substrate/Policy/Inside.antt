-- ===== src/Substrate/Policy/Inside.antt =====
-- The paths of an allowed request.
use mathlib.Core.Bool.{false≢true}
use app_shak_hq.Prelude.{
  All, List, Option-cases, String, [], ap, arith, inl, inr, some, sym, true, ◌∙◌, ◌∷◌, ◌≡◌,
}
use app_shak_hq.Python.Value.{Fields, Value, get, get?, nonblank, str}
use app_shak_hq.Substrate.Types.{
  ToolActionType, git_commit, git_diff, open_pr, read_file, run_cmd, write_file,
}
use app_shak_hq.Python.Exec.{Result-cases, ok}
use app_shak_hq.Substrate.Policy.{
  Checked-cases, Host, PolicyDecision, Stop, ToolPolicy, check_path, check_paths, file_path, inside,
  is_subpath, listed_paths, normalized_paths, pass, path_or, resolve_path, strs, validate_action,
}
use app_shak_hq.Substrate.Policy.Allowed.{decided_pass, get-put_self, not_refused, ok_inj, pass_inj}

resolve_path-inside :
    (host : Host) (root : List String) (requested : String) {p : List String}
    → resolve_path host root requested ≡ pass (some p)
    → is_subpath p root ≡ true
unfolding resolve_path
resolve_path-inside host root requested {p} h = elim (Result-cases (host.join root requested)) [
  | inr (x, e) ↦ absurd (not_refused (rw e at h))
  | inl (candidate, e) ↦
      let made : inside root candidate ≡ some p = pass_inj (rw e at h) in ground arith
]

-- The text is that of a path inside the root.
abbrev pub IsInside : Host → List String → String → Type 0
IsInside host root s = (p : List String) × (s ≡ host.path_text p) × (is_subpath p root ≡ true)

-- A text is made of what the path resolves to, if it lies inside.
located-IsInside :
    (host : Host) (root : List String) (requested : String) (otherwise : Stop) {s : String}
    → path_or host otherwise (resolve_path host root requested) ≡ pass s
    → IsInside host root s
located-IsInside host root requested otherwise {s} h =
    elim (Checked-cases (resolve_path host root requested)) [
      | inr (x, e) ↦ absurd (not_refused (rw e at h))
      | inl (found, e) ↦ elim (Option-cases found) [
        | inl outside ↦ absurd (not_refused (rw (e, outside) at h))
        | inr (p, within) ↦ (
          p,
          sym (pass_inj (rw (e, within) at h)),
          resolve_path-inside host root requested {p = p} (e ∙ ap (λ o. pass o) within),
        )
      ]
    ]

check_path-IsInside :
    (host : Host) (root : List String) (v : Value) {s : String}
    → check_path host root v ≡ pass s
    → IsInside host root s
unfolding check_path
check_path-IsInside host root v {s} h = elim (Option-cases (nonblank v)) [
  | inl e ↦ absurd (not_refused (rw (e, check_path) at h))
  | inr (item, e) ↦ located-IsInside host root item _ {s = s} (rw (e, check_path) at h)
]

file_path-IsInside :
    (host : Host) (root : List String) (payload : Fields) {s : String}
    → file_path host root payload ≡ pass s
    → IsInside host root s
unfolding file_path
file_path-IsInside host root payload {s} h = elim (Option-cases (nonblank (get "path" payload))) [
  | inl e ↦ absurd (not_refused (rw (e, file_path) at h))
  | inr (requested, e) ↦ located-IsInside host root requested _ {s = s} (rw (e, file_path) at h)
]

check_paths-IsInside :
    (host : Host) (root : List String) (vs : List Value) {paths : List String}
    → check_paths host root vs ≡ pass paths
    → All (IsInside host root) paths
unfolding check_paths
check_paths-IsInside host root [] {paths} h = rw (← pass_inj h) tt
check_paths-IsInside host root (v ∷ vs) {paths} h = elim (Checked-cases (check_path host root v)) [
  | inr (x, e) ↦ absurd (not_refused (rw e at h))
  | inl (s, e) ↦ elim (Checked-cases (check_paths host root vs)) [
    | inr (x, e') ↦ absurd (not_refused (rw (e, e') at h))
    | inl (rest, e') ↦
        let made = rw (e, e') at h in
        rw (← pass_inj made) (
          check_path-IsInside host root v {s = s} e,
          check_paths-IsInside host root vs {paths = rest} e',
        )
  ]
]

normalized_paths-IsInside :
    (host : Host) (root : List String) (payload : Fields) {paths : List String}
    → normalized_paths host root payload ≡ pass paths
    → All (IsInside host root) paths
unfolding normalized_paths
normalized_paths-IsInside host root payload {paths} h =
    elim (Checked-cases (listed_paths (get? "paths" payload))) [
      | inr (x, e) ↦ absurd (not_refused (rw e at h))
      | inl (vs, e) ↦ check_paths-IsInside host root vs {paths = paths} (rw e at h)
    ]

abbrev pub IsFileAction : ToolActionType → Type 0
IsFileAction write_file = Unit {0}
IsFileAction read_file = Unit {0}
IsFileAction _ = ⊥

-- An allowed read or write goes to a path inside the worktree, the one that the payload says from
-- then on.
pub allowed_file :
    (policy : ToolPolicy) (host : Host) (root : List String) (payload : Fields) (a : ToolActionType)
    {d : PolicyDecision}
    → IsFileAction a
    → validate_action policy host root a payload ≡ ok d
    → d.allowed ≡ true
    → (s : String) × (get "path" d.normalized_payload ≡ str s) × IsInside host root s
unfolding validate_action
allowed_file policy host root payload run_cmd w h good = absurd w
allowed_file policy host root payload git_commit w h good = absurd w
allowed_file policy host root payload git_diff w h good = absurd w
allowed_file policy host root payload open_pr w h good = absurd w
allowed_file policy host root payload _ {d} w h good =
    let (s, e, made) = decided_pass (file_path host root payload) _ {d = d} h good in
    (
      s,
      rw (← made) (get-put_self "path" (str s) payload),
      file_path-IsInside host root payload {s = s} e,
    )

-- An allowed commit adds only paths inside the worktree, those that the payload names from then on.
pub allowed_commit :
    (policy : ToolPolicy) (host : Host) (root : List String) (payload : Fields) {d : PolicyDecision}
    → validate_action policy host root git_commit payload ≡ ok d
    → d.allowed ≡ true
    → (paths : List String) × (get "paths" d.normalized_payload ≡ strs paths)
      × All (IsInside host root) paths
unfolding validate_action
allowed_commit policy host root payload {d} h good =
    elim (Option-cases (nonblank (get "message" payload))) [
      | inl e ↦
          absurd (false≢true (ap (λ x. x.allowed) (ok_inj (rw (e, validate_action) at h)) ∙ good))
      | inr (message, e) ↦
          let (paths, checked, made) =
            decided_pass (normalized_paths host root payload) _ {d = d}
              (rw (e, validate_action) at h) good in
          (
            paths,
            rw (← made) (get-put_self "paths" (strs paths) payload),
            normalized_paths-IsInside host root payload {paths = paths} checked,
          )
    ]
