-- ===== src/Substrate/Policy/Causes.antt =====
-- With which errors the checks of a payload's entries end.
use app_shak_hq.Prelude.{
  Bool, List, Option, Option-cases, String, [], false, if◌then◌else◌, inl, inr, none, refl, some,
  true, ◌∷◌, ◌≡◌,
}
use app_shak_hq.Python.Text.{contains_any}
use app_shak_hq.Python.Value.{Fields, Value, as_list, get, get?, nonblank, null}
use app_shak_hq.Python.Exec.{Error, Result-cases, raised}
use app_shak_hq.Substrate.Policy.{
  Checked, argv_of, check_arg, check_argv, denial, exception, inside, nonempty_list,
  normalized_argv, pass, path_or, refuse, resolve_path, shell_metachars, check_path, check_paths,
  file_path, listed_paths, normalized_paths, Host, ◌>>=◌,
}

-- The checks end with an exception only if it satisfies the predicate.
abbrev pub IsCaused {ℓ} : {A : Type ℓ} → (Error → Type 0) → Checked A → Type 0
IsCaused P (pass a) = Unit {0}
IsCaused P (refuse (denial why)) = Unit {0}
IsCaused P (refuse (exception e)) = P e

bind-IsCaused {ℓ κ} :
    {A : Type ℓ} {B : Type κ} (P : Error → Type 0) (c : Checked A) (f : A → Checked B)
    → IsCaused P c
    → ((a : A) → IsCaused P (f a))
    → IsCaused P (c >>= f)
bind-IsCaused P (pass a) f h next = next a
bind-IsCaused P (refuse (denial why)) f h next = tt
bind-IsCaused P (refuse (exception e)) f h next = h

if-IsCaused {ℓ} :
    {A : Type ℓ} (P : Error → Type 0) (b : Bool) (c d : Checked A)
    → IsCaused P c
    → IsCaused P d
    → IsCaused P (if b then c else d)
if-IsCaused P true c d hc hd = hc
if-IsCaused P false c d hc hd = hd

check_arg-IsCaused : (P : Error → Type 0) (v : Value) → IsCaused P (check_arg v)
unfolding check_arg
check_arg-IsCaused P v = elim (Option-cases (nonblank v)) [
  | inl e ↦ rw (e, check_arg) tt
  | inr (arg, e) ↦ rw (e, check_arg) (if-IsCaused P (contains_any shell_metachars arg) _ _ tt tt)
]

check_argv-IsCaused : (P : Error → Type 0) (vs : List Value) → IsCaused P (check_argv vs)
unfolding check_argv
check_argv-IsCaused P [] = tt
check_argv-IsCaused P (v ∷ vs) = bind-IsCaused P (check_arg v) _ (check_arg-IsCaused P v) λ arg.
    bind-IsCaused P (check_argv vs) (λ rest. pass (arg ∷ rest)) (check_argv-IsCaused P vs)
      λ rest. tt

split-IsCaused :
    (P : Error → Type 0) (host : Host) (payload : Fields)
    → get "argv" payload ≡ null
    → IsCaused P (argv_of host payload)
unfolding argv_of
split-IsCaused P host payload e = elim (Option-cases (nonblank (get "command" payload))) [
  | inl missing ↦ rw (e, missing, argv_of) tt
  | inr (command, found) ↦ elim (Option-cases (host.split_command command)) [
    | inl broken ↦ rw (e, found, broken, argv_of) tt
    | inr (argv, split) ↦ rw (e, found, split, argv_of) tt
  ]
]

argv_of-IsCaused :
    (P : Error → Type 0) (host : Host) (payload : Fields) (v : Value)
    → get "argv" payload ≡ v
    → IsCaused P (argv_of host payload)
unfolding argv_of
argv_of-IsCaused P host payload null e = split-IsCaused P host payload e
argv_of-IsCaused P host payload _ e = rw (e, argv_of) tt

nonempty_list-IsCaused : (P : Error → Type 0) (v : Value) → IsCaused P (nonempty_list v)
unfolding nonempty_list
nonempty_list-IsCaused P v = elim (Option-cases (as_list v)) [
  | inl e ↦ rw (e, nonempty_list) tt
  | inr (vs, e) ↦ rw (e, nonempty_list) (listed vs)
]
  where
    listed :
        (vs : List Value)
        → IsCaused P (elim vs [
          | x ∷ xs ↦ pass (x ∷ xs)
          | _ ↦ refuse (denial "RUN_CMD payload.argv must be a non-empty list.")
        ])
    listed [] = tt
    listed (x ∷ xs) = tt

pub normalized_argv-IsCaused :
    (P : Error → Type 0) (host : Host) (payload : Fields)
    → IsCaused P (normalized_argv host payload)
unfolding normalized_argv
normalized_argv-IsCaused P host payload =
    bind-IsCaused P (argv_of host payload) _ (argv_of-IsCaused P host payload _ refl) λ v.
      bind-IsCaused P (nonempty_list v) check_argv (nonempty_list-IsCaused P v)
        λ vs. check_argv-IsCaused P vs

-- An error of resolving some text below the root.
abbrev pub IsJoinError : Host → List String → Error → Type 0
IsJoinError host root e = (text : String) × (host.join root text ≡ raised e)

located-IsCaused :
    (host : Host) (root : List String) (text why : String)
    → IsCaused (IsJoinError host root) (path_or host (denial why) (resolve_path host root text))
unfolding resolve_path
located-IsCaused host root text why = elim (Result-cases (host.join root text)) [
  | inr (x, e) ↦ rw e (text, e)
  | inl (candidate, e) ↦ rw e (found (inside root candidate))
]
  where
    found :
        (o : Option (List String))
        → IsCaused (IsJoinError host root) (path_or host (denial why) (pass o))
    found none = tt
    found (some p) = tt

pub file_path-IsCaused :
    (host : Host) (root : List String) (payload : Fields)
    → IsCaused (IsJoinError host root) (file_path host root payload)
unfolding file_path
file_path-IsCaused host root payload = elim (Option-cases (nonblank (get "path" payload))) [
  | inl e ↦ rw (e, file_path) tt
  | inr (text, e) ↦
      rw (e, file_path) (located-IsCaused host root text "File path escapes worktree root.")
]

check_path-IsCaused :
    (host : Host) (root : List String) (v : Value)
    → IsCaused (IsJoinError host root) (check_path host root v)
unfolding check_path
check_path-IsCaused host root v = elim (Option-cases (nonblank v)) [
  | inl e ↦ rw (e, check_path) tt
  | inr (item, e) ↦ rw (e, check_path) (located-IsCaused host root item _)
]

check_paths-IsCaused :
    (host : Host) (root : List String) (vs : List Value)
    → IsCaused (IsJoinError host root) (check_paths host root vs)
unfolding check_paths
check_paths-IsCaused host root [] = tt
check_paths-IsCaused host root (v ∷ vs) =
    bind-IsCaused (IsJoinError host root) (check_path host root v) _
      (check_path-IsCaused host root v)
      λ p.
        bind-IsCaused (IsJoinError host root) (check_paths host root vs) (λ rest. pass (p ∷ rest))
          (check_paths-IsCaused host root vs) λ rest. tt

listed_paths-IsCaused :
    (P : Error → Type 0) (found : Option Value) → IsCaused P (listed_paths found)
unfolding listed_paths
listed_paths-IsCaused P none = tt
listed_paths-IsCaused P (some v) = elim (Option-cases (as_list v)) [
  | inl e ↦ rw (e, listed_paths) tt
  | inr (vs, e) ↦ rw (e, listed_paths) tt
]

pub normalized_paths-IsCaused :
    (host : Host) (root : List String) (payload : Fields)
    → IsCaused (IsJoinError host root) (normalized_paths host root payload)
unfolding normalized_paths
normalized_paths-IsCaused host root payload =
    bind-IsCaused (IsJoinError host root) (listed_paths (get? "paths" payload)) _
      (listed_paths-IsCaused (IsJoinError host root) (get? "paths" payload))
      λ vs. check_paths-IsCaused host root vs
