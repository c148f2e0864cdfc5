-- ===== src/Repair/Patch/Files/Sound.antt =====
-- What `_parse_wire_patch` accepts (src/repoguard/_repair_patch.py).
use repo_guard.Base.{
  ℕ, ◌+◌, ◌≤◌, ◌<◌, ◌≡◌, ap, subst, ◌∙◌, ◌≢◌, Bool, true, not, ◌||◌, Option, none, some, List, [],
  ◌∷◌, arith, length, Ordering,
}
use repo_guard.Base.Outcome.{Outcome, ok, err, >>=-eq-ok, ok-injective, require-then}
use repo_guard.Text.{codes, contains}
use repo_guard.Repair.Unicode.{Unicode}
use repo_guard.Repair.Paths.{PathError, compare_paths, has_text, validate_repository_path}
use repo_guard.Repair.Paths.Sound.{validate_returns}
use repo_guard.Repair.Patch.{patch_invalid, PatchFile, PatchPolicy}
use repo_guard.Repair.Patch.Lines.{header_path, parse_file_headers, as_patch_error}
use repo_guard.Repair.Patch.Hunks.{HunksRead, read_hunks}
use repo_guard.Repair.Patch.Hunks.Order.{AreHunks, total_changed}
use repo_guard.Repair.Patch.Hunks.Loop.{read_hunks-AreHunksRead}
use repo_guard.Repair.Patch.Files.{
  comes_after, header_value, FileRead, accept_file, accept_path, file_read, read_file_behind,
  read_file,
}

-- A file of the patch: its path is safe and allowed, and its hunks are in order.
pub record IsFile (u : Unicode) (allowed : List (List ℕ)) (f : PatchFile) : Type 0 where
  pub is_allowed : has_text f.path allowed ≡ true
  pub is_safe : validate_repository_path u f.path ≡ ok f.path
  pub hunks_in_order : AreHunks f.is_new none f.hunks
  pub some_hunk : f.hunks ≢ []

abbrev pub ComesAfter : Option (List ℕ) → List ℕ → Type 0
ComesAfter none path = Unit
ComesAfter (some previous) path = compare_paths previous path ≡ Ordering.lt

-- Files with their paths in strict order of the UTF-8 bytes.
abbrev pub AreFiles : Unicode → List (List ℕ) → Option (List ℕ) → List PatchFile → Type 0
AreFiles u allowed previous [] = Unit
AreFiles u allowed previous (f ∷ fs) =
    IsFile u allowed f × ComesAfter previous f.path × AreFiles u allowed (some f.path) fs

abbrev pub changed_in_files : List PatchFile → ℕ
changed_in_files [] = 0
changed_in_files (f ∷ fs) = total_changed f.hunks + changed_in_files fs

as_patch_error-eq-ok :
    {A' : Type 0} (m : Outcome PathError A') (a : A') → as_patch_error m ≡ ok a → m ≡ ok a
as_patch_error-eq-ok {A'} (ok b) a h = ap (λ (x : A'). ok x) (ok-injective h)
as_patch_error-eq-ok (err e) a h = cc

headers_safe :
    (u : Unicode) (old_value new_value : List ℕ) (r : List ℕ × Bool)
    → parse_file_headers u old_value new_value ≡ ok r
    → validate_repository_path u r.0 ≡ ok r.0
unfolding parse_file_headers
headers_safe u old_value new_value r e =
    let (_, e1) =
      (require-then (not (contains 9 old_value || contains 9 new_value)) patch_invalid _ r).0 e in
    let (named, _, e2) = >>=-eq-ok (header_path old_value new_value) _ e1 in
    let (path, valid, e3) = >>=-eq-ok (as_patch_error (validate_repository_path u named.0)) _ e2 in
    subst (λ (n : List ℕ × Bool). validate_repository_path u n.0 ≡ ok n.0) (ok-injective e3)
      (let v = as_patch_error-eq-ok (validate_repository_path u named.0) path valid in
        v ∙ ap (λ (x : List ℕ). ok x) (validate_returns u named.0 path v))

accept_path-eq-ok :
    (policy : PatchPolicy) (allowed : List (List ℕ)) (previous : Option (List ℕ)) (count : ℕ)
    (path : List ℕ)
    → accept_path policy allowed previous count path ≡ ok tt
    → (has_text path allowed ≡ true) × ComesAfter previous path × (count < policy.max_patch_paths)
unfolding accept_path comes_after
accept_path-eq-ok policy allowed none count path e = (ground arith, tt, ground arith)
accept_path-eq-ok policy allowed (some previous) count path e =
    (ground arith, ground arith, ground arith)

accept_file-eq-ok :
    (named : List ℕ × Bool) (read : HunksRead) (f : FileRead)
    → accept_file named read ≡ ok f
    → (read.hunks ≢ []) × (file_read named read ≡ f)
unfolding accept_file
accept_file-eq-ok named read f e = ((λ n. ground arith), ground arith)

pub record IsFileRead (u : Unicode) (policy : PatchPolicy) (allowed : List (List ℕ))
    (previous : Option (List ℕ)) (count before : ℕ) (lines : List (List ℕ)) (f : FileRead)
    : Type 0 where
  pub is_file : IsFile u allowed f.file
  pub in_order : ComesAfter previous f.file.path
  pub room : count < policy.max_patch_paths
  pub counted : f.changed ≡ total_changed f.file.hunks
  pub bounded : before ≤ policy.max_changed_lines → before + f.changed ≤ policy.max_changed_lines
  pub shorter : length f.rest < length lines

read_file_behind-IsFileRead :
    (fuel : ℕ) (u : Unicode) (policy : PatchPolicy) (allowed : List (List ℕ))
    (previous : Option (List ℕ)) (count before : ℕ) (old_value : List ℕ) (lines : List (List ℕ))
    (f : FileRead)
    → read_file_behind fuel u policy allowed previous count before old_value lines ≡ ok f
    → IsFileRead u policy allowed previous count before lines f
unfolding read_file_behind
read_file_behind-IsFileRead fuel u policy allowed previous count before old_value [] f e = cc
read_file_behind-IsFileRead fuel u policy allowed previous count before old_value (raw ∷ rest) f e =
    let (new_value, _, e1) = >>=-eq-ok (header_value (codes "+++ ") raw) _ e in
    let (named, headers, e2) = >>=-eq-ok (parse_file_headers u old_value new_value) _ e1 in
    let (done, accepted, e3) = >>=-eq-ok (accept_path policy allowed previous count named.0) _ e2 in
    let (read, hunks, e4) = >>=-eq-ok (read_hunks fuel policy named.1 none before rest) _ e3 in
    let (allowed_path, after, room) =
      accept_path-eq-ok policy allowed previous count named.0 accepted in
    let r = read_hunks-AreHunksRead fuel policy named.1 none before rest read hunks in
    let (some_hunks, same) = accept_file-eq-ok named read f e4 in
    subst (IsFileRead u policy allowed previous count before (raw ∷ rest)) same (record {
      is_file = record {
        is_allowed = allowed_path;
        is_safe = headers_safe u old_value new_value named headers;
        hunks_in_order = r.are_hunks;
        some_hunk = some_hunks;
      };
      in_order = after;
      room = room;
      counted = r.counted;
      bounded = r.bounded;
      shorter = omega (arith, r.shorter);
    })

pub read_file-IsFileRead :
    (fuel : ℕ) (u : Unicode) (policy : PatchPolicy) (allowed : List (List ℕ))
    (previous : Option (List ℕ)) (count before : ℕ) (raw : List ℕ) (rest : List (List ℕ))
    (f : FileRead)
    → read_file fuel u policy allowed previous count before raw rest ≡ ok f
    → IsFileRead u policy allowed previous count before rest f
unfolding read_file
read_file-IsFileRead fuel u policy allowed previous count before raw rest f e =
    let (old_value, _, e1) = >>=-eq-ok (header_value (codes "--- ") raw) _ e in
    read_file_behind-IsFileRead fuel u policy allowed previous count before old_value rest f e1
