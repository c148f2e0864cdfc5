-- ===== src/Repair/Patch/Files/Ends.antt =====
-- The ends of the loops of `_parse_wire_patch` (src/repoguard/_repair_patch.py).
use repo_guard.Base.{
  ℕ, zero, suc, ◌+◌, ◌≤◌, ◌≢◌, Bool, true, false, not, ◌&&◌, ◌||◌, Option, none, some, List, [],
  ◌∷◌, arith, length, ◌==◌,
}
use repo_guard.Base.Outcome.{Outcome, ok, err, require, bind-ne-err}
use repo_guard.Text.{codes, contains}
use repo_guard.Repair.Unicode.{Unicode}
use repo_guard.Repair.Paths.{PathError, canonical_repository_paths, validate_repository_path}
use repo_guard.Repair.Patch.{patch_invalid, exhausted, PatchPolicy}
use repo_guard.Repair.Patch.Lines.{
  strip_lf, split_lines, header_path, parse_file_headers, validated_patch_bytes, as_patch_error,
}
use repo_guard.Repair.Patch.Hunks.{HunksRead, read_hunks}
use repo_guard.Repair.Patch.Hunks.Loop.{read_hunks-ne-exhausted, strip_lf-ne-exhausted}
use repo_guard.Repair.Patch.Files.{
  header_value, accept_path, accept_file, read_file_behind, read_file, read_files, parse_wire_patch,
  no_text_lines, no_files, total_bytes,
}
use repo_guard.Repair.Patch.Files.Sound.{read_file-IsFileRead}

require-ne-exhausted : (b : Bool) → require b patch_invalid ≢ err exhausted
require-ne-exhausted true e = cc
require-ne-exhausted false e = cc

as_patch_error-ne-exhausted :
    {A' : Type 0} (m : Outcome PathError A') → as_patch_error m ≢ err exhausted
as_patch_error-ne-exhausted (ok a) e = cc
as_patch_error-ne-exhausted (err x) e = cc

header_value-ne-exhausted : (prefix raw : List ℕ) → header_value prefix raw ≢ err exhausted
header_value-ne-exhausted prefix raw =
    bind-ne-err exhausted (strip_lf raw) _ (strip_lf-ne-exhausted raw) λ h _. ground arith

header_path-ne-exhausted :
    (old_value new_value : List ℕ) → header_path old_value new_value ≢ err exhausted
unfolding header_path
header_path-ne-exhausted old_value new_value = ground arith

headers-ne-exhausted :
    (u : Unicode) (old_value new_value : List ℕ)
    → parse_file_headers u old_value new_value ≢ err exhausted
unfolding parse_file_headers
headers-ne-exhausted u old_value new_value =
    let tabs = not (contains 9 old_value || contains 9 new_value) in
    bind-ne-err exhausted (require tabs patch_invalid) _ (require-ne-exhausted tabs) λ _ _.
      bind-ne-err exhausted (header_path old_value new_value) _
        (header_path-ne-exhausted old_value new_value)
        λ named _.
          bind-ne-err exhausted (as_patch_error (validate_repository_path u named.0)) _
            (as_patch_error-ne-exhausted (validate_repository_path u named.0)) λ _ _ e. cc

accept_path-ne-exhausted :
    (policy : PatchPolicy) (allowed : List (List ℕ)) (previous : Option (List ℕ)) (count : ℕ)
    (path : List ℕ)
    → accept_path policy allowed previous count path ≢ err exhausted
unfolding accept_path
accept_path-ne-exhausted policy allowed previous count path = ground arith

accept_file-ne-exhausted :
    (named : List ℕ × Bool) (read : HunksRead) → accept_file named read ≢ err exhausted
unfolding accept_file
accept_file-ne-exhausted named read = ground arith

behind-ne-exhausted :
    (fuel : ℕ) (u : Unicode) (policy : PatchPolicy) (allowed : List (List ℕ))
    (previous : Option (List ℕ)) (count before : ℕ) (old_value : List ℕ) (lines : List (List ℕ))
    → length lines ≤ fuel
    → read_file_behind fuel u policy allowed previous count before old_value lines ≢ err exhausted
unfolding read_file_behind
behind-ne-exhausted fuel u policy allowed previous count before old_value [] enough = λ e. cc
behind-ne-exhausted fuel u policy allowed previous count before old_value (raw ∷ rest) enough =
    bind-ne-err exhausted (header_value (codes "+++ ") raw) _
      (header_value-ne-exhausted (codes "+++ ") raw)
      λ new_value _.
        bind-ne-err exhausted (parse_file_headers u old_value new_value) _
          (headers-ne-exhausted u old_value new_value)
          λ named _.
            bind-ne-err exhausted (accept_path policy allowed previous count named.0) _
              (accept_path-ne-exhausted policy allowed previous count named.0)
              λ _ _.
                bind-ne-err exhausted (read_hunks fuel policy named.1 none before rest) _
                  (read_hunks-ne-exhausted fuel policy named.1 none before rest (omega arith))
                  λ read _. accept_file-ne-exhausted named read

file-ne-exhausted :
    (fuel : ℕ) (u : Unicode) (policy : PatchPolicy) (allowed : List (List ℕ))
    (previous : Option (List ℕ)) (count before : ℕ) (raw : List ℕ) (rest : List (List ℕ))
    → length rest ≤ fuel
    → read_file fuel u policy allowed previous count before raw rest ≢ err exhausted
unfolding read_file
file-ne-exhausted fuel u policy allowed previous count before raw rest enough =
    bind-ne-err exhausted (header_value (codes "--- ") raw) _
      (header_value-ne-exhausted (codes "--- ") raw)
      λ old_value _.
        behind-ne-exhausted fuel u policy allowed previous count before old_value rest enough

files-ne-exhausted :
    (fuel : ℕ) (u : Unicode) (policy : PatchPolicy) (allowed : List (List ℕ))
    (previous : Option (List ℕ)) (count before : ℕ) (lines : List (List ℕ))
    → length lines ≤ fuel
    → read_files fuel u policy allowed previous count before lines ≢ err exhausted
unfolding read_files
files-ne-exhausted fuel u policy allowed previous count before [] enough = λ e. cc
files-ne-exhausted zero u policy allowed previous count before (raw ∷ rest) enough =
    absurd (omega arith)
files-ne-exhausted (suc fuel) u policy allowed previous count before (raw ∷ rest) enough =
    bind-ne-err exhausted (read_file fuel u policy allowed previous count before raw rest) _
      (file-ne-exhausted fuel u policy allowed previous count before raw rest (omega arith))
      λ f one.
        bind-ne-err exhausted
          (read_files fuel u policy allowed (some f.file.path) (suc count) (before + f.changed)
            f.rest)
          _
          (files-ne-exhausted fuel u policy allowed (some f.file.path) (suc count)
            (before + f.changed) f.rest
            (omega (
              arith,
              (read_file-IsFileRead fuel u policy allowed previous count before raw rest f
                  one).shorter,
            )))
          λ later _ e. cc

bytes-ne-exhausted :
    (u : Unicode) (patch : List ℕ) (policy : PatchPolicy)
    → validated_patch_bytes u patch policy ≢ err exhausted
unfolding validated_patch_bytes
bytes-ne-exhausted u patch policy = ground arith

-- The three nested loops of `_parse_wire_patch` end for every input: with as much fuel as there are
-- lines the parser never runs out of it.
pub parse_wire_patch-ne-exhausted :
    (u : Unicode) (patch : List ℕ) (allowed : List (List ℕ)) (policy : PatchPolicy)
    → parse_wire_patch u patch allowed policy ≢ err exhausted
unfolding parse_wire_patch
parse_wire_patch-ne-exhausted u patch allowed policy =
    let lines = split_lines patch in
    bind-ne-err exhausted (as_patch_error (canonical_repository_paths u allowed 1 32)) _
      (as_patch_error-ne-exhausted (canonical_repository_paths u allowed 1 32))
      λ _ _.
        bind-ne-err exhausted (validated_patch_bytes u patch policy) _
          (bytes-ne-exhausted u patch policy)
          λ encoded _.
            bind-ne-err exhausted (require (whole encoded) patch_invalid) _
              (require-ne-exhausted (whole encoded))
              λ _ _.
                bind-ne-err exhausted (read_files (length lines) u policy allowed none 0 0 lines) _
                  (files-ne-exhausted (length lines) u policy allowed none 0 0 lines (omega arith))
                  λ read _.
                    bind-ne-err exhausted (require (not (no_files read.files)) patch_invalid) _
                      (require-ne-exhausted (not (no_files read.files))) λ _ _ e. cc
  where
    whole : List ℕ → Bool
    whole encoded =
        not (no_text_lines (split_lines patch))
        && (total_bytes (split_lines patch) == length encoded)
