-- ===== src/Repair/Patch/Files.antt =====
-- The files of a patch, and the whole of `_parse_wire_patch` (src/repoguard/_repair_patch.py).
pub mod Sound
pub mod Whole
pub mod Ends
use repo_guard.Base.{
  ℕ, zero, suc, ◌+◌, Bool, true, false, not, ◌&&◌, ◌||◌, Option, none, some, List, [], ◌∷◌, ◌++◌,
  ltb, leb, ◌==◌, if◌then◌else◌, length, Ordering,
}
use repo_guard.Base.Outcome.{Outcome, ok, err, ◌>>=◌, ◌>>◌, require}
use repo_guard.Text.{codes, starts_with, strip_prefix, encode_utf8}
use repo_guard.Repair.Unicode.{Unicode}
use repo_guard.Repair.Paths.{compare_paths, has_text, canonical_repository_paths}
use repo_guard.Repair.Patch.{
  PatchError, patch_invalid, patch_limit, exhausted, PatchHunk, PatchFile, ParsedPatch, PatchPolicy,
}
use repo_guard.Repair.Patch.Lines.{
  Parsed, strip_lf, split_lines, parse_file_headers, validated_patch_bytes, as_patch_error,
}
use repo_guard.Repair.Patch.Hunks.{HunksRead, read_hunks}

abbrev is_less : Ordering → Bool
is_less Ordering.lt = true
is_less _ = false

-- previous_path is None or before the path
unfoldable pub comes_after : Option (List ℕ) → List ℕ → Bool
comes_after none path = true
comes_after (some previous) path = is_less (compare_paths previous path)

-- The value of a header line behind its prefix.
abbrev pub header_value : List ℕ → List ℕ → Parsed (List ℕ)
header_value prefix raw = do
  header ← strip_lf raw
  elim (strip_prefix prefix header) [ some value ↦ ok value | none ↦ err patch_invalid ]

abbrev pub no_hunks_read : List PatchHunk → Bool
no_hunks_read [] = true
no_hunks_read (h ∷ hs) = false

abbrev pub begins_file : List (List ℕ) → Bool
begins_file [] = true
begins_file (raw ∷ rest) = starts_with (codes "--- ") raw

-- A file, how many lines it changes, and the lines behind it.
pub record FileRead : Type 0 where
  pub file : PatchFile
  pub changed : ℕ
  pub rest : List (List ℕ)

abbrev pub file_read : List ℕ × Bool → HunksRead → FileRead
file_read named read = record {
  file = record { path = named.0; is_new = named.1; hunks = read.hunks };
  changed = read.changed;
  rest = read.rest;
}

-- The checks behind the hunks of a file.
unfoldable pub accept_file : List ℕ × Bool → HunksRead → Parsed FileRead
accept_file named read = do
  require (not (no_hunks_read read.hunks || (read.changed == 0))) patch_invalid
  require (begins_file read.rest) patch_invalid
  ok (file_read named read)

-- The checks of the path that the headers name.
unfoldable pub accept_path :
    PatchPolicy → List (List ℕ) → Option (List ℕ) → ℕ → List ℕ → Parsed Unit
accept_path policy allowed previous count path = do
  require (has_text path allowed) patch_invalid
  require (comes_after previous path) patch_invalid
  require (ltb count policy.max_patch_paths) patch_limit

-- From the second header line on.
unfoldable pub read_file_behind :
    ℕ
    → Unicode
    → PatchPolicy
    → List (List ℕ)
    → Option (List ℕ)
    → ℕ
    → ℕ
    → List ℕ
    → List (List ℕ)
    → Parsed FileRead
read_file_behind fuel u policy allowed previous count changed_before old_value [] =
    err patch_invalid
read_file_behind fuel u policy allowed previous count changed_before old_value (raw ∷ rest) = do
  new_value ← header_value (codes "+++ ") raw
  named ← parse_file_headers u old_value new_value
  accept_path policy allowed previous count named.0
  read ← read_hunks fuel policy named.1 none changed_before rest
  accept_file named read

-- One round of the outer loop, from the first header line on.
unfoldable pub read_file :
    ℕ
    → Unicode
    → PatchPolicy
    → List (List ℕ)
    → Option (List ℕ)
    → ℕ
    → ℕ
    → List ℕ
    → List (List ℕ)
    → Parsed FileRead
read_file fuel u policy allowed previous count changed_before raw rest = do
  old_value ← header_value (codes "--- ") raw
  read_file_behind fuel u policy allowed previous count changed_before old_value rest

pub record FilesRead : Type 0 where
  pub files : List PatchFile
  pub changed : ℕ

abbrev pub add_file : FileRead → FilesRead → FilesRead
add_file f later = record { files = f.file ∷ later.files; changed = f.changed + later.changed }

-- The outer loop. `count` files and `changed_before` changed lines have been read.
unfoldable pub read_files :
    ℕ
    → Unicode
    → PatchPolicy
    → List (List ℕ)
    → Option (List ℕ)
    → ℕ
    → ℕ
    → List (List ℕ)
    → Parsed FilesRead
read_files fuel u policy allowed previous count changed_before [] =
    ok (record { files = []; changed = 0 })
read_files zero u policy allowed previous count changed_before (raw ∷ rest) = err exhausted
read_files (suc fuel) u policy allowed previous count changed_before (raw ∷ rest) = do
  f ← read_file fuel u policy allowed previous count changed_before raw rest
  later ←
      read_files fuel u policy allowed (some f.file.path) (suc count) (changed_before + f.changed)
        f.rest
  ok (add_file f later)

abbrev pub total_bytes : List (List ℕ) → ℕ
total_bytes [] = 0
total_bytes (line ∷ lines) = length (encode_utf8 line) + total_bytes lines

abbrev pub no_text_lines : List (List ℕ) → Bool
no_text_lines [] = true
no_text_lines (line ∷ lines) = false

abbrev pub no_files : List PatchFile → Bool
no_files [] = true
no_files (f ∷ fs) = false

unfoldable pub parse_wire_patch :
    Unicode → List ℕ → List (List ℕ) → PatchPolicy → Parsed ParsedPatch
parse_wire_patch u patch allowed_paths policy = do
  allowed ← as_patch_error (canonical_repository_paths u allowed_paths 1 32)
  encoded ← validated_patch_bytes u patch policy
  let lines = split_lines patch
  require (not (no_text_lines lines) && (total_bytes lines == length encoded)) patch_invalid
  read ← read_files (length lines) u policy allowed_paths none 0 0 lines
  require (not (no_files read.files)) patch_invalid
  ok (record { source = patch; files = read.files; changed_line_count = read.changed })
