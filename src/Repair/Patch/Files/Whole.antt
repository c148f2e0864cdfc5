-- ===== src/Repair/Patch/Files/Whole.antt =====
-- `_parse_wire_patch` as a whole (src/repoguard/_repair_patch.py).
use repo_guard.Base.{
  ℕ, zero, suc, ◌+◌, ◌≤◌, ◌≡◌, refl, subst, ◌≢◌, true, not, ◌&&◌, Option, none, some, List, [], ◌∷◌,
  arith, length, ◌==◌,
}
use repo_guard.Base.Outcome.{ok, >>=-eq-ok, ok-injective, require-then}
use repo_guard.Text.{encode_utf8}
use repo_guard.Repair.Unicode.{Unicode}
use repo_guard.Repair.Paths.{canonical_repository_paths}
use repo_guard.Repair.Patch.{patch_invalid, PatchFile, PatchPolicy, ParsedPatch}
use repo_guard.Repair.Patch.Lines.{split_lines, validated_patch_bytes, as_patch_error}
use repo_guard.Repair.Patch.Files.{
  FileRead, read_file, FilesRead, add_file, read_files, total_bytes, no_text_lines, no_files,
  parse_wire_patch,
}
use repo_guard.Repair.Patch.Files.Sound.{
  AreFiles, changed_in_files, IsFileRead, read_file-IsFileRead,
}

record AreFilesRead (u : Unicode) (policy : PatchPolicy) (allowed : List (List ℕ))
    (previous : Option (List ℕ)) (count before : ℕ) (r : FilesRead) : Type 0 where
  are_files : AreFiles u allowed previous r.files
  few : count ≤ policy.max_patch_paths → count + length r.files ≤ policy.max_patch_paths
  counted : r.changed ≡ changed_in_files r.files
  bounded : before ≤ policy.max_changed_lines → before + r.changed ≤ policy.max_changed_lines

add-AreFilesRead :
    (u : Unicode) (policy : PatchPolicy) (allowed : List (List ℕ)) (previous : Option (List ℕ))
    (count before : ℕ) (lines : List (List ℕ)) (f : FileRead) (later : FilesRead)
    → IsFileRead u policy allowed previous count before lines f
    → AreFilesRead u policy allowed (some f.file.path) (suc count) (before + f.changed) later
    → AreFilesRead u policy allowed previous count before (add_file f later)
add-AreFilesRead u policy allowed previous count before lines f later one more = record {
  are_files = (one.is_file, one.in_order, more.are_files);
  few = λ h. omega (arith, more.few one.room);
  counted = omega (arith, one.counted, more.counted);
  bounded = λ h. omega (arith, more.bounded (one.bounded h));
}

read_files-AreFilesRead :
    (fuel : ℕ) (u : Unicode) (policy : PatchPolicy) (allowed : List (List ℕ))
    (previous : Option (List ℕ)) (count before : ℕ) (lines : List (List ℕ)) (r : FilesRead)
    → read_files fuel u policy allowed previous count before lines ≡ ok r
    → AreFilesRead u policy allowed previous count before r
unfolding read_files
read_files-AreFilesRead fuel u policy allowed previous count before [] r e =
    subst (AreFilesRead u policy allowed previous count before) (ok-injective e) (record {
      are_files = tt;
      few = λ h. omega arith;
      counted = refl;
      bounded = λ h. omega arith;
    })
read_files-AreFilesRead zero u policy allowed previous count before (raw ∷ rest) r e = cc
read_files-AreFilesRead (suc fuel) u policy allowed previous count before (raw ∷ rest) r e =
    let (f, one, e1) =
      >>=-eq-ok (read_file fuel u policy allowed previous count before raw rest) _ e in
    let (later, more, e2) =
      >>=-eq-ok
        (read_files fuel u policy allowed (some f.file.path) (suc count) (before + f.changed)
          f.rest)
        _ e1 in
    subst (AreFilesRead u policy allowed previous count before) (ok-injective e2) (
      add-AreFilesRead u policy allowed previous count before rest f later
        (read_file-IsFileRead fuel u policy allowed previous count before raw rest f one)
        (read_files-AreFilesRead fuel u policy allowed (some f.file.path) (suc count)
          (before + f.changed) f.rest later more))

-- A patch that may go on to be applied.
pub record IsPatch (u : Unicode) (allowed : List (List ℕ)) (policy : PatchPolicy) (patch : List ℕ)
    (p : ParsedPatch) : Type 0 where
  pub from_source : p.source ≡ patch
  pub small : length (encode_utf8 patch) ≤ policy.max_patch_bytes
  pub files_in_order : AreFiles u allowed none p.files
  pub some_file : p.files ≢ []
  pub few : length p.files ≤ policy.max_patch_paths
  pub counted : p.changed_line_count ≡ changed_in_files p.files
  pub bounded : p.changed_line_count ≤ policy.max_changed_lines

bytes-small :
    (u : Unicode) (patch : List ℕ) (policy : PatchPolicy) (encoded : List ℕ)
    → validated_patch_bytes u patch policy ≡ ok encoded
    → length (encode_utf8 patch) ≤ policy.max_patch_bytes
unfolding validated_patch_bytes
bytes-small u patch policy encoded e = ground arith

some_files-of : (fs : List PatchFile) → not (no_files fs) ≡ true → fs ≢ []
some_files-of fs h e = ground arith

-- Whatever `_parse_wire_patch` returns is a patch within the policy: its bytes, files and changed
-- lines are within the limits, its paths are safe, allowed and in strict order of their UTF-8
-- bytes, and in each file the hunks have the line counts of their headers, change a line, have
-- their markers in place and follow one another on both sides.
pub parse_wire_patch-IsPatch :
    (u : Unicode) (patch : List ℕ) (allowed : List (List ℕ)) (policy : PatchPolicy)
    (p : ParsedPatch)
    → parse_wire_patch u patch allowed policy ≡ ok p
    → IsPatch u allowed policy patch p
unfolding parse_wire_patch
parse_wire_patch-IsPatch u patch allowed policy p e =
    let (paths, _, e1) =
      >>=-eq-ok (as_patch_error (canonical_repository_paths u allowed 1 32)) _ e in
    let (encoded, bytes, e2) = >>=-eq-ok (validated_patch_bytes u patch policy) _ e1 in
    let lines = split_lines patch in
    let whole = not (no_text_lines lines) && (total_bytes lines == length encoded) in
    let (_, e3) = (require-then whole patch_invalid _ p).0 e2 in
    let (read, files, e4) =
      >>=-eq-ok (read_files (length lines) u policy allowed none 0 0 lines) _ e3 in
    let (some_files, e5) = (require-then (not (no_files read.files)) patch_invalid _ p).0 e4 in
    let r = read_files-AreFilesRead (length lines) u policy allowed none 0 0 lines read files in
    subst (IsPatch u allowed policy patch) (ok-injective e5) (record {
      from_source = refl;
      small = bytes-small u patch policy encoded bytes;
      files_in_order = r.are_files;
      some_file = some_files-of read.files some_files;
      few = omega (arith, r.few (omega arith));
      counted = r.counted;
      bounded = omega (arith, r.bounded (omega arith));
    })
