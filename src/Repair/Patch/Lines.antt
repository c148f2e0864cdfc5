-- ===== src/Repair/Patch/Lines.antt =====
-- The text of a patch as lines, and what one line says (src/repoguard/_repair_patch.py).
use repo_guard.Base.{
  ℕ, ◌≡◌, refl, Bool, true, false, not, ◌&&◌, ◌||◌, Option, none, some, List, [], ◌∷◌, leb, ◌==◌,
  if◌then◌else◌, length, any, String,
}
use repo_guard.Base.Outcome.{Outcome, ok, err, ◌>>=◌, ◌>>◌, require}
use repo_guard.Text.{codes, text_eq, strip_prefix, encodes, encode_utf8, contains}
use repo_guard.Repair.Unicode.{Unicode}
use repo_guard.Repair.Paths.{PathError, is_empty, validate_repository_path}
use repo_guard.Repair.Patch.{
  PatchError, patch_invalid, patch_limit, PatchLineKind, context, addition, deletion, no_newline,
  PatchLine, PatchPolicy,
}

abbrev pub Parsed : Type 0 → Type 0
Parsed A = Outcome PatchError A

-- The characters behind which `str.splitlines` cuts.
unfoldable pub is_line_boundary : ℕ → Bool
is_line_boundary c =
    (leb 10 c && leb c 13) || (leb 0x1C c && leb c 0x1E) || c == 0x85 || c == 0x2028 || c == 0x2029

abbrev pub begins_with : ℕ → List ℕ → Bool
begins_with c [] = false
begins_with c (d ∷ s) = d == c

-- A carriage return and the line feed behind it are one boundary.
unfoldable pub ends_line : ℕ → List ℕ → Bool
unfolding is_line_boundary
ends_line c s = is_line_boundary c && not (c == 13 && begins_with 10 s)

abbrev pub add_to_first : ℕ → List (List ℕ) → List (List ℕ)
add_to_first c [] = (c ∷ []) ∷ []
add_to_first c (line ∷ lines) = (c ∷ line) ∷ lines

-- patch.splitlines(keepends=True)
unfoldable pub split_lines : List ℕ → List (List ℕ)
unfolding ends_line
split_lines [] = []
split_lines (c ∷ s) =
    let rest = split_lines s in if ends_line c s then (c ∷ []) ∷ rest else add_to_first c rest

-- value.endswith(c)
unfoldable pub ends_with : ℕ → List ℕ → Bool
ends_with c [] = false
ends_with c (d ∷ []) = d == c
ends_with c (d ∷ e ∷ s) = ends_with c (e ∷ s)

-- value[:-1]
unfoldable pub drop_last : List ℕ → List ℕ
drop_last [] = []
drop_last (c ∷ []) = []
drop_last (c ∷ d ∷ s) = c ∷ drop_last (d ∷ s)

unfoldable pub strip_lf : List ℕ → Parsed (List ℕ)
unfolding ends_with drop_last
strip_lf value = do require (ends_with 10 value) patch_invalid; ok (drop_last value)

abbrev is_plain : Unicode → ℕ → Bool
is_plain u c = c == 10 || c == 9 || not (u.is_other c)

unfoldable pub validated_patch_bytes : Unicode → List ℕ → PatchPolicy → Parsed (List ℕ)
unfolding ends_with
validated_patch_bytes u patch policy = do
  require (encodes patch) patch_invalid
  require (leb (length (encode_utf8 patch)) policy.max_patch_bytes) patch_limit
  require
      (not (is_empty (encode_utf8 patch))
        && ends_with 10 patch
        && not (contains 13 patch)
        && not (contains 0 patch))
      patch_invalid
  require (not (any (λ c. not (is_plain u c)) patch)) patch_invalid
  ok (encode_utf8 patch)

-- value[2:] behind a prefix of two characters
abbrev pub behind : String → List ℕ → Parsed (List ℕ)
behind prefix value = elim (strip_prefix (codes prefix) value) [
  | some rest ↦ ok rest
  | none ↦ err patch_invalid
]

abbrev pub as_patch_error : {A : Type 0} → Outcome PathError A → Parsed A
as_patch_error (ok a) = ok a
as_patch_error (err e) = err patch_invalid

-- The path that both headers name.
unfoldable pub header_path : List ℕ → List ℕ → Parsed (List ℕ × Bool)
header_path old_value new_value =
    if text_eq old_value (codes "/dev/null")
    then (do path ← behind "b/" new_value; ok (path, true))
    else do
      path ← behind "a/" old_value
      new_path ← behind "b/" new_value
      require (text_eq new_path path) patch_invalid
      ok (path, false)

unfoldable pub parse_file_headers : Unicode → List ℕ → List ℕ → Parsed (List ℕ × Bool)
parse_file_headers u old_value new_value = do
  require (not (contains 9 old_value || contains 9 new_value)) patch_invalid
  named ← header_path old_value new_value
  valid_path ← as_patch_error (validate_repository_path u named.0)
  ok named

abbrev pub no_newline_marker : List ℕ
no_newline_marker = codes "\\ No newline at end of file"

-- The kind that the first character of a line stands for.
unfoldable pub line_kind : ℕ → Option PatchLineKind
line_kind c =
    if c == b' '
    then some context
    else if c == b'+'
    then some addition
    else if c == b'-'
    then some deletion
    else none

abbrev prefixed_line : List ℕ → Parsed PatchLine
prefixed_line [] = err patch_invalid
prefixed_line (c ∷ content) = elim (line_kind c) [
  | none ↦ err patch_invalid
  | some kind ↦ ok (record { kind = kind; content = content })
]

unfoldable pub parse_hunk_line : List ℕ → Parsed PatchLine
unfolding line_kind
parse_hunk_line value =
    if text_eq value no_newline_marker
    then ok (record { kind = no_newline; content = [] })
    else prefixed_line value

split_example : split_lines (codes "a\nbc\n") ≡ codes "a\n" ∷ codes "bc\n" ∷ []
unfolding split_lines
split_example = refl
