-- ===== src/Repair/Patch/Body.antt =====
-- The lines of one hunk (src/repoguard/_repair_patch.py, the innermost loop of `_parse_wire_patch`).
pub mod Counts
use repo_guard.Base.{
  ℕ, zero, suc, ◌+◌, Bool, true, false, not, ◌&&◌, ◌||◌, List, [], ◌∷◌, ◌++◌, if◌then◌else◌,
}
use repo_guard.Base.Outcome.{Outcome, ok, err, ◌>>=◌, ◌>>◌, require}
use repo_guard.Text.{codes, starts_with}
use repo_guard.Repair.Patch.{
  PatchError, patch_invalid, PatchLineKind, context, addition, deletion, no_newline, PatchLine,
}
use repo_guard.Repair.Patch.Lines.{Parsed, strip_lf, parse_hunk_line}

-- What the loop has read: the lines, how many stand on each side, and what the last line was.
pub record Body : Type 0 where
  pub lines : List PatchLine
  pub old_seen : ℕ
  pub new_seen : ℕ
  pub changed_seen : ℕ
  pub previous_was_content : Bool
  pub previous_was_marker : Bool

abbrev pub empty_body : Body
empty_body = record {
  lines = [];
  old_seen = 0;
  new_seen = 0;
  changed_seen = 0;
  previous_was_content = false;
  previous_was_marker = false;
}

abbrev add_content : Body → PatchLine → ℕ → ℕ → ℕ → Body
add_content b line old new changed = record {
  lines = b.lines ++ line ∷ [];
  old_seen = b.old_seen + old;
  new_seen = b.new_seen + new;
  changed_seen = b.changed_seen + changed;
  previous_was_content = true;
  previous_was_marker = false;
}

-- One round of the loop. A marker needs content before it and no marker just before it.
unfoldable pub add_line : Body → PatchLine → Parsed Body
add_line b line = elim line.kind [
  | no_newline ↦ do
    require (b.previous_was_content && not b.previous_was_marker) patch_invalid
    ok (record b { lines = b.lines ++ line ∷ []; previous_was_marker = true })
  | context ↦ ok (add_content b line 1 1 0)
  | addition ↦ ok (add_content b line 0 1 1)
  | deletion ↦ ok (add_content b line 1 0 1)
]

-- raw.startswith("@@ ") or raw.startswith("--- ")
unfoldable pub ends_body : List ℕ → Bool
ends_body raw = starts_with (codes "@@ ") raw || starts_with (codes "--- ") raw

unfoldable pub read_line : List ℕ → Body → Parsed Body
unfolding strip_lf parse_hunk_line add_line
read_line raw b = do value ← strip_lf raw; line ← parse_hunk_line value; add_line b line

-- The loop, with the lines that it leaves.
unfoldable pub read_body : List (List ℕ) → Body → Parsed (Body × List (List ℕ))
unfolding ends_body read_line
read_body [] b = ok (b, [])
read_body (raw ∷ rest) b =
    if ends_body raw then ok (b, raw ∷ rest) else (read_line raw b >>= λ b'. read_body rest b')
