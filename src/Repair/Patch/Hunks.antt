-- ===== src/Repair/Patch/Hunks.antt =====
-- The hunks of one file (src/repoguard/_repair_patch.py, the second loop of `_parse_wire_patch`).
pub mod Order
pub mod Loop
use repo_guard.Base.{
  ℕ, zero, suc, ◌+◌, Bool, true, false, not, ◌&&◌, ◌||◌, Option, none, some, List, [], ◌∷◌, ◌++◌,
  ltb, leb, ◌==◌, if◌then◌else◌,
}
use repo_guard.Base.Outcome.{Outcome, ok, err, ◌>>=◌, ◌>>◌, require}
use repo_guard.Text.{codes, starts_with}
use repo_guard.Repair.Patch.{
  PatchError, patch_invalid, patch_limit, exhausted, PatchLine, PatchHunk, PatchPolicy,
}
use repo_guard.Repair.Patch.Lines.{Parsed, strip_lf}
use repo_guard.Repair.Patch.Header.{Coordinates, parse_hunk_header}
use repo_guard.Repair.Patch.Body.{Body, empty_body, read_body}

-- previous_old_end and previous_new_end, which are set together.
abbrev pub Ends : Type 0
Ends = Option (ℕ × ℕ)

abbrev pub no_lines : List PatchLine → Bool
no_lines [] = true
no_lines (l ∷ ls) = false

unfoldable pub counts_match : Coordinates → Body → Bool
counts_match c b =
    not (no_lines b.lines)
    && (b.old_seen == c.old_count)
    && (b.new_seen == c.new_count)
    && not (b.changed_seen == 0)

unfoldable pub fits_new_file : Bool → Coordinates → Body → Bool
fits_new_file false c b = true
fits_new_file true c b = (c.old_start == 0) && (c.old_count == 0) && (b.old_seen == 0)

-- A side with lines starts at line 1 at the earliest.
unfoldable pub starts_in_file : Coordinates → Bool
starts_in_file c =
    not (ltb 0 c.old_count && (c.old_start == 0)) && not (ltb 0 c.new_count && (c.new_start == 0))

unfoldable pub follows : Ends → Coordinates → Bool
follows none c = true
follows (some (old_end, new_end)) c = leb old_end c.old_start && leb new_end c.new_start

-- A hunk, how many lines it changes, and the lines behind it.
pub record HunkRead : Type 0 where
  pub hunk : PatchHunk
  pub changed : ℕ
  pub ends : ℕ × ℕ
  pub rest : List (List ℕ)

abbrev pub hunk_read : Coordinates → Body → List (List ℕ) → HunkRead
hunk_read c b rest = record {
  hunk = record {
    old_start = c.old_start;
    old_count = c.old_count;
    new_start = c.new_start;
    new_count = c.new_count;
    lines = b.lines;
  };
  changed = b.changed_seen;
  ends = (c.old_start + c.old_count, c.new_start + c.new_count);
  rest = rest;
}

-- What the loop does once the lines of a hunk have been read.
unfoldable pub accept_hunk :
    PatchPolicy → Bool → Ends → ℕ → Coordinates → Body → List (List ℕ) → Parsed HunkRead
accept_hunk policy is_new previous changed_before c b rest = do
  require (counts_match c b) patch_invalid
  require (fits_new_file is_new c b) patch_invalid
  require (starts_in_file c) patch_invalid
  require (follows previous c) patch_invalid
  require (leb (changed_before + b.changed_seen) policy.max_changed_lines) patch_limit
  ok (hunk_read c b rest)

-- One round of the loop: the changed lines before it are those of the whole patch.
unfoldable pub read_hunk : PatchPolicy → Bool → Ends → ℕ → List ℕ → List (List ℕ) → Parsed HunkRead
unfolding accept_hunk
read_hunk policy is_new previous changed_before raw rest = do
  header ← strip_lf raw
  c ← parse_hunk_header header
  read ← read_body rest empty_body
  accept_hunk policy is_new previous changed_before c read.0 read.1

-- The hunks of a file, how many lines they change, and the lines behind them.
pub record HunksRead : Type 0 where
  pub hunks : List PatchHunk
  pub changed : ℕ
  pub rest : List (List ℕ)

abbrev pub no_hunks : List (List ℕ) → HunksRead
no_hunks rest = record { hunks = []; changed = 0; rest = rest }

abbrev pub add_hunk : HunkRead → HunksRead → HunksRead
add_hunk h later = record {
  hunks = h.hunk ∷ later.hunks;
  changed = h.changed + later.changed;
  rest = later.rest;
}

-- Each round takes a line at least, so as much fuel as there are lines is enough.
unfoldable pub read_hunks : ℕ → PatchPolicy → Bool → Ends → ℕ → List (List ℕ) → Parsed HunksRead
read_hunks fuel policy is_new previous changed_before [] = ok (no_hunks [])
read_hunks zero policy is_new previous changed_before (raw ∷ rest) = err exhausted
read_hunks (suc fuel) policy is_new previous changed_before (raw ∷ rest) =
    if starts_with (codes "@@ ") raw
    then (do
      h ← read_hunk policy is_new previous changed_before raw rest
      later ← read_hunks fuel policy is_new (some h.ends) (changed_before + h.changed) h.rest
      ok (add_hunk h later))
    else ok (no_hunks (raw ∷ rest))
