-- ===== src/Collection/Hunks/Sound.antt =====
-- The hunks that `_parse_hunks` of src/repoguard/_git.py returns.
use repo_guard.Base.{
  ℕ, suc, ◌≡◌, refl, sym, ap, subst, ◌∙◌, Bool, true, false, ◌&&◌, and_iff, ==_iff, Option, none,
  some, List, [], ◌∷◌, ◌++◌, ◌==◌, All, All-append, if◌then◌else◌,
}
use repo_guard.Base.Outcome.{ok, >>=-eq-ok, require-then, ok-injective}
use repo_guard.Text.{text_eq}
use repo_guard.Text.Decode.{decode_utf8, decode_utf8-encodes}
use repo_guard.Evidence.{DiffLineKind, DiffLineEvidence, DiffHunkEvidence}
use repo_guard.Agent.Context.Numbered.{on_old, IsNumberedHunk}
use repo_guard.Repair.Patch.Header.{HeaderMatch, Coordinates}
use repo_guard.Collection.{Budget, check_deadline, reserve_diff_line}
use repo_guard.Collection.Hunks.{
  HunkState, is_old, is_new, count_kinds, hunk_of, close_hunk, finish_current, without_newline,
  mark_last, drop_newline, or_malformed, old_number, new_number, behind_old, behind_new,
  add_diff_line, kind_of, take_marker, take_body_line, no_newline_marker, take_line, begin_hunk,
  match_hunk, read_header, parse_line, parse_lines, first_state, parse_hunks, split_lf,
}
use repo_guard.Collection.Hunks.Runs.{
  Runs, Runs-Numbered, Runs-append, Runs-without_newline, count_old, count_new, old_side, new_side,
  old_behind, new_behind,
}

-- The open hunk of a state: its lines run from the starts of the header to the next numbers.
abbrev IsOpen : HunkState → Option Coordinates → Type 0
IsOpen s none = Unit
IsOpen s (some c) = Runs c.old_start c.new_start s.lines s.old_line s.new_line

record IsGood (s : HunkState) : Type 0 where
  closed : All IsNumberedHunk s.hunks
  opened : IsOpen s s.header

hunk_numbered :
    (c : Coordinates) (lines : List DiffLineEvidence) (o n : ℕ)
    → Runs c.old_start c.new_start lines o n
    → ((count_kinds is_old lines == c.old_count) && (count_kinds is_new lines == c.new_count))
      ≡ true
    → IsNumberedHunk (hunk_of c lines)
hunk_numbered c lines o n runs h =
    let (a, b) = (and_iff (count_kinds is_old lines == c.old_count) _).0 h in
    record {
      numbered = Runs-Numbered c.old_start c.new_start o n lines runs;
      old_lines = sym (count_old lines) ∙ (==_iff _ _).0 a;
      new_lines = sym (count_new lines) ∙ (==_iff _ _).0 b;
    }

close_hunk-IsGood :
    (s : HunkState) (header : Option Coordinates) (t : HunkState)
    → s.header ≡ header
    → IsGood s
    → close_hunk s header ≡ ok t
    → IsGood t
close_hunk-IsGood s none t e good h = subst IsGood (ok-injective h) good
close_hunk-IsGood s (some c) t e good h =
    let (counts, h1) =
      (require-then
          ((count_kinds is_old s.lines == c.old_count)
            && (count_kinds is_new s.lines == c.new_count))
          _ _ _).0
        h in
    let runs = subst (IsOpen s) e good.opened in
    let closed : IsGood
        (record s { hunks = s.hunks ++ hunk_of c s.lines ∷ []; header = none; lines = [] }) =
      record {
        closed =
            All-append IsNumberedHunk s.hunks (hunk_of c s.lines ∷ []) good.closed
              (hunk_numbered c s.lines s.old_line s.new_line runs counts, tt);
        opened = tt;
      } in
    subst IsGood (ok-injective h1) closed

finish_current-IsGood : (s t : HunkState) → IsGood s → finish_current s ≡ ok t → IsGood t
unfolding finish_current
finish_current-IsGood s t good h =
    let (budget, _, h1) = >>=-eq-ok (check_deadline s.budget) _ h in
    close_hunk-IsGood (record s { budget = budget }) s.header t refl
      (record { closed = good.closed; opened = good.opened }) h1

or_malformed-eq-ok :
    (o : Option (List ℕ)) (content : List ℕ) → or_malformed o ≡ ok content → o ≡ some content
or_malformed-eq-ok none content h = cc
or_malformed-eq-ok (some x) content h = ap (λ y. some y) (ok-injective h)

add_diff_line-IsGood :
    (s : HunkState) (kind : DiffLineKind) (payload : List ℕ) (c : Coordinates) (t : HunkState)
    → s.header ≡ some c
    → IsGood s
    → add_diff_line s kind payload ≡ ok t
    → IsGood t
unfolding add_diff_line
add_diff_line-IsGood s kind payload c t e good h =
    let decoded = decode_utf8 (drop_newline payload) in
    let (budget, _, h1) = >>=-eq-ok (reserve_diff_line s.budget) _ h in
    let (content, decodes, h2) = >>=-eq-ok (or_malformed decoded) _ h1 in
    let line : DiffLineEvidence = record {
      kind = kind;
      old_line_number = old_number kind s.old_line;
      new_line_number = new_number kind s.new_line;
      content = content;
      has_trailing_newline = true;
    } in
    let lines = s.lines ++ line ∷ [] in
    let longer =
      Runs-append c.old_start c.new_start s.old_line s.new_line s.lines line
        (subst (IsOpen s) e good.opened) (old_side kind s.old_line) (new_side kind s.new_line)
        (decode_utf8-encodes (drop_newline payload) content
          (or_malformed-eq-ok decoded content decodes)) in
    let moved =
      subst (λ k. Runs c.old_start c.new_start lines k (behind_new kind s.new_line))
        (old_behind kind s.old_line)
        (subst (λ k. Runs c.old_start c.new_start lines (on_old kind (suc s.old_line) s.old_line) k)
          (new_behind kind s.new_line) longer) in
    let next : HunkState = record s {
      lines = lines;
      old_line = behind_old kind s.old_line;
      new_line = behind_new kind s.new_line;
      budget = budget;
    } in
    subst IsGood (ok-injective h2)
      (record { closed = good.closed; opened = subst (IsOpen next) (sym e) moved })

mark_last-IsGood :
    (s : HunkState) (lines : List DiffLineEvidence) (c : Coordinates) (t : HunkState)
    → s.lines ≡ lines
    → s.header ≡ some c
    → IsGood s
    → mark_last s lines ≡ ok t
    → IsGood t
mark_last-IsGood s [] c t e f good h = cc
mark_last-IsGood s (line ∷ lines) c t e f good h =
    let runs =
      subst (λ ls. Runs c.old_start c.new_start ls s.old_line s.new_line) e
        (subst (IsOpen s) f good.opened) in
    subst IsGood (ok-injective h) (record {
      closed = good.closed;
      opened =
          subst (IsOpen (record s { lines = without_newline (line ∷ lines) })) (sym f) (
            Runs-without_newline c.old_start c.new_start s.old_line s.new_line (line ∷ lines) runs);
    })

take_body_line-IsGood :
    (s : HunkState) (line : List ℕ) (c : Coordinates) (t : HunkState)
    → s.header ≡ some c
    → IsGood s
    → take_body_line s line ≡ ok t
    → IsGood t
take_body_line-IsGood s [] c t e good h = cc
take_body_line-IsGood s (b ∷ payload) c t e good h = by_kind (kind_of b) h
  where
    by_kind : (o : Option DiffLineKind) → take_marker s o payload ≡ ok t → IsGood t
    by_kind none h = finish_current-IsGood s t good h
    by_kind (some kind) h = add_diff_line-IsGood s kind payload c t e good h

take_line-IsGood :
    (s : HunkState) (header : Option Coordinates) (line : List ℕ) (t : HunkState)
    → s.header ≡ header
    → IsGood s
    → take_line s header line ≡ ok t
    → IsGood t
take_line-IsGood s none line t e good h = subst IsGood (ok-injective h) good
take_line-IsGood s (some c) line t e good h = by_test (text_eq line no_newline_marker) h
  where
    by_test :
        (b : Bool) → (if b then mark_last s s.lines else take_body_line s line) ≡ ok t → IsGood t
    by_test true h = mark_last-IsGood s s.lines c t refl e good h
    by_test false h = take_body_line-IsGood s line c t e good h

begin_hunk-IsGood :
    (s : HunkState) (m : HeaderMatch) (t : HunkState) → IsGood s → begin_hunk s m ≡ ok t → IsGood t
begin_hunk-IsGood s m t good h =
    let (done, f, h1) = >>=-eq-ok (finish_current s) _ h in
    let (c, _, h2) = >>=-eq-ok (read_header m) _ h1 in
    subst IsGood (ok-injective h2)
      (record { closed = (finish_current-IsGood s done good f).closed; opened = (refl, refl) })

parse_line-IsGood :
    (s : HunkState) (line : List ℕ) (t : HunkState) → IsGood s → parse_line s line ≡ ok t → IsGood t
unfolding parse_line
parse_line-IsGood s line t good h =
    let (budget, _, h1) = >>=-eq-ok (check_deadline s.budget) _ h in
    by_match budget (match_hunk line) h1
  where
    by_match :
        (budget : Option Budget) (o : Option HeaderMatch)
        → elim o [
          | some m ↦ begin_hunk (record s { budget = budget }) m
          | none ↦ take_line (record s { budget = budget }) s.header line
        ]
          ≡ ok t
        → IsGood t
    by_match budget (some m) h =
        begin_hunk-IsGood (record s { budget = budget }) m t
          (record { closed = good.closed; opened = good.opened }) h
    by_match budget none h =
        take_line-IsGood (record s { budget = budget }) s.header line t refl
          (record { closed = good.closed; opened = good.opened }) h

parse_lines-IsGood :
    (s : HunkState) (lines : List (List ℕ)) (t : HunkState)
    → IsGood s
    → parse_lines s lines ≡ ok t
    → IsGood t
unfolding parse_lines
parse_lines-IsGood s [] t good h = subst IsGood (ok-injective h) good
parse_lines-IsGood s (line ∷ lines) t good h =
    let (next, first, rest) = >>=-eq-ok (parse_line s line) _ h in
    parse_lines-IsGood next lines t (parse_line-IsGood s line next good first) rest

-- Whatever bytes `_parse_hunks` returns hunks of, with or without a budget: in each of them the
-- lines bear consecutive numbers from the starts of the header on the sides that their kind is on
-- and none on the other, their content can be encoded, and there are as many lines of each side as
-- the header counts.
pub parse_hunks-IsNumberedHunk :
    (patch : List ℕ) (budget after : Option Budget) (hunks : List DiffHunkEvidence)
    → parse_hunks patch budget ≡ ok (hunks, after)
    → All IsNumberedHunk hunks
unfolding parse_hunks
parse_hunks-IsNumberedHunk patch budget after hunks h =
    let (read, reads, h1) = >>=-eq-ok (parse_lines (first_state budget) (split_lf patch)) _ h in
    let (done, finishes, h2) = >>=-eq-ok (finish_current read) _ h1 in
    let start : IsGood (first_state budget) = record { closed = tt; opened = tt } in
    subst (All IsNumberedHunk) (ap (λ p. p.0) (ok-injective h2))
      (finish_current-IsGood read done
        (parse_lines-IsGood (first_state budget) (split_lf patch) read start reads) finishes).closed
