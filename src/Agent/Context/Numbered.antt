-- ===== src/Agent/Context/Numbered.antt =====
-- The hunks that the evidence checks of src/repoguard/_agent.py accept.
use repo_guard.Base.{
  ℕ, suc, ◌+◌, ◌≡◌, refl, subst, ◌∙◌, inl, inr, true, none, some, List, [], ◌∷◌, arith, All,
  Option-cases,
}
use repo_guard.Base.Outcome.{ok, >>=-eq-ok}
use repo_guard.Text.{encodes}
use repo_guard.Evidence.{
  DiffLineKind, context, addition, deletion, DiffLineEvidence, DiffHunkEvidence, FileChangeEvidence,
  EvidenceBundle,
}
use repo_guard.Review.Validate.{oid_length}
use repo_guard.Agent.Context.Changes.{
  Targets, validate_context_change, validate_context_changes, validate_context_revisions,
  validate_context_evidence,
}
use repo_guard.Agent.Context.Reviewed.{change_parts}
use repo_guard.Agent.Context.{
  LineState, validate_context_line, validate_context_lines, validate_context_hunk,
  validate_context_hunks, count_line, start_hunk,
}

-- One side that a line stands on, with the number that it has there.
abbrev pub on_old : {A : Type 0} → DiffLineKind → A → A → A
on_old addition a b = b
on_old context a b = a
on_old deletion a b = a

abbrev pub on_new : {A : Type 0} → DiffLineKind → A → A → A
on_new addition a b = a
on_new context a b = a
on_new deletion a b = b

-- Each side numbers its lines one after the other.
abbrev pub Numbered : ℕ → ℕ → List DiffLineEvidence → Type 0
Numbered o n [] = Unit
Numbered o n (line ∷ lines) =
    (line.old_line_number ≡ on_old line.kind (some o) none)
    × (line.new_line_number ≡ on_new line.kind (some n) none)
    × (encodes line.content ≡ true)
    × Numbered (on_old line.kind (suc o) o) (on_new line.kind (suc n) n) lines

Numbered-at :
    {o o' n n' : ℕ} (lines : List DiffLineEvidence)
    → o ≡ o'
    → n ≡ n'
    → Numbered o n lines
    → Numbered o' n' lines
Numbered-at {o' = o'} {n = n} lines e f h =
    subst (λ x. Numbered o' x lines) f (subst (λ x. Numbered x n lines) e h)

abbrev pub old_count : List DiffLineEvidence → ℕ
old_count [] = 0
old_count (line ∷ lines) = on_old line.kind 1 0 + old_count lines

abbrev pub new_count : List DiffLineEvidence → ℕ
new_count [] = 0
new_count (line ∷ lines) = on_new line.kind 1 0 + new_count lines

pub record IsStep (s s' : LineState) (line : DiffLineEvidence) : Type 0 where
  pub old_number : line.old_line_number ≡ on_old line.kind (some s.expected_old) none
  pub new_number : line.new_line_number ≡ on_new line.kind (some s.expected_new) none
  pub encodable : encodes line.content ≡ true
  pub next_old : s'.expected_old ≡ on_old line.kind (suc s.expected_old) s.expected_old
  pub next_new : s'.expected_new ≡ on_new line.kind (suc s.expected_new) s.expected_new
  pub same_old : s'.observed_old ≡ s.observed_old
  pub same_new : s'.observed_new ≡ s.observed_new

line-IsStep :
    (s s' : LineState) (line : DiffLineEvidence)
    → validate_context_line s line ≡ ok s'
    → IsStep s s' line
unfolding validate_context_line
line-IsStep s s' line h = record {
  old_number = ground arith;
  new_number = ground arith;
  encodable = ground arith;
  next_old = ground arith;
  next_new = ground arith;
  same_old = ground arith;
  same_new = ground arith;
}

count_line-fields :
    (kind : DiffLineKind) (t : LineState)
    → ((count_line kind t).expected_old ≡ t.expected_old)
      × ((count_line kind t).expected_new ≡ t.expected_new)
      × ((count_line kind t).observed_old ≡ t.observed_old + on_old kind 1 0)
      × ((count_line kind t).observed_new ≡ t.observed_new + on_new kind 1 0)
count_line-fields addition t = (refl, refl, (omega arith), refl)
count_line-fields deletion t = (refl, refl, refl, (omega arith))
count_line-fields context t = (refl, refl, refl, refl)

lines-Numbered :
    (s s' : LineState) (lines : List DiffLineEvidence)
    → validate_context_lines s lines ≡ ok s'
    → Numbered s.expected_old s.expected_new lines
      × (s'.observed_old ≡ s.observed_old + old_count lines)
      × (s'.observed_new ≡ s.observed_new + new_count lines)
unfolding validate_context_lines
lines-Numbered s s' [] h = (tt, (ground arith), (ground arith))
lines-Numbered s s' (line ∷ lines) h =
    let (t, first, later) = >>=-eq-ok (validate_context_line s line) _ h in
    let step = line-IsStep s t line first in
    let (ns, o, n) = lines-Numbered (count_line line.kind t) s' lines later in
    let (next_o, next_n, obs_o, obs_n) = count_line-fields line.kind t in
    (
      (
        step.old_number,
        step.new_number,
        step.encodable,
        Numbered-at lines (next_o ∙ step.next_old) (next_n ∙ step.next_new) ns,
      ),
      (omega (arith, step.same_old, obs_o, o)),
      (omega (arith, step.same_new, obs_n, n)),
    )

-- A hunk whose lines are numbered from its starts, as many on each side as its counts say.
pub record IsNumberedHunk (hunk : DiffHunkEvidence) : Type 0 where
  pub numbered : Numbered hunk.old_start hunk.new_start hunk.lines
  pub old_lines : old_count hunk.lines ≡ hunk.old_count
  pub new_lines : new_count hunk.lines ≡ hunk.new_count

hunk_numbered :
    (hunk : DiffHunkEvidence) (olds news : List ℕ) (s : LineState)
    → validate_context_hunk hunk olds news ≡ ok s
    → IsNumberedHunk hunk
unfolding validate_context_hunk
hunk_numbered hunk olds news s h =
    let (t, ran, rest) =
      >>=-eq-ok (validate_context_lines (start_hunk hunk olds news) hunk.lines) _ h in
    let (ns, o, n) = lines-Numbered (start_hunk hunk olds news) t hunk.lines ran in
    record { numbered = ns; old_lines = ground arith; new_lines = ground arith }

hunks_numbered :
    (hunks : List DiffHunkEvidence) (olds news : List ℕ)
    → validate_context_hunks hunks olds news ≡ ok tt
    → All IsNumberedHunk hunks
unfolding validate_context_hunks
hunks_numbered [] olds news h = tt
hunks_numbered (hunk ∷ hunks) olds news h =
    let (s, first, later) = >>=-eq-ok (validate_context_hunk hunk olds news) _ h in
    (hunk_numbered hunk olds news s first, hunks_numbered hunks s.old_numbers s.new_numbers later)

changes_numbered :
    (changes : List FileChangeEvidence) (n : ℕ) (seen ts : Targets)
    → validate_context_changes changes n seen ≡ ok ts
    → All (λ change. All IsNumberedHunk change.hunks) changes
unfolding validate_context_changes
changes_numbered [] n seen ts h = tt
changes_numbered (change ∷ changes) n seen ts h =
    let (t, first, later) = >>=-eq-ok (validate_context_change change n seen) _ h in
    let (olds, side_ok, hunks_ok) = change_parts change n seen t first in
    (hunks_numbered change.hunks [] [] hunks_ok, changes_numbered changes n t ts later)

-- In a bundle that `_validate_context_evidence` accepts, the lines of every hunk are numbered one
-- after the other on each side from the starts of the hunk, added lines on the new side alone and
-- deleted ones on the old side alone, and there are as many on each side as the counts say.
pub context_valid-numbered :
    (bundle : EvidenceBundle) (ts : Targets)
    → validate_context_evidence bundle ≡ ok ts
    → All (λ change. All IsNumberedHunk change.hunks) bundle.changes
unfolding validate_context_evidence validate_context_revisions
context_valid-numbered bundle ts h =
    elim (Option-cases (oid_length bundle.repository.object_format)) [
      | inl unknown ↦ absurd (ground arith)
      | inr (n, e) ↦ changes_numbered bundle.changes n [] ts (ground arith)
    ]
