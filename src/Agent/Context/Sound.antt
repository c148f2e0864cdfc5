-- ===== src/Agent/Context/Sound.antt =====
-- The agent's validation of evidence beside that of the deterministic review, which runs behind it.
use repo_guard.Base.{
  ℕ, ◌≡◌, refl, ◌≢◌, inl, inr, false, Option, none, List, [], ◌∷◌, arith, All, Option-cases,
}
use repo_guard.Base.Outcome.{ok, Outcome-cases, >>=-eq-ok}
use repo_guard.Text.{contains}
use repo_guard.Evidence.{addition, FileVersion, DiffLineEvidence, DiffHunkEvidence}
use repo_guard.Review.Validate.{validate_line, validate_lines, validate_hunks}
use repo_guard.Agent.Context.{
  LineState, validate_context_line, validate_context_lines, validate_context_hunk,
  validate_context_hunks, count_line, start_hunk,
}

-- What the review has seen, the agent has seen.
abbrev pub Covers : List ℕ → List ℕ → Type 0
Covers seen numbers = (n : ℕ) → contains n numbers ≡ false → contains n seen ≡ false

-- No line is added where there is no new side.
abbrev pub IsPlaced : Option FileVersion → DiffLineEvidence → Type 0
IsPlaced new line = new ≡ none → line.kind ≢ addition

line_accepted :
    (v : Option FileVersion) (s s' : LineState) (line : DiffLineEvidence) (seen : List ℕ)
    → IsPlaced v line
    → Covers seen s.new_numbers
    → validate_context_line s line ≡ ok s'
    → (seen' : List ℕ) × (validate_line v seen line ≡ ok seen') × Covers seen' s'.new_numbers
unfolding validate_context_line validate_line
line_accepted v s s' line seen placed covers h = elim (Outcome-cases (validate_line v seen line)) [
  | inl (t, e) ↦ (t, e, λ n k. ground (arith, covers n))
  | inr (x, e) ↦ elim (Option-cases line.new_line_number) [
    | inl none_there ↦ absurd (ground (arith, placed))
    | inr (n, there) ↦ absurd (ground (arith, placed, covers n))
  ]
]

lines_accepted :
    (v : Option FileVersion) (s s' : LineState) (lines : List DiffLineEvidence) (seen : List ℕ)
    → All (IsPlaced v) lines
    → Covers seen s.new_numbers
    → validate_context_lines s lines ≡ ok s'
    → (seen' : List ℕ) × (validate_lines v seen lines ≡ ok seen') × Covers seen' s'.new_numbers
unfolding validate_context_lines validate_lines
lines_accepted v s s' [] seen placed covers h = (seen, refl, λ n k. ground (arith, covers n))
lines_accepted v s s' (line ∷ lines) seen placed covers h =
    let (t, first, later) = >>=-eq-ok (validate_context_line s line) _ h in
    let (seen1, e1, covers1) = line_accepted v s t line seen placed.0 covers first in
    let (seen2, e2, covers2) =
      lines_accepted v (count_line line.kind t) s' lines seen1 placed.1
        (λ n k. covers1 n (ground arith)) later in
    (seen2, rw e1 e2, covers2)

hunk_accepted :
    (v : Option FileVersion) (hunk : DiffHunkEvidence) (olds news : List ℕ) (s' : LineState)
    (seen : List ℕ)
    → All (IsPlaced v) hunk.lines
    → Covers seen news
    → validate_context_hunk hunk olds news ≡ ok s'
    → (seen' : List ℕ) × (validate_lines v seen hunk.lines ≡ ok seen') × Covers seen' s'.new_numbers
unfolding validate_context_hunk
hunk_accepted v hunk olds news s' seen placed covers h =
    let (s, lines_ok, rest) =
      >>=-eq-ok (validate_context_lines (start_hunk hunk olds news) hunk.lines) _ h in
    lines_accepted v (start_hunk hunk olds news) s' hunk.lines seen placed covers (ground arith)

pub hunks_accepted :
    (v : Option FileVersion) (hunks : List DiffHunkEvidence) (olds news seen : List ℕ)
    → All (λ hunk. All (IsPlaced v) hunk.lines) hunks
    → Covers seen news
    → validate_context_hunks hunks olds news ≡ ok tt
    → (seen' : List ℕ) × (validate_hunks v seen hunks ≡ ok seen')
unfolding validate_context_hunks validate_hunks
hunks_accepted v [] olds news seen placed covers h = (seen, refl)
hunks_accepted v (hunk ∷ hunks) olds news seen placed covers h =
    let (s, first, later) = >>=-eq-ok (validate_context_hunk hunk olds news) _ h in
    let (seen1, e1, covers1) = hunk_accepted v hunk olds news s seen placed.0 covers first in
    let (seen2, e2) =
      hunks_accepted v hunks s.old_numbers s.new_numbers seen1 placed.1 covers1 later in
    (seen2, rw e1 e2)
