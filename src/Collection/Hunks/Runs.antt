-- ===== src/Collection/Hunks/Runs.antt =====
-- The numbers of the lines that `_parse_hunks` of src/repoguard/_git.py collects in a hunk.
use repo_guard.Base.{
  ℕ, suc, ◌+◌, ◌≡◌, refl, sym, ap, ◌∙◌, true, none, some, List, [], ◌∷◌, ◌++◌, arith, if◌then◌else◌,
}
use repo_guard.Text.{encodes}
use repo_guard.Evidence.{DiffLineKind, context, addition, deletion, DiffLineEvidence}
use repo_guard.Agent.Context.Numbered.{on_old, on_new, Numbered, old_count, new_count}
use repo_guard.Collection.Hunks.{
  is_old, is_new, count_kinds, without_newline, old_number, new_number, behind_old, behind_new,
}

-- Lines numbered on both sides from two numbers up to two others.
abbrev pub Runs : ℕ → ℕ → List DiffLineEvidence → ℕ → ℕ → Type 0
Runs o n [] o' n' = (o ≡ o') × (n ≡ n')
Runs o n (line ∷ lines) o' n' =
    (line.old_line_number ≡ on_old line.kind (some o) none)
    × (line.new_line_number ≡ on_new line.kind (some n) none)
    × (encodes line.content ≡ true)
    × Runs (on_old line.kind (suc o) o) (on_new line.kind (suc n) n) lines o' n'

pub Runs-Numbered :
    (o n o' n' : ℕ) (lines : List DiffLineEvidence) → Runs o n lines o' n' → Numbered o n lines
Runs-Numbered o n o' n' [] h = tt
Runs-Numbered o n o' n' (line ∷ lines) (a, b, c, h) =
    (a, b, c, Runs-Numbered (on_old line.kind (suc o) o) (on_new line.kind (suc n) n) o' n' lines h)

pub Runs-append :
    (o n o' n' : ℕ) (lines : List DiffLineEvidence) (line : DiffLineEvidence)
    → Runs o n lines o' n'
    → line.old_line_number ≡ on_old line.kind (some o') none
    → line.new_line_number ≡ on_new line.kind (some n') none
    → encodes line.content ≡ true
    → Runs o n (lines ++ line ∷ []) (on_old line.kind (suc o') o') (on_new line.kind (suc n') n')
Runs-append o n o' n' [] line (e, f) a b c = (
  a ∙ ap (λ k. on_old line.kind (some k) none) (sym e),
  b ∙ ap (λ k. on_new line.kind (some k) none) (sym f),
  c,
  (ap (λ k. on_old line.kind (suc k) k) e, ap (λ k. on_new line.kind (suc k) k) f),
)
Runs-append o n o' n' (first ∷ lines) line (p, q, r, h) a b c = (
  p,
  q,
  r,
  Runs-append (on_old first.kind (suc o) o) (on_new first.kind (suc n) n) o' n' lines line h a b c,
)

pub Runs-without_newline :
    (o n o' n' : ℕ) (lines : List DiffLineEvidence)
    → Runs o n lines o' n'
    → Runs o n (without_newline lines) o' n'
Runs-without_newline o n o' n' [] h = h
Runs-without_newline o n o' n' (line ∷ []) h = h
Runs-without_newline o n o' n' (line ∷ next ∷ lines) (a, b, c, h) = (
  a,
  b,
  c,
  Runs-without_newline (on_old line.kind (suc o) o) (on_new line.kind (suc n) n) o' n'
      (next ∷ lines) h,
)

pub count_old : (lines : List DiffLineEvidence) → count_kinds is_old lines ≡ old_count lines
count_old [] = refl
count_old (line ∷ lines) = let ih = count_old lines in by_kind line.kind ih
  where
    by_kind :
        (k : DiffLineKind)
        → count_kinds is_old lines ≡ old_count lines
        → (if is_old k then 1 else 0) + count_kinds is_old lines ≡ on_old k 1 0 + old_count lines
    by_kind addition e = ap (λ x. 0 + x) e
    by_kind context e = ap (λ x. 1 + x) e
    by_kind deletion e = ap (λ x. 1 + x) e

pub count_new : (lines : List DiffLineEvidence) → count_kinds is_new lines ≡ new_count lines
count_new [] = refl
count_new (line ∷ lines) = let ih = count_new lines in by_kind line.kind ih
  where
    by_kind :
        (k : DiffLineKind)
        → count_kinds is_new lines ≡ new_count lines
        → (if is_new k then 1 else 0) + count_kinds is_new lines ≡ on_new k 1 0 + new_count lines
    by_kind deletion e = ap (λ x. 0 + x) e
    by_kind context e = ap (λ x. 1 + x) e
    by_kind addition e = ap (λ x. 1 + x) e

pub old_side : (k : DiffLineKind) (n : ℕ) → old_number k n ≡ on_old k (some n) none
old_side addition n = refl
old_side context n = refl
old_side deletion n = refl

pub new_side : (k : DiffLineKind) (n : ℕ) → new_number k n ≡ on_new k (some n) none
new_side addition n = refl
new_side context n = refl
new_side deletion n = refl

pub old_behind : (k : DiffLineKind) (n : ℕ) → on_old k (suc n) n ≡ behind_old k n
old_behind addition n = refl
old_behind context n = omega arith
old_behind deletion n = omega arith

pub new_behind : (k : DiffLineKind) (n : ℕ) → on_new k (suc n) n ≡ behind_new k n
new_behind deletion n = refl
new_behind context n = omega arith
new_behind addition n = omega arith
