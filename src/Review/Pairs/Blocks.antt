-- ===== src/Review/Pairs/Blocks.antt =====
-- The queues of the merge-conflict rule of src/repoguard/_review.py, line by line.
use mathlib.Core.List.{append_assoc}
use repo_guard.Base.{
  ℕ, ◌≡◌, refl, sym, ap, subst, ◌∙◌, inl, inr, List, [], ◌∷◌, ◌++◌, ◌==◌, ==_iff, In, In-append,
  All, All-append, Bool-cases,
}
use repo_guard.Evidence.{FileVersion}
use repo_guard.Review.{Finding}
use repo_guard.Review.Markers.{
  ConflictLine, conflict_start, conflict_separator, conflict_end, no_marker, read_conflict_line,
}
use repo_guard.Review.Additions.{Addition}
use repo_guard.Review.Texts.{text_finding, merge_conflict_text}
use repo_guard.Review.Pairs.{
  Queues, set_queue, push_line, Conflicts, no_conflicts, separate, close_block, conflict_step,
  conflict_lines,
}

-- An added line with a start marker of this length.
abbrev pub Started : List Addition → ℕ → ℕ → Type 0
Started done n start =
    (content : List ℕ) × In (start, content) done × (read_conflict_line content ≡ conflict_start n)

-- A start marker with a separator of the same length behind it.
pub record IsBlock (done : List Addition) (n start : ℕ) : Type 0 where
  pub before : List Addition
  pub separator : Addition
  pub after : List Addition
  pub split : done ≡ before ++ separator ∷ after
  pub separates : read_conflict_line separator.1 ≡ conflict_separator n
  pub started : Started before n start

-- A whole conflict: an end marker of the same length behind a start and its separator.
pub record IsConflict (version : FileVersion) (lines : List Addition) (f : Finding) : Type 0 where
  pub width : ℕ
  pub start : ℕ
  pub before : List Addition
  pub ending : Addition
  pub after : List Addition
  pub split : lines ≡ before ++ ending ∷ after
  pub ends : read_conflict_line ending.1 ≡ conflict_end width
  pub block : IsBlock before width start
  pub finding : f ≡ text_finding version merge_conflict_text start ending.0

-- The queues hold lines that were seen.
record Known (done : List Addition) (s : Conflicts) : Type 0 where
  starts : (n : ℕ) → All (Started done n) (s.starts n)
  blocks : (n : ℕ) → All (IsBlock done n) (s.blocks n)

queue_all :
    (P : ℕ → ℕ → Type 0) (q : Queues) (k : ℕ) (lines : List ℕ)
    → ((j : ℕ) → All (P j) (q j))
    → All (P k) lines
    → (j : ℕ) → All (P j) (set_queue q k lines j)
queue_all P q k lines kept put j = elim (Bool-cases (j == k)) [
  | inl same ↦ rw same (subst (λ i. All (P i) lines) (sym ((==_iff j k).0 same)) put)
  | inr apart ↦ rw apart (kept j)
]

All-weaken : (P Q : ℕ → Type 0) (xs : List ℕ) → ((x : ℕ) → P x → Q x) → All P xs → All Q xs
All-weaken P Q [] f h = tt
All-weaken P Q (x ∷ xs) f h = (f x h.0, All-weaken P Q xs f h.1)

Started-later :
    (done : List Addition) (x : Addition) (n start : ℕ)
    → Started done n start
    → Started (done ++ x ∷ []) n start
Started-later done x n start (content, i, e) =
    (content, (In-append (start, content) done (x ∷ [])).1 (inl i), e)

IsBlock-later :
    (done : List Addition) (x : Addition) (n start : ℕ)
    → IsBlock done n start
    → IsBlock (done ++ x ∷ []) n start
IsBlock-later done x n start b = record {
  before = b.before;
  separator = b.separator;
  after = b.after ++ x ∷ [];
  split = ap (λ ls. ls ++ x ∷ []) b.split ∙ append_assoc b.before (b.separator ∷ b.after) (x ∷ []);
  separates = b.separates;
  started = b.started;
}

Known-later :
    (done : List Addition) (x : Addition) (s : Conflicts) → Known done s → Known (done ++ x ∷ []) s
Known-later done x s h = record {
  starts = λ n. All-weaken _ _ (s.starts n) (Started-later done x n) (h.starts n);
  blocks = λ n. All-weaken _ _ (s.blocks n) (IsBlock-later done x n) (h.blocks n);
}

-- The line that was read last stands behind all that were seen.
Started-last :
    (done : List Addition) (line : ℕ) (content : List ℕ) (n : ℕ)
    → read_conflict_line content ≡ conflict_start n
    → Started (done ++ (line, content) ∷ []) n line
Started-last done line content n e =
    (content, (In-append (line, content) done ((line, content) ∷ [])).1 (inr (inl refl)), e)

IsBlock-last :
    (done : List Addition) (x : Addition) (n start : ℕ)
    → read_conflict_line x.1 ≡ conflict_separator n
    → Started done n start
    → IsBlock (done ++ x ∷ []) n start
IsBlock-last done x n start e h = record {
  before = done;
  separator = x;
  after = [];
  split = refl;
  separates = e;
  started = h;
}

-- What an end marker closes.
abbrev IsClosed : FileVersion → List Addition → Addition → Finding → Type 0
IsClosed version done x f =
    (n : ℕ) × (start : ℕ) × (read_conflict_line x.1 ≡ conflict_end n)
    × IsBlock done n start
    × (f ≡ text_finding version merge_conflict_text start x.0)

record Stepped (version : FileVersion) (done : List Addition) (x : Addition)
    (r : Conflicts × List Finding) : Type 0 where
  known : Known (done ++ x ∷ []) r.0
  closed : All (IsClosed version done x) r.1

start-Stepped :
    (version : FileVersion) (done : List Addition) (line : ℕ) (content : List ℕ) (s : Conflicts)
    (n : ℕ)
    → read_conflict_line content ≡ conflict_start n
    → Known done s
    → Stepped version done (line, content) (record s { starts = push_line s.starts n line }, [])
start-Stepped version done line content s n e h =
    let h' = Known-later done (line, content) s h in
    let all_done = done ++ (line, content) ∷ [] in
    record {
      known = record {
        starts = queue_all (Started all_done) s.starts n (s.starts n ++ line ∷ []) h'.starts (
            All-append (Started all_done n) (s.starts n) (line ∷ []) (h'.starts n)
              (Started-last done line content n e, tt));
        blocks = h'.blocks;
      };
      closed = tt;
    }

separator-Stepped :
    (version : FileVersion) (done : List Addition) (x : Addition) (s : Conflicts) (n : ℕ)
    (waiting : List ℕ)
    → read_conflict_line x.1 ≡ conflict_separator n
    → Known done s
    → All (Started done n) waiting
    → Stepped version done x (separate s n waiting, [])
separator-Stepped version done x s n [] e h w = record {
  known = Known-later done x s h;
  closed = tt;
}
separator-Stepped version done x s n (start ∷ waiting) e h w =
    let h' = Known-later done x s h in
    let all_done = done ++ x ∷ [] in
    record {
      known = record {
        starts =
            queue_all (Started all_done) s.starts n waiting h'.starts
              (All-weaken _ _ waiting (Started-later done x n) w.1);
        blocks = queue_all (IsBlock all_done) s.blocks n (s.blocks n ++ start ∷ []) h'.blocks (
            All-append (IsBlock all_done n) (s.blocks n) (start ∷ []) (h'.blocks n)
              (IsBlock-last done x n start e w.0, tt));
      };
      closed = tt;
    }

end-Stepped :
    (version : FileVersion) (done : List Addition) (x : Addition) (s : Conflicts) (n : ℕ)
    (waiting : List ℕ)
    → read_conflict_line x.1 ≡ conflict_end n
    → Known done s
    → All (IsBlock done n) waiting
    → Stepped version done x (close_block version x.0 s n waiting)
end-Stepped version done x s n [] e h w = record { known = Known-later done x s h; closed = tt }
end-Stepped version done x s n (start ∷ waiting) e h w =
    let h' = Known-later done x s h in
    record {
      known = record {
        starts = h'.starts;
        blocks =
            queue_all (IsBlock (done ++ x ∷ [])) s.blocks n waiting h'.blocks
              (All-weaken _ _ waiting (IsBlock-later done x n) w.1);
      };
      closed = ((n, start, e, w.0, refl), tt);
    }

step-Stepped :
    (version : FileVersion) (done : List Addition) (line : ℕ) (content : List ℕ) (s : Conflicts)
    (c : ConflictLine)
    → read_conflict_line content ≡ c
    → Known done s
    → Stepped version done (line, content) (conflict_step version line s c)
unfolding conflict_step
step-Stepped version done line content s (conflict_start n) e h =
    start-Stepped version done line content s n e h
step-Stepped version done line content s (conflict_separator n) e h =
    separator-Stepped version done (line, content) s n (s.starts n) e h (h.starts n)
step-Stepped version done line content s (conflict_end n) e h =
    end-Stepped version done (line, content) s n (s.blocks n) e h (h.blocks n)
step-Stepped version done line content s no_marker e h = record {
  known = Known-later done (line, content) s h;
  closed = tt;
}

closed-IsConflict :
    (version : FileVersion) (done : List Addition) (x : Addition) (rest : List Addition)
    (fs : List Finding)
    → All (IsClosed version done x) fs
    → All (IsConflict version (done ++ x ∷ rest)) fs
closed-IsConflict version done x rest [] h = tt
closed-IsConflict version done x rest (f ∷ fs) ((n, start, e, b, same), h) = (
  record {
    width = n;
    start = start;
    before = done;
    ending = x;
    after = rest;
    split = refl;
    ends = e;
    block = b;
    finding = same;
  },
  closed-IsConflict version done x rest fs h,
)

lines_conflicts :
    (version : FileVersion) (done lines : List Addition) (s : Conflicts)
    → Known done s
    → All (IsConflict version (done ++ lines)) (conflict_lines version s lines).1
unfolding conflict_lines
lines_conflicts version done [] s h = tt
lines_conflicts version done ((line, content) ∷ lines) s h =
    let x : Addition = (line, content) in
    let step = conflict_step version line s (read_conflict_line content) in
    let stepped = step-Stepped version done line content s (read_conflict_line content) refl h in
    let later = lines_conflicts version (done ++ x ∷ []) lines step.0 stepped.known in
    All-append (IsConflict version (done ++ x ∷ lines)) step.1
      (conflict_lines version step.0 lines).1
      (closed-IsConflict version done x lines step.1 stepped.closed)
      (subst (λ all. All (IsConflict version all) (conflict_lines version step.0 lines).1)
        (append_assoc done (x ∷ []) lines) later)

pub conflicts_found :
    (version : FileVersion) (lines : List Addition)
    → All (IsConflict version lines) (conflict_lines version no_conflicts lines).1
conflicts_found version lines =
    lines_conflicts version [] lines no_conflicts (record { starts = λ n. tt; blocks = λ n. tt })
