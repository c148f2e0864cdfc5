-- ===== src/Review/Pairs/Located.antt =====
-- Where the pairs of private-key markers stand (src/repoguard/_review.py).
use repo_guard.Base.{
  ℕ, ◌≤◌, ◌≡◌, refl, sym, ◌≢◌, ◌⊎◌, inl, inr, List, [], ◌∷◌, ◌++◌, arith, ◌==◌, ==_iff, Bool-cases,
  In, In-append, All, All-append,
}
use repo_guard.Review.Markers.{MarkerKind, begin_marker, end_marker, Marker}
use repo_guard.Review.Pairs.{Queues, no_queues, set_queue, push_line}
use repo_guard.Review.Pairs.Fifo.{Event, Pair, step_start, pair_step, pair_events}

-- The events hold a marker of that kind and label at that line.
abbrev pub HasMarker : List Event → MarkerKind → ℕ → ℕ → Type 0
HasMarker es kind label line = (m : Marker) × In (line, m) es × (m.kind ≡ kind) × (m.label ≡ label)

pub record IsPair (es : List Event) (p : Pair) : Type 0 where
  pub began : HasMarker es begin_marker p.label p.start
  pub ended : HasMarker es end_marker p.label p.end_line
  pub ordered : p.start ≤ p.end_line

-- The lines never go back.
abbrev pub Ascending : ℕ → List Event → Type 0
Ascending b [] = Unit
Ascending b (e ∷ es) = (b ≤ e.0) × Ascending e.0 es

abbrev Waiting : List Event → ℕ → Queues → Type 0
Waiting es b q = (k line : ℕ) → In line (q k) → HasMarker es begin_marker k line × (line ≤ b)

module _ (es : List Event) where
  push-Waiting :
      (b line : ℕ) (q : Queues) (m : Marker)
      → b ≤ line
      → In (line, m) es
      → m.kind ≡ begin_marker
      → Waiting es b q
      → Waiting es line (push_line q m.label line)
  push-Waiting b line q m le here is_begin w k l old = elim (Bool-cases (k == m.label)) [
    | inl same ↦
        let e = (==_iff k m.label).0 same in
        elim ((In-append l (q m.label) (line ∷ [])).0 (rw same at old)) [
          | inl before ↦ let (h, le') = w m.label l before in (rw e h, omega arith)
          | inr last ↦ elim last [
            | inl is_line ↦ ((m, rw is_line here, is_begin, sym e), rw is_line (omega arith))
            | inr nothing ↦ absurd nothing.1
          ]
        ]
    | inr other ↦ let (h, le') = w k l (rw other at old) in (h, omega arith)
  ]

  pop-Waiting :
      (b line label start : ℕ) (rest : List ℕ) (q : Queues)
      → b ≤ line
      → q label ≡ start ∷ rest
      → Waiting es b q
      → Waiting es line (set_queue q label rest)
  pop-Waiting b line label start rest q le e w k l old = elim (Bool-cases (k == label)) [
    | inl same ↦
        let s = (==_iff k label).0 same in
        let (h, le') = w label l (rw e (inr (rw same at old))) in (rw s h, omega arith)
    | inr other ↦ let (h, le') = w k l (rw other at old) in (h, omega arith)
  ]

  -- What a step leaves behind, and what it found.
  abbrev Kept : ℕ → Queues × List Pair → Type 0
  Kept line (q, found) = Waiting es line q × All (IsPair es) found

  end-Kept :
      (b line : ℕ) (q : Queues) (m : Marker) (waiting : List ℕ)
      → q m.label ≡ waiting
      → b ≤ line
      → In (line, m) es
      → m.kind ≡ end_marker
      → Waiting es b q
      → Kept line (step_start line q m.label waiting)
  end-Kept b line q m [] e le here is_end w =
      ((λ k l old. let (h, le') = w k l old in (h, omega arith)), tt)
  end-Kept b line q m (start ∷ rest) e le here is_end w =
      let (h, le') = w m.label start (rw e (inl refl)) in
      (
        pop-Waiting b line m.label start rest q le e w,
        (record { began = h; ended = (m, here, is_end, refl); ordered = omega arith }, tt),
      )

  kind_cases : (k : MarkerKind) → (k ≡ begin_marker) ⊎ (k ≡ end_marker)
  kind_cases begin_marker = inl refl
  kind_cases end_marker = inr refl

  step-Kept :
      (b line : ℕ) (q : Queues) (m : Marker)
      → b ≤ line
      → In (line, m) es
      → Waiting es b q
      → Kept line (pair_step line q m)
  unfolding pair_step
  step-Kept b line q m le here w = elim (kind_cases m.kind) [
    | inl e ↦ rw (e, pair_step) (push-Waiting b line q m le here e w, tt)
    | inr e ↦ rw (e, pair_step) (end-Kept b line q m (q m.label) refl le here e w)
  ]

  run-IsPair :
      (b : ℕ) (q : Queues) (later : List Event)
      → Ascending b later
      → ((e : Event) → In e later → In e es)
      → Waiting es b q
      → All (IsPair es) (pair_events q later).1
  unfolding pair_events
  run-IsPair b q [] up sub w = tt
  run-IsPair b q ((line, m) ∷ later) up sub w =
      let (q', found) = pair_step line q m in
      let (w', pairs) = step-Kept b line q m up.0 (sub (line, m) (inl refl)) w in
      All-append (IsPair es) found (pair_events q' later).1 pairs
        (run-IsPair line q' later up.1 (λ e i. sub e (inr i)) w')

-- Every pair has a BEGIN and an END of its label, the BEGIN not behind the END.
pub pairs-IsPair : (es : List Event) → Ascending 0 es → All (IsPair es) (pair_events no_queues es).1
pairs-IsPair es up = run-IsPair es 0 no_queues es up (λ e i. i) (λ k l old. absurd old.1)

append-ne-nil : (xs : List ℕ) (x : ℕ) → xs ++ x ∷ [] ≢ []
append-ne-nil [] x h = cc
append-ne-nil (y ∷ ys) x h = cc

-- A label that waits goes on waiting unless the step finds a pair.
step_progress :
    (k line : ℕ) (q : Queues) (m : Marker)
    → q k ≢ []
    → (pair_step line q m).1 ≡ []
    → (pair_step line q m).0 k ≢ []
unfolding pair_step
step_progress k line q m h none_found = ground (arith, append-ne-nil (q m.label) line)

end_finds :
    (line : ℕ) (q : Queues) (m : Marker)
    → q m.label ≢ []
    → m.kind ≡ end_marker
    → (pair_step line q m).1 ≢ []
unfolding pair_step
end_finds line q m h is_end e = ground arith

left-ne-nil : (xs ys : List Pair) → xs ≢ [] → xs ++ ys ≢ []
left-ne-nil [] ys h e = h refl
left-ne-nil (x ∷ xs) ys h e = cc

right-ne-nil : (xs ys : List Pair) → ys ≢ [] → xs ++ ys ≢ []
right-ne-nil [] ys h e = h e
right-ne-nil (x ∷ xs) ys h e = cc

nil-cases : (xs : List Pair) → (xs ≡ []) ⊎ (xs ≢ [])
nil-cases [] = inl refl
nil-cases (x ∷ xs) = inr (λ e. cc)

-- A line that waits leaves at the latest at the next END of its label.
waiting_progress :
    (k : ℕ) (q : Queues) (ys zs : List Event) (line : ℕ) (m : Marker)
    → q k ≢ []
    → m.kind ≡ end_marker
    → m.label ≡ k
    → (pair_events q (ys ++ (line, m) ∷ zs)).1 ≢ []
unfolding pair_events
waiting_progress k q [] zs line m h is_end same =
    left-ne-nil (pair_step line q m).1 (pair_events (pair_step line q m).0 zs).1
      (end_finds line q m (rw same h) is_end)
waiting_progress k q ((l, x) ∷ ys) zs line m h is_end same =
    let (q', found) = pair_step l q x in
    let later = (pair_events q' (ys ++ (line, m) ∷ zs)).1 in
    elim (nil-cases found) [
      | inl e ↦
          right-ne-nil found later
            (waiting_progress k q' ys zs line m (step_progress k l q x h e) is_end same)
      | inr some_found ↦ left-ne-nil found later some_found
    ]

begin_waits :
    (line : ℕ) (q : Queues) (m : Marker)
    → m.kind ≡ begin_marker
    → (pair_step line q m).0 m.label ≢ []
unfolding pair_step
begin_waits line q m is_begin = ground (arith, append-ne-nil (q m.label) line)

-- A BEGIN with an END of its label somewhere behind it gives a pair.
pub run_finds :
    (q : Queues) (xs ys zs : List Event) (i j : ℕ) (b e : Marker)
    → b.kind ≡ begin_marker
    → e.kind ≡ end_marker
    → e.label ≡ b.label
    → (pair_events q (xs ++ ((i, b) ∷ (ys ++ (j, e) ∷ zs)))).1 ≢ []
unfolding pair_events
run_finds q [] ys zs i j b e is_begin is_end same =
    let (q', found) = pair_step i q b in
    right-ne-nil found (pair_events q' (ys ++ (j, e) ∷ zs)).1
      (waiting_progress b.label q' ys zs j e (begin_waits i q b is_begin) is_end same)
run_finds q ((l, x) ∷ xs) ys zs i j b e is_begin is_end same =
    let (q', found) = pair_step l q x in
    right-ne-nil found (pair_events q' (xs ++ ((i, b) ∷ (ys ++ (j, e) ∷ zs)))).1
      (run_finds q' xs ys zs i j b e is_begin is_end same)
