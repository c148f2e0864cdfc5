-- ===== src/Review/Pairs/Fifo.antt =====
-- The pairing of private-key markers as a run over events (src/repoguard/_review.py).
use repo_guard.Base.{ℕ, ◌≡◌, refl, ap, ◌∙◌, List, [], ◌∷◌, ◌++◌, map, arith, ◌==◌, if◌then◌else◌}
use mathlib.Core.List.{append_assoc, append-nil, map-append}
use repo_guard.Evidence.{FileVersion}
use repo_guard.Review.{Finding}
use repo_guard.Review.Markers.{MarkerKind, begin_marker, end_marker, Marker, find_markers}
use repo_guard.Review.Additions.{Addition}
use repo_guard.Review.Texts.{text_finding, private_key_text}
use repo_guard.Review.Pairs.{
  Queues, set_queue, push_line, take_start, pair_marker, pair_markers, pair_lines,
}

-- A marker with the number of its line.
abbrev pub Event : Type 0
Event = ℕ × Marker

abbrev pub at_line : ℕ → List Marker → List Event
at_line line [] = []
at_line line (m ∷ ms) = (line, m) ∷ at_line line ms

abbrev pub events_of : List Addition → List Event
events_of [] = []
events_of ((line, content) ∷ lines) = at_line line (find_markers 0 content) ++ events_of lines

-- A pair that was found: its label, and the lines of its BEGIN and of its END.
pub record Pair : Type 0 where
  pub label : ℕ
  pub start : ℕ
  pub end_line : ℕ

abbrev pub step_start : ℕ → Queues → ℕ → List ℕ → Queues × List Pair
step_start line q label [] = (q, [])
step_start line q label (start ∷ starts) =
    (set_queue q label starts, record { label = label; start = start; end_line = line } ∷ [])

unfoldable pub pair_step : ℕ → Queues → Marker → Queues × List Pair
pair_step line q m = elim m.kind [
  | begin_marker ↦ (push_line q m.label line, [])
  | end_marker ↦ step_start line q m.label (q m.label)
]

unfoldable pub pair_events : Queues → List Event → Queues × List Pair
pair_events q [] = (q, [])
pair_events q ((line, m) ∷ es) =
    let (q', found) = pair_step line q m in
    let (q'', later) = pair_events q' es in (q'', found ++ later)

abbrev pub pair_finding : FileVersion → Pair → Finding
pair_finding new p = text_finding new private_key_text p.start p.end_line

abbrev as_findings : FileVersion → Queues × List Pair → Queues × List Finding
as_findings new (q, pairs) = (q, map (pair_finding new) pairs)

marker_step :
    (new : FileVersion) (line : ℕ) (q : Queues) (m : Marker)
    → pair_marker new line q m ≡ as_findings new (pair_step line q m)
unfolding pair_marker pair_step
marker_step new line q m = marker_step_at m.kind (q m.label)
  where
    marker_step_at :
        (k : MarkerKind) (waiting : List ℕ)
        → (elim k [
          | begin_marker ↦ (push_line q m.label line, [])
          | end_marker ↦ take_start new line q m.label waiting
        ])
          ≡ as_findings new (elim k [
            | begin_marker ↦ (push_line q m.label line, [])
            | end_marker ↦ step_start line q m.label waiting
          ])
    marker_step_at begin_marker waiting = refl
    marker_step_at end_marker [] = refl
    marker_step_at end_marker (x ∷ xs) = refl

events-append :
    (q : Queues) (xs ys : List Event)
    → pair_events q (xs ++ ys) ≡ (
        let (q', found) = pair_events q xs in
        let (q'', later) = pair_events q' ys in (q'', found ++ later))
unfolding pair_events
events-append q [] ys = refl
events-append q ((line, m) ∷ xs) ys =
    let (q', found) = pair_step line q m in simp (events-append q' xs ys, append_assoc)

markers-eq-events :
    (new : FileVersion) (line : ℕ) (q : Queues) (ms : List Marker)
    → pair_markers new line q ms ≡ as_findings new (pair_events q (at_line line ms))
unfolding pair_markers pair_events
markers-eq-events new line q [] = refl
markers-eq-events new line q (m ∷ ms) =
    simp
      (marker_step new line q m, markers-eq-events new line (pair_step line q m).0 ms, map-append)

-- The two nested loops of the source are one run over the events.
pub lines-eq-events :
    (new : FileVersion) (q : Queues) (lines : List Addition)
    → pair_lines new q lines ≡ as_findings new (pair_events q (events_of lines))
unfolding pair_lines pair_events
lines-eq-events new q [] = refl
lines-eq-events new q ((line, content) ∷ lines) = simp (
  markers-eq-events new line q (find_markers 0 content),
  lines-eq-events new (pair_events q (at_line line (find_markers 0 content))).0 lines,
  events-append q (at_line line (find_markers 0 content)) (events_of lines),
  map-append,
)

abbrev begin_of : ℕ → Event → List ℕ
begin_of k (line, m) = elim m.kind [
  | begin_marker ↦ if k == m.label then line ∷ [] else []
  | end_marker ↦ []
]

-- The lines of the BEGIN markers of one label.
abbrev pub begins : ℕ → List Event → List ℕ
begins k [] = []
begins k (e ∷ es) = begin_of k e ++ begins k es

-- The starts of the pairs of one label.
abbrev pub starts : ℕ → List Pair → List ℕ
starts k [] = []
starts k (p ∷ ps) = (if k == p.label then p.start ∷ [] else []) ++ starts k ps

starts-append : (k : ℕ) (xs ys : List Pair) → starts k (xs ++ ys) ≡ starts k xs ++ starts k ys
starts-append k [] ys = refl
starts-append k (p ∷ ps) ys = simp (starts-append k ps ys, append_assoc)

step_fifo :
    (k line : ℕ) (q : Queues) (m : Marker)
    → starts k (pair_step line q m).1 ++ (pair_step line q m).0 k ≡ q k ++ begin_of k (line, m)
unfolding pair_step
step_fifo k line q m = ground (arith, append-nil (q k))

-- Of each label the queued lines leave in the order in which they came, none twice.
pub events_fifo :
    (k : ℕ) (q : Queues) (es : List Event)
    → starts k (pair_events q es).1 ++ (pair_events q es).0 k ≡ q k ++ begins k es
unfolding pair_events
events_fifo k q [] = simp append-nil
events_fifo k q ((line, m) ∷ es) =
    let (q', found) = pair_step line q m in
    let (q'', later) = pair_events q' es in
    simp starts-append (
      rw (append_assoc, events_fifo k q' es, ← append_assoc, step_fifo k line q m, append_assoc)
        refl)

-- Over any lines and from any queues the pairing of private-key markers is first-in first-out for
-- each label: the paired BEGIN lines followed by those that still wait are the lines that waited
-- before followed by the new BEGIN lines.
pub pair_lines_fifo :
    (new : FileVersion) (q : Queues) (lines : List Addition)
    → (pairs : List Pair) × ((pair_lines new q lines).1 ≡ map (pair_finding new) pairs)
      × ((k : ℕ)
          → starts k pairs ++ (pair_lines new q lines).0 k ≡ q k ++ begins k (events_of lines))
pair_lines_fifo new q lines =
    let run = lines-eq-events new q lines in
    (
      (pair_events q (events_of lines)).1,
      ap (λ r. r.1) run,
      λ k.
          ap (λ r. starts k (pair_events q (events_of lines)).1 ++ r.0 k) run
          ∙ events_fifo k q (events_of lines),
    )
