-- ===== src/Review/Rules/PrivateKey.antt =====
-- `_private_key_findings` of src/repoguard/_review.py on whole bundles.
use repo_guard.Base.{
  ℕ, ◌≤◌, ◌≡◌, refl, sym, ap, subst, ◌≢◌, inl, inr, true, some, List, [], ◌∷◌, ◌++◌, arith, compare,
  In, In-append, In-map, In-map_of, All, All-In, Option-cases,
}
use repo_guard.Base.Order.{
  IsOrder, compare-IsOrder, compare_by-IsOrder, compare_then-IsOrder, compare_lists-IsOrder,
}
use repo_guard.Base.Order.Sort.{IsSorted, sorted-IsSorted, sorted-In, not_greater}
use repo_guard.Evidence.{FileVersion, FileChangeEvidence, EvidenceBundle}
use repo_guard.Review.{Finding}
use repo_guard.Review.Markers.{MarkerKind, begin_marker, end_marker, Marker, find_markers}
use repo_guard.Review.Additions.{Addition, compare_additions, hunks_additions, addition_lines}
use repo_guard.Review.Texts.{text_finding, private_key_text}
use repo_guard.Review.Pairs.{no_queues}
use repo_guard.Review.Pairs.Fifo.{
  Event, at_line, events_of, Pair, pair_events, pair_finding, lines-eq-events,
}
use repo_guard.Review.Pairs.Located.{HasMarker, IsPair, Ascending, pairs-IsPair, run_finds}
use repo_guard.Review.Rules.{for_changes, on_new_side, private_key_findings}

pub compare_additions-IsOrder : IsOrder compare_additions
compare_additions-IsOrder =
    compare_then-IsOrder _ _ (compare_by-IsOrder compare (λ a. a.0) compare-IsOrder)
      (compare_by-IsOrder _ (λ a. a.1) (compare_lists-IsOrder compare compare-IsOrder))

Ascending-at_line :
    (b line : ℕ) (ms : List Marker) (es : List Event)
    → b ≤ line
    → Ascending line es
    → Ascending b es
    → Ascending b (at_line line ms ++ es)
Ascending-at_line b line [] es le up weak = weak
Ascending-at_line b line (m ∷ ms) es le up weak =
    (le, Ascending-at_line line line ms es (omega arith) up up)

abbrev AtLeast : ℕ → Addition → Type 0
AtLeast b a = b ≤ a.0

later_lines :
    (x : Addition) (xs : List Addition)
    → All (λ y. not_greater (compare_additions x y) ≡ true) xs
    → All (AtLeast x.0) xs
later_lines x [] h = tt
later_lines x (y ∷ ys) h = (ground (arith, h.0), later_lines x ys h.1)

Ascending-events :
    (b : ℕ) (lines : List Addition)
    → All (AtLeast b) lines
    → IsSorted compare_additions lines
    → Ascending b (events_of lines)
Ascending-events b [] low sorted_lines = tt
Ascending-events b ((line, content) ∷ lines) low (after, sorted_lines) =
    Ascending-at_line b line (find_markers 0 content) (events_of lines) low.0
      (Ascending-events line lines (later_lines (line, content) lines after) sorted_lines)
      (Ascending-events b lines low.1 sorted_lines)

In-at_line :
    (line l : ℕ) (m : Marker) (ms : List Marker)
    → In (l, m) (at_line line ms)
    → (l ≡ line) × In m ms
In-at_line line l m [] i = absurd i.1
In-at_line line l m (x ∷ ms) (inl e) = (ap (λ p. p.0) e, inl (ap (λ p. p.1) e))
In-at_line line l m (x ∷ ms) (inr i) = let (e, j) = In-at_line line l m ms i in (e, inr j)

In-events :
    (l : ℕ) (m : Marker) (lines : List Addition)
    → In (l, m) (events_of lines)
    → (content : List ℕ) × In (l, content) lines × In m (find_markers 0 content)
In-events l m [] i = absurd i.1
In-events l m ((line, content) ∷ lines) i =
    elim ((In-append (l, m) (at_line line (find_markers 0 content)) (events_of lines)).0 i) [
      | inl here ↦
          let (e, j) = In-at_line line l m (find_markers 0 content) here in
          (content, inl (ap (λ n. (n, content)) e), j)
      | inr there ↦ let (c, k, j) = In-events l m lines there in (c, inr k, j)
    ]

-- The change adds a line of that number that holds a marker of that kind and label.
pub record IsMarked (change : FileChangeEvidence) (kind : MarkerKind) (label line : ℕ)
    : Type 0 where
  pub content : List ℕ
  pub added : In (line, content) (hunks_additions change.hunks)
  pub marker : Marker
  pub found : In marker (find_markers 0 content)
  pub is_kind : marker.kind ≡ kind
  pub is_label : marker.label ≡ label

pub record IsKeyFinding (bundle : EvidenceBundle) (f : Finding) : Type 0 where
  pub change : FileChangeEvidence
  pub reviewed : In change bundle.changes
  pub version : FileVersion
  pub new_side : change.new ≡ some version
  pub label : ℕ
  pub start : ℕ
  pub end_line : ℕ
  pub same : f ≡ text_finding version private_key_text start end_line
  pub began : IsMarked change begin_marker label start
  pub ended : IsMarked change end_marker label end_line
  pub ordered : start ≤ end_line

marked :
    (change : FileChangeEvidence) (kind : MarkerKind) (label line : ℕ)
    → HasMarker (events_of (addition_lines change)) kind label line
    → IsMarked change kind label line
unfolding addition_lines
marked change kind label line (m, i, is_kind, is_label) =
    let (content, added, found) = In-events line m (addition_lines change) i in
    record {
      content = content;
      added = (sorted-In compare_additions (line, content) (hunks_additions change.hunks)).0 added;
      marker = m;
      found = found;
      is_kind = is_kind;
      is_label = is_label;
    }

pub In-for_changes :
    (g : FileChangeEvidence → List Finding) (f : Finding) (changes : List FileChangeEvidence)
    → In f (for_changes g changes)
    → (change : FileChangeEvidence) × In change changes × In f (g change)
In-for_changes g f [] i = absurd i.1
In-for_changes g f (c ∷ cs) i = elim ((In-append f (g c) (for_changes g cs)).0 i) [
  | inl here ↦ (c, inl refl, here)
  | inr there ↦ let (d, j, k) = In-for_changes g f cs there in (d, inr j, k)
]

pub In-for_changes_of :
    (g : FileChangeEvidence → List Finding) (f : Finding) (change : FileChangeEvidence)
    (changes : List FileChangeEvidence)
    → In change changes
    → In f (g change)
    → In f (for_changes g changes)
In-for_changes_of g f change [] i k = absurd i.1
In-for_changes_of g f change (c ∷ cs) (inl e) k =
    (In-append f (g c) (for_changes g cs)).1 (inl (rw (← e) k))
In-for_changes_of g f change (c ∷ cs) (inr j) k =
    (In-append f (g c) (for_changes g cs)).1 (inr (In-for_changes_of g f change cs j k))

from_zero : (lines : List Addition) → All (AtLeast 0) lines
from_zero [] = tt
from_zero (x ∷ xs) = (omega arith, from_zero xs)

events-Ascending : (change : FileChangeEvidence) → Ascending 0 (events_of (addition_lines change))
unfolding addition_lines
events-Ascending change =
    Ascending-events 0 (addition_lines change) (from_zero (addition_lines change))
      (sorted-IsSorted compare_additions compare_additions-IsOrder (hunks_additions change.hunks))

-- A rule that looks at the new side finds nothing where there is none.
pub In-on_new_side :
    (h : FileVersion → List Finding) (change : FileChangeEvidence) (f : Finding)
    → In f (on_new_side h change)
    → (version : FileVersion) × (change.new ≡ some version) × In f (h version)
In-on_new_side h change f i = elim (Option-cases change.new) [
  | inl deleted ↦ let j : In f [] = rw deleted at i in absurd j.1
  | inr (version, e) ↦ (version, e, rw e at i)
]

pub In-on_new_side_of :
    (h : FileVersion → List Finding) (change : FileChangeEvidence) (f : Finding)
    (version : FileVersion)
    → change.new ≡ some version
    → In f (h version)
    → In f (on_new_side h change)
In-on_new_side_of h change f version e i = rw e i

-- Every finding of the private-key rule stands on a BEGIN and an END marker of one label that one
-- reviewed change adds, the BEGIN not behind the END.
pub private_key_sound :
    (bundle : EvidenceBundle) (f : Finding)
    → In f (private_key_findings bundle)
    → IsKeyFinding bundle f
unfolding private_key_findings
private_key_sound bundle f i =
    let (change, reviewed, found) = In-for_changes _ f bundle.changes i in
    let (version, new_side, on_version) = In-on_new_side _ change f found in
    let es = events_of (addition_lines change) in
    let pairs = (pair_events no_queues es).1 in
    let (p, paired, same) = In-map (pair_finding version) f pairs (
      subst (λ r. In f r.1) (lines-eq-events version no_queues (addition_lines change))
        on_version) in
    let located = All-In (IsPair es) p pairs (pairs-IsPair es (events-Ascending change)) paired in
    record {
      change = change;
      reviewed = reviewed;
      version = version;
      new_side = new_side;
      label = p.label;
      start = p.start;
      end_line = p.end_line;
      same = same;
      began = marked change begin_marker p.label p.start located.began;
      ended = marked change end_marker p.label p.end_line located.ended;
      ordered = located.ordered;
    }

pair_cases : (ps : List Pair) → ps ≢ [] → (p : Pair) × In p ps
pair_cases [] h = absurd (h refl)
pair_cases (p ∷ ps) h = (p, inl refl)

-- In a reviewed change with a new side, a BEGIN marker with an END marker of its label somewhere
-- behind it gives the rule a finding on that version.
pub private_key_complete :
    (bundle : EvidenceBundle) (change : FileChangeEvidence) (version : FileVersion)
    (xs ys zs : List Event) (i j : ℕ) (b e : Marker)
    → In change bundle.changes
    → change.new ≡ some version
    → events_of (addition_lines change) ≡ xs ++ ((i, b) ∷ (ys ++ (j, e) ∷ zs))
    → b.kind ≡ begin_marker
    → e.kind ≡ end_marker
    → e.label ≡ b.label
    → (f : Finding) × In f (private_key_findings bundle)
      × (start : ℕ) × (end_line : ℕ) × (f ≡ text_finding version private_key_text start end_line)
unfolding private_key_findings
private_key_complete bundle change version xs ys zs i j b e reviewed new_side split is_begin is_end
      same =
    let es = events_of (addition_lines change) in
    let pairs = (pair_events no_queues es).1 in
    let (p, paired) =
      pair_cases pairs (rw split (run_finds no_queues xs ys zs i j b e is_begin is_end same)) in
    (
      pair_finding version p,
      In-for_changes_of _ (pair_finding version p) change bundle.changes reviewed (
          In-on_new_side_of _ change (pair_finding version p) version new_side (
            subst (λ r. In (pair_finding version p) r.1)
              (sym (lines-eq-events version no_queues (addition_lines change)))
              (In-map_of (pair_finding version) p pairs paired))),
      p.start,
      p.end_line,
      refl,
    )
