-- ===== src/Agent/Response/References.antt =====
-- What an accepted reference of the model points at.
use repo_guard.Base.{
  ℕ, zero, suc, ◌+◌, ◌-◌, ◌<◌, ◌≤◌, ◌≡◌, refl, ap, subst, inl, inr, true, ◌&&◌, Option, none, some,
  List, [], ◌∷◌, leb, ◌==◌, arith, length, In, Bool-cases, and_iff, ==_iff,
}
use repo_guard.Base.Outcome.{ok, ◌>>=◌, >>=-eq-ok, require-then, ok-injective}
use repo_guard.Text.{codes, contains}
use repo_guard.Review.{EvidenceSide, EvidenceReference}
use repo_guard.Agent.Json.{Json, has_exactly}
use repo_guard.Agent.Targets.{ReferenceTarget, find_target}
use repo_guard.Agent.Reference.{
  bad_output, present, as_object, as_text, field, side_of, all_in, range_is_in_one_hunk, Lines,
  LineValue, absent, bad_value, numbered, line_value, accept_lines, reference_keys,
  parse_model_reference,
}

-- Every number of the range is in the set.
abbrev pub Covered : ℕ → ℕ → List ℕ → Type 0
Covered first last numbers = (k : ℕ) → first ≤ k → k ≤ last → contains k numbers ≡ true

all_in-Covered :
    (start count : ℕ) (numbers : List ℕ)
    → all_in start count numbers ≡ true
    → (k : ℕ) → start ≤ k
    → k < start + count
    → contains k numbers ≡ true
all_in-Covered start zero numbers h k ge lt = absurd (omega (arith, ge, lt))
all_in-Covered start (suc count) numbers h k ge lt =
    let (here, later) = (and_iff (contains start numbers) (all_in (suc start) count numbers)).0 h in
    elim (Bool-cases (start == k)) [
      | inl same ↦ subst (λ x. contains x numbers ≡ true) ((==_iff start k).0 same) here
      | inr apart ↦
          all_in-Covered (suc start) count numbers later k (ground arith) (omega (arith, lt))
    ]

range-Covered :
    (start end_line : ℕ) (hunks : List (List ℕ))
    → start ≤ end_line
    → range_is_in_one_hunk start end_line hunks ≡ true
    → (numbers : List ℕ) × In numbers hunks × Covered start end_line numbers
unfolding range_is_in_one_hunk
range-Covered start end_line [] le h = cc
range-Covered start end_line (numbers ∷ hunks) le h =
    elim (Bool-cases (
      leb (end_line - start + 1) (length numbers) && all_in start (end_line - start + 1) numbers)) [
        | inl here ↦ (
          numbers,
          inl refl,
          λ k ge lt.
              all_in-Covered start (end_line - start + 1) numbers (ground arith) k ge
                (omega (arith, ge, lt, le)),
        )
        | inr later ↦
            let (ns, i, c) = range-Covered start end_line hunks le (ground arith) in (ns, inr i, c)
      ]

-- Without lines, or with a range of lines that one set of numbers covers.
abbrev pub IsRange : Option ℕ → Option ℕ → List (List ℕ) → Type 0
IsRange none none hunks = Unit
IsRange none (some b) hunks = ⊥
IsRange (some a) none hunks = ⊥
IsRange (some a) (some b) hunks =
    (1 ≤ a) × (a ≤ b) × ((numbers : List ℕ) × In numbers hunks × Covered a b numbers)

accepted_lines :
    (n : ℕ) (start end_line : LineValue) (hunks : List (List ℕ)) (lines : Lines)
    → accept_lines n start end_line hunks ≡ ok lines
    → IsRange lines.0 lines.1 hunks
unfolding accept_lines
accepted_lines n absent absent hunks lines h =
    subst (λ l. IsRange l.0 l.1 hunks) (ok-injective h) tt
accepted_lines n (numbered a) (numbered b) hunks lines h =
    let test = leb 1 a && leb a b && range_is_in_one_hunk a b hunks in
    let (checked, e) = (require-then test (bad_output n) (ok (some a, some b)) lines).0 h in
    subst (λ l. IsRange l.0 l.1 hunks) (ok-injective e)
      ((ground arith), (ground arith), range-Covered a b hunks (ground arith) (ground arith))
accepted_lines n absent (numbered b) hunks lines h = cc
accepted_lines n absent bad_value hunks lines h = cc
accepted_lines n (numbered a) absent hunks lines h = cc
accepted_lines n (numbered a) bad_value hunks lines h = cc
accepted_lines n bad_value end_line hunks lines h = cc

pub record IsGrounded (targets : List ReferenceTarget) (r : EvidenceReference) : Type 0 where
  pub target : ReferenceTarget
  pub listed : In target targets
  pub same_path : r.path ≡ target.path
  pub same_side : r.side ≡ target.side
  pub same_oid : r.oid ≡ target.oid
  pub lines : IsRange r.start_line r.end_line target.hunk_line_numbers

found_target :
    (path : List ℕ) (side : EvidenceSide) (targets : List ReferenceTarget) (t : ReferenceTarget)
    → find_target path side targets ≡ some t
    → In t targets
unfolding find_target
found_target path side [] t h = cc
found_target path side (s ∷ ts) t h = ground (arith, found_target path side ts t)

pub present-eq-ok : {A : Type 0} (n : ℕ) (o : Option A) (a : A) → present n o ≡ ok a → o ≡ some a
present-eq-ok n none a h = cc
present-eq-ok n (some b) a h = ap (λ (x : _). some x) (ok-injective h)

pub reference-IsGrounded :
    (n : ℕ) (targets : List ReferenceTarget) (value : Json) (r : EvidenceReference)
    → parse_model_reference n targets value ≡ ok r
    → IsGrounded targets r
unfolding parse_model_reference
reference-IsGrounded n targets value r h =
    let (raw, _, h1) = >>=-eq-ok (as_object n value) _ h in
    let (_, h2) = (require-then (has_exactly reference_keys raw) (bad_output n) _ r).0 h1 in
    let (path, _, h3) = >>=-eq-ok (field n (codes "path") raw >>= as_text n) _ h2 in
    let (side_value, _, h4) = >>=-eq-ok (field n (codes "side") raw >>= as_text n) _ h3 in
    let (side, _, h5) = >>=-eq-ok (present n (side_of side_value)) _ h4 in
    let (target, found, h6) = >>=-eq-ok (present n (find_target path side targets)) _ h5 in
    let (start, _, h7) = >>=-eq-ok (field n (codes "start_line") raw) _ h6 in
    let (end_line, _, h8) = >>=-eq-ok (field n (codes "end_line") raw) _ h7 in
    let (lines, accepted, h9) =
      >>=-eq-ok (accept_lines n (line_value start) (line_value end_line) target.hunk_line_numbers) _
        h8 in
    subst (IsGrounded targets) (ok-injective h9) (record {
      target = target;
      listed = found_target path side targets target (present-eq-ok n _ target found);
      same_path = refl;
      same_side = refl;
      same_oid = refl;
      lines =
          accepted_lines n (line_value start) (line_value end_line) target.hunk_line_numbers lines
            accepted;
    })
