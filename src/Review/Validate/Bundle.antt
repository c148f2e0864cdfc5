-- ===== src/Review/Validate/Bundle.antt =====
-- `_validate_bundle` of src/repoguard/_review.py and the well-formed bundles.
use repo_guard.Base.{
  ℕ, ◌≡◌, refl, ◌≢◌, ◌⊎◌, ◌↔◌, inl, inr, true, false, Option, none, some, List, [], ◌∷◌, arith, All,
  Option-cases,
}
use repo_guard.Base.Order.Sort.{AllPairs}
use repo_guard.Base.Outcome.{ok, ◌>>=◌, for_each, bind-then, for_each_iff, >>=-eq-ok}
use repo_guard.Text.{codes, text_eq_iff, starts_with, encodes, contains}
use repo_guard.Evidence.{FileVersion, FileChangeEvidence, EvidenceBundle}
use repo_guard.Review.Validate.{
  oid_length, is_valid_oid, validate_new, validate_hunks, validate_change, validate_revisions,
  require_utf8, validate_oid, validate_bundle,
}
use repo_guard.Review.Validate.Sound.{
  all_lines, added_numbers, IsLine, NotSeen, lines_sound, lines_accepts, hunks-eq-lines,
}

NotSeen-distinct :
    (seen ns : List ℕ) → NotSeen seen ns → All (λ n. contains n seen ≡ false) ns × AllPairs ◌≢◌ ns
NotSeen-distinct seen [] h = (tt, tt)
NotSeen-distinct seen (n ∷ ns) (new_number, h) =
    let (apart, pairs) = NotSeen-distinct (n ∷ seen) ns h in
    ((new_number, not_in_tail ns apart), (not_head ns apart, pairs))
  where
    not_in_tail :
        (ms : List ℕ)
        → All (λ m. contains m (n ∷ seen) ≡ false) ms
        → All (λ m. contains m seen ≡ false) ms
    not_in_tail [] a = tt
    not_in_tail (m ∷ ms) a = (ground arith, not_in_tail ms a.1)

    not_head : (ms : List ℕ) → All (λ m. contains m (n ∷ seen) ≡ false) ms → All (λ m. n ≢ m) ms
    not_head [] a = tt
    not_head (m ∷ ms) a = (ground arith, not_head ms a.1)

NotSeen-of_distinct :
    (seen ns : List ℕ) → All (λ n. contains n seen ≡ false) ns → AllPairs ◌≢◌ ns → NotSeen seen ns
NotSeen-of_distinct seen [] a p = tt
NotSeen-of_distinct seen (n ∷ ns) a p =
    (a.0, NotSeen-of_distinct (n ∷ seen) ns (with_head ns a.1 p.0) p.1)
  where
    with_head :
        (ms : List ℕ)
        → All (λ m. contains m seen ≡ false) ms
        → All (λ m. n ≢ m) ms
        → All (λ m. contains m (n ∷ seen) ≡ false) ms
    with_head [] a d = tt
    with_head (m ∷ ms) a d = (ground arith, with_head ms a.1 d.1)

nothing_seen : (ns : List ℕ) → All (λ n. contains n [] ≡ false) ns
nothing_seen [] = tt
nothing_seen (n ∷ ns) = (refl, nothing_seen ns)

abbrev pub IsNewSide : ℕ → Option FileVersion → Type 0
IsNewSide n none = Unit
IsNewSide n (some v) = (v.path ≢ []) × (encodes v.path ≡ true) × (is_valid_oid n v.oid ≡ true)

pub record IsValidChange (n : ℕ) (change : FileChangeEvidence) : Type 0 where
  pub side : IsNewSide n change.new
  pub lines : All (IsLine change.new) (all_lines change.hunks)
  pub distinct : AllPairs ◌≢◌ (added_numbers (all_lines change.hunks))

new_iff : (n : ℕ) (new : Option FileVersion) → (validate_new n new ≡ ok tt) ↔ IsNewSide n new
unfolding validate_new
new_iff n none = (λ h. tt, λ h. refl)
new_iff n (some v) = (λ h. ground arith, λ h. ground arith)

hunks_iff :
    (change : FileChangeEvidence)
    → ((s : List ℕ) × (validate_hunks change.new [] change.hunks ≡ ok s)) ↔ (
        All (IsLine change.new) (all_lines change.hunks)
        × AllPairs ◌≢◌ (added_numbers (all_lines change.hunks)))
hunks_iff change =
    let lines = all_lines change.hunks in
    (
      λ h.
          let (a, k) = lines_sound change.new [] h.0 lines (rw hunks-eq-lines at h.1) in
          (a, (NotSeen-distinct [] (added_numbers lines) k).1),
      λ h. rw hunks-eq-lines (
          lines_accepts change.new [] lines h.0 (
            NotSeen-of_distinct [] (added_numbers lines) (nothing_seen (added_numbers lines)) h.1)),
    )

change_iff :
    (n : ℕ) (change : FileChangeEvidence)
    → (validate_change n change ≡ ok tt) ↔ IsValidChange n change
unfolding validate_change
change_iff n change =
    let hunks = validate_hunks change.new [] change.hunks in
    let split = bind-then (validate_new n change.new) (hunks >>= λ _. ok tt) tt in
    (
      λ h.
          let (side_ok, rest) = split.0 h in
          let (s, seen, _) = >>=-eq-ok hunks (λ _. ok tt) rest in
          let (lines_ok, apart) = (hunks_iff change).0 (s, seen) in
          record { side = (new_iff n change.new).0 side_ok; lines = lines_ok; distinct = apart },
      λ v.
          let (s, seen) = (hunks_iff change).1 (v.lines, v.distinct) in
          split.1 ((new_iff n change.new).1 v.side, rw seen refl),
    )

-- The object format and the length of its object ids.
abbrev pub IsFormat : List ℕ → ℕ → Type 0
IsFormat format n = ((format ≡ codes "sha1") × (n ≡ 40)) ⊎ ((format ≡ codes "sha256") × (n ≡ 64))

oid_length_sound : (format : List ℕ) (n : ℕ) → oid_length format ≡ some n → IsFormat format n
unfolding oid_length
oid_length_sound format n h =
    ground (arith, text_eq_iff format (codes "sha1"), text_eq_iff format (codes "sha256"))

oid_length_of : (format : List ℕ) (n : ℕ) → IsFormat format n → oid_length format ≡ some n
unfolding oid_length
oid_length_of format n (inl (e, k)) = rw (e, k) refl
oid_length_of format n (inr (e, k)) = rw (e, k) refl

pub record IsValidBundle (bundle : EvidenceBundle) : Type 0 where
  pub schema : bundle.schema_version ≡ 1
  pub absolute : starts_with (codes "/") bundle.repository.root ≡ true
  pub root_encodes : encodes bundle.repository.root ≡ true
  pub width : ℕ
  pub format : IsFormat bundle.repository.object_format width
  pub base_ref : encodes bundle.revisions.base_ref ≡ true
  pub head_ref : encodes bundle.revisions.head_ref ≡ true
  pub base_oid : is_valid_oid width bundle.revisions.base_oid ≡ true
  pub head_oid : is_valid_oid width bundle.revisions.head_oid ≡ true
  pub merge_base_oid : is_valid_oid width bundle.revisions.merge_base_oid ≡ true
  pub changes : All (IsValidChange width) bundle.changes

All-map_iff :
    {A : Type 0} (P Q : A → Type 0) (xs : List A) → ((x : A) → P x → Q x) → All P xs → All Q xs
All-map_iff P Q [] f h = tt
All-map_iff P Q (x ∷ xs) f h = (f x h.0, All-map_iff P Q xs f h.1)

changes_iff :
    (n : ℕ) (changes : List FileChangeEvidence)
    → (for_each (validate_change n) changes ≡ ok tt) ↔ All (IsValidChange n) changes
changes_iff n changes =
    let each = for_each_iff (validate_change n) changes in
    (
      λ h. All-map_iff _ _ changes (λ c. (change_iff n c).0) (each.0 h),
      λ h. each.1 (All-map_iff _ _ changes (λ c. (change_iff n c).1) h),
    )

pub validate_sound :
    (bundle : EvidenceBundle) → validate_bundle bundle ≡ ok tt → IsValidBundle bundle
unfolding validate_bundle validate_revisions require_utf8 validate_oid
validate_sound bundle h = elim (Option-cases (oid_length bundle.repository.object_format)) [
  | inl unknown ↦ absurd (ground arith)
  | inr (n, e) ↦ record {
    schema = ground arith;
    absolute = ground arith;
    root_encodes = ground arith;
    width = n;
    format = oid_length_sound bundle.repository.object_format n e;
    base_ref = ground arith;
    head_ref = ground arith;
    base_oid = ground arith;
    head_oid = ground arith;
    merge_base_oid = ground arith;
    changes = (changes_iff n bundle.changes).0 (ground arith);
  }
]

pub validate_complete :
    (bundle : EvidenceBundle) → IsValidBundle bundle → validate_bundle bundle ≡ ok tt
unfolding validate_bundle validate_revisions
validate_complete bundle v = ground (
  arith,
  oid_length_of bundle.repository.object_format v.width v.format,
  (changes_iff v.width bundle.changes).1 v.changes,
)

-- `_validate_bundle` returns exactly for the well-formed bundles: schema 1, an absolute root,
-- encodable texts, object ids of lowercase hexadecimal digits in the width of the object format,
-- and added lines only on a new side, without an old number, with positive new numbers that are
-- distinct within the change.
pub validate_iff :
    (bundle : EvidenceBundle) → (validate_bundle bundle ≡ ok tt) ↔ IsValidBundle bundle
validate_iff bundle = (validate_sound bundle, validate_complete bundle)
