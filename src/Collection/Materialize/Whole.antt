-- ===== src/Collection/Materialize/Whole.antt =====
-- The way from the output of Git to the changes of the evidence in src/repoguard/_git.py.
use repo_guard.Base.{
  ℕ, ◌≡◌, sym, ap, subst, ◌∙◌, true, false, not, ◌&&◌, Option, none, some, List, [], ◌∷◌, All, ◌==◌,
  length,
}
use repo_guard.Base.Outcome.{ok}
use repo_guard.Text.{encodes}
use repo_guard.Evidence.{FileVersion, FileChangeEvidence}
use repo_guard.Collection.{Budget}
use repo_guard.Collection.Raw.{
  RawChange, is_mode, is_hex, is_zero_oid, is_absent, sides_fit, parse_raw_changes,
}
use repo_guard.Collection.Raw.Sound.{FitsSimilarity, IsRawChange, parse_raw_changes-IsRawChange}
use repo_guard.Collection.Materialize.{Git, is_given, Cache, materialize_changes}
use repo_guard.Collection.Materialize.Sound.{
  IsSide, FitVersions, IsMaterialized, AreMaterialized, materialize_changes-AreMaterialized,
}

-- The version of a file that exists.
pub record IsVersion (oid_length : ℕ) (v : FileVersion) : Type 0 where
  pub path_encodes : encodes v.path ≡ true
  pub mode_valid : is_mode v.mode ≡ true
  pub mode_present : is_absent v.mode ≡ false
  pub oid_valid : ((length v.oid == oid_length) && is_hex v.oid) ≡ true
  pub oid_present : is_zero_oid v.oid ≡ false

abbrev pub IsVersionIfGiven : ℕ → Option FileVersion → Type 0
IsVersionIfGiven oid_length none = Unit
IsVersionIfGiven oid_length (some v) = IsVersion oid_length v

-- A change of the evidence that is consistent.
pub record IsCollected (oid_length : ℕ) (change : FileChangeEvidence) : Type 0 where
  pub sides : sides_fit change.change_type (is_given change.old) (is_given change.new) ≡ true
  pub similarity_fits : FitsSimilarity change.change_type change.rename_similarity
  pub old_valid : IsVersionIfGiven oid_length change.old
  pub new_valid : IsVersionIfGiven oid_length change.new
  pub hunks_fit : FitVersions change.old change.new change.hunks

given_lem :
    (path mode oid : List ℕ) (v : Option FileVersion)
    → IsSide path mode oid v
    → not (is_absent mode) ≡ is_given v
given_lem path mode oid none s = ap not s
given_lem path mode oid (some v) (s, _, _, _) = ap not s

side-IsVersionIfGiven :
    (oid_length : ℕ) (path mode oid : List ℕ) (v : Option FileVersion)
    → IsSide path mode oid v
    → encodes path ≡ true
    → is_mode mode ≡ true
    → ((length oid == oid_length) && is_hex oid) ≡ true
    → is_absent mode ≡ is_zero_oid oid
    → IsVersionIfGiven oid_length v
side-IsVersionIfGiven n path mode oid none s e m o z = tt
side-IsVersionIfGiven n path mode oid (some v) (present, p, q, r) e m o z = record {
  path_encodes = subst (λ x. encodes x ≡ true) (sym p) e;
  mode_valid = subst (λ x. is_mode x ≡ true) (sym q) m;
  mode_present = subst (λ x. is_absent x ≡ false) (sym q) present;
  oid_valid = subst (λ x. ((length x == n) && is_hex x) ≡ true) (sym r) o;
  oid_present = subst (λ x. is_zero_oid x ≡ false) (sym r) (sym z ∙ present);
}

materialized-IsCollected :
    (n : ℕ) (raw : RawChange) (change : FileChangeEvidence)
    → IsRawChange n raw
    → IsMaterialized raw change
    → IsCollected n change
materialized-IsCollected n raw change r m =
    let old_given = given_lem raw.old_path raw.old_mode raw.old_oid change.old m.old_side in
    let new_given = given_lem raw.new_path raw.new_mode raw.new_oid change.new m.new_side in
    record {
      sides =
          subst (λ t. sides_fit t (is_given change.old) (is_given change.new) ≡ true)
            (sym m.type_kept)
            (subst (λ b. sides_fit raw.change_type b (is_given change.new) ≡ true) old_given
              (subst (λ b. sides_fit raw.change_type (not (is_absent raw.old_mode)) b ≡ true)
                new_given r.sides));
      similarity_fits =
          subst (λ t. FitsSimilarity t change.rename_similarity) (sym m.type_kept)
            (subst (FitsSimilarity raw.change_type) (sym m.similarity_kept) r.similarity_fits);
      old_valid =
          side-IsVersionIfGiven n raw.old_path raw.old_mode raw.old_oid change.old m.old_side
            r.old_path_encodes r.old_mode_valid r.old_oid_valid r.old_absence;
      new_valid =
          side-IsVersionIfGiven n raw.new_path raw.new_mode raw.new_oid change.new m.new_side
            r.new_path_encodes r.new_mode_valid r.new_oid_valid r.new_absence;
      hunks_fit = m.hunks_fit;
    }

all-IsCollected :
    (n : ℕ) (raws : List RawChange) (changes : List FileChangeEvidence)
    → All (IsRawChange n) raws
    → AreMaterialized raws changes
    → All (IsCollected n) changes
all-IsCollected n [] [] r m = tt
all-IsCollected n [] (change ∷ changes) r m = elim m [ ]
all-IsCollected n (raw ∷ raws) [] r m = elim m [ ]
all-IsCollected n (raw ∷ raws) (change ∷ changes) (r, rs) (m, ms) =
    (materialized-IsCollected n raw change r m, all-IsCollected n raws changes rs ms)

-- When `_parse_raw_changes` returns changes and `_materialize_change`, whatever Git answers, makes
-- evidence of all of them, beginning with an empty cache: in each change the sides that exist are
-- those of its kind, a rename has a similarity of 100 at most and nothing else has one, each
-- version has a path that can be encoded, a mode of six octal digits that says it is there and an
-- object id of the given length that is not zero, the hunks are numbered as their headers say, and
-- a change that has hunks has text on each side that exists.
pub materialize_changes-IsCollected :
    (git : Git) (output : List ℕ) (oid_length : ℕ) (budget later left : Option Budget)
    (raws : List RawChange) (changes : List FileChangeEvidence) (cache : Cache)
    → parse_raw_changes output oid_length budget ≡ ok raws
    → materialize_changes git raws [] later ≡ ok (changes, cache, left)
    → All (IsCollected oid_length) changes
materialize_changes-IsCollected git output n budget later left raws changes cache h k =
    let (valid, _) = parse_raw_changes-IsRawChange output n budget raws h in
    let (made, _) = materialize_changes-AreMaterialized git raws [] cache later left changes tt k in
    all-IsCollected n raws changes valid made
