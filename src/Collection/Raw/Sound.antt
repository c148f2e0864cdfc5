-- ===== src/Collection/Raw/Sound.antt =====
-- The changes that `_parse_raw_changes` of src/repoguard/_git.py returns.
use repo_guard.Base.{
  ℕ, zero, suc, ◌+◌, ◌≤◌, ◌≡◌, refl, sym, subst, Bool, true, false, not, ◌&&◌, ◌||◌, leb_iff,
  Option, none, some, List, [], ◌∷◌, ◌==◌, leb, arith, All, length,
}
use repo_guard.Base.Outcome.{
  either_branch, ok, err, >>=-eq-ok, require-then, require-eq-ok, bind-then, ok-injective,
}
use repo_guard.Text.{codes, encodes, text_eq}
use repo_guard.Text.Decode.{decode_utf8, decode_utf8-encodes}
use repo_guard.Evidence.{ChangeType, added, modified, deleted, renamed, type_changed}
use repo_guard.Collection.{malformed, Budget, check_deadline}
use repo_guard.Collection.Hunks.{to_int}
use repo_guard.Collection.Raw.{
  RawChange, check_file_limit, is_mode, parse_mode, is_hex, parse_oid, is_zero_oid, Status,
  parse_status, plain, lettered, is_number, rename_status, is_absent, same, validate_absent_side,
  sides_fit, validate_change_sides, RawHeader, read_parts, without_colon, split_words,
  read_raw_header, or_bad_path, decode_path, take_paths, read_record, read_records, before_nul,
  split_fields, parse_raw_changes,
}

-- The similarity that a status has, and only a rename has one.
abbrev pub FitsSimilarity : ChangeType → Option ℕ → Type 0
FitsSimilarity renamed (some n) = n ≤ 100
FitsSimilarity renamed none = ⊥
FitsSimilarity _ (some n) = ⊥
FitsSimilarity _ none = Unit

-- A record of the raw diff that is consistent.
pub record IsRawChange (oid_length : ℕ) (r : RawChange) : Type 0 where
  pub old_mode_valid : is_mode r.old_mode ≡ true
  pub new_mode_valid : is_mode r.new_mode ≡ true
  pub old_oid_valid : ((length r.old_oid == oid_length) && is_hex r.old_oid) ≡ true
  pub new_oid_valid : ((length r.new_oid == oid_length) && is_hex r.new_oid) ≡ true
  pub old_absence : is_absent r.old_mode ≡ is_zero_oid r.old_oid
  pub new_absence : is_absent r.new_mode ≡ is_zero_oid r.new_oid
  pub sides :
      sides_fit r.change_type (not (is_absent r.old_mode)) (not (is_absent r.new_mode)) ≡ true
  pub similarity_fits : FitsSimilarity r.change_type r.rename_similarity
  pub old_path_encodes : encodes r.old_path ≡ true
  pub new_path_encodes : encodes r.new_path ≡ true

abbrev FitsStatus : Status → Type 0
FitsStatus s = FitsSimilarity s.change_type s.similarity

rename_status-fits : (n : ℕ) (s : Status) → rename_status n ≡ ok s → FitsStatus s
rename_status-fits n s h =
    let (small, e) = (require-then (leb n 100) _ _ _).0 h in
    subst FitsStatus (ok-injective e) ((leb_iff n 100).0 small)

plain-fits : (t : ChangeType) (s : Status) → FitsSimilarity t none → plain t ≡ ok s → FitsStatus s
plain-fits t s f h = subst FitsStatus (ok-injective h) f

lettered-fits : (c : ℕ) (rest : List ℕ) (s : Status) → lettered c rest ≡ ok s → FitsStatus s
lettered-fits c rest s h =
    either_branch FitsStatus ((c == b'R') && is_number rest) _ (err malformed) s
      (λ e. let (n, _, e1) = >>=-eq-ok (to_int rest) rename_status e in rename_status-fits n s e1)
      (λ e. cc) h

parse_status-fits : (b : List ℕ) (s : Status) → parse_status b ≡ ok s → FitsStatus s
unfolding parse_status
parse_status-fits [] s h = cc
parse_status-fits (c ∷ rest) s h =
    let b = c ∷ rest in
    either_branch FitsStatus (text_eq b (codes "A")) _ _ s (plain-fits added s tt)
      (either_branch FitsStatus (text_eq b (codes "M")) _ _ s (plain-fits modified s tt) (
        either_branch FitsStatus (text_eq b (codes "D")) _ _ s (plain-fits deleted s tt) (
          either_branch FitsStatus (text_eq b (codes "T")) _ _ s (plain-fits type_changed s tt)
            (lettered-fits c rest s))))
      h

is_mode_lem : (m v : List ℕ) → parse_mode m ≡ ok v → is_mode v ≡ true
unfolding parse_mode
is_mode_lem m v h =
    let (e, h1) = (require-then (is_mode m) _ _ _).0 h in
    subst (λ x. is_mode x ≡ true) (ok-injective h1) e

is_oid_lem :
    (b : Bool) (n : ℕ) (o v : List ℕ)
    → parse_oid b n o ≡ ok v
    → ((length v == n) && is_hex v) ≡ true
unfolding parse_oid
is_oid_lem b n o v h =
    let (e, h1) = (require-then ((length o == n) && is_hex o) _ _ _).0 h in
    let (_, h2) = (require-then (b || not (is_zero_oid o)) _ _ _).0 h1 in
    subst (λ x. ((length x == n) && is_hex x) ≡ true) (ok-injective h2) e

-- What the header of a record says for sure.
record IsHeader (n : ℕ) (r : RawHeader) : Type 0 where
  old_mode_valid : is_mode r.old_mode ≡ true
  new_mode_valid : is_mode r.new_mode ≡ true
  old_oid_valid : ((length r.old_oid == n) && is_hex r.old_oid) ≡ true
  new_oid_valid : ((length r.new_oid == n) && is_hex r.new_oid) ≡ true
  status_fits : FitsStatus r.status

read_parts-IsHeader :
    (n : ℕ) (parts : List (List ℕ)) (r : RawHeader) → read_parts n parts ≡ ok r → IsHeader n r
read_parts-IsHeader n (a ∷ b ∷ c ∷ d ∷ e ∷ []) r h =
    let (old_mode, h1, k1) = >>=-eq-ok (parse_mode a) _ h in
    let (new_mode, h2, k2) = >>=-eq-ok (parse_mode b) _ k1 in
    let (old_oid, h3, k3) = >>=-eq-ok (parse_oid true n c) _ k2 in
    let (new_oid, h4, k4) = >>=-eq-ok (parse_oid true n d) _ k3 in
    let (status, h5, k5) = >>=-eq-ok (parse_status e) _ k4 in
    subst (IsHeader n) (ok-injective k5) (record {
      old_mode_valid = is_mode_lem a old_mode h1;
      new_mode_valid = is_mode_lem b new_mode h2;
      old_oid_valid = is_oid_lem true n c old_oid h3;
      new_oid_valid = is_oid_lem true n d new_oid h4;
      status_fits = parse_status-fits e status h5;
    })
read_parts-IsHeader n [] r h = cc
read_parts-IsHeader n (a ∷ []) r h = cc
read_parts-IsHeader n (a ∷ b ∷ []) r h = cc
read_parts-IsHeader n (a ∷ b ∷ c ∷ []) r h = cc
read_parts-IsHeader n (a ∷ b ∷ c ∷ d ∷ []) r h = cc
read_parts-IsHeader n (a ∷ b ∷ c ∷ d ∷ e ∷ f ∷ more) r h = cc

read_raw_header-IsHeader :
    (n : ℕ) (header : List ℕ) (r : RawHeader) → read_raw_header n header ≡ ok r → IsHeader n r
unfolding read_raw_header
read_raw_header-IsHeader n header r h =
    let (rest, _, h1) = >>=-eq-ok (without_colon header) _ h in
    read_parts-IsHeader n (split_words rest) r h1

decode_path-encodes : (b p : List ℕ) → decode_path b ≡ ok p → encodes p ≡ true
unfolding decode_path
decode_path-encodes b p h = by_decoded (decode_utf8 b) refl h
  where
    by_decoded : (o : Option (List ℕ)) → decode_utf8 b ≡ o → or_bad_path o ≡ ok p → encodes p ≡ true
    by_decoded none e h = cc
    by_decoded (some q) e h =
        subst (λ x. encodes x ≡ true) (ok-injective h) (decode_utf8-encodes b q e)

-- The paths that are taken can be encoded, and a plain status has one path twice.
abbrev AreTaken : ℕ → List (List ℕ) → List ℕ × List ℕ × List (List ℕ) → Type 0
AreTaken k fields t = (encodes t.0 ≡ true) × (encodes t.1 ≡ true) × (length fields ≡ k + length t.2)

take_paths-AreTaken :
    (k : ℕ) (fields : List (List ℕ)) (t : List ℕ × List ℕ × List (List ℕ))
    → take_paths k fields ≡ ok t
    → AreTaken k fields t
take_paths-AreTaken (suc zero) (path ∷ fields) t h =
    let (p, d, h1) = >>=-eq-ok (decode_path path) _ h in
    let e = decode_path-encodes path p d in
    subst (AreTaken 1 (path ∷ fields)) (ok-injective h1) (e, e, omega arith)
take_paths-AreTaken (suc (suc zero)) (a ∷ b ∷ fields) t h =
    let (p, d, h1) = >>=-eq-ok (decode_path a) _ h in
    let (q, e, h2) = >>=-eq-ok (decode_path b) _ h1 in
    subst (AreTaken 2 (a ∷ b ∷ fields)) (ok-injective h2)
      (decode_path-encodes a p d, decode_path-encodes b q e, omega arith)
take_paths-AreTaken zero fields t h = cc
take_paths-AreTaken (suc zero) [] t h = cc
take_paths-AreTaken (suc (suc zero)) [] t h = cc
take_paths-AreTaken (suc (suc zero)) (a ∷ []) t h = cc
take_paths-AreTaken (suc (suc (suc k))) fields t h = cc

same-eq : (a b : Bool) → same a b ≡ true → a ≡ b
same-eq true true h = refl
same-eq true false h = cc
same-eq false true h = cc
same-eq false false h = refl

absence_lem : (m o : List ℕ) → validate_absent_side m o ≡ ok tt → is_absent m ≡ is_zero_oid o
unfolding validate_absent_side
absence_lem m o h = same-eq (is_absent m) (is_zero_oid o) (require-eq-ok _ _ h)

sides_lem :
    (t : ChangeType) (m n : List ℕ)
    → validate_change_sides t m n ≡ ok tt
    → sides_fit t (not (is_absent m)) (not (is_absent n)) ≡ true
unfolding validate_change_sides
sides_lem t m n h = require-eq-ok _ _ h

pub read_record-IsRawChange :
    (n : ℕ) (header : List ℕ) (fields : List (List ℕ)) (found : RawChange × List (List ℕ))
    → read_record n header fields ≡ ok found
    → IsRawChange n found.0 × (length found.1 ≤ length fields)
unfolding read_record
read_record-IsRawChange n header fields found h =
    let (r, h1, k1) = >>=-eq-ok (read_raw_header n header) _ h in
    let (t, h2, k2) = >>=-eq-ok (take_paths r.status.path_count fields) _ k1 in
    let (a, k3) = (bind-then (validate_absent_side r.old_mode r.old_oid) _ _).0 k2 in
    let (b, k4) = (bind-then (validate_absent_side r.new_mode r.new_oid) _ _).0 k3 in
    let (s, k5) =
      (bind-then (validate_change_sides r.status.change_type r.old_mode r.new_mode) _ _).0 k4 in
    let is_header = read_raw_header-IsHeader n header r h1 in
    let (old_encodes, new_encodes, fewer) = take_paths-AreTaken r.status.path_count fields t h2 in
    subst (λ f. IsRawChange n f.0 × (length f.1 ≤ length fields)) (ok-injective k5)
      (
        record {
          old_mode_valid = is_header.old_mode_valid;
          new_mode_valid = is_header.new_mode_valid;
          old_oid_valid = is_header.old_oid_valid;
          new_oid_valid = is_header.new_oid_valid;
          old_absence = absence_lem r.old_mode r.old_oid a;
          new_absence = absence_lem r.new_mode r.new_oid b;
          sides = sides_lem r.status.change_type r.old_mode r.new_mode s;
          similarity_fits = is_header.status_fits;
          old_path_encodes = old_encodes;
          new_path_encodes = new_encodes;
        },
        subst (λ k. length t.2 ≤ k) (sym fewer) (omega arith),
      )

-- The limit of changed files that a budget has.
abbrev pub InLimit : Option Budget → ℕ → Type 0
InLimit none n = Unit
InLimit (some b) n = n ≤ b.max_changed_files

abbrev AreRawChanges : ℕ → Option Budget → ℕ → List RawChange → Type 0
AreRawChanges oid_length budget n changes =
    All (IsRawChange oid_length) changes × (InLimit budget n → InLimit budget (n + length changes))

limit_stays :
    (budget checked : Option Budget) (n : ℕ)
    → check_deadline budget ≡ ok checked
    → InLimit checked n
    → InLimit budget n
unfolding check_deadline
limit_stays none checked n h i = tt
limit_stays (some b) checked n h i =
    let (_, e) = (require-then (not (leb b.deadline (b.clock b.readings))) _ _ _).0 h in
    subst (λ o. InLimit o n) (sym (ok-injective e)) i

limit_checked : (b : Option Budget) (n : ℕ) → check_file_limit b n ≡ ok tt → InLimit b (n + 1)
limit_checked none n h = tt
limit_checked (some b) n h =
    let below = require-eq-ok (not (leb b.max_changed_files n)) _ h in ground arith

read_records-AreRawChanges :
    (fuel k : ℕ) (budget : Option Budget) (n : ℕ) (fields : List (List ℕ))
    (changes : List RawChange)
    → read_records fuel k budget n fields ≡ ok changes
    → AreRawChanges k budget n changes
unfolding read_records
read_records-AreRawChanges fuel k budget n [] changes h =
    subst (AreRawChanges k budget n) (ok-injective h)
      (tt, λ i. subst (InLimit budget) {x = n} {y = n + 0} (omega arith) i)
read_records-AreRawChanges zero k budget n (header ∷ fields) changes h = cc
read_records-AreRawChanges (suc fuel) k budget n (header ∷ fields) changes h =
    let (checked, h1, k1) = >>=-eq-ok (check_deadline budget) _ h in
    let (limit, k2) = (bind-then (check_file_limit checked n) _ _).0 k1 in
    let (found, h3, k3) = >>=-eq-ok (read_record k header fields) _ k2 in
    let (rest, h4, k4) = >>=-eq-ok (read_records fuel k checked (n + 1) found.1) _ k3 in
    let (valid, within) = read_records-AreRawChanges fuel k checked (n + 1) found.1 rest h4 in
    let (first, _) = read_record-IsRawChange k header fields found h3 in
    subst (AreRawChanges k budget n) (ok-injective k4) (
      (first, valid),
      λ i. limit_stays budget checked (n + length (found.0 ∷ rest)) h1 (
          subst (InLimit checked) {x = n + 1 + length rest} (omega arith)
            (within (limit_checked checked n limit))),
    )

none-InLimit : (b : Option Budget) → InLimit b 0
none-InLimit none = tt
none-InLimit (some b) = omega arith

-- Whatever output of `git diff --raw -z` `_parse_raw_changes` returns changes of: each has octal
-- modes of six digits and object ids of the given length, a side is absent by its mode exactly when
-- it is by its id, the sides that exist are those of the kind of the change, a rename has a
-- similarity of 100 at most and nothing else has one, and both paths can be encoded; and with a
-- budget there are no more of them than it allows.
pub parse_raw_changes-IsRawChange :
    (output : List ℕ) (k : ℕ) (budget : Option Budget) (changes : List RawChange)
    → parse_raw_changes output k budget ≡ ok changes
    → All (IsRawChange k) changes × InLimit budget (length changes)
unfolding parse_raw_changes
parse_raw_changes-IsRawChange [] k budget changes h =
    subst (λ cs. All (IsRawChange k) cs × InLimit budget (length cs)) (ok-injective h)
      (tt, none-InLimit budget)
parse_raw_changes-IsRawChange (c ∷ output) k budget changes h =
    let (fields, _, h1) = >>=-eq-ok (split_fields (before_nul (c ∷ output))) _ h in
    let (valid, within) = read_records-AreRawChanges (length fields) k budget 0 fields changes h1 in
    (
      valid,
      subst (InLimit budget) {x = 0 + length changes} (omega arith) (within (none-InLimit budget)),
    )
