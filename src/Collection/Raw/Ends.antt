-- ===== src/Collection/Raw/Ends.antt =====
-- The fuel of the loop of `_parse_raw_changes` of src/repoguard/_git.py.
use repo_guard.Base.{
  ℕ, zero, suc, ◌+◌, ◌≤◌, ◌≡◌, ◌≢◌, Bool, true, false, Option, none, some, List, [], ◌∷◌, ◌==◌,
  arith, length, if◌then◌else◌,
}
use repo_guard.Base.Outcome.{ok, err, require, bind-ne-err}
use repo_guard.Collection.{Collected, CollectionError, malformed, Budget, check_deadline, exhausted}
use repo_guard.Collection.Raw.{
  check_file_limit, parse_mode, parse_oid, parse_status, validate_absent_side,
  validate_change_sides, read_parts, without_colon, split_words, read_raw_header, decode_path,
  take_paths, read_record, read_records, before_nul, split_fields, parse_raw_changes,
}
use repo_guard.Collection.Raw.Sound.{read_record-IsRawChange}

require-ne-exhausted :
    (b : Bool) (e : CollectionError) → e ≢ exhausted → require b e ≢ err exhausted
require-ne-exhausted true e n h = cc
require-ne-exhausted false e n h = n (is_error h)
  where
    is_error : ◌≡◌ {A = Collected Unit} (err e) (err exhausted) → e ≡ exhausted
    is_error q = cc

parse_mode-ne-exhausted : (m : List ℕ) → parse_mode m ≢ err exhausted
unfolding parse_mode
parse_mode-ne-exhausted m = ground arith

parse_oid-ne-exhausted : (b : Bool) (n : ℕ) (o : List ℕ) → parse_oid b n o ≢ err exhausted
unfolding parse_oid
parse_oid-ne-exhausted b n o = ground arith

parse_status-ne-exhausted : (s : List ℕ) → parse_status s ≢ err exhausted
unfolding parse_status
parse_status-ne-exhausted s = ground arith

read_parts-ne-exhausted : (n : ℕ) (parts : List (List ℕ)) → read_parts n parts ≢ err exhausted
read_parts-ne-exhausted n (a ∷ b ∷ c ∷ d ∷ e ∷ []) =
    bind-ne-err exhausted (parse_mode a) _ (parse_mode-ne-exhausted a) λ _ _.
      bind-ne-err exhausted (parse_mode b) _ (parse_mode-ne-exhausted b) λ _ _.
        bind-ne-err exhausted (parse_oid true n c) _ (parse_oid-ne-exhausted true n c) λ _ _.
          bind-ne-err exhausted (parse_oid true n d) _ (parse_oid-ne-exhausted true n d) λ _ _.
            bind-ne-err exhausted (parse_status e) _ (parse_status-ne-exhausted e) λ _ _ h. cc
read_parts-ne-exhausted n [] = λ h. cc
read_parts-ne-exhausted n (a ∷ []) = λ h. cc
read_parts-ne-exhausted n (a ∷ b ∷ []) = λ h. cc
read_parts-ne-exhausted n (a ∷ b ∷ c ∷ []) = λ h. cc
read_parts-ne-exhausted n (a ∷ b ∷ c ∷ d ∷ []) = λ h. cc
read_parts-ne-exhausted n (a ∷ b ∷ c ∷ d ∷ e ∷ f ∷ more) = λ h. cc

read_raw_header-ne-exhausted : (n : ℕ) (header : List ℕ) → read_raw_header n header ≢ err exhausted
unfolding read_raw_header
read_raw_header-ne-exhausted n [] = λ e. cc
read_raw_header-ne-exhausted n (c ∷ rest) =
    bind-ne-err exhausted (without_colon (c ∷ rest)) _ (require_colon (c == b':'))
      λ parts _. read_parts-ne-exhausted n (split_words parts)
  where
    require_colon : (b : Bool) → (if b then ok rest else err malformed) ≢ err exhausted
    require_colon b = ground arith

decode_path-ne-exhausted : (p : List ℕ) → decode_path p ≢ err exhausted
unfolding decode_path
decode_path-ne-exhausted p = ground arith

take_paths-ne-exhausted : (k : ℕ) (fields : List (List ℕ)) → take_paths k fields ≢ err exhausted
take_paths-ne-exhausted (suc zero) (path ∷ fields) =
    bind-ne-err exhausted (decode_path path) _ (decode_path-ne-exhausted path) λ _ _ h. cc
take_paths-ne-exhausted (suc (suc zero)) (a ∷ b ∷ fields) =
    bind-ne-err exhausted (decode_path a) _ (decode_path-ne-exhausted a)
      λ _ _. bind-ne-err exhausted (decode_path b) _ (decode_path-ne-exhausted b) λ _ _ h. cc
take_paths-ne-exhausted zero fields = λ h. cc
take_paths-ne-exhausted (suc zero) [] = λ h. cc
take_paths-ne-exhausted (suc (suc zero)) [] = λ h. cc
take_paths-ne-exhausted (suc (suc zero)) (a ∷ []) = λ h. cc
take_paths-ne-exhausted (suc (suc (suc k))) fields = λ h. cc

read_record-ne-exhausted :
    (n : ℕ) (header : List ℕ) (fields : List (List ℕ)) → read_record n header fields ≢ err exhausted
unfolding read_record validate_absent_side validate_change_sides
read_record-ne-exhausted n header fields =
    bind-ne-err exhausted (read_raw_header n header) _ (read_raw_header-ne-exhausted n header)
      λ r _.
        bind-ne-err exhausted (take_paths r.status.path_count fields) _
          (take_paths-ne-exhausted r.status.path_count fields) λ _ _. ground arith

check_deadline-ne-exhausted : (b : Option Budget) → check_deadline b ≢ err exhausted
unfolding check_deadline
check_deadline-ne-exhausted b = ground arith

check_file_limit-ne-exhausted : (b : Option Budget) (n : ℕ) → check_file_limit b n ≢ err exhausted
check_file_limit-ne-exhausted b n = ground arith

read_records-ne-exhausted :
    (fuel k : ℕ) (budget : Option Budget) (n : ℕ) (fields : List (List ℕ))
    → length fields ≤ fuel
    → read_records fuel k budget n fields ≢ err exhausted
unfolding read_records
read_records-ne-exhausted fuel k budget n [] enough = λ e. cc
read_records-ne-exhausted zero k budget n (header ∷ fields) enough = omega arith
read_records-ne-exhausted (suc fuel) k budget n (header ∷ fields) enough =
    bind-ne-err exhausted (check_deadline budget) _ (check_deadline-ne-exhausted budget)
      λ checked _.
        bind-ne-err exhausted (check_file_limit checked n) _
          (check_file_limit-ne-exhausted checked n)
          λ _ _.
            bind-ne-err exhausted (read_record k header fields) _
              (read_record-ne-exhausted k header fields)
              λ found h.
                bind-ne-err exhausted (read_records fuel k checked (n + 1) found.1) _
                  (let (_, fewer) = read_record-IsRawChange k header fields found h in
                    read_records-ne-exhausted fuel k checked (n + 1) found.1 (omega arith))
                  λ _ _ e. cc

-- The loop of `_parse_raw_changes` ends for every output and every budget: with as much fuel as
-- there are fields it never runs out of it.
pub parse_raw_changes-ne-exhausted :
    (output : List ℕ) (k : ℕ) (budget : Option Budget)
    → parse_raw_changes output k budget ≢ err exhausted
unfolding parse_raw_changes
parse_raw_changes-ne-exhausted [] k budget = λ e. cc
parse_raw_changes-ne-exhausted (c ∷ output) k budget =
    bind-ne-err exhausted (split_fields (before_nul (c ∷ output))) _
      (fields-ne-exhausted (before_nul (c ∷ output)))
      λ fields _. read_records-ne-exhausted (length fields) k budget 0 fields (omega arith)
  where
    fields-ne-exhausted : (o : Option (List ℕ)) → split_fields o ≢ err exhausted
    fields-ne-exhausted none e = cc
    fields-ne-exhausted (some x) e = cc
