-- ===== src/Collection/Raw.antt =====
-- `_parse_raw_changes` of src/repoguard/_git.py, over the bytes of `git diff --raw -z`.
pub mod Ends
pub mod Sound
use repo_guard.Base.{
  ℕ, zero, suc, ◌+◌, Bool, true, false, not, ◌&&◌, ◌||◌, Option, none, some, List, [], ◌∷◌, ◌++◌,
  leb, ◌==◌, length, if◌then◌else◌, all,
}
use repo_guard.Base.Outcome.{Outcome, ok, err, ◌>>=◌, ◌>>◌, require}
use repo_guard.Text.{codes, text_eq}
use repo_guard.Text.Decode.{decode_utf8}
use repo_guard.Evidence.{ChangeType, added, modified, deleted, renamed, type_changed}
use repo_guard.Review.Validate.{is_lowercase_hex}
use repo_guard.Repair.Paths.{split_on}
use repo_guard.Repair.Patch.Header.{is_digit}
use repo_guard.Collection.Hunks.{to_int}
use repo_guard.Collection.{
  Collected, CollectionError, collection_error, exhausted, malformed, unsupported_path_encoding,
  resource_limit, Budget, check_deadline,
}

-- _RawChange
pub record RawChange : Type 0 where
  pub change_type : ChangeType
  pub rename_similarity : Option ℕ
  pub old_mode : List ℕ
  pub new_mode : List ℕ
  pub old_oid : List ℕ
  pub new_oid : List ℕ
  pub old_path : List ℕ
  pub new_path : List ℕ

abbrev pub is_octal : ℕ → Bool
is_octal c = leb b'0' c && leb c b'7'

-- _MODE_PATTERN.fullmatch(mode)
abbrev pub is_mode : List ℕ → Bool
is_mode mode = (length mode == 6) && all is_octal mode

-- _parse_mode
unfoldable pub parse_mode : List ℕ → Collected (List ℕ)
parse_mode mode = require (is_mode mode) malformed >> ok mode

abbrev pub is_hex : List ℕ → Bool
is_hex = all is_lowercase_hex

-- set(oid) == {"0"}
abbrev pub is_zero_oid : List ℕ → Bool
is_zero_oid [] = false
is_zero_oid (c ∷ oid) = all (λ d. d == b'0') (c ∷ oid)

-- _parse_oid
unfoldable pub parse_oid : Bool → ℕ → List ℕ → Collected (List ℕ)
parse_oid allow_zero oid_length oid = do
  require ((length oid == oid_length) && is_hex oid) malformed
  require (allow_zero || not (is_zero_oid oid)) malformed
  ok oid

-- What _parse_status returns.
pub record Status : Type 0 where
  pub change_type : ChangeType
  pub similarity : Option ℕ
  pub path_count : ℕ

abbrev pub plain : ChangeType → Collected Status
plain change_type = ok (record { change_type = change_type; similarity = none; path_count = 1 })

abbrev pub is_number : List ℕ → Bool
is_number [] = false
is_number (c ∷ s) = all is_digit (c ∷ s)

abbrev pub rename_status : ℕ → Collected Status
rename_status similarity = do
  require (leb similarity 100) malformed
  ok (record { change_type = renamed; similarity = some similarity; path_count = 2 })

abbrev pub lettered : ℕ → List ℕ → Collected Status
lettered c rest =
    if (c == b'R') && is_number rest then to_int rest >>= rename_status else err malformed

-- _parse_status
unfoldable pub parse_status : List ℕ → Collected Status
parse_status [] = err malformed
parse_status (c ∷ rest) =
    if text_eq (c ∷ rest) (codes "A")
    then plain added
    else if text_eq (c ∷ rest) (codes "M")
    then plain modified
    else if text_eq (c ∷ rest) (codes "D")
    then plain deleted
    else if text_eq (c ∷ rest) (codes "T")
    then plain type_changed
    else lettered c rest

abbrev pub absent_mode : List ℕ
absent_mode = codes "000000"

abbrev pub is_absent : List ℕ → Bool
is_absent mode = text_eq mode absent_mode

abbrev pub same : Bool → Bool → Bool
same true b = b
same false b = not b

-- _validate_absent_side
unfoldable pub validate_absent_side : List ℕ → List ℕ → Collected Unit
validate_absent_side mode oid = require (same (is_absent mode) (is_zero_oid oid)) malformed

abbrev pub sides_fit : ChangeType → Bool → Bool → Bool
sides_fit added old_exists new_exists = not old_exists && new_exists
sides_fit deleted old_exists new_exists = old_exists && not new_exists
sides_fit _ old_exists new_exists = old_exists && new_exists

-- _validate_change_sides
unfoldable pub validate_change_sides : ChangeType → List ℕ → List ℕ → Collected Unit
validate_change_sides change_type old_mode new_mode =
    require (sides_fit change_type (not (is_absent old_mode)) (not (is_absent new_mode))) malformed

-- The white space of bytes.split().
abbrev is_space : ℕ → Bool
is_space c = (c == 32) || (leb 9 c && leb c 13)

abbrev onto_word : ℕ → Bool → List (List ℕ) → List (List ℕ)
onto_word c true (word ∷ words) = (c ∷ word) ∷ words
onto_word c _ words = (c ∷ []) ∷ words

abbrev begins_word : List ℕ → Bool
begins_word [] = false
begins_word (c ∷ s) = not (is_space c)

-- header.split()
unfoldable pub split_words : List ℕ → List (List ℕ)
split_words [] = []
split_words (c ∷ s) =
    let words = split_words s in if is_space c then words else onto_word c (begins_word s) words

-- The five parts of the header of a record.
pub record RawHeader : Type 0 where
  pub old_mode : List ℕ
  pub new_mode : List ℕ
  pub old_oid : List ℕ
  pub new_oid : List ℕ
  pub status : Status

abbrev pub read_parts : ℕ → List (List ℕ) → Collected RawHeader
read_parts oid_length (m ∷ n ∷ o ∷ p ∷ s ∷ []) = do
  old_mode ← parse_mode m
  new_mode ← parse_mode n
  old_oid ← parse_oid true oid_length o
  new_oid ← parse_oid true oid_length p
  status ← parse_status s
  ok record {
    old_mode = old_mode;
    new_mode = new_mode;
    old_oid = old_oid;
    new_oid = new_oid;
    status = status;
  }
read_parts oid_length _ = err malformed

abbrev pub without_colon : List ℕ → Collected (List ℕ)
without_colon [] = err malformed
without_colon (c ∷ rest) = if c == b':' then ok rest else err malformed

unfoldable pub read_raw_header : ℕ → List ℕ → Collected RawHeader
unfolding parse_mode parse_oid parse_status split_words
read_raw_header oid_length header = do
  rest ← without_colon header
  read_parts oid_length (split_words rest)

abbrev pub or_bad_path : Option (List ℕ) → Collected (List ℕ)
or_bad_path none = err (collection_error unsupported_path_encoding)
or_bad_path (some path) = ok path

-- _decode_path
unfoldable pub decode_path : List ℕ → Collected (List ℕ)
unfolding decode_utf8
decode_path path = or_bad_path (decode_utf8 path)

-- The paths of a record and the fields behind them, by how many paths the status wants; then
-- _paths_for_change.
abbrev pub take_paths : ℕ → List (List ℕ) → Collected (List ℕ × List ℕ × List (List ℕ))
take_paths (suc zero) (path ∷ fields) = do decoded ← decode_path path; ok (decoded, decoded, fields)
take_paths (suc (suc zero)) (old_path ∷ new_path ∷ fields) = do
  old_decoded ← decode_path old_path
  new_decoded ← decode_path new_path
  ok (old_decoded, new_decoded, fields)
take_paths _ fields = err malformed

-- A record of the raw diff and the fields behind it.
unfoldable pub read_record : ℕ → List ℕ → List (List ℕ) → Collected (RawChange × List (List ℕ))
unfolding read_raw_header decode_path validate_absent_side validate_change_sides
read_record oid_length header fields = do
  r ← read_raw_header oid_length header
  taken ← take_paths r.status.path_count fields
  validate_absent_side r.old_mode r.old_oid
  validate_absent_side r.new_mode r.new_oid
  validate_change_sides r.status.change_type r.old_mode r.new_mode
  let change : RawChange = record {
    change_type = r.status.change_type;
    rename_similarity = r.status.similarity;
    old_mode = r.old_mode;
    new_mode = r.new_mode;
    old_oid = r.old_oid;
    new_oid = r.new_oid;
    old_path = taken.0;
    new_path = taken.1;
  } in
      ok (change, taken.2)

abbrev pub check_file_limit : Option Budget → ℕ → Collected Unit
check_file_limit none n = ok tt
check_file_limit (some b) n =
    require (not (leb b.max_changed_files n)) (collection_error resource_limit)

-- The loop of _parse_raw_changes, on fuel, with how many changes there are.
unfoldable pub read_records : ℕ → ℕ → Option Budget → ℕ → List (List ℕ) → Collected (List RawChange)
unfolding read_record check_deadline
read_records fuel oid_length budget n [] = ok []
read_records zero oid_length budget n (header ∷ fields) = err exhausted
read_records (suc fuel) oid_length budget n (header ∷ fields) = do
  checked ← check_deadline budget
  check_file_limit checked n
  found ← read_record oid_length header fields
  changes ← read_records fuel oid_length checked (n + 1) found.1
  ok (found.0 ∷ changes)

-- output[:-1] if the output ends with NUL
unfoldable pub before_nul : List ℕ → Option (List ℕ)
before_nul [] = none
before_nul (c ∷ []) = if c == 0 then some [] else none
before_nul (c ∷ d ∷ s) = elim (before_nul (d ∷ s)) [ none ↦ none | some t ↦ some (c ∷ t) ]

abbrev pub split_fields : Option (List ℕ) → Collected (List (List ℕ))
split_fields none = err malformed
split_fields (some output) = ok (split_on 0 output)

-- _parse_raw_changes
unfoldable pub parse_raw_changes : List ℕ → ℕ → Option Budget → Collected (List RawChange)
unfolding before_nul split_on read_records
parse_raw_changes [] oid_length budget = ok []
parse_raw_changes (c ∷ output) oid_length budget = do
  fields ← split_fields (before_nul (c ∷ output))
  read_records (length fields) oid_length budget 0 fields
