-- ===== src/Collection/Tests.antt =====
-- Runs of the collection on small outputs of Git.
use repo_guard.Base.{
  ℕ, ◌≡◌, ◌≢◌, refl, true, false, none, some, List, [], ◌∷◌, ◌++◌, All, if◌then◌else◌,
}
use repo_guard.Base.Outcome.{ok, err}
use repo_guard.Text.{codes, text_eq}
use repo_guard.Evidence.{
  addition, deletion, renamed, DiffHunkEvidence, text, ContentKind-discrete, FileVersion,
  FileChangeEvidence,
}
use repo_guard.Agent.Context.Numbered.{IsNumberedHunk}
use repo_guard.Collection.{
  malformed, collection_error, resource_limit, git_timeout, exhausted, Budget, check_deadline,
  reserve_diff_line,
}
use repo_guard.Collection.Hunks.{
  parse_hunks, split_lf, parse_lines, parse_line, finish_current, match_hunk, match_pair,
  match_digits, read_header, add_diff_line,
}
use repo_guard.Collection.Hunks.Sound.{parse_hunks-IsNumberedHunk}
use repo_guard.Collection.Raw.{
  RawChange, parse_raw_changes, before_nul, read_records, read_record, read_raw_header, split_words,
  parse_mode, parse_oid, parse_status, decode_path, validate_absent_side, validate_change_sides,
}
use repo_guard.Collection.Raw.Sound.{IsRawChange, InLimit, parse_raw_changes-IsRawChange}
use repo_guard.Collection.Raw.Ends.{parse_raw_changes-ne-exhausted}
use repo_guard.Review.Validate.{is_lowercase_hex}
use repo_guard.Collection.Materialize.{
  Git, single_output_line, parse_blob_size, reserve_blob_bytes, classify_content, cached,
  materialize_version, Materialized, text_content, materialize_change, materialize_changes, Cache,
}
use repo_guard.Collection.Materialize.Sound.{
  AreMaterialized, materialize_changes-AreMaterialized, text_content-kept,
}
use repo_guard.Collection.Materialize.Contents.{AreContents}
use repo_guard.Collection.Materialize.Whole.{IsCollected, materialize_changes-IsCollected}
use repo_guard.Repair.Paths.{split_on}
use repo_guard.Repair.Patch.Header.{take_digits, digits_value}
use repo_guard.Text.Decode.{decode_utf8}

abbrev clock_at_5 : ℕ → ℕ
clock_at_5 n = 5

-- A budget of one changed file and two lines, before its deadline.
abbrev budget : Budget
budget = record {
  deadline = 6;
  max_changed_files = 1;
  max_blob_bytes = 4;
  max_total_blob_bytes = 6;
  max_diff_lines = 2;
  blob_bytes = 0;
  diff_lines = 0;
  clock = clock_at_5;
  readings = 0;
}

abbrev one_hunk : List ℕ
one_hunk = codes "--- a/f\n@@ -3 +3 @@ f\n-a\n+b\n\\ No newline at end of file\n"

abbrev read_hunk : DiffHunkEvidence
read_hunk = record {
  old_start = 3;
  old_count = 1;
  new_start = 3;
  new_count = 1;
  lines =
      record {
        kind = deletion;
        old_line_number = some 3;
        new_line_number = none;
        content = codes "a";
        has_trailing_newline = true;
      }
      ∷ record {
        kind = addition;
        old_line_number = none;
        new_line_number = some 3;
        content = codes "b";
        has_trailing_newline = false;
      }
      ∷ [];
}

one_hunk_read : parse_hunks one_hunk none ≡ ok (read_hunk ∷ [], none)
unfolding parse_hunks split_lf parse_lines parse_line finish_current match_hunk match_pair
    match_digits take_digits digits_value read_header add_diff_line reserve_diff_line check_deadline
    decode_utf8
one_hunk_read = refl

-- A hunk with a line too few.
short_hunk_refused : parse_hunks (codes "@@ -3 +3,2 @@\n-a\n+b\n") none ≡ err malformed
unfolding parse_hunks split_lf parse_lines parse_line finish_current match_hunk match_pair
    match_digits take_digits digits_value read_header add_diff_line reserve_diff_line check_deadline
    decode_utf8
short_hunk_refused = refl

three_lines_refused :
    parse_hunks (codes "@@ -3 +3,2 @@\n-a\n+b\n+c\n") (some budget)
    ≡ err (collection_error resource_limit)
unfolding parse_hunks split_lf parse_lines parse_line finish_current match_hunk match_pair
    match_digits take_digits digits_value read_header add_diff_line reserve_diff_line check_deadline
    decode_utf8
three_lines_refused = refl

late_refused :
    parse_hunks one_hunk (some (record budget { deadline = 5 }))
    ≡ err (collection_error git_timeout)
unfolding parse_hunks split_lf parse_lines parse_line finish_current match_hunk match_pair
    match_digits take_digits digits_value read_header add_diff_line reserve_diff_line check_deadline
    decode_utf8
late_refused = refl

parse_hunks-IsNumberedHunk_example : All IsNumberedHunk (read_hunk ∷ [])
parse_hunks-IsNumberedHunk_example =
    parse_hunks-IsNumberedHunk one_hunk none none (read_hunk ∷ []) one_hunk_read

abbrev one_record : List ℕ
one_record = codes ":100644 100755 01ab 4567 R087" ++ 0 ∷ codes "a" ++ 0 ∷ codes "b" ++ 0 ∷ []

abbrev read_change : RawChange
read_change = record {
  change_type = renamed;
  rename_similarity = some 87;
  old_mode = codes "100644";
  new_mode = codes "100755";
  old_oid = codes "01ab";
  new_oid = codes "4567";
  old_path = codes "a";
  new_path = codes "b";
}

one_record_read : parse_raw_changes one_record 4 (some budget) ≡ ok (read_change ∷ [])
unfolding parse_raw_changes before_nul split_on read_records check_deadline read_record
    read_raw_header split_words parse_mode parse_oid parse_status decode_path decode_utf8
    validate_absent_side validate_change_sides digits_value is_lowercase_hex
one_record_read = refl

two_records_refused :
    parse_raw_changes (one_record ++ one_record) 4 (some budget)
    ≡ err (collection_error resource_limit)
unfolding parse_raw_changes before_nul split_on read_records check_deadline read_record
    read_raw_header split_words parse_mode parse_oid parse_status decode_path decode_utf8
    validate_absent_side validate_change_sides digits_value is_lowercase_hex
two_records_refused = refl

parse_raw_changes-IsRawChange_example :
    All (IsRawChange 4) (read_change ∷ []) × InLimit (some budget) 1
parse_raw_changes-IsRawChange_example =
    parse_raw_changes-IsRawChange one_record 4 (some budget) (read_change ∷ []) one_record_read

parse_raw_changes-ne-exhausted_example :
    parse_raw_changes one_record 4 (some budget) ≢ err exhausted
parse_raw_changes-ne-exhausted_example = parse_raw_changes-ne-exhausted one_record 4 (some budget)

-- Git with one blob of two bytes and another of one.
abbrev first_oid : List ℕ
first_oid = codes "01ab"

abbrev git : Git
git = record {
  blob_size = λ oid b. ok (if text_eq oid first_oid then codes "2\n" else codes "1\n", b);
  blob = λ oid limit b. ok (if text_eq oid first_oid then codes "a\n" else codes "b", b);
  patch = λ old new b. ok (one_hunk, b);
}

abbrev old_version : FileVersion
old_version = record {
  path = codes "a";
  mode = codes "100644";
  oid = codes "01ab";
  content_kind = text;
}

abbrev new_version : FileVersion
new_version = record {
  path = codes "b";
  mode = codes "100755";
  oid = codes "4567";
  content_kind = text;
}

abbrev read_file_change : FileChangeEvidence
read_file_change = record {
  change_type = renamed;
  rename_similarity = some 87;
  old = some old_version;
  new = some new_version;
  hunks = read_hunk ∷ [];
}

abbrev old_cache : Cache
old_cache = ((codes "regular", codes "01ab"), (text, some (codes "a\n"))) ∷ []

abbrev new_cache : Cache
new_cache = ((codes "regular", codes "4567"), (text, some (codes "b"))) ∷ old_cache

one_change_made :
    materialize_changes git (read_change ∷ []) [] none ≡ ok (read_file_change ∷ [], new_cache, none)
unfolding materialize_changes materialize_change materialize_version classify_content check_deadline
    cached text_content parse_hunks split_lf parse_lines parse_line finish_current match_hunk
    match_pair match_digits take_digits digits_value read_header add_diff_line reserve_diff_line
    decode_utf8 ContentKind-discrete
one_change_made = refl

-- A blob of more bytes than the limit.
large_blob_refused :
    classify_content git (codes "100644") first_oid (some (record budget { max_blob_bytes = 1 }))
    ≡ err (collection_error resource_limit)
unfolding classify_content check_deadline parse_blob_size single_output_line digits_value
    reserve_blob_bytes
large_blob_refused = refl

materialize_changes-AreMaterialized_example :
    AreMaterialized (read_change ∷ []) (read_file_change ∷ []) × AreContents new_cache
materialize_changes-AreMaterialized_example =
    materialize_changes-AreMaterialized git (read_change ∷ []) [] new_cache none none
      (read_file_change ∷ []) tt one_change_made

materialize_changes-IsCollected_example : All (IsCollected 4) (read_file_change ∷ [])
materialize_changes-IsCollected_example =
    materialize_changes-IsCollected git one_record 4 (some budget) none none (read_change ∷ [])
      (read_file_change ∷ []) new_cache one_record_read one_change_made

abbrev old_made : Materialized
old_made = (some old_version, old_cache, none)

abbrev new_made : Materialized
new_made = (some new_version, new_cache, none)

text_content-kept_example :
    ((b : List ℕ) × (text_content (some old_version) new_cache ≡ ok b))
    × ((b : List ℕ) × (text_content (some new_version) new_cache ≡ ok b))
unfolding materialize_version classify_content check_deadline cached decode_utf8
    ContentKind-discrete
text_content-kept_example =
    text_content-kept git read_change [] none none old_made new_made tt refl refl refl
