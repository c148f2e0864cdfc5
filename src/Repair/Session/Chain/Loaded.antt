-- ===== src/Repair/Session/Chain/Loaded.antt =====
-- What a file of the chain says when `load_event` returns.
use repo_guard.Base.{
  ℕ, ◌≡◌, refl, sym, ap, subst, ◌∙◌, true, ◌&&◌, and_iff, ==_iff, Option, none, some, List, ◌==◌,
}
use repo_guard.Base.Outcome.{ok, err, >>=-eq-ok, require-then, ok-injective}
use repo_guard.Text.{codes, text_eq, text_eq_iff}
use repo_guard.Agent.Json.{json_object, Fields}
use repo_guard.Repair.Unicode.{Unicode}
use repo_guard.Repair.Records.{state_text}
use repo_guard.Repair.Records.Checks.{is_sha256, if_given}
use repo_guard.Repair.Records.Exact.{Read, exact_str, exact_int, field}
use repo_guard.Repair.Records.Read.{repair_snapshot_from_dict}
use repo_guard.Repair.Session.Lease.{optional_lease_from_dict}
use repo_guard.Repair.Session.Digests.{Hashing, domain_digest, snapshot_record_digests_are_valid}
use repo_guard.Repair.Session.Chain.{
  LoadedState, next_sequence, previous_sha256, follows_previous, load_mapping, or_unreadable,
  load_event,
}
use repo_guard.Repair.Session.Event.{
  or_corrupt, EventFile, EventRecord, event_name, header_fits, read_event, validate_event_mapping,
}

pub or_corrupt-ok :
    {A : Type 0} (s : List ℕ) (m : Read A) {a : A} → or_corrupt s m ≡ ok a → m ≡ ok a
or_corrupt-ok s (ok b) h = ap (λ x. ok x) (ok-injective h)
or_corrupt-ok s (err e) h = cc

-- What `_validate_event_mapping` has found.
pub record IsHeader (mapping : Fields) (sequence : ℕ) (previous : List ℕ) (e : EventRecord)
    : Type 0 where
  pub numbered : field mapping "sequence" exact_int ≡ ok sequence
  pub linked : field mapping "previous_sha256" exact_str ≡ ok previous
  pub event_read : read_event mapping ≡ ok e
  pub preview_digest : if_given is_sha256 e.preview_sha256 ≡ true

header_fits-true :
    (m : Fields) (n : ℕ) (d : List ℕ)
    → header_fits m n d ≡ ok true
    → (field m "sequence" exact_int ≡ ok n) × (field m "previous_sha256" exact_str ≡ ok d)
header_fits-true m n d h =
    let (version, v, h1) = >>=-eq-ok (field m "schema_version" exact_int) _ h in
    let (number, q, h2) = >>=-eq-ok (field m "sequence" exact_int) _ h1 in
    let (digest, p, h3) = >>=-eq-ok (field m "previous_sha256" exact_str) _ h2 in
    let (b, e) =
      (and_iff ((version == 1) && (number == n)) (text_eq digest d)).0 (ok-injective h3) in
    let (_, c) = (and_iff (version == 1) (number == n)).0 b in
    (q ∙ ap (λ x. ok x) ((==_iff number n).0 c), p ∙ ap (λ x. ok x) ((text_eq_iff digest d).0 e))

pub validate_event_mapping-IsHeader :
    (m : Fields) (n : ℕ) (d s : List ℕ) (e : EventRecord)
    → validate_event_mapping m n d s ≡ ok e
    → IsHeader m n d e
unfolding validate_event_mapping
validate_event_mapping-IsHeader m n d s e h =
    let (_, h1) = (require-then _ _ _ _).0 h in
    let (fits, f, h2) = >>=-eq-ok (or_corrupt s (header_fits m n d)) _ h1 in
    let (t, h3) = (require-then fits _ _ _).0 h2 in
    let (event, r, h4) = >>=-eq-ok (or_corrupt s (read_event m)) _ h3 in
    let (p, h5) = (require-then (if_given is_sha256 event.preview_sha256) _ _ _).0 h4 in
    let same = ok-injective h5 in
    let (q, l) =
      header_fits-true m n d (or_corrupt-ok s (header_fits m n d) (f ∙ ap (λ x. ok x) t)) in
    record {
      numbered = q;
      linked = l;
      event_read = or_corrupt-ok s (read_event m) r ∙ ap (λ x. ok x) same;
      preview_digest = ap (λ x. if_given is_sha256 x.preview_sha256) (sym same) ∙ p;
    }

-- What `load_mapping` has found in the mapping of a file, whose event is `e`.
pub record IsLoaded (h : Hashing) (u : Unicode) (session_id : List ℕ)
    (previous : Option LoadedState) (mapping : Fields) (e : EventRecord) (l : LoadedState)
    : Type 0 where
  pub header : IsHeader mapping (next_sequence previous) (previous_sha256 previous) e
  pub snapshot_read : repair_snapshot_from_dict u e.snapshot ≡ ok l.snapshot
  pub run_read : optional_lease_from_dict e.validation_run ≡ ok l.validation_run
  pub digests_valid : snapshot_record_digests_are_valid h l.snapshot ≡ true
  pub of_session : l.snapshot.session_id ≡ session_id
  pub follows : follows_previous previous e.kind l.snapshot l.preview_sha256 l.validation_run ≡ true
  pub timed : l.event_timestamp_us ≡ l.snapshot.updated_at_us
  pub preview_named : l.preview_sha256 ≡ e.preview_sha256
  pub sequence_named : l.event_sequence ≡ next_sequence previous
  pub digest_named : l.event_sha256 ≡ domain_digest h (codes "event") (json_object mapping)

pub load_mapping-IsLoaded :
    (h : Hashing) (u : Unicode) (s : List ℕ) (previous : Option LoadedState) (m : Fields)
    (l : LoadedState)
    → load_mapping h u s previous m ≡ ok l
    → (e : EventRecord) × IsLoaded h u s previous m e l
unfolding load_mapping
load_mapping-IsLoaded h u s previous m l returns =
    let (e, v, h1) =
      >>=-eq-ok (validate_event_mapping m (next_sequence previous) (previous_sha256 previous) s) _
        returns in
    let (snapshot, r, h2) =
      >>=-eq-ok (or_corrupt s (repair_snapshot_from_dict u e.snapshot)) _ h1 in
    let (d, h3) = (require-then (snapshot_record_digests_are_valid h snapshot) _ _ _).0 h2 in
    let (run, q, h4) = >>=-eq-ok (or_corrupt s (optional_lease_from_dict e.validation_run)) _ h3 in
    let (i, h5) =
      (require-then (text_eq snapshot.session_id s && text_eq (state_text snapshot.state) e.state) _
          _ _).0
        h4 in
    let (f, h6) =
      (require-then (follows_previous previous e.kind snapshot e.preview_sha256 run) _ _ _).0 h5 in
    let (t, h7) = (require-then (e.timestamp_us == snapshot.updated_at_us) _ _ _).0 h6 in
    let built : IsLoaded h u s previous m e (record {
      snapshot = snapshot;
      event_sequence = next_sequence previous;
      event_sha256 = domain_digest h (codes "event") (json_object m);
      event_timestamp_us = e.timestamp_us;
      preview_sha256 = e.preview_sha256;
      validation_run = run;
    }) =
      record {
        header =
            validate_event_mapping-IsHeader m (next_sequence previous) (previous_sha256 previous) s
              e v;
        snapshot_read = or_corrupt-ok s (repair_snapshot_from_dict u e.snapshot) r;
        run_read = or_corrupt-ok s (optional_lease_from_dict e.validation_run) q;
        digests_valid = d;
        of_session =
            (text_eq_iff snapshot.session_id s).0
              ((and_iff (text_eq snapshot.session_id s) _).0 i).0;
        follows = f;
        timed = (==_iff e.timestamp_us snapshot.updated_at_us).0 t;
        preview_named = refl;
        sequence_named = refl;
        digest_named = refl;
      } in
    (e, subst (λ x. IsLoaded h u s previous m e x) (ok-injective h7) built)

-- A file that loads bears the name of its place, and its mapping loads.
pub load_event-inv :
    (h : Hashing) (u : Unicode) (s : List ℕ) (previous : Option LoadedState) (file : EventFile)
    (l : LoadedState)
    → load_event h u s previous file ≡ ok l
    → (m : Fields) × (file.content ≡ some m)
      × (file.name ≡ event_name (next_sequence previous))
      × (load_mapping h u s previous m ≡ ok l)
unfolding load_event
load_event-inv h u s previous file l returns =
    let (n, h1) =
      (require-then (text_eq file.name (event_name (next_sequence previous))) _ _ _).0 returns in
    let (m, c, h2) = >>=-eq-ok (or_unreadable s file.content) _ h1 in
    (m, readable s file.content m c, (text_eq_iff _ _).0 n, h2)
  where
    readable : (s : List ℕ) (o : Option Fields) (m : Fields) → or_unreadable s o ≡ ok m → o ≡ some m
    readable s none m h = cc
    readable s (some x) m h = ap (λ y. some y) (ok-injective h)
