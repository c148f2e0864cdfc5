-- ===== src/Repair/Session/Written.antt =====
-- The event that `append` writes, read by `load_event`.
use repo_guard.Base.{
  ℕ, ◌+◌, ◌≡◌, refl, ap, ◌∙◌, subst, true, ◌&&◌, and_iff, ==_iff, Option, none, some, List, ◌==◌,
  leb, arith,
}
use repo_guard.Base.Outcome.{ok, >>=-eq-ok, require-then, ok-injective}
use repo_guard.Text.{text_eq, text_eq_iff}
use repo_guard.Agent.Json.{Json, json_object, Fields, no_fields, has_exactly}
use repo_guard.Repair.Unicode.{Unicode}
use repo_guard.Repair.Records.{RepairSnapshot, state_text}
use repo_guard.Repair.Records.Checks.{is_sha256, if_given}
use repo_guard.Repair.Records.Exact.{member}
use repo_guard.Repair.Records.Write.{repair_snapshot_to_dict}
use repo_guard.Repair.Records.RoundTrip.{IsSnapshot, snapshot_round_trip}
use repo_guard.Repair.Records.ReadsBack.{IfGiven, text_back}
use repo_guard.Repair.Session.{
  EventKind, kind_candidate, kind_text, event_kinds, event_state_pair_is_valid,
}
use repo_guard.Repair.Session.Lease.{ValidationRunLease, optional_lease_to_dict}
use repo_guard.Repair.Session.Lease.RoundTrip.{IsLease, lease_round_trip}
use repo_guard.Repair.Session.Updates.{
  snapshot_update_is_valid, validation_run_update_is_valid, candidate_preview_update_is_valid,
}
use repo_guard.Repair.Session.Digests.{Hashing, domain_digest, snapshot_record_digests_are_valid}
use repo_guard.Repair.Session.Chain.{LoadedState, follows_previous, load_mapping, load_event}
use repo_guard.Repair.Session.Event.{EventRecord, event_name, event_mapping, validate_event_mapping}
use repo_guard.Repair.Session.Append.{
  Update, next_preview, check_update, next_event, event_file, loaded_behind,
}

pub kind_back : (k : EventKind) → member kind_text event_kinds (kind_text k) ≡ ok k
kind_back k = ground arith

pub text_same : (t : List ℕ) → text_eq t t ≡ true
text_same t = (text_eq_iff t t).1 refl

pub number_same : (n : ℕ) → (n == n) ≡ true
number_same n = (==_iff n n).1 refl

-- The fields of the event that is written.
abbrev pub fields_of : Json → Fields
fields_of (json_object fields) = fields
fields_of _ = no_fields

abbrev pub written :
    EventKind → RepairSnapshot → Option (List ℕ) → Option ValidationRunLease → EventRecord
written kind snapshot preview run = record {
  kind = kind;
  state = state_text snapshot.state;
  timestamp_us = snapshot.updated_at_us;
  snapshot = repair_snapshot_to_dict snapshot;
  preview_sha256 = preview;
  validation_run = optional_lease_to_dict run;
}

pub written_reads :
    (n : ℕ) (d : List ℕ) (kind : EventKind) (snapshot : RepairSnapshot) (preview : Option (List ℕ))
    (run : Option ValidationRunLease) (s : List ℕ)
    → if_given is_sha256 preview ≡ true
    → validate_event_mapping
        (fields_of (event_mapping n d kind snapshot.updated_at_us snapshot preview run))
        n
        d
        s
      ≡ ok (written kind snapshot preview run)
unfolding validate_event_mapping event_mapping has_exactly repair_snapshot_to_dict
written_reads n d kind snapshot preview run s sha =
    rw (number_same n, text_same d, kind_back kind, text_back preview, sha) refl

-- What `check_update` has checked when it returns.
pub record IsChecked (h : Hashing) (current : LoadedState) (x : Update)
    (run : Option ValidationRunLease) (preview : Option Json) (next : Option (List ℕ))
    : Type 0 where
  pub next_found : next_preview h x.kind preview current.preview_sha256 ≡ ok next
  pub follows : follows_previous (some current) x.kind x.snapshot next run ≡ true
  pub digests_valid : snapshot_record_digests_are_valid h x.snapshot ≡ true

pub check_update-IsChecked :
    (h : Hashing) (s : List ℕ) (current : LoadedState) (x : Update)
    (run : Option ValidationRunLease) (preview : Option Json) (next : Option (List ℕ))
    → check_update h s current x run preview ≡ ok next
    → IsChecked h current x run preview next
unfolding check_update follows_previous
check_update-IsChecked h s current x run preview next returns =
    let times =
      (x.snapshot.created_at_us == current.snapshot.created_at_us)
      && leb current.snapshot.updated_at_us x.snapshot.updated_at_us in
    let (t, h1) = (require-then times _ _ _).0 returns in
    let (p, h2) =
      (require-then (event_state_pair_is_valid x.kind current.snapshot.state x.snapshot.state) _ _
          _).0
        h1 in
    let (r, h3) =
      (require-then
          (validation_run_update_is_valid x.kind current.snapshot x.snapshot current.validation_run
            run)
          _ _ _).0
        h2 in
    let (n, e, h4) = >>=-eq-ok (next_preview h x.kind preview current.preview_sha256) _ h3 in
    let (v, h5) =
      (require-then
          (candidate_preview_update_is_valid x.kind current.snapshot x.snapshot
            current.preview_sha256 n)
          _ _ _).0
        h4 in
    let (m, h6) =
      (require-then (snapshot_update_is_valid x.kind current.snapshot x.snapshot) _ _ _).0 h5 in
    let (d, h7) = (require-then (snapshot_record_digests_are_valid h x.snapshot) _ _ _).0 h6 in
    let same = ok-injective h7 in
    let (created_same, no_earlier) =
      (and_iff (x.snapshot.created_at_us == current.snapshot.created_at_us) _).0 t in
    record {
      next_found = e ∙ ap (λ y. ok y) same;
      follows =
          rw
            (
              p,
              created_same,
              no_earlier,
              r,
              subst
                  (λ y.
                    candidate_preview_update_is_valid x.kind current.snapshot x.snapshot
                      current.preview_sha256 y
                    ≡ true)
                  same v,
              m,
            )
            refl;
      digests_valid = d;
    }

-- The digests that hashing makes.
abbrev pub MakesDigests : Hashing → Type 0
MakesDigests h = (v : List ℕ) → is_sha256 (h.sha256 v) ≡ true

pub next_preview-digest :
    (h : Hashing) (kind : EventKind) (preview : Option Json) (a b : Option (List ℕ))
    → MakesDigests h
    → if_given is_sha256 a ≡ true
    → next_preview h kind preview a ≡ ok b
    → if_given is_sha256 b ≡ true
unfolding next_preview domain_digest
next_preview-digest h kind preview (some a) b makes given returns =
    subst (λ o. if_given is_sha256 o ≡ true) (ok-injective returns) given
next_preview-digest h kind preview none none makes given returns = refl
next_preview-digest h kind_candidate (some v) none (some b) makes given returns =
    subst (λ o. if_given is_sha256 o ≡ true) (ok-injective returns) (makes _)
next_preview-digest h kind preview none (some b) makes given returns = ground arith

-- The written file is loaded.
pub written_loads :
    (h : Hashing) (u : Unicode) (s : List ℕ) (current : LoadedState) (x : Update)
    (run : Option ValidationRunLease) (next : Option (List ℕ))
    → x.snapshot.session_id ≡ s
    → IsSnapshot u x.snapshot
    → IfGiven IsLease run
    → if_given is_sha256 next ≡ true
    → snapshot_record_digests_are_valid h x.snapshot ≡ true
    → follows_previous (some current) x.kind x.snapshot next run ≡ true
    → load_event h u s
        (some current)
        (event_file (current.event_sequence + 1) (next_event current x run next))
      ≡ ok (loaded_behind h current x run next)
unfolding load_event load_mapping next_event event_mapping
written_loads h u s current x run next of_session built run_built sha digests follows =
    rw
      (
        text_same (event_name (current.event_sequence + 1)),
        written_reads (current.event_sequence + 1) current.event_sha256 x.kind x.snapshot next run s
            sha,
        snapshot_round_trip u x.snapshot built,
        digests,
        lease_round_trip run run_built,
        (text_eq_iff x.snapshot.session_id s).1 of_session,
        text_same (state_text x.snapshot.state),
        follows,
        number_same x.snapshot.updated_at_us,
      )
      refl
