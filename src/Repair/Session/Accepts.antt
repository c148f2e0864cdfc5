-- ===== src/Repair/Session/Accepts.antt =====
-- `append` and `_load_event_chain` ask the same of an event.
use repo_guard.Base.{
  ℕ, ◌+◌, ◌≡◌, refl, sym, ap, ◌∙◌, subst, ◌↔◌, true, and_iff, Option, some, List, leb, ◌==◌,
}
use repo_guard.Base.Outcome.{ok, ok-injective}
use repo_guard.Agent.Json.{Json, Fields}
use repo_guard.Repair.Unicode.{Unicode}
use repo_guard.Repair.Records.Checks.{is_sha256, if_given}
use repo_guard.Repair.Records.RoundTrip.{IsSnapshot}
use repo_guard.Repair.Records.ReadsBack.{IfGiven}
use repo_guard.Repair.Session.Lease.{ValidationRunLease}
use repo_guard.Repair.Session.Lease.RoundTrip.{IsLease}
use repo_guard.Repair.Session.Updates.{
  snapshot_update_is_valid, validation_run_update_is_valid, candidate_preview_update_is_valid,
}
use repo_guard.Repair.Session.Digests.{Hashing, snapshot_record_digests_are_valid}
use repo_guard.Repair.Session.Chain.{LoadedState, follows_previous, load_event}
use repo_guard.Repair.Session.Event.{event_mapping, read_event}
use repo_guard.Repair.Session.Chain.Loaded.{
  load_event-inv, load_mapping-IsLoaded, validate_event_mapping-IsHeader,
}
use repo_guard.Repair.Session.Append.{
  Update, next_preview, check_update, event_file, next_event, loaded_behind,
}
use repo_guard.Repair.Session.Written.{
  IsChecked, check_update-IsChecked, written, written_reads, written_loads, fields_of,
}

-- The checks of `append` pass for what follows.
checked :
    (h : Hashing) (s : List ℕ) (current : LoadedState) (x : Update)
    (run : Option ValidationRunLease) (preview : Option Json) (next : Option (List ℕ))
    → IsChecked h current x run preview next
    → check_update h s current x run preview ≡ ok next
unfolding check_update follows_previous
checked h s current x run preview next c =
    let p = current.snapshot in
    let q = x.snapshot in
    let (h1, u) = (and_iff _ (snapshot_update_is_valid x.kind p q)).0 c.follows in
    let (h2, v) =
      (and_iff _ (candidate_preview_update_is_valid x.kind p q current.preview_sha256 next)).0 h1 in
    let (h3, r) =
      (and_iff _ (validation_run_update_is_valid x.kind p q current.validation_run run)).0 h2 in
    let (h4, l) = (and_iff _ (leb p.updated_at_us q.updated_at_us)).0 h3 in
    let (m, t) = (and_iff _ (q.created_at_us == p.created_at_us)).0 h4 in
    rw (t, l, m, r, c.next_found, v, u, c.digests_valid) refl

-- An event that loads has been read with the kind and the preview that were written.
loaded_follows :
    (h : Hashing) (u : Unicode) (s : List ℕ) (current : LoadedState) (x : Update)
    (run : Option ValidationRunLease) (next : Option (List ℕ))
    → if_given is_sha256 next ≡ true
    → load_event h u s
        (some current)
        (event_file (current.event_sequence + 1) (next_event current x run next))
      ≡ ok (loaded_behind h current x run next)
    → (follows_previous (some current) x.kind x.snapshot next run ≡ true)
      × (snapshot_record_digests_are_valid h x.snapshot ≡ true)
unfolding next_event event_mapping
loaded_follows h u s current x run next sha loads =
    let file = event_file (current.event_sequence + 1) (next_event current x run next) in
    let l = loaded_behind h current x run next in
    let (m, content, _, reads) = load_event-inv h u s (some current) file l loads in
    let (e, is_loaded) = load_mapping-IsLoaded h u s (some current) m l reads in
    let fields = fields_of (next_event current x run next) in
    let same = some_same fields m content in
    let header =
      validate_event_mapping-IsHeader fields (current.event_sequence + 1) current.event_sha256 s
        (written x.kind x.snapshot next run)
        (written_reads (current.event_sequence + 1) current.event_sha256 x.kind x.snapshot next run
          s sha) in
    let one =
      ok-injective (sym header.event_read ∙ ap read_event same ∙ is_loaded.header.event_read) in
    (
      subst (λ k. follows_previous (some current) k x.snapshot next run ≡ true)
          (sym (ap (λ y. y.kind) one)) is_loaded.follows,
      is_loaded.digests_valid,
    )
  where
    some_same : (a b : Fields) → ◌≡◌ {A = Option Fields} (some a) (some b) → a ≡ b
    some_same a b e = cc

-- For a snapshot and a lease that have been built, a snapshot of the session, and the preview
-- digest that `append` finds, which has the form of one, the checks of `append` on an update pass
-- exactly when `_load_event_chain` accepts the event that would be written for it behind the
-- current state.
pub check_update_iff :
    (h : Hashing) (u : Unicode) (s : List ℕ) (current : LoadedState) (x : Update)
    (run : Option ValidationRunLease) (preview : Option Json) (next : Option (List ℕ))
    → x.snapshot.session_id ≡ s
    → IsSnapshot u x.snapshot
    → IfGiven IsLease run
    → if_given is_sha256 next ≡ true
    → next_preview h x.kind preview current.preview_sha256 ≡ ok next
    → (check_update h s current x run preview ≡ ok next) ↔ (
        load_event h u s
          (some current)
          (event_file (current.event_sequence + 1) (next_event current x run next))
        ≡ ok (loaded_behind h current x run next))
check_update_iff h u s current x run preview next of_session built lease sha found = (
  λ returns.
      let c = check_update-IsChecked h s current x run preview next returns in
      written_loads h u s current x run next of_session built lease sha c.digests_valid c.follows,
  λ loads.
      let (follows, digests) = loaded_follows h u s current x run next sha loads in
      checked h s current x run preview next
        (record { next_found = found; follows = follows; digests_valid = digests }),
)
