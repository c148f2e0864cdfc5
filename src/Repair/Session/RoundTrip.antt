-- ===== src/Repair/Session/RoundTrip.antt =====
-- The event that `append` writes, read by `_load_event_chain`.
use repo_guard.Base.{
  ℕ, ◌+◌, ◌≡◌, refl, sym, ap, subst, Bool, true, false, not, ◌&&◌, Option, none, some, List, [],
  ◌∷◌, ◌++◌,
}
use repo_guard.Base.Outcome.{ok, ◌>>◌, require, >>=-eq-ok, require-then, ok-injective}
use repo_guard.Text.{text_eq, text_eq_iff}
use repo_guard.Repair.Unicode.{Unicode}
use repo_guard.Repair.Records.Shape.{exists}
use repo_guard.Repair.Records.RoundTrip.{IsSnapshot}
use repo_guard.Repair.Records.ReadsBack.{IfGiven, map-IfGiven}
use repo_guard.Repair.Session.Lease.{ValidationRunLease}
use repo_guard.Repair.Session.Lease.RoundTrip.{IsLease}
use repo_guard.Repair.Session.Digests.{Hashing}
use repo_guard.Repair.Session.Chain.{LoadedState, load_event, load_events, load_event_chain}
use repo_guard.Repair.Session.Event.{EventFile, invalid_update}
use repo_guard.Repair.Session.Append.{
  SessionFiles, Update, next_validation_run, check_update, next_event, event_file, loaded_behind,
  append, clear_lease, registers, wants_lease,
}
use repo_guard.Repair.Session.Invariant.{load_event_chain-IsSession, load_event_chain-events}
use repo_guard.Repair.Session.Written.{
  check_update-IsChecked, MakesDigests, next_preview-digest, written_loads,
}

pub load_events-append :
    (h : Hashing) (u : Unicode) (s : List ℕ) (previous : Option LoadedState)
    (xs ys : List EventFile) (l : LoadedState)
    → load_events h u s previous xs ≡ ok (some l)
    → load_events h u s previous (xs ++ ys) ≡ load_events h u s (some l) ys
unfolding load_events
load_events-append h u s previous [] ys l loads = rw (ok-injective loads) refl
load_events-append h u s previous (file ∷ xs) ys l loads =
    let (next, is_next, rest) = >>=-eq-ok (load_event h u s previous file) _ loads in
    rw is_next (load_events-append h u s (some next) xs ys l rest)

-- What `append` returns.
pub append-inv :
    (h : Hashing) (u : Unicode) (s : List ℕ) (x : Update) (files after : SessionFiles)
    (l : LoadedState)
    → append h u s x files ≡ ok (after, l)
    → (current : LoadedState) × (run : Option ValidationRunLease) × (next : Option (List ℕ))
      × (x.snapshot.session_id ≡ s)
      × (load_event_chain h u s files.events ≡ ok current)
      × (next_validation_run x current.validation_run ≡ ok run)
      × (check_update h s current x run files.preview ≡ ok next)
      × (after.events
          ≡ files.events
            ++ event_file (current.event_sequence + 1) (next_event current x run next) ∷ [])
      × (l ≡ loaded_behind h current x run next)
unfolding append
append-inv h u s x files after l returns =
    let (i, h1) = (require-then (text_eq x.snapshot.session_id s) _ _ _).0 returns in
    let (_, h2) =
      (require-then (not (exists x.validation_run && x.clear_validation_run)) _ _ _).0 h1 in
    let (current, c, h3) = >>=-eq-ok (load_event_chain h u s files.events) _ h2 in
    let (run, r, h4) = >>=-eq-ok (next_validation_run x current.validation_run) _ h3 in
    let (next, n, h5) = >>=-eq-ok (check_update h s current x run files.preview) _ h4 in
    let same = ok-injective h5 in
    (
      current,
      run,
      next,
      (text_eq_iff x.snapshot.session_id s).0 i,
      c,
      r,
      n,
      sym (ap (λ y. y.0.events) same),
      sym (ap (λ y. y.1) same),
    )

next_validation_run-IsLease :
    (x : Update) (current run : Option ValidationRunLease)
    → IfGiven IsLease x.validation_run
    → IfGiven IsLease current
    → next_validation_run x current ≡ ok run
    → IfGiven IsLease run
unfolding next_validation_run
next_validation_run-IsLease x current run new held returns =
    by_argument x.validation_run new returns
  where
    cleared :
        (clear : Bool) (current : Option ValidationRunLease)
        → IfGiven IsLease current
        → clear_lease clear current ≡ ok run
        → IfGiven IsLease run
    cleared false current g h = subst (IfGiven IsLease) (ok-injective h) g
    cleared true none g h = cc
    cleared true (some r) g h = subst (IfGiven IsLease) (ok-injective h) tt

    by_argument :
        (given : Option ValidationRunLease)
        → IfGiven IsLease given
        → elim given [
          | some run ↦ require (registers x.kind x.snapshot.state) invalid_update >> ok (some run)
          | none ↦
              require (not (wants_lease x.kind)) invalid_update
              >> clear_lease x.clear_validation_run current
        ]
          ≡ ok run
        → IfGiven IsLease run
    by_argument (some r) g h =
        subst (IfGiven IsLease)
          (ok-injective ((require-then (registers x.kind x.snapshot.state) _ _ _).0 h).1) g
    by_argument none g h =
        cleared x.clear_validation_run current held
          ((require-then (not (wants_lease x.kind)) _ _ _).0 h).1

-- When hashing makes digests of 64 lowercase hexadecimal digits and the arguments have been built,
-- the files that `append` leaves load to the state that it returns.
pub append_then_load :
    (h : Hashing) (u : Unicode) (s : List ℕ) (x : Update) (files after : SessionFiles)
    (l : LoadedState)
    → MakesDigests h
    → IsSnapshot u x.snapshot
    → IfGiven IsLease x.validation_run
    → append h u s x files ≡ ok (after, l)
    → load_event_chain h u s after.events ≡ ok l
unfolding load_event_chain
append_then_load h u s x files after l makes built run_built returns =
    let (current, run, next, of_session, loads, r, n, e, is_l) =
      append-inv h u s x files after l returns in
    let alive = load_event_chain-IsSession h u s files.events current loads in
    let checked = check_update-IsChecked h s current x run files.preview next n in
    let sha =
      next_preview-digest h x.kind files.preview current.preview_sha256 next makes
        alive.preview_digest checked.next_found in
    let run_is =
      next_validation_run-IsLease x current.validation_run run run_built
        (map-IfGiven current.validation_run (λ r held. held.0) alive.run_held) r in
    let one =
      written_loads h u s current x run next of_session built run_is sha checked.digests_valid
        checked.follows in
    rw
      (
        e,
        is_l,
        load_events-append h u s none files.events
            (event_file (current.event_sequence + 1) (next_event current x run next) ∷ []) current
            (load_event_chain-events h u s files.events current loads),
        load_events,
        one,
      )
      refl
