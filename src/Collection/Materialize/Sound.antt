-- ===== src/Collection/Materialize/Sound.antt =====
-- What `_materialize_change` of src/repoguard/_git.py makes of the changes of the raw diff.
use repo_guard.Base.{
  ℕ, ◌≡◌, ◌⊎◌, inl, inr, refl, subst, Bool, true, false, not, ◌&&◌, ◌||◌, and_iff, Option, none,
  some, List, [], ◌∷◌, All, if◌then◌else◌,
}
use repo_guard.Base.Outcome.{ok, >>=-eq-ok, require-then, ok-injective}
use repo_guard.Text.{text_eq}
use repo_guard.Evidence.{FileVersion, FileChangeEvidence, DiffHunkEvidence}
use repo_guard.Agent.Context.Numbered.{IsNumberedHunk}
use repo_guard.Collection.{Budget, check_deadline}
use repo_guard.Collection.Hunks.{parse_hunks}
use repo_guard.Collection.Hunks.Sound.{parse_hunks-IsNumberedHunk}
use repo_guard.Collection.Raw.{RawChange, is_absent}
use repo_guard.Collection.Materialize.{
  Git, Content, is_given, classify_content, content_cache_key, Cache, cached, Materialized,
  from_cache, materialize_version, text_content, is_text, are_text, no_hunks, diff_versions,
  hunks_of, materialize_change, materialize_changes,
}
use repo_guard.Collection.Materialize.Contents.{
  classify_content-IsRead, AreContents, Grows, IsStored, cached-here, Grows-fresh, IsStored-Grows,
  text_content-found,
}

-- The version is the one of its path, mode and id, and is missing exactly for the mode that says so.
abbrev pub IsSide : List ℕ → List ℕ → List ℕ → Option FileVersion → Type 0
IsSide path mode oid none = is_absent mode ≡ true
IsSide path mode oid (some v) =
    (is_absent mode ≡ false) × (v.path ≡ path) × (v.mode ≡ mode) × (v.oid ≡ oid)

record IsMaterializedVersion (path mode oid : List ℕ) (cache : Cache) (m : Materialized)
    : Type 0 where
  side : IsSide path mode oid m.0
  contents : AreContents m.1
  grows : Grows cache m.1
  stored : IsStored m.1 m.0

materialize_version-IsMaterializedVersion :
    (git : Git) (path mode oid : List ℕ) (cache : Cache) (budget : Option Budget) (m : Materialized)
    → AreContents cache
    → materialize_version git path mode oid cache budget ≡ ok m
    → IsMaterializedVersion path mode oid cache m
unfolding materialize_version
materialize_version-IsMaterializedVersion git path mode oid cache budget m a h =
    by_absence (is_absent mode) refl h
  where
    by_cache :
        (o : Option Content)
        → cached (content_cache_key mode oid) cache ≡ o
        → is_absent mode ≡ false
        → from_cache git path mode oid cache budget o ≡ ok m
        → IsMaterializedVersion path mode oid cache m
    by_cache (some c) e p h =
        subst (IsMaterializedVersion path mode oid cache) (ok-injective h) (record {
          side = (p, refl, refl, refl);
          contents = a;
          grows = λ k d f. f;
          stored = (c, e, refl);
        })
    by_cache none e p h =
        let (read, r, h1) = >>=-eq-ok (classify_content git mode oid budget) _ h in
        subst (IsMaterializedVersion path mode oid cache) (ok-injective h1) (record {
          side = (p, refl, refl, refl);
          contents = (classify_content-IsRead git mode oid budget read r, a);
          grows = Grows-fresh (content_cache_key mode oid) read.0 cache e;
          stored = (read.0, cached-here (content_cache_key mode oid) read.0 cache, refl);
        })

    by_absence :
        (t : Bool)
        → is_absent mode ≡ t
        → (if t
            then ok (none, cache, budget)
            else from_cache git path mode oid cache budget
                (cached (content_cache_key mode oid) cache))
          ≡ ok m
        → IsMaterializedVersion path mode oid cache m
    by_absence true p h =
        subst (IsMaterializedVersion path mode oid cache) (ok-injective h)
          (record { side = p; contents = a; grows = λ k d f. f; stored = tt })
    by_absence false p h = by_cache (cached (content_cache_key mode oid) cache) refl p h

-- The hunks are numbered, and there are some for two texts only.
abbrev pub FitVersions : Option FileVersion → Option FileVersion → List DiffHunkEvidence → Type 0
FitVersions old new hunks = All IsNumberedHunk hunks × ((are_text old new ≡ true) ⊎ (hunks ≡ []))

hunks_of-FitVersions :
    (git : Git) (old new : Option FileVersion) (cache : Cache) (budget : Option Budget)
    (found : List DiffHunkEvidence × Option Budget)
    → hunks_of git old new cache budget ≡ ok found
    → FitVersions old new found.0
hunks_of-FitVersions git old new cache budget found h = by_test (are_text old new) refl h
  where
    by_test :
        (t : Bool)
        → are_text old new ≡ t
        → (if t then diff_versions git old new cache budget else ok ([], budget)) ≡ ok found
        → FitVersions old new found.0
    by_test true e h =
        let (a, _, h1) = >>=-eq-ok (text_content old cache) _ h in
        let (b, _, h2) = >>=-eq-ok (text_content new cache) _ h1 in
        let (patch, _, h3) = >>=-eq-ok (git.patch a b budget) _ h2 in
        let (parsed, p, h4) = >>=-eq-ok (parse_hunks patch.0 patch.1) _ h3 in
        let (_, h5) =
          (require-then (not (is_given budget && not (text_eq a b) && no_hunks parsed.0)) _ _ _).0
            h4 in
        subst (λ f. FitVersions old new f.0) (ok-injective h5)
          (parse_hunks-IsNumberedHunk patch.0 patch.1 parsed.1 parsed.0 p, inl e)
    by_test false e h = subst (λ f. FitVersions old new f.0) (ok-injective h) (tt, inr refl)

-- The evidence of a change is of the record of the raw diff.
pub record IsMaterialized (raw : RawChange) (change : FileChangeEvidence) : Type 0 where
  pub type_kept : change.change_type ≡ raw.change_type
  pub similarity_kept : change.rename_similarity ≡ raw.rename_similarity
  pub old_side : IsSide raw.old_path raw.old_mode raw.old_oid change.old
  pub new_side : IsSide raw.new_path raw.new_mode raw.new_oid change.new
  pub hunks_fit : FitVersions change.old change.new change.hunks

abbrev IsMaterializedWith : RawChange → FileChangeEvidence × Cache × Option Budget → Type 0
IsMaterializedWith raw m = IsMaterialized raw m.0 × AreContents m.1

materialize_change-IsMaterialized :
    (git : Git) (raw : RawChange) (cache : Cache) (budget : Option Budget)
    (m : FileChangeEvidence × Cache × Option Budget)
    → AreContents cache
    → materialize_change git raw cache budget ≡ ok m
    → IsMaterializedWith raw m
unfolding materialize_change
materialize_change-IsMaterialized git raw cache budget m a h =
    let (checked, _, h1) = >>=-eq-ok (check_deadline budget) _ h in
    let (old, o, h2) =
      >>=-eq-ok (materialize_version git raw.old_path raw.old_mode raw.old_oid cache checked) _
        h1 in
    let (new, n, h3) =
      >>=-eq-ok (materialize_version git raw.new_path raw.new_mode raw.new_oid old.1 old.2) _ h2 in
    let (found, f, h4) = >>=-eq-ok (hunks_of git old.0 new.0 new.1 new.2) _ h3 in
    let before =
      materialize_version-IsMaterializedVersion git raw.old_path raw.old_mode raw.old_oid cache
        checked old a o in
    let after =
      materialize_version-IsMaterializedVersion git raw.new_path raw.new_mode raw.new_oid old.1
        old.2 new before.contents n in
    subst (IsMaterializedWith raw) (ok-injective h4) (
      record {
        type_kept = refl;
        similarity_kept = refl;
        old_side = before.side;
        new_side = after.side;
        hunks_fit = hunks_of-FitVersions git old.0 new.0 new.1 new.2 found f;
      },
      after.contents,
    )

-- Each change is made of the record at its place.
abbrev pub AreMaterialized : List RawChange → List FileChangeEvidence → Type 0
AreMaterialized [] [] = Unit
AreMaterialized (raw ∷ raws) (change ∷ changes) =
    IsMaterialized raw change × AreMaterialized raws changes
AreMaterialized [] (change ∷ changes) = ⊥
AreMaterialized (raw ∷ raws) [] = ⊥

abbrev AreMaterializedWith :
    List RawChange → List FileChangeEvidence × Cache × Option Budget → Type 0
AreMaterializedWith raws m = AreMaterialized raws m.0 × AreContents m.1

-- When the cache holds bytes without NUL that decode under text and no bytes under anything else,
-- and the records of the raw diff are materialized, whatever Git answers: there is one change for
-- each record, at its place, with its kind, its similarity, and on each side the path, mode and
-- object id of the record or nothing exactly when the mode says that nothing is there; its hunks
-- are numbered as their headers say, and are there for texts only; and the cache that is left is
-- such a cache again.
pub materialize_changes-AreMaterialized :
    (git : Git) (raws : List RawChange) (cache after : Cache) (budget left : Option Budget)
    (changes : List FileChangeEvidence)
    → AreContents cache
    → materialize_changes git raws cache budget ≡ ok (changes, after, left)
    → AreMaterialized raws changes × AreContents after
unfolding materialize_changes
materialize_changes-AreMaterialized git [] cache after budget left changes a h =
    subst (AreMaterializedWith []) (ok-injective h) (tt, a)
materialize_changes-AreMaterialized git (raw ∷ raws) cache after budget left changes a h =
    let (first, f, h1) = >>=-eq-ok (materialize_change git raw cache budget) _ h in
    let (rest, r, h2) = >>=-eq-ok (materialize_changes git raws first.1 first.2) _ h1 in
    let (made, contents) = materialize_change-IsMaterialized git raw cache budget first a f in
    let (others, ends) =
      materialize_changes-AreMaterialized git raws first.1 rest.1 first.2 rest.2 rest.0 contents
        r in
    subst (AreMaterializedWith (raw ∷ raws)) (ok-injective h2) ((made, others), ends)

-- When the cache holds bytes without NUL that decode under text and no bytes under anything else,
-- and the two versions of a change are materialized one behind the other and those that exist are
-- text, then `_text_content` finds the bytes of both in the cache that is left: neither its error
-- nor a KeyError can occur.
pub text_content-kept :
    (git : Git) (raw : RawChange) (cache : Cache) (budget between : Option Budget)
    (old new : Materialized)
    → AreContents cache
    → materialize_version git raw.old_path raw.old_mode raw.old_oid cache budget ≡ ok old
    → materialize_version git raw.new_path raw.new_mode raw.new_oid old.1 between ≡ ok new
    → are_text old.0 new.0 ≡ true
    → ((b : List ℕ) × (text_content old.0 new.1 ≡ ok b))
      × ((b : List ℕ) × (text_content new.0 new.1 ≡ ok b))
text_content-kept git raw cache budget between old new a o n t =
    let before =
      materialize_version-IsMaterializedVersion git raw.old_path raw.old_mode raw.old_oid cache
        budget old a o in
    let after =
      materialize_version-IsMaterializedVersion git raw.new_path raw.new_mode raw.new_oid old.1
        between new before.contents n in
    let (left, new_text) =
      (and_iff ((is_given old.0 || is_given new.0) && is_text old.0) (is_text new.0)).0 t in
    let (_, old_text) = (and_iff (is_given old.0 || is_given new.0) (is_text old.0)).0 left in
    (
      text_content-found new.1 old.0 after.contents
          (IsStored-Grows old.1 new.1 old.0 after.grows before.stored) old_text,
      text_content-found new.1 new.0 after.contents after.stored new_text,
    )
