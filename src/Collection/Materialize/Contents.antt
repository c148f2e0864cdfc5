-- ===== src/Collection/Materialize/Contents.antt =====
-- The contents of blobs and their cache in src/repoguard/_git.py.
use repo_guard.Base.{
  ℕ, ◌≡◌, is_eq_iff, refl, sym, ap, subst, ◌∙◌, Bool, true, false, not, ◌&&◌, and_iff, Option, none,
  some, List, [], ◌∷◌, All, if◌then◌else◌, ◌==◌, length,
}
use repo_guard.Base.Outcome.{either_branch, ok, >>=-eq-ok, require-then, ok-injective}
use repo_guard.Text.{codes, text_eq, contains, text_eq_iff}
use repo_guard.Text.Decode.{decode_utf8}
use repo_guard.Evidence.{text, binary, symlink, submodule, other, ContentKind-discrete, FileVersion}
use repo_guard.Collection.{Budget, check_deadline}
use repo_guard.Collection.Materialize.{
  Git, parse_blob_size, reserve_blob_bytes, Content, decoded_kind, kind_of_bytes, is_given,
  is_symlink, is_regular, take_blob, read_blob, classify_content, Key, content_cache_key, Cache,
  cached, content_of, text_content, is_text,
}

-- Text has its bytes, which decode and hold no NUL, and nothing else has bytes.
abbrev pub IsContent : Content → Type 0
IsContent (text, none) = ⊥
IsContent (text, some content) =
    (contains 0 content ≡ false) × (s : List ℕ) × (decode_utf8 content ≡ some s)
IsContent (kind, some content) = ⊥
IsContent (kind, none) = Unit

abbrev pub IsRead : Content × Option Budget → Type 0
IsRead r = IsContent r.0

pub kind_of_bytes-IsContent : (b : List ℕ) → IsContent (kind_of_bytes b)
kind_of_bytes-IsContent b = by_nul (contains 0 b) refl
  where
    by_decoded :
        (o : Option (List ℕ))
        → decode_utf8 b ≡ o
        → contains 0 b ≡ false
        → IsContent (decoded_kind b o)
    by_decoded none e n = tt
    by_decoded (some s) e n = (n, s, e)

    by_nul :
        (t : Bool)
        → contains 0 b ≡ t
        → IsContent (if t then (binary, none) else decoded_kind b (decode_utf8 b))
    by_nul true e = tt
    by_nul false e = by_decoded (decode_utf8 b) refl e

pub take_blob-IsRead :
    (git : Git) (oid : List ℕ) (size : ℕ) (budget : Option Budget) (r : Content × Option Budget)
    → take_blob git oid size budget ≡ ok r
    → IsRead r
take_blob-IsRead git oid size budget r h =
    let (found, _, h1) = >>=-eq-ok (git.blob oid (some size) budget) _ h in
    let (_, h2) = (require-then (length found.0 == size) _ _ _).0 h1 in
    subst IsRead (ok-injective h2) (kind_of_bytes-IsContent found.0)

pub read_blob-IsRead :
    (git : Git) (mode oid : List ℕ) (budget : Option Budget) (r : Content × Option Budget)
    → read_blob git mode oid budget ≡ ok r
    → IsRead r
read_blob-IsRead git mode oid none r h =
    let (found, _, h1) = >>=-eq-ok (git.blob oid none none) _ h in
    subst IsRead (ok-injective h1) (kind_of_bytes-IsContent found.0)
read_blob-IsRead git mode oid (some b) r h =
    let (measured, _, h1) = >>=-eq-ok (git.blob_size oid (some b)) _ h in
    let (size, _, h2) = >>=-eq-ok (parse_blob_size measured.0) _ h1 in
    let (reserved, _, h3) = >>=-eq-ok (reserve_blob_bytes measured.1 size) _ h2 in
    either_branch IsRead (is_symlink mode) _ _ r (λ e. subst IsRead (ok-injective e) tt)
      (take_blob-IsRead git oid size reserved r) h3

pub classify_content-IsRead :
    (git : Git) (mode oid : List ℕ) (budget : Option Budget) (r : Content × Option Budget)
    → classify_content git mode oid budget ≡ ok r
    → IsRead r
unfolding classify_content
classify_content-IsRead git mode oid budget r h =
    let (checked, _, h1) = >>=-eq-ok (check_deadline budget) _ h in
    either_branch IsRead (is_symlink mode && not (is_given checked)) _ _ r
      (λ e. subst IsRead (ok-injective e) tt)
      (either_branch IsRead (text_eq mode (codes "160000")) _ _ r
        (λ e. subst IsRead (ok-injective e) tt)
        (either_branch IsRead (not (is_symlink mode) && not (is_regular mode)) _ _ r
          (λ e. subst IsRead (ok-injective e) tt) (read_blob-IsRead git mode oid checked r)))
      h1

abbrev pub IsEntry : Key × Content → Type 0
IsEntry e = IsContent e.1

-- Every content of a cache is one.
abbrev pub AreContents : Cache → Type 0
AreContents = All IsEntry

-- What a cache holds, another holds too.
abbrev pub Grows : Cache → Cache → Type 0
Grows a b = (k : Key) (c : Content) → cached k a ≡ some c → cached k b ≡ some c

-- The cache holds the content of the version.
abbrev pub IsStored : Cache → Option FileVersion → Type 0
IsStored cache none = Unit
IsStored cache (some v) =
    (c : Content) × (cached (content_cache_key v.mode v.oid) cache ≡ some c)
    × (v.content_kind ≡ c.0)

pub some-injective : {A : Type 0} {a b : A} → ◌≡◌ {A = Option A} (some a) (some b) → a ≡ b
some-injective h = cc

pub cached-IsContent :
    (k : Key) (cache : Cache) (c : Content)
    → AreContents cache
    → cached k cache ≡ some c
    → IsContent c
unfolding cached
cached-IsContent k [] c a h = cc
cached-IsContent k ((l, d) ∷ cache) c (first, rest) h =
    by_test (text_eq k.0 l.0 && text_eq k.1 l.1) (cached-IsContent k cache c rest) h
  where
    by_test :
        (t : Bool)
        → (cached k cache ≡ some c → IsContent c)
        → (if t then some d else cached k cache) ≡ some c
        → IsContent c
    by_test true f h = subst IsContent (some-injective h) first
    by_test false f h = f h

pub cached-here : (k : Key) (c : Content) (cache : Cache) → cached k ((k, c) ∷ cache) ≡ some c
unfolding cached
cached-here k c cache =
    ap (λ t. if t then some c else cached k cache)
      ((and_iff _ _).1 ((text_eq_iff k.0 k.0).1 refl, (text_eq_iff k.1 k.1).1 refl))

-- What is put under a key that was missing hides nothing.
pub Grows-fresh :
    (l : Key) (d : Content) (cache : Cache) → cached l cache ≡ none → Grows cache ((l, d) ∷ cache)
unfolding cached
Grows-fresh l d cache fresh k c h = by_test (text_eq k.0 l.0 && text_eq k.1 l.1) refl
  where
    by_test :
        (t : Bool)
        → (text_eq k.0 l.0 && text_eq k.1 l.1) ≡ t
        → (if t then some d else cached k cache) ≡ some c
    by_test false e = h
    by_test true e =
        let (a, b) = (and_iff (text_eq k.0 l.0) (text_eq k.1 l.1)).0 e in
        let p = (text_eq_iff k.0 l.0).0 a in
        let q = (text_eq_iff k.1 l.1).0 b in
        let missing =
          subst (λ x. cached (x, k.1) cache ≡ none) (sym p)
            (subst (λ y. cached (l.0, y) cache ≡ none) (sym q) fresh) in
        cc

pub IsStored-Grows :
    (a b : Cache) (v : Option FileVersion) → Grows a b → IsStored a v → IsStored b v
IsStored-Grows a b none g s = tt
IsStored-Grows a b (some v) g (c, e, k) = (c, g (content_cache_key v.mode v.oid) c e, k)

-- A text that is stored is found.
pub text_content-found :
    (cache : Cache) (v : Option FileVersion)
    → AreContents cache
    → IsStored cache v
    → is_text v ≡ true
    → (b : List ℕ) × (text_content v cache ≡ ok b)
unfolding text_content
text_content-found cache none a s t = ([], refl)
text_content-found cache (some v) a (c, e, k) t =
    let kind = sym k ∙ (is_eq_iff ContentKind-discrete v.content_kind text).0 t in
    let (b, f) =
      by_content c kind (cached-IsContent (content_cache_key v.mode v.oid) cache c a e) in
    (b, ap content_of e ∙ f)
  where
    by_content :
        (c : Content) → c.0 ≡ text → IsContent c → (b : List ℕ) × (content_of (some c) ≡ ok b)
    by_content (text, some b) k i = (b, refl)
    by_content (text, none) k i = elim i [ ]
    by_content (binary, o) k i = cc
    by_content (symlink, o) k i = cc
    by_content (submodule, o) k i = cc
    by_content (other, o) k i = cc
