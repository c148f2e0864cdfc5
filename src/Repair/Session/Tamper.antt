-- ===== src/Repair/Session/Tamper.antt =====
-- The links of the chain of events: what the digest of the last event fixes.
use repo_guard.Base.{
  ℕ, ℕ_discrete, zero, suc, ◌+◌, ◌≡◌, ◌≢◌, refl, sym, ap, ◌∙◌, subst, ◌⊎◌, inl, inr, Option, none,
  some, List, [], ◌∷◌, ◌++◌, arith, In, In-append, All, All-In,
}
use repo_guard.Base.Outcome.{ok, >>=-eq-ok, ok-injective}
use repo_guard.Text.{codes}
use repo_guard.Agent.Json.{json_object, Fields}
use repo_guard.Repair.Unicode.{Unicode}
use repo_guard.Repair.Session.Digests.{Hashing, domain_digest}
use repo_guard.Repair.Session.Step.{some_same}
use repo_guard.Repair.Session.Invariant.{load_event_chain-events}
use repo_guard.Repair.Session.Chain.{
  LoadedState, next_sequence, previous_sha256, load_event, load_events, load_event_chain,
}
use repo_guard.Repair.Session.Event.{EventFile, EventRecord, event_name}
use repo_guard.Repair.Session.Chain.Loaded.{IsHeader, load_event-inv, load_mapping-IsLoaded}

bytes-discrete : Discrete (List ℕ)
bytes-discrete = hlevel ℕ_discrete

-- The mapping of a file is what `loads` reads from its canonical bytes, which are the bytes of the
-- file: `_read_canonical_mapping` reads no other.
abbrev pub IsCanonical : (List ℕ → Option Fields) → Hashing → EventFile → Type 0
IsCanonical loads h file =
    (m : Fields) → file.content ≡ some m → loads (h.canonical_bytes (json_object m)) ≡ some m

-- A file of each chain, of different canonical bytes and of one event digest.
pub record Collision (h : Hashing) (xs ys : List EventFile) : Type 0 where
  pub one : EventFile
  pub other : EventFile
  pub one_listed : In one xs
  pub other_listed : In other ys
  pub one_mapping : Fields
  pub other_mapping : Fields
  pub one_read : one.content ≡ some one_mapping
  pub other_read : other.content ≡ some other_mapping
  pub bytes_differ :
      h.canonical_bytes (json_object one_mapping) ≢ h.canonical_bytes (json_object other_mapping)
  pub digests_agree :
      domain_digest h (codes "event") (json_object one_mapping)
      ≡ domain_digest h (codes "event") (json_object other_mapping)

-- A collision in the fronts of two chains is one in the chains.
Collision-append :
    (h : Hashing) (xs ys : List EventFile) (f g : EventFile)
    → Collision h xs ys
    → Collision h (xs ++ f ∷ []) (ys ++ g ∷ [])
Collision-append h xs ys f g c = record {
  one = c.one;
  other = c.other;
  one_listed = (In-append c.one xs (f ∷ [])).1 (inl c.one_listed);
  other_listed = (In-append c.other ys (g ∷ [])).1 (inl c.other_listed);
  one_mapping = c.one_mapping;
  other_mapping = c.other_mapping;
  one_read = c.one_read;
  other_read = c.other_read;
  bytes_differ = c.bytes_differ;
  digests_agree = c.digests_agree;
}

module _ (loads : List ℕ → Option Fields) (h : Hashing) (u : Unicode) (s : List ℕ) where
  -- The last file of a chain that loads, behind the others.
  record HasLast (previous : Option LoadedState) (files : List EventFile) (l : LoadedState)
      : Type 0 where
    front : List EventFile
    last : EventFile
    before : Option LoadedState
    splits : files ≡ front ++ last ∷ []
    front_loads : load_events h u s previous front ≡ ok before
    last_loads : load_event h u s before last ≡ ok l

  load_events-HasLast :
      (previous : Option LoadedState) (file : EventFile) (files : List EventFile) (l : LoadedState)
      → load_events h u s previous (file ∷ files) ≡ ok (some l)
      → HasLast previous (file ∷ files) l
  unfolding load_events
  load_events-HasLast previous file [] l loads =
      let (next, e, rest) = >>=-eq-ok (load_event h u s previous file) _ loads in
      record {
        front = [];
        last = file;
        before = previous;
        splits = refl;
        front_loads = refl;
        last_loads = e ∙ ap (λ x. ok x) (some_same next l (ok-injective rest));
      }
  load_events-HasLast previous file (g ∷ files) l loads =
      let (next, e, rest) = >>=-eq-ok (load_event h u s previous file) _ loads in
      let ih = load_events-HasLast (some next) g files l rest in
      record {
        front = file ∷ ih.front;
        last = ih.last;
        before = ih.before;
        splits = ap (λ xs. file ∷ xs) ih.splits;
        front_loads = rw e ih.front_loads;
        last_loads = ih.last_loads;
      }

  chain-HasLast :
      (files : List EventFile) (l : LoadedState)
      → load_events h u s none files ≡ ok (some l)
      → HasLast none files l
  unfolding load_events
  chain-HasLast [] l loads = cc
  chain-HasLast (file ∷ files) l loads = load_events-HasLast none file files l loads

  -- Only the empty chain leaves nothing.
  nothing_loaded : (files : List EventFile) → load_events h u s none files ≡ ok none → files ≡ []
  unfolding load_events
  nothing_loaded [] loads = refl
  nothing_loaded (file ∷ files) loads =
      let (next, _, rest) = >>=-eq-ok (load_event h u s none file) _ loads in
      absurd (something next files rest)
    where
      something :
          (p : LoadedState) (files : List EventFile)
          → load_events h u s (some p) files ≡ ok none
          → ⊥
      something p [] loads = cc
      something p (file ∷ files) loads =
          let (next, _, rest) = >>=-eq-ok (load_event h u s (some p) file) _ loads in
          something next files rest

  -- Two events of one mapping stand behind states of one number and one digest.
  same_place :
      (p q : Option LoadedState) (m : Fields) (e f : EventRecord)
      → IsHeader m (next_sequence p) (previous_sha256 p) e
      → IsHeader m (next_sequence q) (previous_sha256 q) f
      → (next_sequence p ≡ next_sequence q) × (previous_sha256 p ≡ previous_sha256 q)
  same_place p q m e f a b =
      (ok-injective (sym a.numbered ∙ b.numbered), ok-injective (sym a.linked ∙ b.linked))

  -- Files of the same canonical bytes have one mapping.
  mapping_same :
      (f g : EventFile) (a b : Fields)
      → IsCanonical loads h f
      → IsCanonical loads h g
      → f.content ≡ some a
      → g.content ≡ some b
      → h.canonical_bytes (json_object a) ≡ h.canonical_bytes (json_object b)
      → a ≡ b
  mapping_same f g a b x y p q e = fields_same (sym (x a p) ∙ ap loads e ∙ y b q)
    where
      fields_same : ◌≡◌ {A = Option Fields} (some a) (some b) → a ≡ b
      fields_same k = cc

  abbrev AreCanonical : List EventFile → Type 0
  AreCanonical xs = (f : EventFile) → In f xs → IsCanonical loads h f

  front-AreCanonical :
      (xs front : List EventFile) (last : EventFile)
      → xs ≡ front ++ last ∷ []
      → AreCanonical xs
      → AreCanonical front × IsCanonical loads h last
  front-AreCanonical xs front last e c = (
    λ f i. c f (subst (In f) (sym e) ((In-append f front (last ∷ [])).1 (inl i))),
    c last (subst (In last) (sym e) ((In-append last front (last ∷ [])).1 (inr (inl refl)))),
  )

  file_same :
      (f g : EventFile) {a b : Fields} {i j : ℕ}
      → f.content ≡ some a
      → g.content ≡ some b
      → a ≡ b
      → f.name ≡ event_name i
      → g.name ≡ event_name j
      → i ≡ j
      → f ≡ g
  file_same f g c d e n o k =
      let same_name = n ∙ ap event_name k ∙ sym o in
      let same_content = c ∙ ap (λ x. some x) e ∙ sym d in cc

  -- Chains of one digest are equal, up to a state and below it.
  abbrev DeterminesChain : LoadedState → LoadedState → Type 0
  DeterminesChain l m =
      (xs ys : List EventFile)
      → AreCanonical xs
      → AreCanonical ys
      → load_events h u s none xs ≡ ok (some l)
      → load_events h u s none ys ≡ ok (some m)
      → l.event_sha256 ≡ m.event_sha256
      → (xs ≡ ys) ⊎ Collision h xs ys

  fronts_same :
      (n : ℕ)
      → ((p q : LoadedState) → p.event_sequence + 1 ≡ n → DeterminesChain p q)
      → (p q : Option LoadedState) (xs ys : List EventFile) → AreCanonical xs
      → AreCanonical ys
      → load_events h u s none xs ≡ ok p
      → load_events h u s none ys ≡ ok q
      → next_sequence p ≡ n
      → next_sequence p ≡ next_sequence q
      → previous_sha256 p ≡ previous_sha256 q
      → (xs ≡ ys) ⊎ Collision h xs ys
  fronts_same n below none none xs ys v w a b i j d =
      inl (nothing_loaded xs a ∙ sym (nothing_loaded ys b))
  fronts_same n below none (some q) xs ys v w a b i j d = absurd (omega (arith, j))
  fronts_same n below (some p) none xs ys v w a b i j d = absurd (omega (arith, j))
  fronts_same n below (some p) (some q) xs ys v w a b i j d = below p q i xs ys v w a b d

  chains_same :
      (n : ℕ)
      → ((p q : LoadedState) → p.event_sequence + 1 ≡ n → DeterminesChain p q)
      → (l m : LoadedState) → l.event_sequence ≡ n
      → DeterminesChain l m
  chains_same n below l m is_n xs ys is_canonical_x is_canonical_y loads_x loads_y same =
      let x = chain-HasLast xs l loads_x in
      let y = chain-HasLast ys m loads_y in
      let (mx, content_x, name_x, reads_x) = load_event-inv h u s x.before x.last l x.last_loads in
      let (my, content_y, name_y, reads_y) = load_event-inv h u s y.before y.last m y.last_loads in
      let (ex, is_x) = load_mapping-IsLoaded h u s x.before mx l reads_x in
      let (ey, is_y) = load_mapping-IsLoaded h u s y.before my m reads_y in
      let (front_x, last_x) = front-AreCanonical xs x.front x.last x.splits is_canonical_x in
      let (front_y, last_y) = front-AreCanonical ys y.front y.last y.splits is_canonical_y in
      subst (λ f. (f ≡ ys) ⊎ Collision h f ys) (sym x.splits)
        (subst (λ g. ((x.front ++ x.last ∷ []) ≡ g) ⊎ Collision h (x.front ++ x.last ∷ []) g)
          (sym y.splits)
          (elim (bytes-discrete (h.canonical_bytes (json_object mx))
            (h.canonical_bytes (json_object my))) [
              | no differ ↦ inr (record {
                one = x.last;
                other = y.last;
                one_listed = (In-append x.last x.front (x.last ∷ [])).1 (inr (inl refl));
                other_listed = (In-append y.last y.front (y.last ∷ [])).1 (inr (inl refl));
                one_mapping = mx;
                other_mapping = my;
                one_read = content_x;
                other_read = content_y;
                bytes_differ = differ;
                digests_agree = sym is_x.digest_named ∙ same ∙ is_y.digest_named;
              })
              | yes equal ↦
                  let one =
                    mapping_same x.last y.last mx my last_x last_y content_x content_y equal in
                  let (number, digest) = same_place x.before y.before mx ex ey is_x.header (
                    subst (λ f. IsHeader f (next_sequence y.before) (previous_sha256 y.before) ey)
                      (sym one) is_y.header) in
                  let last_same =
                    file_same x.last y.last content_x content_y one name_x name_y number in
                  elim (fronts_same n below x.before y.before x.front y.front front_x front_y
                    x.front_loads y.front_loads (sym is_x.sequence_named ∙ is_n) number digest) [
                      | inr collision ↦
                          inr (Collision-append h x.front y.front x.last y.last collision)
                      | inl front_same ↦ inl (
                          ap (λ f. f ++ x.last ∷ []) front_same
                          ∙ ap (λ z. y.front ++ z ∷ []) last_same)
                    ]
            ]))

  -- By induction on the number of the last event.
  same_chain : (n : ℕ) (l m : LoadedState) → l.event_sequence ≡ n → DeterminesChain l m
  same_chain zero = chains_same zero (λ p q i. absurd (omega (arith, i)))
  same_chain (suc k) = chains_same (suc k) (λ p q i. same_chain k p q (omega (arith, i)))

-- When the mapping of every event file of two chains is what `loads` reads from its canonical
-- bytes, as `_read_canonical_mapping` makes sure, and both chains load for one session to states
-- with the same digest of the last event, then they are the same files with the same mappings, or a
-- file of the one and a file of the other have different canonical bytes and the same event digest.
pub event_sha256_fixes_chain :
    (loads : List ℕ → Option Fields) (h : Hashing) (u : Unicode) (s : List ℕ)
    (xs ys : List EventFile) (l m : LoadedState)
    → All (IsCanonical loads h) xs
    → All (IsCanonical loads h) ys
    → load_event_chain h u s xs ≡ ok l
    → load_event_chain h u s ys ≡ ok m
    → l.event_sha256 ≡ m.event_sha256
    → (xs ≡ ys) ⊎ Collision h xs ys
event_sha256_fixes_chain loads h u s xs ys l m canonical_x canonical_y loads_x loads_y same =
    same_chain loads h u s l.event_sequence l m refl xs ys
      (λ f i. All-In (IsCanonical loads h) f xs canonical_x i)
      (λ f i. All-In (IsCanonical loads h) f ys canonical_y i)
      (load_event_chain-events h u s xs l loads_x) (load_event_chain-events h u s ys m loads_y) same
