-- ===== src/Agent/Prompt/Redacted.antt =====
-- The lines that src/repoguard/_prompt.py redacts.
use repo_guard.Base.{
  ℕ, ◌≤◌, ◌≡◌, refl, sym, ap, subst, ◌∙◌, ◌⊎◌, ◌↔◌, inl, inr, Bool, true, false, ◌&&◌, Option, none,
  some, List, [], ◌∷◌, map, leb, any, arith, In, In-append, Bool-cases, and_iff, or_iff,
}
use repo_guard.Base.Order.Sort.{sorted-In}
use repo_guard.Text.{text_eq, text_eq_iff}
use repo_guard.Evidence.{FileVersion}
use repo_guard.Review.{EvidenceReference, Finding}
use repo_guard.Review.Canonical.{references}
use repo_guard.Agent.Prompt.{
  Range, Redactions, same_key, add_range, new_range, add_new_range, add_references, is_key_rule,
  add_findings, compare_ranges, sort_entry, private_key_redactions, get_ranges, is_redacted,
}

same_key_iff :
    (path oid : List ℕ) (key : List ℕ × List ℕ)
    → (same_key path oid key ≡ true) ↔ ((path ≡ key.0) × (oid ≡ key.1))
same_key_iff path oid key = (
  λ h. ground (arith, text_eq_iff path key.0, text_eq_iff oid key.1),
  λ h.
      (and_iff (text_eq path key.0) (text_eq oid key.1)).1
        ((text_eq_iff path key.0).1 h.0, (text_eq_iff oid key.1).1 h.1),
)

-- The one range that is added, under its own key.
abbrev Added : List ℕ → List ℕ → List ℕ → List ℕ → Range → Range → Type 0
Added p o path oid r g = (path ≡ p) × (oid ≡ o) × (g ≡ r)

clash : {b : Bool} → b ≡ true → b ≡ false → ⊥
clash h k = cc

-- The ranges of one key, after one more is added.
add_range-Added :
    (p o path oid : List ℕ) (r g : Range) (d : Redactions)
    → In g (get_ranges p o (add_range path oid r d))
      ↔ (In g (get_ranges p o d) ⊎ Added p o path oid r g)
unfolding add_range get_ranges
add_range-Added p o path oid r g [] = elim (Bool-cases (same_key p o (path, oid))) [
  | inl same ↦
      let (e, f) = (same_key_iff p o (path, oid)).0 same in
      rw (get_ranges, same)
        (
          λ h. elim h [ inl k ↦ inr (sym e, sym f, k) | inr m ↦ absurd m.1 ],
          λ h. elim h [ inl m ↦ absurd m.1 | inr k ↦ inl k.2 ],
        )
  | inr apart ↦
      rw (get_ranges, apart)
        (
          λ h. absurd h.1,
          λ h. elim h [
            | inl m ↦ m
            | inr k ↦ absurd (clash ((same_key_iff p o (path, oid)).1 (sym k.0, sym k.1)) apart)
          ],
        )
]
add_range-Added p o path oid r g (entry ∷ d) =
    let here = same_key_iff path oid entry.0 in
    let asked = same_key_iff p o entry.0 in
    elim (Bool-cases (same_key path oid entry.0)) [
      | inl same ↦ elim (Bool-cases (same_key p o entry.0)) [
        | inl same' ↦
            let (e, f) = here.0 same in
            let (e', f') = asked.0 same' in
            rw (add_range, get_ranges, same, same')
              (
                λ h. elim ((In-append g entry.1 (r ∷ [])).0 h) [
                  | inl m ↦ inl m
                  | inr k ↦ elim k [ inl q ↦ inr (e ∙ sym e', f ∙ sym f', q) | inr m ↦ absurd m.1 ]
                ],
                λ h.
                    (In-append g entry.1 (r ∷ [])).1
                      (elim h [ inl m ↦ inl m | inr k ↦ inr (inl k.2) ]),
              )
        | inr apart' ↦
            let (e, f) = here.0 same in
            rw (add_range, get_ranges, same, apart')
              (
                λ h. inl h,
                λ h. elim h [
                  | inl m ↦ m
                  | inr k ↦ absurd (clash (asked.1 (sym k.0 ∙ e, sym k.1 ∙ f)) apart')
                ],
              )
      ]
      | inr apart ↦ elim (Bool-cases (same_key p o entry.0)) [
        | inl same' ↦
            let (e, f) = asked.0 same' in
            rw (add_range, get_ranges, apart, same')
              (
                λ h. inl h,
                λ h. elim h [
                  | inl m ↦ m
                  | inr k ↦ absurd (clash (here.1 (k.0 ∙ e, k.1 ∙ f)) apart)
                ],
              )
        | inr apart' ↦
            rw (add_range, get_ranges, apart, apart') (add_range-Added p o path oid r g d)
      ]
    ]

-- A reference to these lines of the new side of a file version.
abbrev pub IsNewRange : List ℕ → List ℕ → Range → EvidenceReference → Type 0
IsNewRange p o g r = (r.path ≡ p) × (r.oid ≡ o) × (new_range r ≡ some g)

added_reference :
    (p o : List ℕ) (g : Range) (r : EvidenceReference) (n : Option Range) (d : Redactions)
    → In g (get_ranges p o (add_new_range r n d))
      ↔ (In g (get_ranges p o d) ⊎ ((r.path ≡ p) × (r.oid ≡ o) × (n ≡ some g)))
added_reference p o g r none d = (λ h. inl h, λ h. elim h [ inl m ↦ m | inr k ↦ absurd (cc) ])
added_reference p o g r (some n) d =
    let step = add_range-Added p o r.path r.oid n g d in
    (
      λ h. elim (step.0 h) [
        | inl m ↦ inl m
        | inr k ↦ inr (k.0, k.1, ap (λ (x : Range). some x) (sym k.2))
      ],
      λ h. elim h [
        | inl m ↦ step.1 (inl m)
        | inr k ↦ let e : g ≡ n = cc in step.1 (inr (k.0, k.1, e))
      ],
    )

abbrev SomeReference : List ℕ → List ℕ → Range → List EvidenceReference → Type 0
SomeReference p o g rs = (r : EvidenceReference) × In r rs × IsNewRange p o g r

added_references :
    (p o : List ℕ) (g : Range) (rs : List EvidenceReference) (d : Redactions)
    → In g (get_ranges p o (add_references rs d))
      ↔ (In g (get_ranges p o d) ⊎ SomeReference p o g rs)
unfolding add_references
added_references p o g [] d = (λ h. inl h, λ h. elim h [ inl m ↦ m | inr k ↦ absurd k.1.1 ])
added_references p o g (r ∷ rs) d =
    let ih = added_references p o g rs (add_new_range r (new_range r) d) in
    let step = added_reference p o g r (new_range r) d in
    (
      λ h. elim (ih.0 h) [
        | inl m ↦ elim (step.0 m) [ inl k ↦ inl k | inr k ↦ inr (r, inl refl, k) ]
        | inr (x, i, k) ↦ inr (x, inr i, k)
      ],
      λ h. elim h [
        | inl m ↦ ih.1 (inl (step.1 (inl m)))
        | inr (x, i, k) ↦ elim i [
          | inl e ↦ ih.1 (inl (step.1 (inr (subst (IsNewRange p o g) e k))))
          | inr j ↦ ih.1 (inr (x, j, k))
        ]
      ],
    )

-- A finding of a private key on these lines.
pub record IsKeyRange (p o : List ℕ) (g : Range) (f : Finding) : Type 0 where
  pub rule : is_key_rule f.rule_id ≡ true
  pub reference : EvidenceReference
  pub listed : In reference (references f)
  pub range : IsNewRange p o g reference

abbrev pub SomeKey : List ℕ → List ℕ → Range → List Finding → Type 0
SomeKey p o g fs = (f : Finding) × In f fs × IsKeyRange p o g f

added_findings :
    (p o : List ℕ) (g : Range) (fs : List Finding) (d : Redactions)
    → In g (get_ranges p o (add_findings fs d)) ↔ (In g (get_ranges p o d) ⊎ SomeKey p o g fs)
unfolding add_findings
added_findings p o g [] d = (λ h. inl h, λ h. elim h [ inl m ↦ m | inr k ↦ absurd k.1.1 ])
added_findings p o g (f ∷ fs) d = elim (Bool-cases (is_key_rule f.rule_id)) [
  | inl key ↦
      let ih = added_findings p o g fs (add_references (references f) d) in
      let step = added_references p o g (references f) d in
      rw (add_findings, key)
        (
          λ h. elim (ih.0 h) [
            | inl m ↦ elim (step.0 m) [
              | inl k ↦ inl k
              | inr (r, i, k) ↦
                  inr (f, inl refl, record { rule = key; reference = r; listed = i; range = k })
            ]
            | inr (x, i, k) ↦ inr (x, inr i, k)
          ],
          λ h. elim h [
            | inl m ↦ ih.1 (inl (step.1 (inl m)))
            | inr (x, i, k) ↦ elim i [
              | inl e ↦
                  let k' = subst (IsKeyRange p o g) e k in
                  ih.1 (inl (step.1 (inr (k'.reference, k'.listed, k'.range))))
              | inr j ↦ ih.1 (inr (x, j, k))
            ]
          ],
        )
  | inr not_key ↦
      let ih = added_findings p o g fs d in
      rw (add_findings, not_key)
        (
          λ h. elim (ih.0 h) [ inl m ↦ inl m | inr (x, i, k) ↦ inr (x, inr i, k) ],
          λ h. elim h [
            | inl m ↦ ih.1 (inl m)
            | inr (x, i, k) ↦ elim i [
              | inl e ↦ absurd (clash (subst (IsKeyRange p o g) e k).rule not_key)
              | inr j ↦ ih.1 (inr (x, j, k))
            ]
          ],
        )
]

sorted_ranges :
    (p o : List ℕ) (g : Range) (d : Redactions)
    → In g (get_ranges p o (map sort_entry d)) ↔ In g (get_ranges p o d)
unfolding get_ranges
sorted_ranges p o g [] = (λ h. h, λ h. h)
sorted_ranges p o g (entry ∷ d) = elim (Bool-cases (same_key p o entry.0)) [
  | inl same ↦ rw (get_ranges, same) (sorted-In compare_ranges g entry.1)
  | inr apart ↦ rw (get_ranges, apart) (sorted_ranges p o g d)
]

any_range :
    (n : ℕ) (rs : List Range)
    → (any (λ r. leb r.0 n && leb n r.1) rs ≡ true)
      ↔ ((g : Range) × In g rs × (g.0 ≤ n) × (n ≤ g.1))
any_range n [] = (λ h. cc, λ h. absurd h.1.1)
any_range n (r ∷ rs) =
    let ih = any_range n rs in
    let split = or_iff (leb r.0 n && leb n r.1) (any (λ s. leb s.0 n && leb n s.1) rs) in
    (
      λ h. elim (split.0 h) [
        | inl here ↦ (r, inl refl, (ground arith), (ground arith))
        | inr later ↦ let (g, i, low, high) = ih.0 later in (g, inr i, low, high)
      ],
      λ h. split.1 (elim h.1 [
        | inl e ↦
            let k : (r.0 ≤ n) × (n ≤ r.1) =
              subst (λ (x : Range). (x.0 ≤ n) × (n ≤ x.1)) e (h.2, h.3) in
            inl (ground arith)
        | inr j ↦ inr (ih.1 (h.0, j, h.2, h.3))
      ]),
    )

-- The lines that a private key was found on.
abbrev pub IsKeyLine : FileVersion → ℕ → List Finding → Type 0
IsKeyLine version n fs = (g : Range) × SomeKey version.path version.oid g fs × (g.0 ≤ n) × (n ≤ g.1)

no_range : (p o : List ℕ) (g : Range) → In g (get_ranges p o []) → ⊥
unfolding get_ranges
no_range p o g m = m.1

-- A line number of a file version is redacted exactly when one of the findings is of the
-- private-key rule and has a reference to the new side of that path and object id with a range that
-- holds the number.
pub is_redacted_iff :
    (version : FileVersion) (n : ℕ) (fs : List Finding)
    → (is_redacted version n (private_key_redactions fs) ≡ true) ↔ IsKeyLine version n fs
unfolding is_redacted private_key_redactions
is_redacted_iff version n fs =
    let p = version.path in
    let o = version.oid in
    let d = add_findings fs [] in
    let ranges = any_range n (get_ranges p o (map sort_entry d)) in
    (
      λ h.
          let (g, i, low, high) = ranges.0 h in
          elim ((added_findings p o g fs []).0 ((sorted_ranges p o g d).0 i)) [
            | inl m ↦ absurd (no_range p o g m)
            | inr key ↦ (g, key, low, high)
          ],
      λ h.
          ranges.1 (
            h.0,
            (sorted_ranges p o h.0 d).1 ((added_findings p o h.0 fs []).1 (inr h.1)),
            h.2,
            h.3,
          ),
    )
