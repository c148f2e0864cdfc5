-- ===== src/Text/Decode.antt =====
-- `bytes.decode("utf-8")`, which refuses what is not the encoding of a text.
use repo_guard.Base.{
  ℕ, zero, suc, ◌+◌, ◌-◌, ◌*◌, ◌≤◌, ◌<◌, ◌≡◌, refl, ◌⊎◌, inl, inr, Bool, true, false, ◌&&◌, Option,
  none, some, List, [], ◌∷◌, ltb, leb, ltb, arith, and_iff, leb_iff, subst, ap, if◌then◌else◌,
}
use repo_guard.Text.Utf8.{encodes, encodes_char}

-- The rest of the encoding of one character: how many bytes follow, what they stand behind, and
-- the range of the next one.
pub record Pending : Type 0 where
  pub further : ℕ
  pub value : ℕ
  pub lowest : ℕ
  pub highest : ℕ

-- What the first byte of a character says.
pub data Lead : Type 0 where
  single : ℕ → Lead
  starts : Pending → Lead
  bad_lead : Lead

abbrev pub pend : ℕ → ℕ → ℕ → ℕ → Lead
pend further value lowest highest =
    starts (record { further = further; value = value; lowest = lowest; highest = highest })

unfoldable pub lead_byte : ℕ → Lead
lead_byte b =
    if ltb b 0x80
    then single b
    else if ltb b 0xC2
    then bad_lead
    else if ltb b 0xE0
    then pend 0 (b - 0xC0) 0x80 0xBF
    else if ltb b 0xE1
    then pend 1 0 0xA0 0xBF
    else if ltb b 0xED
    then pend 1 (b - 0xE0) 0x80 0xBF
    else if ltb b 0xEE
    then pend 1 0xD 0x80 0x9F
    else if ltb b 0xF0
    then pend 1 (b - 0xE0) 0x80 0xBF
    else if ltb b 0xF1
    then pend 2 0 0x90 0xBF
    else if ltb b 0xF4
    then pend 2 (b - 0xF0) 0x80 0xBF
    else if ltb b 0xF5
    then pend 2 4 0x80 0x8F
    else bad_lead

abbrev with_char : ℕ → Option (List ℕ) → Option (List ℕ)
with_char c none = none
with_char c (some s) = some (c ∷ s)

abbrev pub joined_value : Pending → ℕ → ℕ
joined_value p b = p.value * 64 + (b - 0x80)

-- The bytes behind the first one of a character.
abbrev pub next_pending : Pending → ℕ → ℕ → Pending
next_pending p further b = record {
  further = further;
  value = joined_value p b;
  lowest = 0x80;
  highest = 0xBF;
}

-- From the middle of a character, or between two.
unfoldable pub decode_from : Option Pending → List ℕ → Option (List ℕ)
unfolding lead_byte
decode_from none [] = some []
decode_from (some p) [] = none
decode_from none (b ∷ bytes) = elim (lead_byte b) [
  | single c ↦ with_char c (decode_from none bytes)
  | starts p ↦ decode_from (some p) bytes
  | bad_lead ↦ none
]
decode_from (some p) (b ∷ bytes) = elim (leb p.lowest b && leb b p.highest) [
  | false ↦ none
  | true ↦ elim p.further [
    | zero ↦ with_char (joined_value p b) (decode_from none bytes)
    | suc further ↦ decode_from (some (next_pending p further b)) bytes
  ]
]

unfoldable pub decode_utf8 : List ℕ → Option (List ℕ)
unfolding decode_from
decode_utf8 = decode_from none

-- 64 ^ further, for as many bytes as a character has
abbrev weight : ℕ → ℕ
weight zero = 1
weight (suc zero) = 64
weight (suc (suc n)) = 4096

-- Whatever bytes follow, the character is no surrogate.
record IsSafe (p : Pending) : Type 0 where
  starts_high : 0x80 ≤ p.lowest
  short : p.further ≤ 2
  avoids :
      ((p.value * 64 + (p.highest - 0x80) + 1) * weight p.further ≤ 0xD800)
      ⊎ (0xDFFF < (p.value * 64 + (p.lowest - 0x80)) * weight p.further)

abbrev IsGoodLead : Lead → Type 0
IsGoodLead (single c) = encodes_char c ≡ true
IsGoodLead (starts p) = IsSafe p
IsGoodLead bad_lead = Unit

lead_byte-IsGoodLead : (b : ℕ) → IsGoodLead (lead_byte b)
unfolding lead_byte
lead_byte-IsGoodLead b = ground arith

next_pending-IsSafe :
    (p : Pending) (further b : ℕ)
    → IsSafe p
    → p.further ≡ suc further
    → p.lowest ≤ b
    → b ≤ p.highest
    → IsSafe (next_pending p further b)
next_pending-IsSafe p zero b safe f l h =
    let w = ap weight f in
    let short = safe.short in
    let high = safe.starts_high in
    record {
      starts_high = omega arith;
      short = omega arith;
      avoids = elim safe.avoids [
        | inl below ↦ inl (
            omega
              (arith, subst (λ k. (p.value * 64 + (p.highest - 0x80) + 1) * k ≤ 0xD800) w below))
        | inr above ↦
            inr
              (omega (arith, subst (λ k. 0xDFFF < (p.value * 64 + (p.lowest - 0x80)) * k) w above))
      ];
    }
next_pending-IsSafe p (suc zero) b safe f l h =
    let w = ap weight f in
    let short = safe.short in
    let high = safe.starts_high in
    record {
      starts_high = omega arith;
      short = omega arith;
      avoids = elim safe.avoids [
        | inl below ↦ inl (
            omega
              (arith, subst (λ k. (p.value * 64 + (p.highest - 0x80) + 1) * k ≤ 0xD800) w below))
        | inr above ↦
            inr
              (omega (arith, subst (λ k. 0xDFFF < (p.value * 64 + (p.lowest - 0x80)) * k) w above))
      ];
    }
next_pending-IsSafe p (suc (suc n)) b safe f l h =
    let short = safe.short in absurd (omega (arith, f))

last-encodes :
    (p : Pending) (b : ℕ)
    → IsSafe p
    → p.further ≡ 0
    → p.lowest ≤ b
    → b ≤ p.highest
    → encodes_char (joined_value p b) ≡ true
last-encodes p b safe f l h =
    let w = ap weight f in
    let high = safe.starts_high in
    elim safe.avoids [
      | inl below ↦
          let k = subst (λ k. (p.value * 64 + (p.highest - 0x80) + 1) * k ≤ 0xD800) w below in
          ground arith
      | inr above ↦
          let k = subst (λ k. 0xDFFF < (p.value * 64 + (p.lowest - 0x80)) * k) w above in
          ground arith
    ]

with_char-encodes :
    (c : ℕ) (rest : Option (List ℕ)) (s : List ℕ)
    → encodes_char c ≡ true
    → ((t : List ℕ) → rest ≡ some t → encodes t ≡ true)
    → with_char c rest ≡ some s
    → encodes s ≡ true
with_char-encodes c none s g ih h = cc
with_char-encodes c (some t) [] g ih h = cc
with_char-encodes c (some t) (d ∷ s) g ih h = ground (arith, ih t refl)

abbrev IsSafeIfGiven : Option Pending → Type 0
IsSafeIfGiven none = Unit
IsSafeIfGiven (some p) = IsSafe p

abbrev EncodesBehind : List ℕ → Type 0
EncodesBehind bytes =
    (state : Option Pending) (t : List ℕ)
    → IsSafeIfGiven state
    → decode_from state bytes ≡ some t
    → encodes t ≡ true

lead-encodes :
    (lead : Lead) (bytes s : List ℕ)
    → IsGoodLead lead
    → EncodesBehind bytes
    → elim lead [
      | single c ↦ with_char c (decode_from none bytes)
      | starts p ↦ decode_from (some p) bytes
      | bad_lead ↦ none
    ]
      ≡ some s
    → encodes s ≡ true
lead-encodes (single c) bytes s good ih h =
    with_char-encodes c (decode_from none bytes) s good (λ t. ih none t tt) h
lead-encodes (starts p) bytes s good ih h = ih (some p) s good h
lead-encodes bad_lead bytes s good ih h = cc

rest-encodes :
    (p : Pending) (b : ℕ) (bytes s : List ℕ)
    → IsSafe p
    → EncodesBehind bytes
    → (test : Bool) → (leb p.lowest b && leb b p.highest) ≡ test
    → (n : ℕ) → p.further ≡ n
    → elim test [
      | false ↦ none
      | true ↦ elim n [
        | zero ↦ with_char (joined_value p b) (decode_from none bytes)
        | suc further ↦ decode_from (some (next_pending p further b)) bytes
      ]
    ]
      ≡ some s
    → encodes s ≡ true
rest-encodes p b bytes s safe ih false t n f h = cc
rest-encodes p b bytes s safe ih true t zero f h =
    let (l, u) = (and_iff (leb p.lowest b) (leb b p.highest)).0 t in
    with_char-encodes (joined_value p b) (decode_from none bytes) s
      (last-encodes p b safe f ((leb_iff _ _).0 l) ((leb_iff _ _).0 u)) (λ t. ih none t tt) h
rest-encodes p b bytes s safe ih true t (suc further) f h =
    let (l, u) = (and_iff (leb p.lowest b) (leb b p.highest)).0 t in
    ih (some (next_pending p further b)) s
      (next_pending-IsSafe p further b safe f ((leb_iff _ _).0 l) ((leb_iff _ _).0 u)) h

decode_from-encodes :
    (state : Option Pending) (bytes s : List ℕ)
    → IsSafeIfGiven state
    → decode_from state bytes ≡ some s
    → encodes s ≡ true
unfolding decode_from
decode_from-encodes none [] [] safe h = refl
decode_from-encodes none [] (c ∷ s) safe h = cc
decode_from-encodes (some p) [] s safe h = cc
decode_from-encodes none (b ∷ bytes) s safe h =
    lead-encodes (lead_byte b) bytes s (lead_byte-IsGoodLead b)
      (λ state t safe'. decode_from-encodes state bytes t safe') h
decode_from-encodes (some p) (b ∷ bytes) s safe h =
    rest-encodes p b bytes s safe (λ state t safe'. decode_from-encodes state bytes t safe')
      (leb p.lowest b && leb b p.highest) refl p.further refl h

-- A text that has been decoded can be encoded.
pub decode_utf8-encodes : (bytes s : List ℕ) → decode_utf8 bytes ≡ some s → encodes s ≡ true
unfolding decode_utf8
decode_utf8-encodes bytes s h = decode_from-encodes none bytes s tt h
