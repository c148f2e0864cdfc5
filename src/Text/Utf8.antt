-- ===== src/Text/Utf8.antt =====
-- `str.encode("utf-8")`. A `str` may hold surrogates, which have no encoding.
use repo_guard.Base.{
  ℕ, ◌+◌, ◌/◌, ◌%◌, Bool, not, ◌&&◌, List, [], ◌∷◌, ◌++◌, ltb, leb, all, if◌then◌else◌,
}

-- The bytes of one code point.
abbrev pub encode_char : ℕ → List ℕ
encode_char c =
    if ltb c 0x80
    then c ∷ []
    else if ltb c 0x800
    then (0xC0 + c / 64) ∷ (0x80 + c % 64) ∷ []
    else if ltb c 0x10000
    then (0xE0 + c / 4096) ∷ (0x80 + c / 64 % 64) ∷ (0x80 + c % 64) ∷ []
    else (0xF0 + c / 262144) ∷ (0x80 + c / 4096 % 64) ∷ (0x80 + c / 64 % 64) ∷ (0x80 + c % 64) ∷ []

-- Every code point but the surrogates has an encoding.
abbrev pub encodes_char : ℕ → Bool
encodes_char c = not (leb 0xD800 c && leb c 0xDFFF)

-- Whether `s.encode("utf-8")` returns.
abbrev pub encodes : List ℕ → Bool
encodes = all encodes_char

-- What it returns then.
unfoldable pub encode_utf8 : List ℕ → List ℕ
encode_utf8 [] = []
encode_utf8 (c ∷ s) = encode_char c ++ encode_utf8 s
