-- ===== src/Agent/Characters.antt =====
-- The classes of characters that src/repoguard/_agent.py asks Python for.
use repo_guard.Base.{ℕ, Bool, ◌||◌, ◌&&◌, ◌==◌, leb}

abbrev between : ℕ → ℕ → ℕ → Bool
between first last c = leb first c && leb c last

-- str.isspace of one character, which `str.strip` removes
unfoldable pub is_space : ℕ → Bool
is_space c =
    between 0x09 0x0D c
    || between 0x1C 0x20 c
    || (c == 0x85)
    || (c == 0xA0)
    || (c == 0x1680)
    || between 0x2000 0x200A c
    || between 0x2028 0x2029 c
    || (c == 0x202F)
    || (c == 0x205F)
    || (c == 0x3000)

-- unicodedata.category(character) == "Cc"
unfoldable pub is_control : ℕ → Bool
is_control c = leb c 0x1F || between 0x7F 0x9F c
