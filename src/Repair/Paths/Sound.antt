-- ===== src/Repair/Paths/Sound.antt =====
-- What `_validate_repository_path` accepts (src/repoguard/_repair_paths.py).
use repo_guard.Base.{
  ℕ, ◌≤◌, ◌≡◌, refl, ◌↔◌, ◌≢◌, Bool, true, false, not, ◌&&◌, ◌||◌, List, [], ◌∷◌, arith, length,
  ltb, All, any,
}
use repo_guard.Base.Outcome.{ok}
use repo_guard.Text.{codes, text_eq, text_eq_iff, starts_with, encodes, encode_utf8, contains}
use repo_guard.Repair.Unicode.{Unicode}
use repo_guard.Repair.Paths.{
  require_utf8, is_empty, strip_spaces, split_on, is_unsafe_component, validate_repository_path,
}

-- A component that cannot leave its directory, name it, or enter Git's own.
pub record IsComponent (u : Unicode) (c : List ℕ) : Type 0 where
  pub named : c ≢ []
  pub not_here : c ≢ codes "."
  pub not_up : c ≢ codes ".."
  pub not_git : u.casefold c ≢ codes ".git"
  pub size : length (encode_utf8 c) ≤ 255

pub record IsRepositoryPath (u : Unicode) (value : List ℕ) : Type 0 where
  pub encodable : encodes value ≡ true
  pub some_text : value ≢ []
  pub size : length (encode_utf8 value) ≤ 1024
  pub relative : starts_with (codes "/") value ≡ false
  pub no_backslash : contains b'\\' value ≡ false
  pub no_outer_space : value ≡ strip_spaces value
  pub printable : any u.is_other value ≡ false
  pub components : All (IsComponent u) (split_on b'/' value)

IsComponent-iff : (u : Unicode) (c : List ℕ) → (is_unsafe_component u c ≡ false) ↔ IsComponent u c
unfolding is_unsafe_component
IsComponent-iff u c = (
  λ h. record {
    named = λ e. ground arith;
    not_here = λ e. ground (arith, (text_eq_iff c (codes ".")).1 e);
    not_up = λ e. ground (arith, (text_eq_iff c (codes "..")).1 e);
    not_git = λ e. ground (arith, (text_eq_iff (u.casefold c) (codes ".git")).1 e);
    size = ground arith;
  },
  λ v. ground (
    arith,
    v.named,
    v.not_here,
    v.not_up,
    v.not_git,
    v.size,
    text_eq_iff c (codes "."),
    text_eq_iff c (codes ".."),
    text_eq_iff (u.casefold c) (codes ".git"),
  ),
)

components_iff :
    (u : Unicode) (cs : List (List ℕ))
    → (any (is_unsafe_component u) cs ≡ false) ↔ All (IsComponent u) cs
components_iff u [] = (λ h. tt, λ h. refl)
components_iff u (c ∷ cs) =
    let one = IsComponent-iff u c in
    let rest = components_iff u cs in
    (λ h. (one.0 (ground arith), rest.0 (ground arith)), λ h. ground (arith, one.1 h.0, rest.1 h.1))

encode-empty : (s : List ℕ) → is_empty (encode_utf8 s) ≡ is_empty s
unfolding encode_utf8
encode-empty [] = refl
encode-empty (c ∷ s) = ground arith

abbrev checks : Unicode → List ℕ → Bool
checks u value =
    encodes value
    && not (
        is_empty (encode_utf8 value)
        || ltb 1024 (length (encode_utf8 value))
        || starts_with (codes "/") value
        || contains b'\\' value)
    && text_eq value (strip_spaces value)
    && not (any u.is_other value)
    && not (any (is_unsafe_component u) (split_on b'/' value))

validate-checks :
    (u : Unicode) (value : List ℕ)
    → (validate_repository_path u value ≡ ok value) ↔ (checks u value ≡ true)
unfolding validate_repository_path require_utf8
validate-checks u value = (λ h. ground arith, λ h. ground arith)

-- The function returns its argument or raises.
pub validate_returns :
    (u : Unicode) (value path : List ℕ) → validate_repository_path u value ≡ ok path → path ≡ value
unfolding validate_repository_path require_utf8
validate_returns u value path h = ground arith

-- `_validate_repository_path` returns its argument exactly for the safe paths: encodable texts of 1
-- to 1024 bytes, relative, with no backslash, outer space or control character, whose components
-- are named, are none of `.`, `..` and Git's directory in any case, and have 255 bytes at most.
pub validate_path_iff :
    (u : Unicode) (value : List ℕ)
    → (validate_repository_path u value ≡ ok value) ↔ IsRepositoryPath u value
validate_path_iff u value =
    let through = validate-checks u value in
    let parts = components_iff u (split_on b'/' value) in
    (
      λ h.
          let c = through.0 h in
          record {
            encodable = ground arith;
            some_text = λ e. ground (arith, encode-empty value);
            size = ground arith;
            relative = ground arith;
            no_backslash = ground arith;
            no_outer_space = (text_eq_iff value (strip_spaces value)).0 (ground arith);
            printable = ground arith;
            components = parts.0 (ground arith);
          },
      λ v. through.1 (
          ground (
            arith,
            v.encodable,
            v.some_text,
            v.size,
            v.relative,
            v.no_backslash,
            v.printable,
            (text_eq_iff value (strip_spaces value)).1 v.no_outer_space,
            encode-empty value,
            parts.1 v.components,
          )),
    )
