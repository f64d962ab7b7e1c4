-- ===== src/SourceGit.antt =====
-- internal/sourcegit/source.go: the names that a Git deployment is given by, and the archive of its
-- build context. A text is the list of its code points; a repository's is ASCII.
use mini_paa_s.Common.{
  ℕ, ◌+◌, Bool, true, false, ◌&&◌, ◌||◌, not, List, [], ◌∷◌, Option, none, some, leb, ltb, ◌==◌,
  if◌then◌else◌, codes, text_eq, has_prefix, has_suffix, has_part, has_code, trim_suffix,
  trim_space, split, join, replace_all, drop, length,
}
pub mod Paths
pub mod Inside
pub mod Stable
pub mod Branches
pub mod Repositories
pub mod Archive
mod Tests

abbrev pub is_upper : ℕ → Bool
is_upper c = leb b'A' c && leb c b'Z'

abbrev pub is_lower : ℕ → Bool
is_lower c = leb b'a' c && leb c b'z'

abbrev pub is_digit : ℕ → Bool
is_digit c = leb b'0' c && leb c b'9'

-- `strings.ToLower`, on ASCII
abbrev pub to_lower : List ℕ → List ℕ
to_lower [] = []
to_lower (c ∷ s) = (if is_upper c then c + 32 else c) ∷ to_lower s

-- `repositoryPart`, `^[A-Za-z0-9_.-]+$`
abbrev pub is_part_code : ℕ → Bool
is_part_code c = is_upper c || is_lower c || is_digit c || c == b'_' || c == b'.' || c == b'-'

abbrev pub all_part_codes : List ℕ → Bool
all_part_codes [] = true
all_part_codes (c ∷ s) = is_part_code c && all_part_codes s

abbrev pub matches_part : List ℕ → Bool
matches_part [] = false
matches_part (c ∷ s) = all_part_codes (c ∷ s)

-- The loop over the prefixes: the first that fits is cut off.
pub cut_prefix : List (List ℕ) → List ℕ → List ℕ
cut_prefix [] value = value
cut_prefix (p ∷ ps) value =
    let rest = cut_prefix ps value in
    if has_prefix (to_lower value) (to_lower p) then drop (length p) value else rest

abbrev pub github_prefixes : List (List ℕ)
github_prefixes =
    codes "https://github.com/"
    ∷ codes "http://github.com/"
    ∷ codes "git@github.com:"
    ∷ codes "ssh://git@github.com/"
    ∷ []

abbrev pub is_dot : List ℕ → Bool
is_dot s = text_eq s (codes ".")

abbrev pub is_dot_dot : List ℕ → Bool
is_dot_dot s = text_eq s (codes "..")

-- The test of the parts; `none` is `ErrGitRepositoryInvalid`.
abbrev pub two_parts : List (List ℕ) → Option (List ℕ)
two_parts (owner ∷ name ∷ []) =
    if not (matches_part owner) || not (matches_part name) || is_dot owner || is_dot name
    then none
    else some (join b'/' (owner ∷ name ∷ []))
two_parts _ = none

-- `NormalizeRepository`
pub normalize_repository : List ℕ → Option (List ℕ)
unfolding cut_prefix
normalize_repository raw =
    let value = trim_suffix (trim_space (trim_suffix raw (codes "/"))) (codes ".git") in
    two_parts (split b'/' (cut_prefix github_prefixes value))

-- The characters of `strings.ContainsAny`
abbrev pub has_any : List ℕ → List ℕ → Bool
has_any s [] = false
has_any s (x ∷ xs) = has_code x s || has_any s xs

abbrev pub is_bad_branch : List ℕ → Bool
is_bad_branch branch =
    has_prefix branch (codes "-")
    || has_any branch (codes " ~^:?*[\\")
    || has_part branch (codes "..")
    || has_part branch (codes "@{")
    || has_suffix branch (codes ".")
    || has_suffix branch (codes "/")
    || has_prefix branch (codes "/")
    || has_part branch (codes "//")

abbrev pub checked_branch : List ℕ → Option (List ℕ)
checked_branch [] = some (codes "main")
checked_branch (c ∷ s) = if is_bad_branch (c ∷ s) then none else some (c ∷ s)

-- `NormalizeBranch`; `none` is `ErrGitRefInvalid`.
unfoldable pub normalize_branch : List ℕ → Option (List ℕ)
normalize_branch raw = checked_branch (trim_space raw)

-- One element of a path in `filepath.Clean`, for a relative path: the elements that are kept stand
-- newest first.
abbrev pub step_up : List (List ℕ) → List (List ℕ)
step_up [] = codes ".." ∷ []
step_up (p ∷ kept) = if is_dot_dot p then codes ".." ∷ p ∷ kept else kept

abbrev pub clean_part : List (List ℕ) → List ℕ → List (List ℕ)
clean_part kept part =
    if text_eq part [] || is_dot part
    then kept
    else if is_dot_dot part
    then step_up kept
    else part ∷ kept

pub clean_parts : List (List ℕ) → List (List ℕ) → List (List ℕ)
clean_parts kept [] = kept
clean_parts kept (p ∷ ps) = clean_parts (clean_part kept p) ps

pub rev_onto : List (List ℕ) → List (List ℕ) → List (List ℕ)
rev_onto acc [] = acc
rev_onto acc (p ∷ ps) = rev_onto (p ∷ acc) ps

abbrev pub or_dot : List (List ℕ) → List ℕ
or_dot [] = codes "."
or_dot (p ∷ ps) = join b'/' (p ∷ ps)

-- `filepath.Clean` on a relative path of a Unix system, where `ToSlash` changes nothing.
pub clean : List ℕ → List ℕ
unfolding clean_parts rev_onto
clean path = or_dot (rev_onto [] (clean_parts [] (split b'/' path)))

abbrev pub or_default : List ℕ → List ℕ → List ℕ
or_default [] fallback = fallback
or_default (c ∷ s) fallback = c ∷ s

abbrev pub leaves_root : List ℕ → Bool
leaves_root path = is_dot_dot path || has_prefix path (codes "../")

abbrev pub checked_clean : List ℕ → Option (List ℕ)
checked_clean path = if leaves_root path then none else some path

-- `NormalizeRelativePath`; `none` is `ErrGitPathInvalid`. On a Unix system `IsAbs` is a leading slash
-- and `VolumeName` is empty.
pub normalize_relative_path : List ℕ → List ℕ → Option (List ℕ)
normalize_relative_path raw fallback =
    let value = replace_all b'\\' b'/' (or_default (trim_space raw) fallback) in
    if has_prefix value (codes "/") || leaves_root value then none else checked_clean (clean value)
