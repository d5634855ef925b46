-- ===== src/Deploy/Paths.antt =====
-- Code tree paths: the settings that name them, the protected ones, and the names a removal may touch.
use docker_development_envir.Common.{
  ℕ, Bool, not, ◌&&◌, ◌||◌, ◌==◌, nat_eq, list_eq, List, [], ◌∷◌, ◌++◌, some, Text, ltb, is_digit,
  is_lower, is_upper, any, all, is_empty, filter_by, strip_left, strip_right, split_on, has_prefix,
  has_char, final_char, if◌then◌else◌,
}
use docker_development_envir.Common.{◌⊎◌, inl, inr, option_eq}
use docker_development_envir.Common.Glob.{fnmatch}

-- One part of PROTECTED_PATH, `[A-Za-z0-9._*-]+`
plain_code : ℕ → Bool
plain_code c =
    is_upper c || is_lower c || is_digit c || c == b'.' || c == b'_' || c == b'*' || c == b'-'

-- PROTECTED_PATH: such parts between single slashes, a slash at either end allowed.
drop_first_slash : Text → Text
drop_first_slash [] = []
drop_first_slash (c ∷ cs) = if c == b'/' then cs else c ∷ cs

drop_last_slash : List Text → List Text
drop_last_slash [] = []
drop_last_slash (p ∷ []) = p ∷ []
drop_last_slash (p ∷ q ∷ []) = if is_empty q then p ∷ [] else p ∷ q ∷ []
drop_last_slash (p ∷ q ∷ r ∷ ps) = p ∷ drop_last_slash (q ∷ r ∷ ps)

is_protected_path : Text → Bool
unfolding plain_code drop_first_slash drop_last_slash
is_protected_path entry =
    all (λ part. not (is_empty part) && all plain_code part)
      (drop_last_slash (split_on b'/' (drop_first_slash entry)))

abbrev dot : Text
dot = b'.' ∷ []

abbrev dots : Text
dots = b'.' ∷ b'.' ∷ []

abbrev first_part : List Text → Text
first_part [] = []
first_part (p ∷ ps) = p

-- The refusal of code_tree_patterns for one entry.
unfoldable pub is_code_tree_path : Text → Bool
unfolding is_protected_path
is_code_tree_path entry =
    let parts = split_on b'/' (strip_right b'/' (strip_left b'/' entry)) in
    is_protected_path entry
    && not (any (λ part. part == dot || part == dots) parts)
    && not (is_empty (strip_right b'*' (strip_left b'*' (first_part parts))))

-- The rsync patterns of a setting's entries, or the entry that is refused.
unfoldable pub code_tree_patterns : List Text → List Text ⊎ Text
unfolding is_code_tree_path
code_tree_patterns [] = inl []
code_tree_patterns (entry ∷ entries) =
    if is_code_tree_path entry
    then (elim (code_tree_patterns entries) [
      | inl patterns ↦ inl ((b'/' ∷ strip_left b'/' entry) ∷ patterns)
      | inr refused ↦ inr refused
    ])
    else inr entry

-- is_protected: on the path `/name`, the pattern without its last slashes, or with anything behind it.
unfoldable pub is_protected : List Text → Text → Bool
is_protected patterns name =
    any
      (λ pattern.
        fnmatch (b'/' ∷ name) (strip_right b'/' pattern)
        || fnmatch (b'/' ∷ name) (pattern ++ b'*' ∷ []))
      patterns

unfoldable pub is_control : ℕ → Bool
is_control c = ltb c 32 || c == 127

-- `safe` of safe_names
unfoldable pub is_safe_name : Text → Bool
unfolding is_control
is_safe_name name =
    not (is_empty name)
    && not (has_prefix (b'/' ∷ []) name)
    && not (any (λ part. is_empty part || part == dot || part == dots) (split_on b'/' name))
    && not (any is_control name)

unfoldable pub safe_names : List Text → List Text
safe_names names = filter_by is_safe_name names

basename : Text → Text
basename [] = []
basename (c ∷ cs) = let rest = basename cs in if has_char b'/' (c ∷ cs) then rest else c ∷ cs

-- cache_path_matches of DEPLOY_CACHE_CLEAR_PATHS
unfoldable pub cache_path_matches : Text → Text → Bool
unfolding basename
cache_path_matches name given =
    let pattern = strip_left b'/' given in
    if final_char pattern == some b'/'
    then has_prefix pattern name
    else if not (has_char b'/' pattern)
    then fnmatch (basename name) pattern
    else fnmatch name pattern
