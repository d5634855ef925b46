-- ===== src/Deploy/Removal/Laws.antt =====
-- What removed_files removes, exactly.
use docker_development_envir.Common.{
  codes, ◌⊎◌, ◌||◌, ◌==◌, string_eq, option_eq, some, leb, strip_right, split_on, has_prefix, all,
  Bool, true, false, not, ◌&&◌, List, [], ◌∷◌, ◌++◌, String, Text, ◌≡◌, nat_eq, list_eq, contains,
  is_empty,
}
use docker_development_envir.Common.Glob.{fnmatch}
use docker_development_envir.Attempts.{Entry}
use docker_development_envir.Deploy.{Host}
use docker_development_envir.Deploy.History.{or_nil, removal_sources, reversed}
use docker_development_envir.Deploy.Paths.{is_protected, is_safe_name}
use docker_development_envir.Deploy.Removal.{protected_paths, shipped}

-- The names that a removal may take off the target: shipped by a deploy that it may still hold, or
-- left pending, and no longer shipped, not protected, and plain paths inside the code tree.
abbrev may_remove : Host → List Entry → String → Text → Bool
may_remove host entries current name =
    contains name
      ((removal_sources entries).1 ++ (shipped host.manifest (removal_sources entries).0).1)
    && (not (contains name (or_nil (host.manifest current)))
        && not (is_empty name)
        && not (is_protected (protected_paths host) name))
    && is_safe_name name

-- The target may still hold what deploy `x` shipped: every deploy after it left its removals pending. Newest first.
abbrev pub Held : List Entry → Entry → Type 0
Held [] x = ⊥
Held (e ∷ es) x = (e ≡ x) ⊎ (((e.removals == some "pending") ≡ true) × Held es x)

-- A deploy's file list has the name, or its removals had to leave it.
abbrev pub HasLeft : Host → Entry → Text → Type 0
HasLeft host e name =
    (contains name (or_nil (host.manifest e.commit)) ≡ true)
    ⊎ (contains name (or_nil e.pending_removals) ≡ true)

abbrev leaves : Host → Entry → Text → Bool
leaves host e name =
    contains name (or_nil e.pending_removals) || contains name (or_nil (host.manifest e.commit))

owed : Host → List Entry → Text → Bool
owed host [] name = false
owed host (e ∷ es) name =
    let rest = owed host es name in leaves host e name || ((e.removals == some "pending") && rest)

-- A path inside the code tree: relative, without empty, `.` and `..` parts, and without control characters.
abbrev pub is_plain : Text → Bool
is_plain name =
    not (has_prefix (codes "/") name)
    && all (λ part. not (is_empty part) && (not (part == codes ".") && not (part == codes "..")))
        (split_on b'/' name)
    && all (λ c. leb 32 c && not (c == 127)) name

-- No protected path is this one, or a directory above it.
abbrev pub is_free : List Text → Text → Bool
is_free patterns name =
    all
      (λ pattern.
        not (fnmatch (b'/' ∷ name) (strip_right b'/' pattern))
        && not (fnmatch (b'/' ∷ name) (pattern ++ codes "*")))
      patterns

record Parts (host : Host) (entries : List Entry) (current : String) (name : Text) : Type 0 where
  is_owed : owed host (reversed entries) name ≡ true
  gone : contains name (or_nil (host.manifest current)) ≡ false
  named : is_empty name ≡ false
  free : is_free (protected_paths host) name ≡ true
  plain : is_plain name ≡ true

-- Of a name that a removal may take off the target: a deploy that it may still hold shipped the name or had to
-- leave it, the new release does not ship it, it is not empty, no protected path is it or above it, it is plain.
abbrev pub Removable : Host → List Entry → String → Text → Type 0
Removable host entries current name =
    ((x : Entry) × Held (reversed entries) x × HasLeft host x name)
    × (contains name (or_nil (host.manifest current)) ≡ false)
    × (is_empty name ≡ false)
    × (is_free (protected_paths host) name ≡ true)
    × (is_plain name ≡ true)
