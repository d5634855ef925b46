-- ===== src/Database/Registry.antt =====
-- docker/database_registry.py: every table has a group, a rule for the base data set and a rule for imports.
-- The registry file is the list of its lines.
pub mod Written
pub mod Resolved
use docker_development_envir.Common.{
  ℕ, zero, suc, Bool, true, false, not, ◌&&◌, ◌||◌, ◌==◌, nat_eq, list_eq, List, [], ◌∷◌, ◌++◌,
  Option, none, some, Text, Result, ok, err, codes, all, any, contains, is_empty, is_some, has_char,
  has_prefix, length, drop, filter_by, map, ◌-◌, ◌+◌, leb, if◌then◌else◌,
}
use docker_development_envir.Common.Glob.{fnmatch}
use docker_development_envir.Common.Results.{◌>>=◌, ◌>>◌, ensure}
use docker_development_envir.Settings.Dotenv.{trimmed}
use docker_development_envir.Settings.Setup.{words}
use docker_development_envir.Database.{split_name}

pub data RegistryError : Type 0 where
  bad_line no_prefix : Text → RegistryError
  unclassified : List Text → RegistryError
  bad_edit : RegistryError

-- A line of the registry.
pub record Rule : Type 0 where
  pub table : Text
  pub group : Text
  pub base : Text
  pub live : Text

abbrev pub base_rules : List Text
base_rules = codes "full" ∷ codes "slice" ∷ codes "faker" ∷ codes "empty" ∷ codes "drop" ∷ []

abbrev pub live_rules : List Text
live_rules = codes "import" ∷ codes "skip" ∷ codes "-" ∷ []

-- `raw.split('#', 1)[0]`
unfoldable pub before_hash : Text → Text
before_hash [] = []
before_hash (c ∷ cs) = let rest = before_hash cs in if c == b'#' then [] else c ∷ rest

-- `'{p}' in line`
unfoldable pub has_mark : Text → Bool
has_mark [] = false
has_mark (c ∷ cs) = has_prefix (codes "{p}") (c ∷ cs) || has_mark cs

-- `line.replace('{p}', prefix)`; the number counts the characters of a mark that are still to be dropped.
replaced : Text → ℕ → Text → Text
replaced prefix n [] = []
replaced prefix (suc n) (c ∷ cs) = replaced prefix n cs
replaced prefix zero (c ∷ cs) =
    let inside = prefix ++ replaced prefix 2 cs in
    let plain = c ∷ replaced prefix 0 cs in
    if has_prefix (codes "{p}") (c ∷ cs) then inside else plain

-- expand_prefix: a project without PrestaShop has no prefix.
unfoldable pub expand_prefix : Option Text → Text → Result RegistryError Text
unfolding has_mark replaced
expand_prefix none line = if has_mark line then err (no_prefix line) else ok line
expand_prefix (some prefix) line = if has_mark line then ok (replaced prefix 0 line) else ok line

-- The fields of one line.
unfoldable pub parse_fields : Option Text → Text → List Text → Result RegistryError Rule
unfolding expand_prefix
parse_fields prefix raw (table ∷ group ∷ base ∷ live ∷ []) =
    ensure (contains base base_rules && contains live live_rules) (bad_line raw) >>= λ _.
    expand_prefix prefix table >>= λ name.
    ok (record { table = name; group = group; base = base; live = live })
parse_fields prefix raw _ = err (bad_line raw)

-- parse
unfoldable pub parse_registry : Option Text → List Text → Result RegistryError (List Rule)
unfolding before_hash parse_fields words
parse_registry prefix [] = ok []
parse_registry prefix (raw ∷ lines) =
    let fields = words (before_hash raw) in
    let rest = parse_registry prefix lines in
    if is_empty fields
    then rest
    else (parse_fields prefix raw fields >>= λ rule. rest >>= λ rules. ok (rule ∷ rules))

-- A line with a dot is about the extra schemas.
fits : Text → Rule → Bool
unfolding split_name
fits table rule =
    (if has_char b'.' rule.table
      then is_some (split_name table).0
      else not (is_some (split_name table).0))
    && fnmatch table rule.table

-- classify: the first line that fits
unfoldable pub classify : List Rule → Text → Option Rule
unfolding fits
classify [] table = none
classify (rule ∷ rules) table =
    let rest = classify rules table in if fits table rule then some rule else rest

abbrev setup_tables : List Text
setup_tables = codes "setup_migrations" ∷ []

unfoldable pub unknown_tables : List Rule → List Text → List Text
unfolding classify
unknown_tables rules =
    filter_by (λ table. not (contains table setup_tables) && not (is_some (classify rules table)))

unfoldable pub dropped : List Rule → List Text → List Text
unfolding classify
dropped rules =
    filter_by (λ table. elim (classify rules table) [
      | none ↦ false
      | some rule ↦ rule.base == codes "drop"
    ])

-- `f'{text:<n}'`
unfoldable pub padded : ℕ → Text → Text
padded zero text = text
padded (suc n) [] = b' ' ∷ padded n []
padded (suc n) (c ∷ cs) = c ∷ padded n cs

-- A line as append_entries writes it.
unfoldable pub rule_line : Rule → Text
unfolding padded
rule_line rule =
    padded 48 rule.table
    ++ (b' ' ∷ (padded 12 rule.group ++ (b' ' ∷ (padded 6 rule.base ++ (b' ' ∷ rule.live)))))

-- remove_entries: the name that a line is about, if it is one table.
line_name : Option Text → Text → Option Text
unfolding before_hash words has_mark replaced
line_name prefix raw = elim (words (before_hash raw)) [
  | [] ↦ none
  | name ∷ more ↦ if not (length more == 3) then none else elim prefix [
    | none ↦ if not (has_char b'*' name) && has_mark name then none else some name
    | some p ↦ some (if has_mark name then replaced p 0 name else name)
  ]
]

-- (the lines kept, the tables whose line went)
unfoldable pub remove_entries : Option Text → List Text → List Text → List Text × List Text
unfolding line_name
remove_entries prefix tables [] = ([], [])
remove_entries prefix tables (raw ∷ lines) =
    let (kept, removed) = remove_entries prefix tables lines in
    elim (line_name prefix raw) [
      | none ↦ (raw ∷ kept, removed)
      | some name ↦ if contains name tables then (kept, name ∷ removed) else (raw ∷ kept, removed)
    ]
