-- ===== src/Migrations/Drafts/Commit.antt =====
-- commit_problems: what keeps a commit with a staged snapshot from passing. Git's index and the last commit are
-- read by the caller.
use docker_development_envir.Common.{
  Bool, not, ◌||◌, ◌==◌, nat_eq, list_eq, option_eq, List, [], ◌∷◌, ◌++◌, Option, none, some, Text,
  contains, filter_by, get, map, split_on, if◌then◌else◌,
}
use docker_development_envir.Common.Sort.{sorted_set}
use docker_development_envir.Database.{split_name}
use docker_development_envir.Migrations.{is_open}
use docker_development_envir.Migrations.Files.{is_migration_name}
use docker_development_envir.Migrations.Drafts.{NamedLines, names}
use docker_development_envir.Migrations.Drafts.Draft.{baselined}

-- `name.rpartition('/')`: none without a slash
slash_partition : Text → Option (Text × Text)
slash_partition [] = none
slash_partition (c ∷ cs) = elim (slash_partition cs) [
  | some (folder, base) ↦ some (c ∷ folder, base)
  | none ↦ if c == b'/' then some ([], cs) else none
]

unfoldable pub folder_of : Text → Text
unfolding slash_partition
folder_of name = elim (slash_partition name) [ none ↦ [] | some (folder, base) ↦ folder ]

unfoldable pub base_of : Text → Text
unfolding slash_partition
base_of name = elim (slash_partition name) [ none ↦ name | some (folder, base) ↦ base ]

-- folder_schema; `extras` is the accepted list of extra schemas.
unfoldable pub folder_schema : List Text → Text → Option Text
unfolding folder_of
folder_schema extras name = if contains (folder_of name) extras then some (folder_of name) else none

abbrev pub schema_of : Text → Option Text
unfolding split_name
schema_of table = (split_name table).0

-- changed_schemas: a set, here with repetitions
unfoldable pub changed_schemas : NamedLines → NamedLines → List (Option Text)
unfolding schema_of
changed_schemas before after =
    map schema_of (filter_by (λ t. not (get t before == get t after)) (names before ++ names after))

pub data CommitProblem : Type 0 where
  misnamed open_todo : Text → CommitProblem
  -- The schema, or the empty text for the main database.
  uncovered : Text → CommitProblem
  registry_unstaged : CommitProblem

abbrev pub file_problems : Text → Text → List CommitProblem
file_problems name text =
    (if not (is_migration_name (base_of name)) || contains b'/' (folder_of name)
      then misnamed name ∷ []
      else [])
    ++ (if is_open (split_on 10 text) then open_todo name ∷ [] else [])

unfoldable pub named_problems : NamedLines → List Text → List CommitProblem
unfolding is_migration_name is_open folder_of base_of
named_problems migrations [] = []
named_problems migrations (name ∷ rest) =
    (elim (get name migrations) [ none ↦ [] | some text ↦ file_problems name text ])
    ++ named_problems migrations rest

-- `name or ''`, by which the schemas are sorted
abbrev pub schema_key : Option Text → Text
schema_key none = []
schema_key (some name) = name

-- `changed - covered`, sorted
unfoldable pub uncovered_schemas : List Text → NamedLines → NamedLines → List Text → List Text
unfolding changed_schemas folder_schema
uncovered_schemas extras before after staged_names =
    let covered = map (folder_schema extras) staged_names in
    sorted_set
      (map schema_key (filter_by (λ s. not (contains s covered)) (changed_schemas before after)))

-- No committed snapshot, or none staged: nothing is missing.
unfoldable pub missing_problems :
    List Text → Option NamedLines → Option NamedLines → List Text → List CommitProblem
unfolding uncovered_schemas baselined
missing_problems extras none staged staged_names = []
missing_problems extras (some old) none staged_names = []
missing_problems extras (some old) (some new) staged_names =
    map uncovered (uncovered_schemas extras old (baselined old new) staged_names)

-- commit_problems: `before` are the committed definitions, none without a committed snapshot, `staged` the
-- normalised ones of the staged snapshot, none where no snapshot is staged, and `migrations` the staged files.
unfoldable pub commit_problems :
    List Text
    → Bool
    → Option NamedLines
    → Option NamedLines
    → NamedLines
    → Bool
    → List CommitProblem
unfolding named_problems missing_problems
commit_problems extras enabled before staged migrations unstaged =
    let files = named_problems migrations (sorted_set (names migrations)) in
    let missing = missing_problems extras before staged (names migrations) in
    (if enabled then files ++ missing else []) ++ (if unstaged then registry_unstaged ∷ [] else [])
