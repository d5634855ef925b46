-- ===== src/Migrations/Drafts.antt =====
-- The drafts of migrations: what a table's definition holds, what has changed between two of them, and the SQL
-- that takes the one to the other.
pub mod Written
pub mod Draft
pub mod Commit
pub mod Folder
pub mod Edited
pub mod Write
pub mod Kept
pub mod Untouched
pub mod Covered
use docker_development_envir.Common.{
  ℕ, Bool, true, false, not, ◌&&◌, ◌||◌, ◌==◌, nat_eq, list_eq, option_eq, List, [], ◌∷◌, ◌++◌,
  Option, none, some, Text, Result, ok, err, codes, contains, is_some, is_empty, filter_by, get,
  put, has_prefix, drop, init, last?, length, map, split_on, split_lines, any, all, if◌then◌else◌,
}
use docker_development_envir.Common.Results.{◌>>=◌}
use docker_development_envir.Common.Sort.{sorted_set}
use docker_development_envir.Settings.Dotenv.{trimmed, right_trimmed}

-- A `dict` from names to the lines that define them.
abbrev pub NamedLines : Type 0
NamedLines = List (Text × Text)

abbrev pub names : NamedLines → List Text
names = map (λ (l : Text × Text). l.0)

pub record Structure : Type 0 where
  pub columns : NamedLines
  pub keys : NamedLines
  pub other : List Text
  pub options : Text

pub data DraftError : Type 0 where
  not_a_table unnamed : Text → DraftError

-- ``((?:[^`]|``)*)` ``, a doubled backquote read as one where a closing one is left; none without a closing one.
name_rest : Text → Option Text
name_rest [] = none
name_rest (c ∷ []) = if c == b'`' then some [] else none
name_rest (c ∷ d ∷ cs) =
    let doubled = name_rest cs in
    let single = name_rest (d ∷ cs) in
    if c == b'`'
    then (if d == b'`'
        then (elim doubled [ none ↦ some [] | some name ↦ some (d ∷ name) ])
        else some [])
    else elim single [ none ↦ none | some name ↦ some (c ∷ name) ]

-- `` `((?:[^`]|``)+)` ``
unfoldable pub name_of : Text → Option Text
unfolding name_rest
name_of [] = none
name_of (c ∷ cs) =
    if c == b'`'
    then (elim (name_rest cs) [
      | none ↦ none
      | some name ↦ if is_empty name then none else some name
    ])
    else none

abbrev after_kind : Text → Text
after_kind line =
    if has_prefix (codes "UNIQUE ") line
    then drop 7 line
    else if has_prefix (codes "FULLTEXT ") line || has_prefix (codes "SPATIAL ") line
    then (if has_prefix (codes "FULLTEXT ") line then drop 9 line else drop 8 line)
    else line

-- INDEX
unfoldable pub key_of : Text → Option Text
unfolding name_of
key_of line =
    if has_prefix (codes "PRIMARY KEY") line
    then some (codes "PRIMARY")
    else if has_prefix (codes "KEY ") (after_kind line)
    then name_of (drop 4 (after_kind line))
    else none

-- `text.rstrip(c)` for one character
unfoldable pub without_final : ℕ → Text → Text
without_final d [] = []
without_final d (c ∷ cs) =
    let rest = without_final d cs in if c == d && is_empty rest then [] else c ∷ rest

unfoldable pub add_line : Structure → Text → Result DraftError Structure
unfolding name_of key_of without_final
add_line s raw =
    let line = without_final b',' (trimmed raw) in
    if has_prefix (codes "`") line
    then (elim (name_of line) [
      | none ↦ err (unnamed line)
      | some name ↦ ok (record s { columns = put name line s.columns })
    ])
    else elim (key_of line) [
      | none ↦ ok (record s { other = s.other ++ line ∷ [] })
      | some name ↦ ok (record s { keys = put name line s.keys })
    ]

unfoldable pub add_lines : Structure → List Text → Result DraftError Structure
unfolding add_line
add_lines s [] = ok s
add_lines s (raw ∷ lines) = add_line s raw >>= λ next. add_lines next lines

-- `ddl.rstrip().rstrip(';').splitlines()`
ddl_lines : Text → List Text
unfolding without_final
ddl_lines ddl = split_lines (without_final b';' (right_trimmed ddl))

-- parse_table; the first line names the table, the last has the options.
unfoldable pub parse_table : Text → Result DraftError Structure
unfolding ddl_lines add_lines
parse_table ddl =
    let lines = ddl_lines ddl in
    elim (last? lines) [
      | none ↦ err (not_a_table ddl)
      | some options ↦
          add_lines (record { columns = []; keys = []; other = []; options = options })
            (drop 1 (init lines))
    ]

-- One block of a draft. `place` is the column before a new one.
pub data Change : Type 0 where
  add_column : Text → Text → Option Text → Change
  modify_column : Text → Text → Change
  drop_column : Text → Change
  add_key : Text → Text → Change
  replace_key : Text → Text → Change
  drop_key : Text → Change
  other_change : List Text → Change

abbrev pub has : Text → NamedLines → Bool
has name lines = is_some (get name lines)

abbrev pub column_change : NamedLines → Option Text → Text → Text → List Change
column_change old place name line =
    if not (has name old)
    then add_column name line place ∷ []
    else if get name old == some line
    then []
    else modify_column name line ∷ []

unfoldable pub column_changes : NamedLines → Option Text → NamedLines → List Change
column_changes old place [] = []
column_changes old place ((name, line) ∷ new) =
    column_change old place name line ++ column_changes old (some name) new

unfoldable pub column_drops : NamedLines → NamedLines → List Change
column_drops new [] = []
column_drops new ((name, line) ∷ old) =
    (if has name new then [] else drop_column name ∷ []) ++ column_drops new old

abbrev pub key_change : NamedLines → Text → Text → List Change
key_change old name line =
    if not (has name old)
    then add_key name line ∷ []
    else if get name old == some line
    then []
    else replace_key name line ∷ []

unfoldable pub key_changes : NamedLines → NamedLines → List Change
key_changes old [] = []
key_changes old ((name, line) ∷ new) = key_change old name line ++ key_changes old new

-- The keys that are gone; the source goes through them in no fixed order.
unfoldable pub key_drops : NamedLines → NamedLines → List Change
key_drops new [] = []
key_drops new ((name, line) ∷ old) =
    (if has name new then [] else drop_key name ∷ []) ++ key_drops new old

unfoldable pub other_changes : Structure → Structure → List Change
other_changes old new =
    let lines = sorted_set (filter_by (λ line. not (contains line old.other)) new.other) in
    let options = if old.options == new.options then [] else new.options ∷ [] in
    if old.other == new.other && old.options == new.options
    then []
    else other_change (lines ++ options) ∷ []

-- table_changes, as blocks
unfoldable pub structure_changes : Structure → Structure → List Change
unfolding column_changes column_drops key_changes key_drops other_changes
structure_changes old new =
    column_changes old.columns none new.columns
    ++ (column_drops new.columns old.columns
        ++ (key_changes old.keys new.keys
            ++ (key_drops new.keys old.keys ++ other_changes old new)))
