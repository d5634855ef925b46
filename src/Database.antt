-- ===== src/Database.antt =====
-- docker/database_client.py: SQL quoting, the names of tables, and the schemas that the settings list.
pub mod Quoted
pub mod Schemas
pub mod Registry
use docker_development_envir.Common.{
  ℕ, Bool, true, false, not, ◌&&◌, ◌||◌, ◌==◌, nat_eq, list_eq, List, [], ◌∷◌, ◌++◌, Option, none,
  some, Text, codes, all, leb, length, is_empty, is_digit, is_lower, is_upper, if◌then◌else◌,
}

abbrev pub literal_char : ℕ → Text
literal_char c =
    if c == b'\\' then b'\\' ∷ b'\\' ∷ [] else if c == b'\'' then b'\'' ∷ b'\'' ∷ [] else c ∷ []

abbrev pub identifier_char : ℕ → Text
identifier_char c = if c == b'`' then b'`' ∷ b'`' ∷ [] else c ∷ []

-- The text ends with its closing quote.
unfoldable pub literal_rest : Text → Text
literal_rest [] = b'\'' ∷ []
literal_rest (c ∷ cs) = literal_char c ++ literal_rest cs

unfoldable pub identifier_rest : Text → Text
identifier_rest [] = b'`' ∷ []
identifier_rest (c ∷ cs) = identifier_char c ++ identifier_rest cs

-- literal: backslashes and quotes doubled, between quotes
unfoldable pub literal : Text → Text
unfolding literal_rest
literal value = b'\'' ∷ literal_rest value

-- identifier
unfoldable pub identifier : Text → Text
unfolding identifier_rest
identifier value = b'`' ∷ identifier_rest value

abbrev pub is_name_char : ℕ → Bool
is_name_char c = is_upper c || is_lower c || is_digit c || c == b'_'

-- SCHEMA_NAME, `[A-Za-z0-9_]{1,64}`
unfoldable pub is_schema_name : Text → Bool
is_schema_name name = not (is_empty name) && leb (length name) 64 && all is_name_char name

-- `text.partition('.')`: none without a dot
unfoldable pub dot_partition : Text → Option (Text × Text)
dot_partition [] = none
dot_partition (c ∷ cs) =
    let rest = dot_partition cs in
    if c == b'.'
    then some ([], cs)
    else elim rest [ none ↦ none | some (before, after) ↦ some (c ∷ before, after) ]

-- split_name: (the extra schema or none, the table)
unfoldable pub split_name : Text → Option Text × Text
unfolding dot_partition is_schema_name
split_name name = elim (dot_partition name) [
  | none ↦ (none, name)
  | some (schema, table) ↦ if is_schema_name schema then (some schema, table) else (none, name)
]

-- quoted: `table`, or `schema`.`table`
unfoldable pub quoted : Text → Text
unfolding split_name identifier
quoted name =
    let (schema, table) = split_name name in
    (elim schema [ none ↦ [] | some s ↦ identifier s ++ codes "." ]) ++ identifier table
