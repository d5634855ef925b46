-- ===== src/Migrations.antt =====
-- docker/database_migrations_guarded.py: migration files, the table setup_migrations, and make db-migrate
-- and make db-rollback. A text is the list of its lines, joined by newlines.
pub mod Drafts
pub mod Files
pub mod Run
pub mod Applied
pub mod Prefixes
pub mod Undone
pub mod Dry
use docker_development_envir.Common.{
  ℕ, Bool, true, false, not, ◌&&◌, ◌||◌, ◌==◌, nat_eq, string_eq, List, [], ◌∷◌, ◌++◌, Option, none,
  some, String, Text, codes, any, map, contains, has_prefix, leb, is_some, if◌then◌else◌,
}

abbrev pub Lines : Type 0
Lines = List Text

-- A migration file: its identity, its schema (none for the main database) and its text.
pub record Migration : Type 0 where
  pub identity : String
  pub schema : Option String
  pub text : Lines

-- A row of setup_migrations.
pub record Row : Type 0 where
  pub name : String
  pub checksum : String
  pub at : ℕ

-- `^-- Rollback:.*$`
abbrev pub is_rollback : Text → Bool
is_rollback line = has_prefix (codes "-- Rollback:") line

-- split_rollback: what make db-migrate runs, and what make db-rollback runs.
unfoldable pub split_rollback : Lines → Lines × Option Lines
split_rollback [] = ([], none)
split_rollback (line ∷ lines) =
    let (forward, back) = split_rollback lines in
    if is_rollback line then ([] ∷ [], some ([] ∷ lines)) else (line ∷ forward, back)

-- Leading whitespace is dropped.
is_blank : ℕ → Bool
is_blank c = c == 32 || (leb 9 c && leb c 13) || (leb 28 c && leb c 31)

without_blanks : Text → Text
unfolding is_blank
without_blanks [] = []
without_blanks (c ∷ cs) = let rest = without_blanks cs in if is_blank c then rest else c ∷ cs

-- OPEN, `^\s*-- TODO:`
unfoldable pub is_open : Lines → Bool
unfolding without_blanks
is_open lines = any (λ line. has_prefix (codes "-- TODO:") (without_blanks line)) lines

-- `sql.strip()` as a condition
unfoldable pub is_written : Lines → Bool
unfolding is_blank
is_written lines = any (λ line. any (λ c. not (is_blank c)) line) lines

-- `digest` is the SHA-256 of a text, as hexadecimal.
module _ (digest : Lines → String) where
  unfoldable pub migration_checksum : Lines → String
  unfolding split_rollback
  migration_checksum text = digest (split_rollback text).0

  abbrev pub names_of : List Row → List String
  names_of = map (λ (row : Row). row.name)

  -- pending_migrations: those not applied yet, each with its checksum.
  unfoldable pub pending_of : List Migration → List Row → List (Migration × String)
  unfolding migration_checksum
  pending_of [] rows = []
  pending_of (file ∷ files) rows =
      let rest = pending_of files rows in
      if contains file.identity (map (λ (row : Row). row.name) rows)
      then rest
      else (file, migration_checksum file.text) ∷ rest

  -- `dict(...)`: the checksum that a name was applied with
  checksum_of : String → List Row → Option String
  checksum_of name [] = none
  checksum_of name (row ∷ rows) =
      if row.name == name then some row.checksum else checksum_of name rows

  -- The identities that changed since they were applied.
  unfoldable pub changed_of : List Migration → List Row → List String
  unfolding migration_checksum checksum_of
  changed_of [] rows = []
  changed_of (file ∷ files) rows =
      let rest = changed_of files rows in
      elim (checksum_of file.identity rows) [
        | none ↦ rest
        | some known ↦
            if known == migration_checksum file.text || known == digest file.text
            then rest
            else file.identity ∷ rest
      ]
