-- ===== src/Migrations/Drafts/Written.antt =====
-- The text of a draft: each change as guarded SQL under its title.
use docker_development_envir.Common.{
  Bool, true, false, ◌==◌, nat_eq, list_eq, List, [], ◌∷◌, ◌++◌, Option, none, some, Text, Result,
  ok, err, codes, is_empty, has_prefix, drop, length, split_lines, if◌then◌else◌,
}
use docker_development_envir.Database.{literal, identifier, split_name, quoted}
use docker_development_envir.Migrations.Drafts.{
  DraftError, not_a_table, Change, add_column, modify_column, drop_column, add_key, replace_key,
  drop_key, other_change,
}

abbrev pub line_end : Text
line_end = 10 ∷ []

joined : List Text → Text
joined [] = []
joined (x ∷ xs) = x ++ joined xs

-- guarded: the statement runs only where the count says that it is still needed.
unfoldable pub guarded : Text → Text → Bool → Text
unfolding joined
guarded check statement run_when_found = joined (
    codes "SET @setup_sql = IF(("
    ∷ check
    ∷ codes ") "
    ∷ (if run_when_found then codes "> 0" else codes "= 0")
    ∷ codes ", "
    ∷ literal statement
    ∷ codes ", 'DO 0');"
    ∷ line_end
    ∷ codes "PREPARE setup_statement FROM @setup_sql;"
    ∷ line_end
    ∷ codes "EXECUTE setup_statement;"
    ∷ line_end
    ∷ codes "DEALLOCATE PREPARE setup_statement;"
    ∷ line_end
    ∷ [])

unfoldable pub where_table : Text → Text
unfolding split_name literal
where_table table =
    let (schema, name) = split_name table in
    codes "TABLE_SCHEMA = "
    ++ ((elim schema [ none ↦ codes "DATABASE()" | some s ↦ literal s ])
        ++ (codes " AND TABLE_NAME = " ++ literal name))

unfoldable pub column_check : Text → Text → Text
unfolding where_table literal
column_check table column =
    codes "SELECT COUNT(*) FROM information_schema.COLUMNS WHERE "
    ++ (where_table table ++ (codes " AND COLUMN_NAME = " ++ literal column))

unfoldable pub key_check : Text → Text → Text
unfolding where_table literal
key_check table key =
    codes "SELECT COUNT(*) FROM information_schema.STATISTICS WHERE "
    ++ (where_table table ++ (codes " AND INDEX_NAME = " ++ literal key))

-- create_table: the definition's own head is replaced.
unfoldable pub create_table : Text → Text → Result DraftError Text
unfolding identifier split_name quoted
create_table table ddl =
    let head = codes "CREATE TABLE " ++ (identifier (split_name table).1 ++ codes " ") in
    if has_prefix head ddl
    then ok (
        codes "CREATE TABLE IF NOT EXISTS "
        ++ (quoted table ++ (codes " " ++ drop (length head) ddl)))
    else err (not_a_table table)

suggested : List Text → Text
suggested [] = []
suggested (line ∷ lines) = codes "--   " ++ (line ++ (line_end ++ suggested lines))

all_lines : List Text → List Text
all_lines [] = []
all_lines (statement ∷ statements) = split_lines statement ++ all_lines statements

-- todo: a comment for a person; a suggestion is a comment too.
unfoldable pub todo : Text → List Text → Text
unfolding suggested all_lines
todo text statements =
    let suggestion = suggested (all_lines statements) in
    codes "-- TODO: "
    ++ (text
        ++ (line_end
            ++ (if is_empty suggestion
                then []
                else codes "-- Suggested, once checked:" ++ (line_end ++ suggestion))))

abbrev key_drop : Text → Text
key_drop key =
    if key == codes "PRIMARY" then codes "DROP PRIMARY KEY" else codes "DROP KEY " ++ identifier key

place_of : Option Text → Text
place_of none = codes "FIRST"
place_of (some column) = codes "AFTER " ++ identifier column

-- `'; '.join(lines)`
semicolons : List Text → Text
semicolons [] = []
semicolons (x ∷ []) = x
semicolons (x ∷ y ∷ xs) = x ++ (codes "; " ++ semicolons (y ∷ xs))

-- (the title, the SQL) of a block of table_changes
unfoldable pub change_block : Text → Change → Text × Text
unfolding guarded column_check key_check todo quoted identifier place_of semicolons
change_block table (add_column name line place) = (
  table ++ (codes ": new column " ++ name),
  guarded (column_check table name)
      (codes "ALTER TABLE "
        ++ (quoted table ++ (codes " ADD COLUMN " ++ (line ++ (codes " " ++ place_of place)))))
      false,
)
change_block table (modify_column name line) = (
  table ++ (codes ": changed column " ++ name),
  guarded (column_check table name)
      (codes "ALTER TABLE " ++ (quoted table ++ (codes " MODIFY COLUMN " ++ line))) true,
)
change_block table (drop_column name) = (
  table ++ (codes ": drop column " ++ name),
  guarded (column_check table name)
      (codes "ALTER TABLE " ++ (quoted table ++ (codes " DROP COLUMN " ++ identifier name))) true,
)
change_block table (add_key name line) = (
  table ++ (codes ": new key " ++ name),
  guarded (key_check table name) (codes "ALTER TABLE " ++ (quoted table ++ (codes " ADD " ++ line)))
      false,
)
change_block table (replace_key name line) = (
  table ++ (codes ": changed key " ++ name),
  todo
      (codes "replace key "
        ++ (name ++ (codes " of " ++ (table ++ codes "; it may reject existing rows"))))
      ((codes "ALTER TABLE "
          ++ (quoted table
              ++ (codes " " ++ (key_drop name ++ (codes ", ADD " ++ (line ++ codes ";"))))))
        ∷ []),
)
change_block table (drop_key name) = (
  table ++ (codes ": key " ++ (name ++ codes " is gone")),
  guarded (key_check table name)
      (codes "ALTER TABLE " ++ (quoted table ++ (codes " " ++ key_drop name))) true,
)
change_block table (other_change lines) = (
  table ++ codes ": constraints or table options changed",
  todo
      (codes "apply the constraint or option change of "
        ++ (table ++ (codes " by hand: " ++ semicolons lines)))
      [],
)
