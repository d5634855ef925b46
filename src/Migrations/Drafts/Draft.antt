-- ===== src/Migrations/Drafts/Draft.antt =====
-- A whole draft: what takes one set of tables to another, and back.
use docker_development_envir.Common.{
  Bool, true, false, not, ◌==◌, nat_eq, list_eq, List, [], ◌∷◌, ◌++◌, none, some, Text, Result, ok,
  codes, contains, filter_by, get, map, if◌then◌else◌,
}
use docker_development_envir.Common.Results.{◌>>=◌}
use docker_development_envir.Common.Sort.{sorted_set}
use docker_development_envir.Database.{split_name, quoted}
use docker_development_envir.Migrations.Drafts.{
  names, NamedLines, DraftError, has, parse_table, structure_changes,
}
use docker_development_envir.Migrations.Drafts.Written.{line_end, change_block, create_table}

abbrev pub Blocks : Type 0
Blocks = List (Text × Text)

-- table_changes
unfoldable pub table_changes : Text → Text → Text → Result DraftError Blocks
unfolding parse_table structure_changes change_block
table_changes table before after = parse_table before >>= λ old.
    parse_table after >>= λ new. ok (map (change_block table) (structure_changes old new))

abbrev definition_in : Text → NamedLines → Text
definition_in table tables = elim (get table tables) [ none ↦ [] | some ddl ↦ ddl ]

created : Bool → NamedLines → List Text → Result DraftError Blocks
unfolding create_table
created rollback after [] = ok []
created rollback after (table ∷ tables) =
    let head = if rollback then codes "recreate the structure of table " else codes "new table " in
    create_table table (definition_in table after) >>= λ sql.
    created rollback after tables >>= λ more. ok ((head ++ table, sql) ∷ more)

changed : NamedLines → NamedLines → List Text → Result DraftError Blocks
unfolding table_changes
changed before after [] = ok []
changed before after (table ∷ tables) =
    let rest = changed before after tables in
    if definition_in table before == definition_in table after
    then rest
    else (table_changes table (definition_in table before) (definition_in table after) >>= λ blocks.
        rest >>= λ more. ok (blocks ++ more))

-- changes: what takes the tables `before` to the tables `after`
unfoldable pub changes : NamedLines → NamedLines → Bool → Result DraftError Blocks
unfolding created changed quoted
changes before after rollback =
    let new = sorted_set (filter_by (λ t. not (has t before)) (names after)) in
    let kept = sorted_set (filter_by (λ t. has t before) (names after)) in
    let gone = sorted_set (filter_by (λ t. not (has t after)) (names before)) in
    created rollback after new >>= λ first. changed before after kept >>= λ middle. ok (
      first
      ++ (middle
          ++ map
              (λ t. (
                codes "drop table " ++ t,
                codes "DROP TABLE IF EXISTS " ++ (quoted t ++ (codes ";" ++ line_end)),
              ))
              gone))

unfoldable pub blocks_text : Blocks → Text
blocks_text [] = []
blocks_text ((title, sql) ∷ blocks) =
    line_end ++ (codes "-- " ++ (title ++ (line_end ++ (sql ++ blocks_text blocks))))

-- draft_text: `digest` is the SHA-256 of a text, `fingerprint` that of the two sets of tables as JSON.
unfoldable pub draft_text :
    (Text → Text)
    → (NamedLines → NamedLines → Text)
    → NamedLines
    → NamedLines
    → Result DraftError Text
unfolding changes blocks_text
draft_text digest fingerprint before after = changes before after false >>= λ forward.
    changes after before true >>= λ back.
    let body =
      blocks_text forward
      ++ (line_end ++ (codes "-- Rollback:" ++ (line_end ++ blocks_text back))) in
    ok (
      codes "-- Schema change: "
      ++ (fingerprint before after
          ++ (line_end ++ (codes "-- Draft checksum: " ++ (digest body ++ (line_end ++ body))))))

schemas_of : NamedLines → List Text
unfolding split_name
schemas_of [] = []
schemas_of ((table, ddl) ∷ tables) =
    (elim (split_name table).0 [ none ↦ [] | some s ↦ s ∷ [] ]) ++ schemas_of tables

-- baselined: without the schemas that the snapshot does not have yet
unfoldable pub baselined : NamedLines → NamedLines → NamedLines
unfolding split_name schemas_of
baselined before after =
    filter_by
      (λ (t : Text × Text). elim (split_name t.0).0 [
        | none ↦ true
        | some s ↦ contains s (schemas_of before)
      ])
      after
