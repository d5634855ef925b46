-- ===== src/Tests/Drafts.antt =====
-- Two definitions of a table, and a commit that changes it.
use docker_development_envir.Common.{
  true, false, nat_eq, list_eq, option_eq, List, [], ◌∷◌, ◌++◌, some, Text, ◌≡◌, refl, codes, get,
  contains, split_on, ◌==◌,
}
use docker_development_envir.Common.Sort.{sorted_set}
use docker_development_envir.Migrations.{is_open}
use docker_development_envir.Migrations.Files.{is_migration_name}
use docker_development_envir.Migrations.Drafts.{NamedLines}
use docker_development_envir.Migrations.Drafts.Draft.{baselined}
use docker_development_envir.Migrations.Drafts.Commit.{
  uncovered, folder_of, base_of, folder_schema, schema_of, commit_problems,
}
use docker_development_envir.Migrations.Drafts.Covered.{commit_problems-none}

abbrev lines_of : List Text → Text
lines_of [] = []
lines_of (line ∷ lines) = line ++ 10 ∷ lines_of lines

abbrev before_text : Text
before_text = lines_of (
    codes "CREATE TABLE `t` ("
    ∷ codes "  `id` int NOT NULL,"
    ∷ codes "  `old` int,"
    ∷ codes "  PRIMARY KEY (`id`)"
    ∷ codes ") ENGINE=InnoDB;"
    ∷ [])

abbrev after_text : Text
after_text = lines_of (
    codes "CREATE TABLE `t` ("
    ∷ codes "  `id` bigint NOT NULL,"
    ∷ codes "  `new` int,"
    ∷ codes "  PRIMARY KEY (`id`)"
    ∷ codes ") ENGINE=InnoDB;"
    ∷ [])

abbrev old_tables : NamedLines
old_tables = (codes "t", before_text) ∷ []

abbrev new_tables : NamedLines
new_tables = (codes "t", after_text) ∷ (codes "stats.s", after_text) ∷ []

abbrev pub migration : Text
migration = codes "20260101120000-schema.sql"

abbrev staged_files : NamedLines
staged_files = (migration, codes "ALTER TABLE `t` ADD COLUMN `new` int;") ∷ []

staged_passes :
    commit_problems (codes "stats" ∷ []) true (some old_tables) (some new_tables) staged_files false
    ≡ []
unfolding sorted_set commit_problems baselined is_migration_name is_open folder_of base_of
    folder_schema
staged_passes = refl

-- Without the migration the change of `t` is not covered.
uncovered_change :
    commit_problems (codes "stats" ∷ []) true (some old_tables) (some new_tables) [] false
    ≡ uncovered [] ∷ []
unfolding sorted_set commit_problems baselined
uncovered_change = refl

t_changes :
    (get (codes "t") old_tables == get (codes "t") (baselined old_tables new_tables)) ≡ false
unfolding baselined
t_changes = refl

commit_problems-none_example :
    (name : Text) × (text : Text) × (get name staged_files ≡ some text)
    × (folder_schema (codes "stats" ∷ []) name ≡ schema_of (codes "t"))
    × (is_migration_name (base_of name) ≡ true)
    × (contains b'/' (folder_of name) ≡ false)
    × (is_open (split_on 10 text) ≡ false)
commit_problems-none_example =
    commit_problems-none (codes "stats" ∷ []) old_tables new_tables staged_files false (codes "t")
      staged_passes t_changes
