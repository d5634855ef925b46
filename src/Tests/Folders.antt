-- ===== src/Tests/Folders.antt =====
-- A folder of migrations, and drafts that are written there.
use docker_development_envir.Common.{
  ℕ, zero, suc, true, false, nat_eq, list_eq, option_eq, [], ◌∷◌, ◌++◌, none, some, Text, ◌≡◌, refl,
  Result, ok, err, codes, get, contains,
}
use docker_development_envir.Common.Glob.{fnmatch}
use docker_development_envir.Common.Sort.{sorted_set}
use docker_development_envir.Migrations.Drafts.{NamedLines, DraftError}
use docker_development_envir.Migrations.Drafts.Draft.{draft_text}
use docker_development_envir.Migrations.Drafts.Folder.{
  is_hex, text_of, Folder, untouched_draft, write_draft, new_migrations,
}
use docker_development_envir.Migrations.Drafts.Untouched.{is_digest, untouched_draft-draft_text}
use docker_development_envir.Migrations.Drafts.Edited.{get-write_draft}
use docker_development_envir.Migrations.Drafts.Write.{Drafting, folder_at, write_drafts}
use docker_development_envir.Migrations.Drafts.Kept.{get-write_drafts}
use docker_development_envir.Tests.Drafts.{migration}

-- A function with the form of a digest.
abbrev sixty_four : ℕ → Text
sixty_four zero = []
sixty_four (suc n) = b'a' ∷ sixty_four n

abbrev sum_of : Text → Text
sum_of text = sixty_four 64

sum_of-is_digest : is_digest (sixty_four 64) ≡ true
unfolding is_hex
sum_of-is_digest = refl

abbrev sum_of_tables : NamedLines → NamedLines → Text
sum_of_tables old new = sixty_four 64

abbrev one_table : NamedLines
one_table = (codes "t", codes "CREATE TABLE `t` (" ++ 10 ∷ codes ") ENGINE=InnoDB") ∷ []

abbrev text_or_none : Result DraftError Text → Text
text_or_none (ok text) = text
text_or_none (err e) = []

abbrev drafted : Text
unfolding sorted_set draft_text
drafted = text_or_none (draft_text sum_of sum_of_tables [] one_table)

drafted_text : draft_text sum_of sum_of_tables [] one_table ≡ ok drafted
unfolding sorted_set draft_text
drafted_text = refl

untouched_draft-draft_text_example : untouched_draft sum_of drafted ≡ true
untouched_draft-draft_text_example =
    untouched_draft-draft_text sum_of sum_of_tables [] one_table (λ body. sum_of-is_digest)
      (λ old new. sum_of-is_digest) drafted_text

-- A folder with a migration that somebody wrote by hand and with an unedited draft.
abbrev folder : Folder
folder = record {
  files = (migration, codes "DROP TABLE old;") ∷ (codes "20260102120000-schema.sql", drafted) ∷ [];
  link = false;
  links = [];
}

abbrev other_draft : Text
other_draft = codes "-- Schema change: other"

abbrev folder_after : Folder
folder_after = record {
  files =
      (migration, codes "DROP TABLE old;") ∷ (codes "20260102120000-schema.sql", other_draft) ∷ [];
  link = false;
  links = [];
}

draft_written :
    write_draft sum_of [] (codes "20260103120000-schema.sql") folder other_draft
    ≡ ok (some (codes "20260102120000-schema.sql"), folder_after)
unfolding sorted_set write_draft fnmatch drafted
draft_written = refl

migration_pending : contains migration (new_migrations [] folder.files) ≡ true
unfolding new_migrations sorted_set fnmatch
migration_pending = refl

migration_edited : untouched_draft sum_of (text_of migration folder.files) ≡ false
unfolding untouched_draft
migration_edited = refl

get-write_draft_example : get migration folder_after.files ≡ some (codes "DROP TABLE old;")
get-write_draft_example =
    get-write_draft sum_of [] (codes "20260103120000-schema.sql") folder other_draft draft_written
      migration migration_pending migration_edited

-- The same folder, with a draft of the database that is now to be written.
abbrev drafting : Drafting
drafting = record { registry = some []; folders = ([], folder) ∷ [] }

migration_sql : fnmatch migration (codes "*.sql") ≡ true
unfolding fnmatch
migration_sql = refl

hand_written : untouched_draft sum_of (codes "DROP TABLE old;") ≡ false
unfolding untouched_draft
hand_written = refl

migration_there : get migration (folder_at [] drafting).files ≡ some (codes "DROP TABLE old;")
unfolding folder_at
migration_there = refl

get-write_drafts_example :
    get migration
      (folder_at []
        (write_drafts sum_of sum_of_tables
          (λ dir. [])
          (λ dir. codes "20260104120000-schema.sql")
          none
          []
          []
          (some [])
          one_table
          drafting).1).files
    ≡ some (codes "DROP TABLE old;")
get-write_drafts_example =
    get-write_drafts sum_of sum_of_tables (λ dir. []) (λ dir. codes "20260104120000-schema.sql") []
      migration (codes "DROP TABLE old;") migration_sql refl hand_written none [] [] (some [])
      one_table drafting migration_there
