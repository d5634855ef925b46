-- ===== src/Migrations/Drafts/Write.antt =====
-- write_drafts: the drafts from the committed snapshot to the database, one for each changed schema.
use docker_development_envir.Common.{
  Bool, false, not, ◌==◌, nat_eq, list_eq, option_eq, List, [], ◌∷◌, ◌++◌, Option, none, some, Text,
  Result, ok, err, Run, pure, lift, modify, ◌>>=◌, ◌>>◌, all, filter_by, get, put, map, is_empty,
  if◌then◌else◌,
}
use docker_development_envir.Database.{split_name, is_schema_name}
use docker_development_envir.Database.Registry.{remove_entries}
use docker_development_envir.Migrations.Drafts.{NamedLines, DraftError, names, has}
use docker_development_envir.Migrations.Drafts.Draft.{draft_text, baselined}
use docker_development_envir.Migrations.Drafts.Folder.{Folder, FolderError, write_draft}

pub data DraftsError : Type 0 where
  bad_table : DraftError → DraftsError
  bad_folder : FolderError → DraftsError
  no_main : DraftsError

-- The lines of the registry file, none where there is no file or a symbolic link, and the folders of migrations
-- by their names, the empty one being the migrations directory itself.
pub record Drafting : Type 0 where
  pub registry : Option (List Text)
  pub folders : List (Text × Folder)

abbrev empty_folder : Folder
empty_folder = record { files = []; link = false; links = [] }

unfoldable pub folder_at : Text → Drafting → Folder
folder_at name s = elim (get name s.folders) [ none ↦ empty_folder | some folder ↦ folder ]

-- Equality of two `dict`s
unfoldable pub is_same : NamedLines → NamedLines → Bool
is_same a b = all (λ t. get t a == get t b) (names a ++ names b)

-- main_directory of database_schema.py, by the extra schemas and DATABASE_NAME
unfoldable pub main_directory : List Text → Text → Result DraftsError (Option Text)
unfolding is_schema_name
main_directory extras name =
    if is_empty extras then ok none else if is_schema_name name then ok (some name) else err no_main

-- migration_folder
abbrev pub migration_folder : Option Text → Option Text → Text
migration_folder none schema = []
migration_folder (some main) none = main
migration_folder (some main) (some schema) = schema

-- schema_tables
unfoldable pub schema_tables : NamedLines → Option Text → Bool → NamedLines
unfolding split_name
schema_tables definitions schema qualified =
    map (λ (t : Text × Text). (if qualified then t.0 else (split_name t.0).1, t.1))
      (filter_by (λ (t : Text × Text). (split_name t.0).0 == schema) definitions)

abbrev table_result : Result DraftError Text → Result DraftsError Text
table_result (ok text) = ok text
table_result (err e) = err (bad_table e)

-- `digest` and `fingerprint` as for draft_text; of each folder, the files of the last commit and the name of a
-- new draft.
module _ (digest : Text → Text) (fingerprint : NamedLines → NamedLines → Text)
    (committed : Text → List Text) (fresh : Text → Text) where
  abbrev pub stored_folder :
      Text
      → Drafting
      → Result FolderError (Option Text × Folder)
      → Result DraftsError (Option Text) × Drafting
  stored_folder dir s (ok (path, folder)) =
      (ok path, record s { folders = put dir folder s.folders })
  stored_folder dir s (err e) = (err (bad_folder e), s)

  -- write_draft in one folder
  unfoldable pub write_folder : Text → Text → Run DraftsError Drafting (Option Text)
  unfolding write_draft folder_at
  write_folder dir text s =
      stored_folder dir s (write_draft digest (committed dir) (fresh dir) (folder_at dir s) text)

  -- One schema: the (folder, file) of its draft, if there is one.
  unfoldable pub write_schema :
      Option Text
      → NamedLines
      → NamedLines
      → Option Text
      → Run DraftsError Drafting (List (Text × Text))
  unfolding schema_tables is_same draft_text write_folder ◌>>=◌
  write_schema main before after schema =
      let old = schema_tables before schema (main == none) in
      let new = schema_tables after schema (main == none) in
      let folder = migration_folder main schema in
      let draft = lift (table_result (draft_text digest fingerprint old new)) >>= λ text.
      write_folder folder text in
      let written =
        draft >>= λ path. pure (elim path [ none ↦ [] | some name ↦ (folder, name) ∷ [] ]) in
      if is_same old new then pure [] else written

  unfoldable pub write_schemas :
      Option Text
      → NamedLines
      → NamedLines
      → List (Option Text)
      → Run DraftsError Drafting (List (Text × Text))
  unfolding write_schema ◌>>=◌
  write_schemas main before after [] = pure []
  write_schemas main before after (schema ∷ schemas) = do
    paths ← write_schema main before after schema
    more ← write_schemas main before after schemas
    pure (paths ++ more)

  -- remove_entries on the file
  abbrev unregister : Option Text → List Text → Drafting → Drafting
  unregister prefix tables s = record s {
    registry = elim s.registry [
      | none ↦ none
      | some lines ↦ some (remove_entries prefix tables lines).0
    ];
  }

  -- write_drafts: `before` are the committed definitions, none without a committed snapshot, `actual` those of
  -- the database, and `prefix` that of the project's tables.
  unfoldable pub write_drafts :
      Option Text
      → List Text
      → Text
      → Option NamedLines
      → NamedLines
      → Run DraftsError Drafting (List (Text × Text))
  unfolding baselined is_same remove_entries main_directory write_schemas ◌>>=◌
  write_drafts prefix extras main none actual = pure []
  write_drafts prefix extras main (some before) actual =
      let after = baselined before actual in
      let gone = filter_by (λ t. not (has t after)) (names before) in
      let run =
        modify (unregister prefix gone)
        >> (lift (main_directory extras main) >>= λ flat.
            write_schemas flat before after (none ∷ map some extras)) in
      if is_same before after then pure [] else run
