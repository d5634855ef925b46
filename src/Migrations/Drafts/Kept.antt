-- ===== src/Migrations/Drafts/Kept.antt =====
-- What write_drafts leaves alone, whether it returns or raises.
use docker_development_envir.Common.{
  true, false, not, ◌&&◌, ◌==◌, nat_eq, list_eq, option_eq, List, [], ◌∷◌, ◌++◌, Option, none, some,
  Text, Result, Result-cases, ok, err, pure, codes, ◌≡◌, refl, ◌∙◌, subst, contains, get, put,
  get-put, map, if◌then◌else◌, Bool-cases, inl, inr, Post,
}
use docker_development_envir.Common.Glob.{fnmatch}
use docker_development_envir.Common.Members.{get-absent, contains-filter_by}
use docker_development_envir.Common.Sort.{contains-sorted_set}
use docker_development_envir.Common.Triples.{
  Keeps, keeps_rules, Keeps-bind, Keeps-lift, Keeps-pure, Keeps-if, Triple-modify,
}
use docker_development_envir.Migrations.Drafts.{NamedLines, names}
use docker_development_envir.Migrations.Drafts.Draft.{baselined}
use docker_development_envir.Migrations.Drafts.Folder.{
  Folder, untouched_draft, text_of, new_migrations, write_draft,
}
use docker_development_envir.Migrations.Drafts.Edited.{get-write_draft}
use docker_development_envir.Migrations.Drafts.Write.{
  DraftsError, Drafting, folder_at, is_same, main_directory, write_folder, write_schema,
  write_schemas, write_drafts,
}

folder_at-put :
    (dir at : Text) (folder : Folder) (s : Drafting)
    → folder_at dir (record s { folders = put at folder s.folders })
      ≡ (if at == dir then folder else folder_at dir s)
unfolding folder_at
folder_at-put dir at folder s =
    rw (folder_at, get-put at dir folder s.folders)
      (elim (Bool-cases (at == dir)) [ inl same ↦ rw same refl | inr other ↦ rw other refl ])

contains-listed :
    (name : Text) (files : NamedLines) {text : Text}
    → get name files ≡ some text
    → contains name (names files) ≡ true
contains-listed name files h = elim (Bool-cases (contains name (names files))) [
  | inl listed ↦ listed
  | inr absent ↦ (let gone = get-absent name files absent in absurd (cc))
]

contains-new_migrations :
    (committed : List Text) (name : Text) (files : NamedLines) {text : Text}
    → get name files ≡ some text
    → fnmatch name (codes "*.sql") ≡ true
    → contains name committed ≡ false
    → contains name (new_migrations committed files) ≡ true
unfolding new_migrations
contains-new_migrations committed name files h is_sql new =
    contains-sorted_set name _
    ∙ contains-filter_by (λ n. fnmatch n (codes "*.sql") && not (contains n committed)) name
        (names files)
    ∙ rw (contains-listed name files h, is_sql, new) refl

module _ (digest : Text → Text) (fingerprint : NamedLines → NamedLines → Text)
    (committed : Text → List Text) (fresh : Text → Text) where
  module _ (dir name text : Text) (is_sql : fnmatch name (codes "*.sql") ≡ true)
      (new : contains name (committed dir) ≡ false)
      (edited : untouched_draft digest text ≡ false) where
    Stands : Drafting → Type 0
    Stands s = get name (folder_at dir s).files ≡ some text

    Stands-stored :
        (at draft : Text) (s : Drafting) {path : Option Text} {next : Folder}
        → write_draft digest (committed at) (fresh at) (folder_at at s) draft ≡ ok (path, next)
        → Stands s
        → Stands (record s { folders = put at next s.folders })
    unfolding Stands
    Stands-stored at draft s {path} {next} h p = elim (Bool-cases (at == dir)) [
      | inr other ↦ rw (folder_at-put dir at next s) (rw other p)
      | inl same ↦
          (let eq : at ≡ dir = (list_eq.beq_iff at dir).0 same in
            let written =
              subst
                (λ (d : Text).
                  write_draft digest (committed d) (fresh d) (folder_at d s) draft
                  ≡ ok (path, next))
                eq h in
            let current : untouched_draft digest (text_of name (folder_at dir s).files) ≡ false =
              rw (text_of, p) edited in
            let pending =
              contains-new_migrations (committed dir) name (folder_at dir s).files p is_sql new in
            let kept =
              get-write_draft digest (committed dir) (fresh dir) (folder_at dir s) draft written
                name pending current in
            rw (folder_at-put dir at next s) (rw same (kept ∙ p)))
    ]

    Keeps-write_folder :
        (at draft : Text) → Keeps Stands (write_folder digest fingerprint committed fresh at draft)
    unfolding write_folder
    Keeps-write_folder at draft = record {
      holds = λ s p.
          elim (Result-cases
            (write_draft digest (committed at) (fresh at) (folder_at at s) draft)) [
              | inl (e, h) ↦ rw (write_folder, h) p
              | inr ((path, next), h) ↦ rw (write_folder, h) (Stands-stored at draft s h p)
            ];
    }

    Keeps-write_schema :
        (main : Option Text) (before after : NamedLines) (schema : Option Text)
        → Keeps Stands (write_schema digest fingerprint committed fresh main before after schema)
    unfolding write_schema
    Keeps-write_schema main before after schema = search (keeps_rules, Keeps-write_folder)

    Keeps-write_schemas :
        (main : Option Text) (before after : NamedLines) (schemas : List (Option Text))
        → Keeps Stands (write_schemas digest fingerprint committed fresh main before after schemas)
    unfolding write_schemas
    Keeps-write_schemas main before after [] = Keeps-pure []
    Keeps-write_schemas main before after (schema ∷ schemas) =
        Keeps-bind _ _ (Keeps-write_schema main before after schema) (λ paths.
          Keeps-bind _ _ (Keeps-write_schemas main before after schemas)
            (λ more. Keeps-pure (paths ++ more)))

    Stands-registry :
        (s : Drafting) (lines : Option (List Text))
        → Stands s
        → Stands (record s { registry = lines })
    unfolding Stands folder_at
    Stands-registry s lines p = p

    Keeps-write_drafts :
        (prefix : Option Text) (extras : List Text) (main : Text) (before : Option NamedLines)
        (actual : NamedLines)
        → Keeps Stands
            (write_drafts digest fingerprint committed fresh prefix extras main before actual)
    unfolding write_drafts
    Keeps-write_drafts prefix extras main none actual = Keeps-pure []
    Keeps-write_drafts prefix extras main (some before) actual =
        Keeps-if (is_same before (baselined before actual)) (pure []) _ (Keeps-pure []) (
          Keeps-bind _ _ (Triple-modify _ (λ s p. Stands-registry s _ p)) (λ done.
            Keeps-bind _ _ (Keeps-lift (main_directory extras main)) (λ flat.
              Keeps-write_schemas flat before (baselined before actual) (none ∷ map some extras))))

    after_run :
        (x : Result DraftsError (List (Text × Text)) × Drafting)
        → Post (λ _. Stands) (λ _. Stands) x
        → Stands x.1
    after_run (ok paths, s) p = p
    after_run (err e, s) p = p

    -- Whatever the two sets of tables are, and whether write_drafts returns or raises in one of the schemas: a
    -- *.sql file of a folder of migrations that the last commit does not have and that somebody edited since
    -- setup wrote it has its text afterwards.
    pub get-write_drafts :
        (prefix : Option Text) (extras : List Text) (main : Text) (before : Option NamedLines)
        (actual : NamedLines) (s : Drafting)
        → get name (folder_at dir s).files ≡ some text
        → get name
            (folder_at dir
              (write_drafts digest fingerprint committed fresh prefix extras main before actual
                s).1).files
          ≡ some text
    unfolding Stands
    get-write_drafts prefix extras main before actual s stands =
        let kept = Keeps-write_drafts prefix extras main before actual in
        after_run
          (write_drafts digest fingerprint committed fresh prefix extras main before actual s)
          (kept.holds s stands)
