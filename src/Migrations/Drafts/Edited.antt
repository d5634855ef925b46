-- ===== src/Migrations/Drafts/Edited.antt =====
-- Which files write_draft changes.
use docker_development_envir.Common.{
  true, false, not, ◌||◌, ◌==◌, nat_eq, list_eq, option_eq, List, [], ◌∷◌, Option, Text, Result, ok,
  err, ◌≡◌, refl, ◌∙◌, subst, contains, is_empty, filter_by, get, get-put, last?, Bool-cases,
  Option-cases, inl, inr,
}
use docker_development_envir.Common.Results.{ok-injective}
use docker_development_envir.Common.Members.{last?-In, filter_by-In}
use docker_development_envir.Migrations.Drafts.Folder.{
  Folder, FolderError, draft_marker, line_from, first_line, untouched_draft, split_header,
  new_migrations, text_of, is_link, marked, with_file, refreshed, placed, write_draft,
}

contains-is_empty : (name : Text) (xs : List Text) → contains name xs ≡ true → is_empty xs ≡ false
contains-is_empty name [] h = absurd (cc)
contains-is_empty name (x ∷ xs) h = refl

module _ (digest : Text → Text) where
  -- A file with other content than the draft's is left alone unless it is the one written.
  get-with_file :
      (folder : Folder) (target text name : Text)
      → (target == name) ≡ false
      → get name (with_file folder target text).files ≡ get name folder.files
  get-with_file folder target text name other =
      get-put target name text folder.files ∙ rw other refl

  abbrev Keeps : Text → Folder → Folder → Type 0
  Keeps name folder next = get name next.files ≡ get name folder.files

  differs :
      (a b : Text)
      → untouched_draft digest a ≡ true
      → untouched_draft digest b ≡ false
      → (a == b) ≡ false
  differs a b h k = elim (Bool-cases (a == b)) [
    | inl same ↦ (let eq : a ≡ b = (list_eq.beq_iff a b).0 same in absurd (cc))
    | inr other ↦ other
  ]

  apart :
      (folder : Folder) (target name : Text)
      → untouched_draft digest (text_of target folder.files) ≡ true
      → untouched_draft digest (text_of name folder.files) ≡ false
      → (target == name) ≡ false
  apart folder target name h k = elim (Bool-cases (target == name)) [
    | inl same ↦ (let eq : target ≡ name = (list_eq.beq_iff target name).0 same in absurd (cc))
    | inr other ↦ other
  ]

  Keeps-refreshed :
      (folder : Folder) (target text name : Text)
      → untouched_draft digest (text_of name folder.files) ≡ false
      → Keeps name folder (refreshed digest folder target text)
  unfolding refreshed
  Keeps-refreshed folder target text name edited =
      let current = text_of target folder.files in
      let changed = not (split_header current == split_header text) in
      elim (Bool-cases (untouched_draft digest current)) [
        | inr touched ↦ rw touched refl
        | inl untouched ↦ (elim (Bool-cases changed) [
          | inr same ↦ rw (untouched, same) refl
          | inl newer ↦
              rw (untouched, newer)
                (get-with_file folder target text name (apart folder target name untouched edited))
        ])
      ]

  Keeps-placed :
      (folder : Folder) (target text name : Text) {result : Option Text × Folder}
      → placed folder target text ≡ ok result
      → (target == name) ≡ false
      → Keeps name folder result.1
  unfolding placed
  Keeps-placed folder target text name {result} h other =
      elim (Bool-cases (contains target folder.links || folder.link)) [
        | inl link ↦
            (let no : ◌≡◌ {A = Result FolderError (Option Text × Folder)} (err is_link)
                  (ok result) =
                rw link at h in
              absurd (cc))
        | inr plain ↦
            subst (λ (r : Option Text × Folder). get name r.1.files ≡ get name folder.files)
              (ok-injective {E = FolderError} (rw plain at h))
              (get-with_file folder target text name other)
      ]

  -- Whatever write_draft returns, and whatever the time and the text: a file that the last commit does not have
  -- and that somebody edited since setup wrote it has the text that it had.
  pub get-write_draft :
      (committed : List Text) (fresh : Text) (folder : Folder) (text : Text)
      {result : Option Text × Folder}
      → write_draft digest committed fresh folder text ≡ ok result
      → (name : Text) → contains name (new_migrations committed folder.files) ≡ true
      → untouched_draft digest (text_of name folder.files) ≡ false
      → get name result.1.files ≡ get name folder.files
  unfolding write_draft
  get-write_draft committed fresh folder text {result} h name pending edited =
      let listed = new_migrations committed folder.files in
      let is_draft = λ (n : Text). untouched_draft digest (text_of n folder.files) in
      elim (Option-cases (line_from draft_marker true text)) [
        | inl no_line ↦ absurd (cc)
        | inr (rest, line) ↦ (elim (Option-cases (marked (first_line rest) folder.files listed)) [
          | inr (target, found) ↦
              (let done = ok-injective {E = FolderError} (rw (line, found, write_draft) at h) in
                subst (λ (r : Option Text × Folder). get name r.1.files ≡ get name folder.files)
                  done (Keeps-refreshed folder target text name edited))
          | inl other ↦ (elim (Option-cases (last? (filter_by is_draft listed))) [
            | inr (target, last) ↦
                (let (untouched, here) =
                    filter_by-In is_draft listed (last?-In (filter_by is_draft listed) last) in
                  Keeps-placed folder target text name (rw (line, other, last, write_draft) at h)
                    (apart folder target name untouched edited))
            | inl no_drafts ↦
                (let some_pending = contains-is_empty name listed pending in
                  subst (λ (r : Option Text × Folder). get name r.1.files ≡ get name folder.files)
                    (ok-injective {E = FolderError}
                      (rw (line, other, no_drafts, some_pending, write_draft) at h))
                    refl)
          ])
        ])
      ]
