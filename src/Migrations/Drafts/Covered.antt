-- ===== src/Migrations/Drafts/Covered.antt =====
-- What a commit without problems has.
use docker_development_envir.Common.{
  Bool, true, false, not, ◌||◌, ◌==◌, nat_eq, list_eq, option_eq, List, [], ◌∷◌, ◌++◌, none, some,
  Text, ◌≡◌, refl, sym, subst, ◌∙◌, ap, contains, filter_by, get, map, split_on, if◌then◌else◌,
  Bool-cases, inl, inr, arith, beq_self, Eq,
}
use docker_development_envir.Common.Members.{
  get-absent, contains-get, contains-map, contains-In, contains-append, contains-filter_by,
}
use docker_development_envir.Common.Sort.{sorted_set, contains-sorted_set}
use docker_development_envir.Migrations.{is_open}
use docker_development_envir.Migrations.Files.{is_migration_name}
use docker_development_envir.Migrations.Drafts.{NamedLines, names}
use docker_development_envir.Migrations.Drafts.Draft.{baselined}
use docker_development_envir.Migrations.Drafts.Commit.{
  CommitProblem, uncovered, folder_of, base_of, folder_schema, schema_of, schema_key,
  changed_schemas, file_problems, named_problems, uncovered_schemas, missing_problems,
  commit_problems,
}

append-empty : {A : Type 0} (xs ys : List A) → xs ++ ys ≡ [] → (xs ≡ []) × (ys ≡ [])
append-empty [] ys h = (refl, h)
append-empty (x ∷ xs) ys h = absurd (cc)

or_true : (b : Bool) → (b || true) ≡ true
or_true true = refl
or_true false = refl

contains-mapped :
    {A B : Type 0} ⦃e : Eq A⦄ ⦃d : Eq B⦄ (f : A → B) (a : A) (xs : List A)
    → contains a xs ≡ true
    → contains (f a) (map f xs) ≡ true
contains-mapped f a [] h = absurd (cc)
contains-mapped ⦃e = e⦄ f a (x ∷ xs) h = elim (Bool-cases (x == a)) [
  | inl same ↦ (let eq : x ≡ a = (e.beq_iff x a).0 same in rw (eq, beq_self (f a)) refl)
  | inr other ↦ rw (contains-mapped f a xs (rw other at h)) (or_true (f x == f a))
]

listed-changed :
    (before after : NamedLines) (table : Text)
    → (get table before == get table after) ≡ false
    → contains table (names before ++ names after) ≡ true
listed-changed before after table differs =
    elim (Bool-cases (contains table (names before ++ names after))) [
      | inl listed ↦ listed
      | inr absent ↦
          (let apart = sym (contains-append table (names before) (names after)) ∙ absent in
            let gone : get table before ≡ none = get-absent table before (ground arith) in
            let new : get table after ≡ none = get-absent table after (ground arith) in
            let same : (get table before == get table after) ≡ true = rw (gone, new) refl in
            absurd (cc))
    ]

schema-changed :
    (before after : NamedLines) (table : Text)
    → (get table before == get table after) ≡ false
    → contains (schema_of table) (changed_schemas before after) ≡ true
unfolding changed_schemas
schema-changed before after table differs =
    contains-mapped schema_of table
      (filter_by (λ t. not (get t before == get t after)) (names before ++ names after))
      (contains-filter_by (λ t. not (get t before == get t after)) table
          (names before ++ names after)
        ∙ rw (listed-changed before after table differs, differs) refl)

-- Every schema with a change is that of a staged migration.
covered-schema :
    (extras : List Text) (before after : NamedLines) (staged_names : List Text) (table : Text)
    → uncovered_schemas extras before after staged_names ≡ []
    → (get table before == get table after) ≡ false
    → contains (schema_of table) (map (folder_schema extras) staged_names) ≡ true
unfolding uncovered_schemas
covered-schema extras before after staged_names table h differs =
    let covered = map (folder_schema extras) staged_names in
    let loose = filter_by (λ s. not (contains s covered)) (changed_schemas before after) in
    elim (Bool-cases (contains (schema_of table) covered)) [
      | inl met ↦ met
      | inr unmet ↦
          (let stays : contains (schema_of table) loose ≡ true =
              contains-filter_by (λ s. not (contains s covered)) (schema_of table)
                (changed_schemas before after)
              ∙ rw (schema-changed before after table differs, unmet) refl in
            let key = schema_key (schema_of table) in
            let listed : contains key (sorted_set (map schema_key loose)) ≡ true =
              contains-sorted_set key (map schema_key loose)
              ∙ contains-mapped schema_key (schema_of table) loose stays in
            let no : contains key [] ≡ true = ap (contains key) (sym h) ∙ listed in absurd (cc))
    ]

abbrev Passes : Text → Text → Type 0
Passes name text =
    (is_migration_name (base_of name) ≡ true)
    × (contains b'/' (folder_of name) ≡ false)
    × (is_open (split_on 10 text) ≡ false)

Passes-file : (name text : Text) → file_problems name text ≡ [] → Passes name text
Passes-file name text h =
    go (is_migration_name (base_of name)) (contains b'/' (folder_of name))
      (is_open (split_on 10 text)) h
  where
    go :
        (good nested todo : Bool)
        → ((if not good || nested then CommitProblem.misnamed name ∷ [] else [])
              ++ (if todo then CommitProblem.open_todo name ∷ [] else [])
            ≡ [])
        → (good ≡ true) × (nested ≡ false) × (todo ≡ false)
    go true false false k = (refl, refl, refl)
    go true false true k = absurd (cc)
    go true true todo k = absurd (cc)
    go false nested todo k = absurd (cc)

Passes-named :
    (migrations : NamedLines) (listed : List Text) (name text : Text)
    → named_problems migrations listed ≡ []
    → contains name listed ≡ true
    → get name migrations ≡ some text
    → Passes name text
unfolding named_problems
Passes-named migrations [] name text h k g = absurd (cc)
Passes-named migrations (first ∷ listed) name text h k g =
    let own : List CommitProblem = elim (get first migrations) [
      | none ↦ []
      | some t ↦ file_problems first t
    ] in
    let both = append-empty own (named_problems migrations listed) h in
    elim (Bool-cases (first == name)) [
      | inl same ↦
          (let eq : first ≡ name = (list_eq.beq_iff first name).0 same in
            let here : get first migrations ≡ some text =
              ap (λ (n : Text). get n migrations) eq ∙ g in
            subst (λ (n : Text). Passes n text) eq (Passes-file first text (rw here at both.0)))
      | inr other ↦ Passes-named migrations listed name text both.1 (rw other at k) g
    ]

-- When migrations are on, a snapshot is committed and one is staged, a commit without problems has for every
-- table whose definition it changes (a table of a schema without a committed snapshot has none) a staged
-- migration of that table's schema, whose file is named as migrations are, stands in no folder of a folder, and
-- has no TODO left.
pub commit_problems-none :
    (extras : List Text) (before staged migrations : NamedLines) (unstaged : Bool) (table : Text)
    → commit_problems extras true (some before) (some staged) migrations unstaged ≡ []
    → (get table before == get table (baselined before staged)) ≡ false
    → (name : Text) × (text : Text) × (get name migrations ≡ some text)
      × (folder_schema extras name ≡ schema_of table)
      × (is_migration_name (base_of name) ≡ true)
      × (contains b'/' (folder_of name) ≡ false)
      × (is_open (split_on 10 text) ≡ false)
unfolding commit_problems missing_problems
commit_problems-none extras before staged migrations unstaged table h differs =
    let files = named_problems migrations (sorted_set (names migrations)) in
    let after = baselined before staged in
    let missing = uncovered_schemas extras before after (names migrations) in
    let all_clear = append-empty (files ++ map uncovered missing) _ h in
    let parts = append-empty files (map uncovered missing) all_clear.0 in
    let met =
      covered-schema extras before after (names migrations) table (unmapped missing parts.1)
        differs in
    let (name, here, schema) =
      contains-map (folder_schema extras) (schema_of table) (names migrations) met in
    let listed = contains-In name (names migrations) here in
    let (text, stands) = contains-get name migrations listed in
    let (named, flat, done) =
      Passes-named migrations (sorted_set (names migrations)) name text parts.0
        (contains-sorted_set name (names migrations) ∙ listed) stands in
    (name, text, stands, schema, named, flat, done)
  where
    unmapped : (keys : List Text) → map CommitProblem.uncovered keys ≡ [] → keys ≡ []
    unmapped [] k = refl
    unmapped (key ∷ keys) k = absurd (cc)
