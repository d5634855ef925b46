-- ===== src/Database/Schemas.antt =====
-- The schemas that the settings list: the extra ones of the project, and those of its tests.
use docker_development_envir.Common.{
  ℕ, Bool, true, false, not, ◌&&◌, ◌||◌, ◌==◌, nat_eq, list_eq, option_eq, List, [], ◌∷◌, some,
  Text, Result, ok, codes, ◌≡◌, refl, ◌∙◌, ap, all, any, contains, is_distinct, filter_by, is_empty,
  get, map, is_upper, leb, length, take, drop, ◌-◌, ◌+◌, if◌then◌else◌, Bool-cases, inl, inr, arith,
}
use docker_development_envir.Common.Members.{all-contains}
use docker_development_envir.Common.Results.{◌>>=◌, ◌>>◌, ensure, >>=-ok, ensure-ok, ok-injective}
use docker_development_envir.Settings.{Values, value_of}
use docker_development_envir.Settings.Setup.{words}
use docker_development_envir.Database.{is_name_char, is_schema_name}
pub mod Reached

pub data SchemaError : Type 0 where
  twice repeats_main : SchemaError
  not_allowed taken : List Text → SchemaError

abbrev lowered : ℕ → ℕ
lowered c = if is_upper c then c + 32 else c

abbrev pub system_schemas : List Text
system_schemas =
    codes "mysql" ∷ codes "sys" ∷ codes "information_schema" ∷ codes "performance_schema" ∷ []

unfoldable pub is_extra_name : Text → Bool
unfolding is_schema_name
is_extra_name name = is_schema_name name && not (contains (map lowered name) system_schemas)

-- `settings.get('DATABASE_NAME') in names`
abbrev pub is_main : Values → Text → Bool
is_main settings name = get (codes "DATABASE_NAME") settings == some name

unfoldable pub extra_schemas : Values → Result SchemaError (List Text)
unfolding is_extra_name words
extra_schemas settings = do
  let names = words (value_of (codes "DATABASE_EXTRA_SCHEMAS") settings)
  ensure (all is_extra_name names) (not_allowed (filter_by (λ n. not (is_extra_name n)) names))
  ensure (is_distinct names) twice
  ensure (not (any (is_main settings) names)) repeats_main
  ok names

-- TEST_SCHEMA, `[A-Za-z0-9_*]{1,59}_test`
unfoldable pub is_test_schema : Text → Bool
is_test_schema name =
    let stem = take (length name - 5) name in
    leb 6 (length name)
    && drop (length name - 5) name == codes "_test"
    && leb (length stem) 59
    && all (λ c. is_name_char c || c == b'*') stem

-- `name in extra_schemas(settings)` is asked for each name until one is DATABASE_NAME, so extra schemas that are
-- refused raise only where a name is asked about.
taken_by : Values → List Text → Result SchemaError (List Text)
unfolding extra_schemas
taken_by settings [] = ok []
taken_by settings (name ∷ names) =
    let rest = taken_by settings names in
    if is_main settings name
    then (rest >>= λ more. ok (name ∷ more))
    else (extra_schemas settings >>= λ extras.
        rest >>= λ more. ok (if contains name extras then name ∷ more else more))

unfoldable pub test_schemas : Values → Result SchemaError (List Text)
unfolding is_test_schema words taken_by
test_schemas settings = do
  let names = words (value_of (codes "DATABASE_TEST_SCHEMAS") settings)
  ensure (all is_test_schema names) (not_allowed (filter_by (λ n. not (is_test_schema n)) names))
  ensure (is_distinct names) twice
  used ← taken_by settings names
  ensure (is_empty used) (taken used)
  ok names

abbrev Free : Values → List Text → Text → Type 0
Free settings extras name = (is_main settings name ≡ false) × (contains name extras ≡ false)

taken_by-Free :
    (settings : Values) (extras names : List Text) (name : Text)
    → extra_schemas settings ≡ ok extras
    → taken_by settings names ≡ ok []
    → contains name names ≡ true
    → Free settings extras name
unfolding taken_by
taken_by-Free settings extras [] name h k m = absurd (cc)
taken_by-Free settings extras (first ∷ names) name h k m =
    elim (Bool-cases (is_main settings first)) [
      | inl main ↦
          (let a = >>=-ok (taken_by settings names) _ (rw main at k) in
            let no : first ∷ a.0 ≡ [] = ok-injective {E = SchemaError} a.2 in absurd (cc))
      | inr other ↦
          (let a = >>=-ok (taken_by settings names) _ (rw (other, h) at k) in
            elim (Bool-cases (contains first extras)) [
              | inl extra ↦
                  (let no : first ∷ a.0 ≡ [] = ok-injective {E = SchemaError} (rw extra at a.2) in
                    absurd (cc))
              | inr free ↦
                  (let none_used : a.0 ≡ [] = ok-injective {E = SchemaError} (rw free at a.2) in
                    let rest =
                      taken_by-Free settings extras names name h
                        (a.1 ∙ ap (λ (l : List Text). ok l) none_used) in
                    elim (Bool-cases (first == name)) [
                      | inl same ↦
                          (let eq : first ≡ name = (list_eq.beq_iff first name).0 same in
                            rw (← eq) (other, free))
                      | inr different ↦ rest (ground arith)
                    ])
            ])
    ]

is_empty-eq : (names : List Text) → is_empty names ≡ true → names ≡ []
is_empty-eq [] h = refl
is_empty-eq (n ∷ names) h = absurd (cc)

-- An entry of DATABASE_TEST_SCHEMAS is not spelled like the main database or an extra schema, and has the form
-- of a test schema, when both lists of schemas are accepted.
pub test_schemas-Free :
    (settings : Values) {extras names : List Text} (name : Text)
    → extra_schemas settings ≡ ok extras
    → test_schemas settings ≡ ok names
    → contains name names ≡ true
    → (is_main settings name ≡ false)
      × (contains name extras ≡ false)
      × (is_test_schema name ≡ true)
unfolding test_schemas
test_schemas-Free settings {extras} {names} name h k m =
    let listed = words (value_of (codes "DATABASE_TEST_SCHEMAS") settings) in
    let a =
      >>=-ok
        (ensure (all is_test_schema listed)
          (not_allowed (filter_by (λ n. not (is_test_schema n)) listed)))
        _ k in
    let b = >>=-ok (ensure (is_distinct listed) twice) _ a.2 in
    let c = >>=-ok (taken_by settings listed) _ b.2 in
    let d = >>=-ok (ensure (is_empty c.0) (taken c.0)) _ c.2 in
    let same : listed ≡ names = ok-injective {E = SchemaError} d.2 in
    let here : contains name listed ≡ true = ap (contains name) same ∙ m in
    let unused = is_empty-eq c.0 (ensure-ok (is_empty c.0) (taken c.0) d.1) in
    let free =
      taken_by-Free settings extras listed name h (c.1 ∙ ap (λ (l : List Text). ok l) unused)
        here in
    (
      free.0,
      free.1,
      all-contains is_test_schema name listed
          (ensure-ok (all is_test_schema listed)
            (not_allowed (filter_by (λ n. not (is_test_schema n)) listed)) a.1)
          here,
    )
