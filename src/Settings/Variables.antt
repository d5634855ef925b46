-- ===== src/Settings/Variables.antt =====
-- The merged settings of an environment, and deployment_variables: the names that the process must bring.
use docker_development_envir.Common.{
  Bool, true, false, not, ◌&&◌, ◌||◌, ◌==◌, nat_eq, list_eq, List, [], ◌∷◌, ◌++◌, Option, none,
  some, Text, Result, ok, err, codes, contains, get, put, all, is_digit, is_upper, is_empty,
  is_some, dedup, filter_by, map, ltb, if◌then◌else◌,
}
use docker_development_envir.Environments.{is_server}
use docker_development_envir.Settings.{Values, value_of, hides_process_value}
use docker_development_envir.Settings.Setup.{words, setup_required, setup_optional}

pub data SettingsError : Type 0 where
  unknown_targets odd_targets bad_names hidden_variables unlisted_plain : List Text → SettingsError
  bad_version : Text → SettingsError

-- `values.update(entries)`
abbrev pub updated : Values → Values → Values
updated values [] = values
updated values ((key, value) ∷ entries) = updated (put key value values) entries

target_keys : List Text
target_keys =
    codes "DEPLOY_CONTEXT"
    ∷ codes "DEPLOY_SSH"
    ∷ codes "DEPLOY_PATH"
    ∷ codes "APP_UID"
    ∷ codes "APP_GID"
    ∷ []

-- TARGET_VALUE, `[A-Za-z0-9@._:/+-]*`
is_target_value : Text → Bool
is_target_value value =
    all
      (λ c.
        is_digit c
        || is_upper c
        || (ltb 96 c && ltb c 123)
        || contains c (b'@' ∷ b'.' ∷ b'_' ∷ b':' ∷ b'/' ∷ b'+' ∷ b'-' ∷ []))
      value

-- target_settings, with the entries of the target file (none when there is no file).
unfoldable pub target_settings : Option Values → Result SettingsError Values
unfolding target_keys is_target_value
target_settings file = elim file [
  | none ↦ ok []
  | some values ↦
      (let unknown =
          map (λ (e : Text × Text). e.0)
            (filter_by (λ (e : Text × Text). not (contains e.0 target_keys)) values) in
        let odd =
          map (λ (e : Text × Text). e.0)
            (filter_by (λ (e : Text × Text). not (is_target_value e.1)) values) in
        if not (is_empty unknown)
        then err (unknown_targets unknown)
        else if not (is_empty odd)
        then err (odd_targets odd)
        else ok values)
]

-- file_settings: (values, mentioned) of setup's .env, the project's two files and the target file.
unfoldable pub file_settings :
    Text → Values → Values → Values → Option Values → Result SettingsError (Values × Values)
unfolding target_settings is_server
file_settings environment setup common own target =
    let values = updated (updated (updated [] setup) common) own in
    let mentioned = updated (updated [] common) own in
    if is_server environment
    then (elim (target_settings target) [
      | err e ↦ err e
      | ok entries ↦ ok (updated values entries, mentioned)
    ])
    else ok (values, mentioned)

-- NAME, `[A-Z][A-Z0-9_]*`
is_variable_name : Text → Bool
is_variable_name [] = false
is_variable_name (c ∷ cs) = is_upper c && all (λ d. is_upper d || is_digit d || d == b'_') cs

unfoldable pub names_setting : Values → Text → Result SettingsError (List Text)
unfolding words is_variable_name
names_setting values key =
    let names = dedup (words (value_of key values)) in
    let odd = filter_by (λ name. not (is_variable_name name)) names in
    if is_empty odd then ok names else err (bad_names odd)

-- A variable that is listed: its name, whether it is required and whether it is secured.
pub record Listing : Type 0 where
  pub name : Text
  pub required : Bool
  pub secured : Bool

abbrev pub listed_names : List Listing → List Text
listed_names = map (λ (l : Listing). l.name)

-- Whether a name that the env files set is left out.
unfoldable pub is_set : Values → Text → Bool
unfolding hides_process_value
is_set mentioned name = elim (get name mentioned) [
  | none ↦ false
  | some value ↦ hides_process_value name value
]

-- The inner loop of deployment_variables: (listed, hidden).
unfoldable pub list_names :
    Values → List Text → Bool → List Text → List Listing × List Text → List Listing × List Text
unfolding is_set
list_names mentioned plain required [] found = found
list_names mentioned plain required (name ∷ names) (listed, hidden) =
    if contains name (listed_names listed)
    then list_names mentioned plain required names (listed, hidden)
    else if is_set mentioned name
    then list_names mentioned plain required names
        (listed, if value_of name mentioned == [] then hidden ++ name ∷ [] else hidden)
    else list_names mentioned plain required names (
      listed
          ++ record { name = name; required = required; secured = not (contains name plain) } ∷ [],
      hidden,
    )

unfoldable pub list_groups :
    Values
    → List Text
    → List (List Text × Bool)
    → List Listing × List Text
    → List Listing × List Text
unfolding list_names
list_groups mentioned plain [] found = found
list_groups mentioned plain ((names, required) ∷ groups) found =
    list_groups mentioned plain groups (list_names mentioned plain required names found)

-- The four lists that a project names.
pub record Lists : Type 0 where
  pub required : List Text
  pub optional : List Text
  pub application : List Text
  pub plain : List Text

pub lists_of : Values → Result SettingsError Lists
unfolding names_setting
lists_of values = elim (names_setting values (codes "DEPLOY_REQUIRED_VARIABLES")) [
  | err e ↦ err e
  | ok required ↦ elim (names_setting values (codes "DEPLOY_OPTIONAL_VARIABLES")) [
    | err e ↦ err e
    | ok optional ↦ elim (names_setting values (codes "APP_ENVIRONMENT")) [
      | err e ↦ err e
      | ok application ↦ elim (names_setting values (codes "DEPLOY_PLAIN_VARIABLES")) [
        | err e ↦ err e
        | ok plain ↦ ok (record {
          required = required;
          optional = optional;
          application = application;
          plain = plain;
        })
      ]
    ]
  ]
]

pub groups_of : Values → Values → Lists → List (List Text × Bool)
unfolding setup_required setup_optional
groups_of values mentioned lists =
    (setup_required values, true)
    ∷ (lists.required, true)
    ∷ (setup_optional values, false)
    ∷ (lists.optional, false)
    ∷ (filter_by (λ name. not (is_some (get name mentioned))) lists.application, false)
    ∷ []

pub candidates : List (List Text × Bool) → List Text
candidates [] = []
candidates ((names, required) ∷ groups) = names ++ candidates groups

-- The listed variables, unless a blank line hides one or a plain name is on no list.
unfoldable pub checked_listing :
    List Text → List Text → List Listing × List Text → Result SettingsError (List Listing)
checked_listing plain known (listed, hidden) =
    let unknown = filter_by (λ name. not (contains name known)) plain in
    if not (is_empty hidden)
    then err (hidden_variables hidden)
    else if not (is_empty unknown)
    then err (unlisted_plain unknown)
    else ok listed

unfoldable pub deployment_variables : Values → Values → Result SettingsError (List Listing)
unfolding lists_of groups_of candidates list_groups checked_listing
deployment_variables values mentioned = elim (lists_of values) [
  | err e ↦ err e
  | ok lists ↦
      checked_listing lists.plain (candidates (groups_of values mentioned lists))
        (list_groups mentioned lists.plain (groups_of values mentioned lists) ([], []))
]
