-- ===== src/Settings/Versions.antt =====
-- Whether this setup is too old for a project, and the names of the two JSON variables of a GitHub job.
use docker_development_envir.Common.{
  ℕ, Bool, true, false, not, ◌&&◌, ◌||◌, ◌==◌, nat_eq, list_eq, List, [], ◌∷◌, ◌++◌, Option, none,
  some, Text, Result, ok, err, codes, all, any, contains, get, is_digit, is_upper, is_lower,
  is_empty, has_prefix, drop, split_on, ltb, ◌-◌, map, if◌then◌else◌,
}
use docker_development_envir.Common.Numbers.{number_of, is_number}
use docker_development_envir.Settings.{Values, value_of}
use docker_development_envir.Settings.Dotenv.{trimmed}
use docker_development_envir.Settings.Variables.{SettingsError, bad_version}

abbrev pub Version : Type 0
Version = ℕ × ℕ × ℕ

-- One to three numbers between dots; what is left out is 0.
version_of : List Text → Option Version
unfolding number_of
version_of [] = none
version_of (a ∷ []) = if is_number a then some (number_of 0 a, 0, 0) else none
version_of (a ∷ b ∷ []) =
    if is_number a && is_number b then some (number_of 0 a, number_of 0 b, 0) else none
version_of (a ∷ b ∷ c ∷ []) =
    if is_number a && is_number b && is_number c
    then some (number_of 0 a, number_of 0 b, number_of 0 c)
    else none
version_of (a ∷ b ∷ c ∷ d ∷ more) = none

unfoldable pub version_tuple : Text → Option Version
unfolding version_of
version_tuple text = version_of (split_on b'.' text)

unfoldable pub is_older : Version → Version → Bool
is_older (a, b, c) (x, y, z) = ltb a x || (a == x && (ltb b y || (b == y && ltb c z)))

-- needed_setup_version: of env/common.env, with the text of setup's VERSION.
unfoldable pub needed_setup_version : Values → Text → Result SettingsError (Option Text)
unfolding version_tuple is_older
needed_setup_version common version =
    let stripped = trimmed (value_of (codes "SETUP_MIN_VERSION") common) in
    let wanted = if has_prefix (b'v' ∷ []) stripped then drop 1 stripped else stripped in
    if is_empty wanted then ok none else elim (version_tuple wanted) [
      | none ↦ err (bad_version wanted)
      | some least ↦ elim (version_tuple (trimmed version)) [
        | none ↦ ok (some wanted)
        | some own ↦ ok (if is_older own least then some wanted else none)
      ]
    ]

-- A value of a JSON object: a text, or anything else.
pub data Json : Type 0 where
  plain : Text → Json
  other : Json

-- RESERVED_PREFIXES and ENVIRONMENT_NAME
upper_code : ℕ → ℕ
upper_code c = if is_lower c then c - 32 else c

is_reserved : Text → Bool
unfolding upper_code
is_reserved name =
    any (λ prefix. has_prefix prefix (map upper_code name))
      (codes "GITHUB_" ∷ codes "RUNNER_" ∷ codes "ACTIONS_" ∷ [])

is_environment_name : Text → Bool
is_environment_name [] = false
is_environment_name (c ∷ cs) =
    (is_upper c || is_lower c || c == b'_')
    && all (λ d. is_upper d || is_lower d || is_digit d || d == b'_') cs

-- A found value: whether it is a secret, and its text.
abbrev pub Kept : Type 0
Kept = Bool × Text

-- What the loop of expand_json has found: each name's kind (whether it is a secret) and value, and the names
-- that are both.
pub record Found : Type 0 where
  pub values : List (Text × Kept)
  pub both : List Text

-- Whether a name was found with the other kind.
was_other : Bool → Option Kept → Bool
was_other secret none = false
was_other secret (some (kind, value)) = not (kind && secret || not kind && not secret)

-- `found[name] = (kind, value)`
set : Text → Kept → List (Text × Kept) → List (Text × Kept)
set name v [] = (name, v) ∷ []
set name v ((first, old) ∷ rest) =
    if first == name then (first, v) ∷ rest else (first, old) ∷ set name v rest

add_names : List Text → Bool → List (Text × Json) → Found → Found
unfolding is_reserved is_environment_name was_other set
add_names present secret [] found = found
add_names present secret ((name, other) ∷ data_) found = add_names present secret data_ found
add_names present secret ((name, plain value) ∷ data_) found =
    if not (is_environment_name name) || contains name present || is_reserved name
    then add_names present secret data_ found
    else add_names present secret data_ (record {
      values = set name (secret, value) found.values;
      both =
          if was_other secret (get name found.values) then found.both ++ name ∷ [] else found.both;
    })

-- expand_json: the names that the environment gains, none for a variable that is no JSON object. `variables` and
-- `secrets` are empty where the job passes none; the secret is used where a name is both.
unfoldable pub expand_json :
    List Text
    → Option (List (Text × Json))
    → Option (List (Text × Json))
    → Option (List (Text × Text) × List Text)
unfolding add_names
expand_json present variables secrets = elim variables [
  | none ↦ none
  | some vs ↦ elim secrets [
    | none ↦ none
    | some ss ↦
        (let found =
            add_names present true ss
              (add_names present false vs (record { values = []; both = [] })) in
          some (map (λ (e : Text × Kept). (e.0, e.1.1)) found.values, found.both))
  ]
]
