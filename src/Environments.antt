-- ===== src/Environments.antt =====
-- docker/project_environments.py: the environments of a project and the deployment environments of the
-- providers. A name is a text of ASCII codes.
pub mod Names
use docker_development_envir.Common.{
  ℕ, Bool, true, false, not, ◌&&◌, ◌||◌, ◌==◌, nat_eq, list_eq, List, [], ◌∷◌, ◌++◌, Option, none,
  some, Text, ◌≡◌, refl, ◌≢◌, Result, ok, err, all, codes, filter_by, contains, dedup, is_empty,
  is_digit, is_lower, is_upper, leb, length, split_on, map, ◌+◌, if◌then◌else◌, arith,
}

pub data NameError : Type 0 where
  invalid taken : List Text → NameError
  unknown : NameError

abbrev pub reserved : List Text
reserved = codes "local" ∷ codes "test" ∷ codes "stage" ∷ codes "prod" ∷ []

-- NAME, `[a-z][a-z0-9]{1,15}`
unfoldable pub is_name : Text → Bool
is_name [] = false
is_name (c ∷ cs) =
    is_lower c && leb 1 (length cs) && leb (length cs) 15 && all (λ d. is_lower d || is_digit d) cs

-- `value.replace(',', ' ').split()`, on ASCII
is_separator : ℕ → Bool
is_separator c = c == b',' || (leb 9 c && leb c 13) || (leb 28 c && leb c 31)

words : Text → List Text
unfolding is_separator
words value =
    filter_by (λ word. not (is_empty word))
      (split_on b' ' (map (λ c. if is_separator c then b' ' else c) value))

unfoldable pub parse : Text → Result NameError (List Text)
unfolding words is_name
parse value =
    let names = dedup (words value) in
    let odd = filter_by (λ name. not (is_name name)) names in
    let used = filter_by (λ name. contains name reserved) names in
    if not (is_empty odd)
    then err (invalid odd)
    else if not (is_empty used)
    then err (taken used)
    else ok names

unfoldable pub is_server : Text → Bool
is_server environment = not (contains environment (codes "local" ∷ codes "test" ∷ []))

unfoldable pub is_stage_class : Text → Bool
unfolding is_server
is_stage_class environment = is_server environment && not (environment == codes "prod")

-- `require`, with the extra environments that the project lists
unfoldable pub require_environment : List Text → Text → Result NameError Text
require_environment extra environment =
    if contains environment reserved
    then ok environment
    else if contains environment extra
    then ok environment
    else err unknown

-- `name.lower()`
lower_code : ℕ → ℕ
lower_code c = if is_upper c then c + 32 else c

unfoldable pub lower : Text → Text
unfolding lower_code
lower name = map lower_code name

-- DEPLOYMENT_ENVIRONMENTS.get
unfoldable pub named_environment : Text → Option Text
named_environment name =
    if name == codes "staging"
    then some (codes "stage")
    else if name == codes "production"
    then some (codes "prod")
    else none

unfoldable pub resolved : Text → List Text → Option Text
unfolding named_environment
resolved lowered extra = elim (named_environment lowered) [
  | some environment ↦ some environment
  | none ↦ if contains lowered extra then some lowered else none
]

unfoldable pub deployment_environment : Text → List Text → Option Text
unfolding resolved lower
deployment_environment name extra = resolved (lower name) extra

unfoldable pub deployment_name : Text → Text
deployment_name environment =
    if environment == codes "stage"
    then codes "staging"
    else if environment == codes "prod"
    then codes "production"
    else environment
