-- ===== src/Policy.antt =====
-- docker/project_policy.py: the runtime switches, the container limits and the pool sizes of an environment.
-- The settings come as texts; what `resolve_policy` returns is the record of Policy/Resolve.
pub mod Switches
pub mod Resources
pub mod Pool
pub mod Checks
pub mod Resolve
use docker_development_envir.Common.{
  ℕ, Bool, true, false, not, ◌&&◌, ◌||◌, ◌==◌, nat_eq, list_eq, List, [], ◌∷◌, ◌++◌, Text, Result,
  ok, err, codes, contains, is_empty, ◌*◌, if◌then◌else◌, init, final_char, Option, none, some,
}
use docker_development_envir.Common.Numbers.{number_of, is_positive}
use docker_development_envir.Settings.{Values, value_of}

pub data PolicyError : Type 0 where
  not_allowed bad_size bad_number bad_cpus not_positive : Text → PolicyError
  missing_limits : List Text → PolicyError
  no_mailpit bad_integrations bad_log_size bad_address bad_trust forgeable bad_zone bad_modes
        no_modes unordered bad_ips no_ips :
      PolicyError

-- `str(settings.get(key) or default)`
abbrev pub setting_or : Values → Text → Text → Text
setting_or settings key default =
    let value = value_of key settings in if is_empty value then default else value

abbrev pub is_development : Text → Bool
is_development environment = contains environment (codes "local" ∷ codes "test" ∷ [])

-- choice
unfoldable pub choice : Text → Text → List Text → Result PolicyError Text
choice name value allowed = if contains value allowed then ok value else err (not_allowed name)

-- The kilobytes of a unit.
unit_of : ℕ → Option ℕ
unit_of c =
    if c == b'k'
    then some 1
    else if c == b'm'
    then some 1024
    else if c == b'g'
    then some (1024 * 1024)
    else none

-- megabytes, counted in kilobytes so that no fraction is lost
unfoldable pub kilobytes : Text → Result PolicyError ℕ
unfolding unit_of number_of
kilobytes size = elim (final_char size) [
  | none ↦ err (bad_size size)
  | some c ↦ elim (unit_of c) [
    | none ↦ err (bad_size size)
    | some unit ↦
        if is_positive (init size) then ok (number_of 0 (init size) * unit) else err (bad_size size)
  ]
]
