-- ===== src/Settings.antt =====
-- docker/project_env_files.py: the env files of a project and the Deployment variables that they leave open.
-- A text is a list of codes; a file is the list of its lines, without their ends.
pub mod Dotenv
pub mod Setup
pub mod Put
pub mod Variables
pub mod Listed
pub mod Versions
use docker_development_envir.Common.{
  ℕ, Bool, true, false, not, ◌&&◌, ◌||◌, ◌==◌, nat_eq, list_eq, List, [], ◌∷◌, ◌++◌, Option, none,
  some, Text, codes, contains, get, all, is_digit, is_upper, is_lower, if◌then◌else◌, map,
}

-- A settings mapping.
abbrev pub Values : Type 0
Values = List (Text × Text)

-- `str(values.get(key) or '')`
abbrev pub value_of : Text → Values → Text
value_of key values = elim (get key values) [ none ↦ [] | some v ↦ v ]

-- PROCESS_SECRETS
unfoldable pub process_secrets : List Text
process_secrets =
    codes "DATABASE_PASSWORD"
    ∷ codes "DATABASE_ROOT_PASSWORD"
    ∷ codes "DATABASE_MONITOR_PASSWORD"
    ∷ codes "DBMONITOR_TOKEN"
    ∷ codes "METRICS_TOKEN"
    ∷ codes "PMA_HTPASSWD"
    ∷ codes "MAILPIT_HTPASSWD"
    ∷ codes "CRON_HTPASSWD"
    ∷ codes "BACKUP_HTPASSWD"
    ∷ codes "METRICS_HTPASSWD"
    ∷ codes "PS_COOKIE_KEY"
    ∷ codes "PS_COOKIE_IV"
    ∷ codes "PS_RIJNDAEL_KEY"
    ∷ codes "PS_RIJNDAEL_IV"
    ∷ codes "PS_NEW_COOKIE_KEY"
    ∷ codes "PS_SECRET"
    ∷ codes "PS_API_PRIVATE_KEY"
    ∷ codes "PS_API_PUBLIC_KEY"
    ∷ []

unfoldable pub hides_process_value : Text → Text → Bool
unfolding process_secrets
hides_process_value name file_value = not (file_value == [] && contains name process_secrets)
