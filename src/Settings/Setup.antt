-- ===== src/Settings/Setup.antt =====
-- The names that the setup itself asks for, by the profile, the PrestaShop version and the services.
use docker_development_envir.Common.{
  Bool, false, not, ◌&&◌, ◌||◌, ◌==◌, nat_eq, list_eq, List, [], ◌∷◌, ◌++◌, Text, codes, contains,
  is_digit, is_empty, has_prefix, filter_by, map, split_on, ltb, if◌then◌else◌,
}
use docker_development_envir.Common.Numbers.{number_of}
use docker_development_envir.Settings.{Values, value_of}
use docker_development_envir.Settings.Dotenv.{is_space}

-- `text.split()`, on ASCII
unfoldable pub words : Text → List Text
words text =
    filter_by (λ word. not (is_empty word))
      (split_on 32 (map (λ c. if is_space c then 32 else c) text))

unfoldable pub is_prestashop : Values → Bool
is_prestashop values =
    contains (value_of (codes "PROFILE") values) (codes "ps" ∷ codes "prestashop" ∷ [])

-- `re.match(r'\d+\.\d', version)`: (the digits in front, whether it matches)
major_of : Text → Text × Text
major_of [] = ([], [])
major_of (c ∷ cs) =
    let (digits, rest) = major_of cs in if is_digit c then (c ∷ digits, rest) else ([], c ∷ cs)

is_versioned : Text → Bool
unfolding major_of
is_versioned version =
    let (digits, rest) = major_of version in
    not (is_empty digits) && (elim rest [
      | [] ↦ false
      | dot ∷ more ↦ dot == b'.' && (elim more [ [] ↦ false | d ∷ ds ↦ is_digit d ])
    ])

-- required_keys of project_prestashop.py
required_keys : Text → List Text
unfolding major_of number_of
required_keys version =
    if has_prefix (codes "1.6") version
    then codes "PS_COOKIE_KEY"
      ∷ codes "PS_COOKIE_IV"
      ∷ codes "PS_RIJNDAEL_KEY"
      ∷ codes "PS_RIJNDAEL_IV"
      ∷ []
    else codes "PS_COOKIE_KEY"
      ∷ codes "PS_COOKIE_IV"
      ∷ codes "PS_NEW_COOKIE_KEY"
      ∷ codes "PS_SECRET"
      ∷ (if ltb 8 (number_of 0 (major_of version).0)
          then codes "PS_API_PRIVATE_KEY" ∷ codes "PS_API_PUBLIC_KEY" ∷ []
          else [])

unfoldable pub setup_required : Values → List Text
unfolding is_prestashop is_versioned required_keys
setup_required values =
    let version = value_of (codes "PS_VERSION") values in
    codes "DATABASE_PASSWORD"
    ∷ codes "DATABASE_ROOT_PASSWORD"
    ∷ (if is_prestashop values && is_versioned version then required_keys version else [])

-- TOOL_PASSWORDS
tool_passwords : List (Text × Text)
tool_passwords =
    (codes "pma", codes "PMA_HTPASSWD")
    ∷ (codes "mailpit", codes "MAILPIT_HTPASSWD")
    ∷ (codes "cron", codes "CRON_HTPASSWD")
    ∷ (codes "backup", codes "BACKUP_HTPASSWD")
    ∷ (codes "metrics", codes "METRICS_HTPASSWD")
    ∷ []

unfoldable pub setup_optional : Values → List Text
unfolding words tool_passwords
setup_optional values =
    let services = words (value_of (codes "SERVICES") values) in
    let metrics = contains (codes "metrics") services in
    let monitor = contains (codes "dbmonitor") services in
    (if metrics || monitor then codes "DATABASE_MONITOR_PASSWORD" ∷ [] else [])
    ++ (if metrics then codes "METRICS_TOKEN" ∷ [] else [])
    ++ (if monitor then codes "DBMONITOR_TOKEN" ∷ [] else [])
    ++ map (λ (t : Text × Text). t.1)
        (filter_by (λ (t : Text × Text). contains t.0 services) tool_passwords)
