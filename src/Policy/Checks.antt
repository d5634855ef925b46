-- ===== src/Policy/Checks.antt =====
-- resolve_policy, its checks of single settings: choices, numbers, the published address, the time zone, Xdebug
-- and the debug mode of the shop.
use docker_development_envir.Common.{
  ℕ, Bool, true, false, not, ◌&&◌, ◌||◌, ◌==◌, nat_eq, list_eq, List, [], ◌∷◌, Option, none, some,
  Text, Result, ok, err, codes, contains, all, is_empty, is_digit, is_lower, is_upper, has_char,
  ltb, leb, split_on, length, init, final_char, if◌then◌else◌,
}
use docker_development_envir.Common.Numbers.{number_of, is_number, is_positive}
use docker_development_envir.Common.Results.{◌>>=◌, ◌>>◌, ensure}
use docker_development_envir.Settings.{Values, value_of}
use docker_development_envir.Settings.Dotenv.{is_space, trimmed}
use docker_development_envir.Settings.Setup.{words, is_prestashop}
use docker_development_envir.Policy.{
  PolicyError, bad_integrations, bad_number, not_positive, bad_log_size, bad_cpus, bad_address,
  bad_trust, forgeable, bad_modes, no_modes, bad_ips, no_ips, setting_or, is_development, choice,
  kilobytes,
}
use docker_development_envir.Policy.Resources.{is_cpus}
use docker_development_envir.Policy.Switches.{off_on, auto_choice}

-- One `choice` of settings that are only checked.
check_choices : Values → List (Text × Text) → Result PolicyError (Unit {0})
unfolding choice
check_choices settings [] = ok tt
check_choices settings ((name, default) ∷ names) =
    choice name (setting_or settings name default) off_on >>= λ _. check_choices settings names

is_integration_char : ℕ → Bool
is_integration_char c = is_lower c || is_digit c || c == b'_' || c == b'-'

-- Every word of INTEGRATIONS_ENABLED has only these characters.
check_integrations : Values → Result PolicyError (Unit {0})
unfolding is_integration_char words
check_integrations settings =
    ensure
      (all (all is_integration_char) (words (value_of (codes "INTEGRATIONS_ENABLED") settings)))
      bad_integrations

unfoldable pub check_features : Values → Result PolicyError (Unit {0})
unfolding check_choices check_integrations
check_features settings = do
  check_choices settings (
      (codes "PS_SSL", codes "on")
      ∷ (codes "DATABASE_AS_CODE", codes "on")
      ∷ (codes "DATABASE_MIGRATIONS", codes "on")
      ∷ (codes "DATABASE_PERFORMANCE_SCHEMA", codes "off")
      ∷ (codes "CRON_SCHEDULE", codes "on")
      ∷ [])
  check_integrations settings

-- HTTP_FORCE_HTTPS
unfoldable pub force_https : Values → Text → Result PolicyError Text
unfolding auto_choice
force_https settings environment =
    auto_choice settings (codes "HTTP_FORCE_HTTPS") off_on
      (if is_development environment then codes "off" else codes "on")

is_count : Text → Bool
unfolding number_of
is_count value = is_number value && leb (number_of 0 value) 1000000

check_counts : Values → List (Text × Text) → Result PolicyError (Unit {0})
unfolding is_count
check_counts settings [] = ok tt
check_counts settings ((name, default) ∷ names) =
    ensure (is_count (setting_or settings name default)) (bad_number name) >>= λ _.
    check_counts settings names

-- `[1-9]\d*[kmg]`
is_log_size : Text → Bool
is_log_size size = elim (final_char size) [
  | none ↦ false
  | some c ↦ (c == b'k' || c == b'm' || c == b'g') && is_positive (init size)
]

check_legacy : Values → List Text → Result PolicyError (Unit {0})
unfolding kilobytes
check_legacy settings [] = ok tt
check_legacy settings (name ∷ names) =
    let size = value_of name settings in
    let rest = check_legacy settings names in
    if is_empty size then rest else (kilobytes size >>= λ _. rest)

unfoldable pub check_numbers : Values → Result PolicyError (Unit {0})
unfolding check_counts is_log_size check_legacy number_of is_cpus
check_numbers settings = do
  let backups = setting_or settings (codes "BACKUP_KEEP_LAST") (codes "5")
  let files = setting_or settings (codes "CONTAINER_LOG_MAX_FILES") (codes "3")
  check_counts settings (
      (codes "PHP_OPCACHE_REVALIDATE_FREQ", codes "0")
      ∷ (codes "MIN_FREE_DISK_MB", codes "1024")
      ∷ (codes "BACKUP_KEEP_LAST", codes "5")
      ∷ (codes "CONTAINER_LOG_MAX_FILES", codes "3")
      ∷ [])
  ensure (leb 1 (number_of 0 backups) && leb 1 (number_of 0 files))
      (not_positive (codes "BACKUP_KEEP_LAST"))
  ensure (is_log_size (setting_or settings (codes "CONTAINER_LOG_MAX_SIZE") (codes "10m")))
      bad_log_size
  check_legacy settings (
      codes "PHP_CONTAINER_MEMORY"
      ∷ codes "DB_CONTAINER_MEMORY"
      ∷ codes "WEB_CONTAINER_MEMORY"
      ∷ [])
  let cpus = value_of (codes "CONTAINER_CPUS") settings
  ensure (is_empty cpus || is_cpus cpus) (bad_cpus (codes "CONTAINER_CPUS"))

-- What `ipaddress.ip_address` tells of an address.
pub record IpAddress : Type 0 where
  pub is_loopback : Bool
  pub is_unspecified : Bool

module _ (ip_address : Text → Option IpAddress) where
  -- publish_address: whether clients reach the address themselves.
  unfoldable pub publish_address : Text → Result PolicyError Bool
  publish_address value = elim (ip_address value) [
    | none ↦ err bad_address
    | some address ↦
        if address.is_unspecified || has_char b'%' value
        then err bad_address
        else ok (not address.is_loopback)
  ]

  -- SETUP_DIRECT_CLIENTS, and that no trusted range covers the clients of a published port.
  unfoldable pub direct_clients : Values → Result PolicyError Bool
  unfolding publish_address
  direct_clients settings = do
    direct ← publish_address (setting_or settings (codes "PUBLISH_ADDRESS") (codes "127.0.0.1"))
    let trust = setting_or settings (codes "TRUSTED_PROXIES_DIRECT") (codes "off")
    ensure (contains trust off_on) bad_trust
    ensure
        (not (
          direct
          && not (all is_space (value_of (codes "TRUSTED_PROXIES") settings))
          && trust == codes "off"))
        forgeable
    ok direct

  is_ip : Text → Bool
  is_ip ip =
      not (has_char b'%' ip)
      && elim (ip_address (trimmed ip)) [ none ↦ false | some address ↦ true ]

  -- PS_DEBUG_MODE and PS_DEBUG_IPS
  unfoldable pub check_debug : Values → Result PolicyError (Unit {0})
  unfolding is_ip choice is_prestashop
  check_debug settings =
      let ips = trimmed (value_of (codes "PS_DEBUG_IPS") settings) in
      let checked = (do
        mode ←
            choice (codes "PS_DEBUG_MODE") (value_of (codes "PS_DEBUG_MODE") settings)
              ([] ∷ codes "off" ∷ codes "on" ∷ codes "ip" ∷ [])
        ensure (is_empty mode || is_empty ips || all is_ip (split_on b',' ips)) bad_ips
        ensure (not (mode == codes "ip" && is_empty ips)) no_ips) in
      if is_prestashop settings then checked else ok tt

is_zone_char : ℕ → Bool
is_zone_char c = is_upper c || is_lower c || is_digit c || c == b'_' || c == b'+' || c == b'-'

is_zone_part : Text → Bool
unfolding is_zone_char
is_zone_part part = not (is_empty part) && all is_zone_char part

starts_with_letter : Text → Bool
starts_with_letter [] = false
starts_with_letter (c ∷ cs) = is_upper c || is_lower c

-- `[A-Za-z][A-Za-z0-9_+-]*(/[A-Za-z0-9_+-]+)*`
unfoldable pub is_zone : Text → Bool
unfolding is_zone_part starts_with_letter
is_zone zone = starts_with_letter zone && all is_zone_part (split_on b'/' zone)

abbrev xdebug_modes : List Text
xdebug_modes =
    codes "off"
    ∷ codes "develop"
    ∷ codes "coverage"
    ∷ codes "debug"
    ∷ codes "gcstats"
    ∷ codes "profile"
    ∷ codes "trace"
    ∷ []

unfoldable pub xdebug_mode : Values → Text → Result PolicyError Text
xdebug_mode settings environment =
    let given = value_of (codes "XDEBUG_MODE") settings in
    let mode = if is_empty given then codes "debug" else given in
    let modes = split_on b',' mode in
    if is_development environment
    then (do
      ensure
          (all (λ m. contains m xdebug_modes) modes
            && not (contains (codes "off") modes && ltb 1 (length modes)))
          bad_modes
      ok mode)
    else if is_empty given
    then ok []
    else err no_modes
