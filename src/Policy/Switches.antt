-- ===== src/Policy/Switches.antt =====
-- resolve_policy, its switches: a cache, mail or HTTPS switch that is `auto` follows the environment.
pub mod Laws
use docker_development_envir.Common.{
  Bool, true, false, not, ◌&&◌, ◌||◌, ◌==◌, nat_eq, list_eq, List, [], ◌∷◌, Text, Result, ok, err,
  codes, contains, if◌then◌else◌,
}
use docker_development_envir.Common.Results.{◌>>=◌, ◌>>◌, ensure}
use docker_development_envir.Settings.{Values, value_of}
use docker_development_envir.Settings.Setup.{words}
use docker_development_envir.Policy.{PolicyError, no_mailpit, setting_or, is_development, choice}

pub record Modes : Type 0 where
  pub cache_mode : Text
  pub php_opcache : Text
  pub php_apcu : Text
  pub smarty_cache : Text
  pub asset_cache : Text
  pub validate_timestamps : Text
  pub smarty_compile : Text
  pub object_cache : Text
  pub mail_mode : Text

abbrev pub off_on : List Text
off_on = codes "off" ∷ codes "on" ∷ []

-- A switch that may be `auto`, which stands for `resolved`; `fixed` are its other values.
unfoldable pub auto_choice : Values → Text → List Text → Text → Result PolicyError Text
unfolding choice
auto_choice settings name fixed resolved = do
  value ← choice name (setting_or settings name (codes "auto")) (codes "auto" ∷ fixed)
  ok (if value == codes "auto" then resolved else value)

abbrev has_mailpit : Values → Bool
has_mailpit settings = contains (codes "mailpit") (words (value_of (codes "SERVICES") settings))

abbrev pub mail_modes : List Text
mail_modes = codes "off" ∷ codes "preserve" ∷ codes "mailpit" ∷ []

-- What MAIL_MODE=auto stands for.
unfoldable pub default_mail_mode : Values → Text → Text
default_mail_mode settings environment =
    if environment == codes "prod"
    then codes "preserve"
    else if has_mailpit settings
    then codes "mailpit"
    else codes "off"

-- The error for mailpit without its service is raised only for a value that was written out.
unfoldable pub mail_mode : Values → Text → Result PolicyError Text
unfolding auto_choice default_mail_mode words
mail_mode settings environment = do
  mode ←
      auto_choice settings (codes "MAIL_MODE") mail_modes (default_mail_mode settings environment)
  ensure (not (value_of (codes "MAIL_MODE") settings == codes "mailpit") || has_mailpit settings)
      no_mailpit
  ok mode

abbrev pub compile_modes : List Text
compile_modes = codes "never" ∷ codes "check" ∷ codes "always" ∷ []

abbrev pub object_modes : List Text
object_modes = codes "preserve" ∷ codes "off" ∷ codes "on" ∷ []

unfoldable pub resolve_switches : Values → Text → Result PolicyError Modes
unfolding auto_choice mail_mode
resolve_switches settings environment = do
  let development = is_development environment
  cache_mode ←
      auto_choice settings (codes "CACHE_MODE") off_on
        (if development then codes "off" else codes "on")
  php_opcache ← auto_choice settings (codes "PHP_OPCACHE") off_on cache_mode
  php_apcu ← auto_choice settings (codes "PHP_APCU") off_on cache_mode
  smarty_cache ← auto_choice settings (codes "PS_SMARTY_CACHE") off_on cache_mode
  asset_cache ← auto_choice settings (codes "PS_ASSET_CACHE") off_on cache_mode
  validate_timestamps ←
      auto_choice settings (codes "PHP_OPCACHE_VALIDATE_TIMESTAMPS") off_on
        (if development then codes "on" else codes "off")
  smarty_compile ←
      auto_choice settings (codes "PS_SMARTY_COMPILE") compile_modes
        (if cache_mode == codes "off" then codes "check" else codes "never")
  object_cache ←
      auto_choice settings (codes "PS_OBJECT_CACHE") object_modes
        (if cache_mode == codes "off" then codes "off" else codes "preserve")
  mode ← mail_mode settings environment
  ok (record {
    cache_mode = cache_mode;
    php_opcache = php_opcache;
    php_apcu = php_apcu;
    smarty_cache = smarty_cache;
    asset_cache = asset_cache;
    validate_timestamps = validate_timestamps;
    smarty_compile = smarty_compile;
    object_cache = object_cache;
    mail_mode = mode;
  })
