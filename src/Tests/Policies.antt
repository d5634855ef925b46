-- ===== src/Tests/Policies.antt =====
-- The settings of a stage and of a local environment.
use docker_development_envir.Common.{
  true, ◌==◌, nat_eq, list_eq, [], ◌∷◌, Option, some, Text, ◌≡◌, refl, ok, codes, contains, all,
  map, ◌≤◌, ◌+◌, ◌*◌, ◌⊎◌,
}
use docker_development_envir.Common.Numbers.{number_of}
use docker_development_envir.Environments.{is_server}
use docker_development_envir.Settings.{Values, value_of}
use docker_development_envir.Settings.Dotenv.{is_space}
use docker_development_envir.Policy.Switches.{
  Modes, off_on, mail_modes, compile_modes, object_modes, mail_mode, resolve_switches,
}
use docker_development_envir.Policy.Switches.Laws.{Settled-resolve_switches, mail_mode-preserve}
use docker_development_envir.Policy.Checks.{IpAddress}
use docker_development_envir.Policy.Resources.{Resolved, limits_of, resources}
use docker_development_envir.Policy.Pool.{pool_of, check_pool}
use docker_development_envir.Policy.Pool.Laws.{check_pool-pool_of}
use docker_development_envir.Policy.Resolve.{Policy, resolve_policy}
use docker_development_envir.Policy.Resolve.Laws.{resolve_policy_bounds, trusted-resolve_policy}

abbrev server_settings : Values
server_settings =
    (codes "PHP_MEMORY", codes "2g")
    ∷ (codes "DATABASE_MEMORY", codes "4g")
    ∷ (codes "WEB_CONTAINER_MEMORY", codes "256m")
    ∷ (codes "CONTAINER_CPUS", codes "1.5")
    ∷ (codes "PUBLISH_ADDRESS", codes "10.0.0.5")
    ∷ []

check_pool-pool_of_example :
    (check_pool (pool_of server_settings (2 * 1024 * 1024) (128 * 1024)) ≡ ok tt)
    × ((number_of 0 (pool_of server_settings (2 * 1024 * 1024) (128 * 1024)).max_children ≡ 2)
        ⊎ (number_of 0 (pool_of server_settings (2 * 1024 * 1024) (128 * 1024)).max_children
                * (128 * 1024)
              + 128 * 1024
            ≤ 2 * 1024 * 1024))
check_pool-pool_of_example = check_pool-pool_of server_settings refl (2 * 1024 * 1024) (128 * 1024)

-- Only 127.0.0.1 is of this host alone.
abbrev addresses : Text → Option IpAddress
addresses value =
    some (record {
      is_loopback = value == codes "127.0.0.1";
      is_unspecified = value == codes "0.0.0.0";
    })

abbrev stage_switches : Modes
stage_switches = record {
  cache_mode = codes "on";
  php_opcache = codes "on";
  php_apcu = codes "on";
  smarty_cache = codes "on";
  asset_cache = codes "on";
  validate_timestamps = codes "off";
  smarty_compile = codes "never";
  object_cache = codes "preserve";
  mail_mode = codes "off";
}

abbrev stage_limits : Resolved
unfolding limits_of resources
stage_limits = record {
  limits = map (limits_of server_settings) resources;
  sizes = record { buffer_pool = codes "2457M"; memcached = codes "230"; redis = codes "230" };
}

abbrev stage_policy : Policy
stage_policy = record {
  switches = stage_switches;
  https = codes "on";
  direct = true;
  xdebug = [];
  limits = stage_limits.limits;
  sizes = stage_limits.sizes;
  pool = record {
    max_children = codes "15";
    start_servers = codes "3";
    min_spare = codes "3";
    max_spare = codes "7";
    max_requests = codes "500";
  };
}

stage_resolved : resolve_policy addresses server_settings (codes "stage") ≡ ok stage_policy
unfolding resolve_policy resources is_server
stage_resolved = refl

resolve_policy_bounds_example :
    (1 ≤ number_of 0 (codes "3"))
    × (number_of 0 (codes "3") ≤ number_of 0 (codes "3"))
    × (number_of 0 (codes "3") ≤ number_of 0 (codes "7"))
    × (number_of 0 (codes "7") ≤ number_of 0 (codes "15"))
    × (number_of 0 (codes "15") ≤ 100000)
resolve_policy_bounds_example =
    resolve_policy_bounds addresses server_settings (codes "stage") {p = stage_policy}
      stage_resolved

trusted-resolve_policy_example :
    (all is_space (value_of (codes "TRUSTED_PROXIES") server_settings) ≡ true)
    ⊎ (value_of (codes "TRUSTED_PROXIES_DIRECT") server_settings ≡ codes "on")
trusted-resolve_policy_example =
    trusted-resolve_policy addresses server_settings (codes "stage") {p = stage_policy}
      stage_resolved refl

switches_resolved : resolve_switches server_settings (codes "stage") ≡ ok stage_switches
unfolding resolve_switches
switches_resolved = refl

Settled-resolve_switches_example :
    (contains (codes "on") off_on ≡ true)
    × (contains (codes "on") off_on ≡ true)
    × (contains (codes "on") off_on ≡ true)
    × (contains (codes "on") off_on ≡ true)
    × (contains (codes "on") off_on ≡ true)
    × (contains (codes "off") off_on ≡ true)
    × (contains (codes "never") compile_modes ≡ true)
    × (contains (codes "preserve") object_modes ≡ true)
    × (contains (codes "off") mail_modes ≡ true)
Settled-resolve_switches_example =
    Settled-resolve_switches server_settings (codes "stage") {s = stage_switches} switches_resolved

mail_preserved : mail_mode [] (codes "prod") ≡ ok (codes "preserve")
unfolding mail_mode
mail_preserved = refl

mail_mode-preserve_example :
    (codes "prod" ≡ codes "prod") ⊎ (value_of (codes "MAIL_MODE") [] ≡ codes "preserve")
mail_mode-preserve_example = mail_mode-preserve [] (codes "prod") mail_preserved
