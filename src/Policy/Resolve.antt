-- ===== src/Policy/Resolve.antt =====
-- resolve_policy: the settings of an environment, checked in the order of the source.
pub mod Laws
use docker_development_envir.Common.{Bool, List, [], ◌∷◌, Option, Text, Result, ok, err, codes}
use docker_development_envir.Common.Results.{◌>>=◌, ◌>>◌, ensure}
use docker_development_envir.Settings.{Values}
use docker_development_envir.Policy.{PolicyError, bad_zone, setting_or}
use docker_development_envir.Policy.Switches.{Modes, resolve_switches}
use docker_development_envir.Policy.Checks.{
  IpAddress, check_features, force_https, check_numbers, direct_clients, check_debug, is_zone,
  xdebug_mode,
}
use docker_development_envir.Policy.Resources.{Limits, Sizes, Resolved, resolve_limits, memory_in}
use docker_development_envir.Policy.Pool.{Pool, resolve_pool, check_pool}

pub record Policy : Type 0 where
  pub switches : Modes
  pub https : Text
  pub direct : Bool
  pub xdebug : Text
  pub limits : List Limits
  pub sizes : Sizes
  pub pool : Pool

-- The settings that follow from the memory and the CPUs.
pub record Capacity : Type 0 where
  pub limits : List Limits
  pub sizes : Sizes
  pub pool : Pool

-- resolve_resources
unfoldable pub resolve_resources : Values → Text → Result PolicyError Capacity
unfolding resolve_limits resolve_pool
resolve_resources settings environment = do
  resolved ← resolve_limits settings environment
  pool ← resolve_pool settings (memory_in (codes "PHP") resolved.limits)
  ok (record { limits = resolved.limits; sizes = resolved.sizes; pool = pool })

module _ (ip_address : Text → Option IpAddress) where
  unfoldable pub resolve_policy : Values → Text → Result PolicyError Policy
  unfolding resolve_switches check_features force_https check_numbers direct_clients is_zone
      xdebug_mode resolve_resources check_pool check_debug
  resolve_policy settings environment = do
    switches ← resolve_switches settings environment
    check_features settings
    https ← force_https settings environment
    check_numbers settings
    direct ← direct_clients ip_address settings
    ensure (is_zone (setting_or settings (codes "TZ") (codes "Europe/Vilnius"))) bad_zone
    xdebug ← xdebug_mode settings environment
    capacity ← resolve_resources settings environment
    check_pool capacity.pool
    check_debug ip_address settings
    ok (record {
      switches = switches;
      https = https;
      direct = direct;
      xdebug = xdebug;
      limits = capacity.limits;
      sizes = capacity.sizes;
      pool = capacity.pool;
    })
