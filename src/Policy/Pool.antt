-- ===== src/Policy/Pool.antt =====
-- The PHP-FPM pool: the sizes that resolve_resources derives from the memory, and the check of resolve_policy.
pub mod Laws
use docker_development_envir.Common.{
  ℕ, Bool, true, false, not, ◌&&◌, ◌||◌, ◌==◌, nat_eq, list_eq, List, [], ◌∷◌, Text, Result, ok,
  err, codes, is_empty, ltb, leb, ◌*◌, ◌/◌, ◌-◌, if◌then◌else◌,
}
use docker_development_envir.Common.Numbers.{number_of, is_number, digits}
use docker_development_envir.Common.Results.{◌>>=◌, ◌>>◌, ensure}
use docker_development_envir.Settings.{Values}
use docker_development_envir.Policy.{
  PolicyError, bad_number, not_positive, unordered, setting_or, kilobytes,
}

abbrev pub max : ℕ → ℕ → ℕ
max a b = if ltb a b then b else a

abbrev pub min : ℕ → ℕ → ℕ
min a b = if ltb b a then b else a

pub record Pool : Type 0 where
  pub max_children : Text
  pub start_servers : Text
  pub min_spare : Text
  pub max_spare : Text
  pub max_requests : Text

-- The processes that fit into the memory of PHP less 128 MB, from 2 to 256: all in kilobytes.
unfoldable pub fitting : ℕ → ℕ → ℕ
fitting memory process = min 256 (max 2 ((memory - 128 * 1024) / process))

-- What resolve_resources leaves in the five settings; a number of children that is none derives nothing.
unfoldable pub pool_of : Values → ℕ → ℕ → Pool
unfolding fitting digits number_of
pool_of settings memory process =
    let children =
      setting_or settings (codes "PHP_FPM_MAX_CHILDREN") (digits (fitting memory process)) in
    let count = number_of 0 children in
    let spare = if is_number children then digits (max 1 (count / 4)) else [] in
    let most = if is_number children then digits (max (max 1 (count / 4)) (count / 2)) else [] in
    record {
      max_children = children;
      start_servers = setting_or settings (codes "PHP_FPM_START_SERVERS") spare;
      min_spare = setting_or settings (codes "PHP_FPM_MIN_SPARE_SERVERS") spare;
      max_spare = setting_or settings (codes "PHP_FPM_MAX_SPARE_SERVERS") most;
      max_requests = setting_or settings (codes "PHP_FPM_MAX_REQUESTS") (codes "500");
    }

unfoldable pub resolve_pool : Values → Text → Result PolicyError Pool
unfolding pool_of kilobytes
resolve_pool settings php_memory = do
  process ← kilobytes (setting_or settings (codes "PHP_FPM_PROCESS_MEMORY") (codes "128m"))
  memory ← kilobytes php_memory
  ok (pool_of settings memory process)

unfoldable pub is_pool_number : Text → Bool
unfolding number_of
is_pool_number value = is_number value && leb (number_of 0 value) 100000

unfoldable pub is_ordered : Pool → Bool
unfolding number_of
is_ordered pool =
    leb (number_of 0 pool.min_spare) (number_of 0 pool.start_servers)
    && leb (number_of 0 pool.start_servers) (number_of 0 pool.max_spare)
    && leb (number_of 0 pool.max_spare) (number_of 0 pool.max_children)

-- One of the four sizes that may not be 0.
unfoldable pub check_size : Text → Text → Result PolicyError (Unit {0})
unfolding is_pool_number number_of
check_size name value = do
  ensure (is_pool_number value) (bad_number name)
  ensure (not (number_of 0 value == 0)) (not_positive name)

unfoldable pub check_pool : Pool → Result PolicyError (Unit {0})
unfolding check_size is_ordered is_pool_number
check_pool pool = do
  check_size (codes "PHP_FPM_MAX_CHILDREN") pool.max_children
  check_size (codes "PHP_FPM_START_SERVERS") pool.start_servers
  check_size (codes "PHP_FPM_MIN_SPARE_SERVERS") pool.min_spare
  check_size (codes "PHP_FPM_MAX_SPARE_SERVERS") pool.max_spare
  ensure (is_pool_number pool.max_requests) (bad_number (codes "PHP_FPM_MAX_REQUESTS"))
  ensure (is_ordered pool) unordered
