-- ===== src/Policy/Resources.antt =====
-- resolve_resources: the container limits of each service, and the sizes inside the containers that follow.
pub mod Laws
use docker_development_envir.Common.{
  ℕ, Bool, true, false, not, ◌&&◌, ◌||◌, ◌==◌, nat_eq, list_eq, List, [], ◌∷◌, ◌++◌, Option, none,
  some, Text, Result, ok, err, codes, contains, all, any, is_empty, is_digit, ltb, leb, split_on,
  map, init, final_char, ◌+◌, ◌*◌, ◌/◌, ◌-◌, if◌then◌else◌,
}
use docker_development_envir.Common.Numbers.{number_of, is_number, is_positive, digits}
use docker_development_envir.Common.Results.{◌>>=◌, ◌>>◌, ensure}
use docker_development_envir.Environments.{is_server}
use docker_development_envir.Settings.{Values, value_of}
use docker_development_envir.Policy.{
  PolicyError, bad_size, bad_number, bad_cpus, missing_limits, setting_or, kilobytes,
}

-- RESOURCES and MEMORY_ALIASES: a service, its memory and CPUs on a local machine, and the older name of
-- its memory, which is empty where there is none.
pub record Resource : Type 0 where
  pub name : Text
  pub memory : Text
  pub cpus : Text
  pub alias : Text

unfoldable pub resource : Text → Text → Text → Text → Resource
resource name memory cpus alias = record {
  name = name;
  memory = memory;
  cpus = cpus;
  alias = alias;
}

unfoldable pub resources : List Resource
unfolding resource
resources =
    resource (codes "PHP") (codes "1g") (codes "2") (codes "PHP_CONTAINER_MEMORY")
    ∷ resource (codes "DATABASE") (codes "2g") (codes "2") (codes "DB_CONTAINER_MEMORY")
    ∷ resource (codes "WEBSERVER") (codes "256m") (codes "1") (codes "WEB_CONTAINER_MEMORY")
    ∷ resource (codes "PROXY") (codes "128m") (codes "0.5") (codes "WEB_CONTAINER_MEMORY")
    ∷ resource (codes "CRON") (codes "512m") (codes "1") (codes "PHP_CONTAINER_MEMORY")
    ∷ resource (codes "MEMCACHED") (codes "256m") (codes "0.5") []
    ∷ resource (codes "REDIS") (codes "256m") (codes "0.5") []
    ∷ resource (codes "PMA") (codes "256m") (codes "0.5") (codes "PHP_CONTAINER_MEMORY")
    ∷ resource (codes "MAILPIT") (codes "256m") (codes "0.5") (codes "WEB_CONTAINER_MEMORY")
    ∷ resource (codes "DBMONITOR") (codes "128m") (codes "0.25") []
    ∷ resource (codes "METRICS") (codes "128m") (codes "0.25") []
    ∷ resource (codes "BACKUP") (codes "128m") (codes "0.25") []
    ∷ []

abbrev pub remote_required : List Text
remote_required = codes "PHP" ∷ codes "DATABASE" ∷ codes "WEBSERVER" ∷ codes "PROXY" ∷ []

abbrev pub memory_key : Text → Text
memory_key name = name ++ codes "_MEMORY"

abbrev pub cpus_key : Text → Text
cpus_key name = name ++ codes "_CPUS"

unfoldable pub explicit_memory : Values → Resource → Text
explicit_memory settings r = setting_or settings (memory_key r.name) (value_of r.alias settings)

unfoldable pub explicit_cpus : Values → Resource → Text
explicit_cpus settings r =
    setting_or settings (cpus_key r.name) (value_of (codes "CONTAINER_CPUS") settings)

pub record Limits : Type 0 where
  pub name : Text
  pub memory : Text
  pub cpus : Text

unfoldable pub limits_of : Values → Resource → Limits
unfolding explicit_memory explicit_cpus
limits_of settings r =
    let memory = explicit_memory settings r in
    let cpus = explicit_cpus settings r in
    record {
      name = r.name;
      memory = if is_empty memory then r.memory else memory;
      cpus = if is_empty cpus then r.cpus else cpus;
    }

-- The limits that a server environment must write out and does not, of one service.
unfoldable pub missing_of : Values → Text → Resource → List Text
unfolding explicit_memory explicit_cpus
missing_of settings environment r =
    if is_server environment && contains r.name remote_required
    then (if is_empty (explicit_memory settings r) then memory_key r.name ∷ [] else [])
      ++ (if is_empty (explicit_cpus settings r) then cpus_key r.name ∷ [] else [])
    else []

unfoldable pub lacking_limits : Values → Text → List Resource → List Text
unfolding missing_of
lacking_limits settings environment [] = []
lacking_limits settings environment (r ∷ rs) =
    missing_of settings environment r ++ lacking_limits settings environment rs

-- `\d+(?:\.\d+)?` and `0 < float(cpus) <= 1024`. The number is read exactly: what only the rounding of
-- `float` lets pass is refused.
unfoldable pub is_cpus : Text → Bool
unfolding number_of
is_cpus cpus = elim (split_on b'.' cpus) [
  | [] ↦ false
  | whole ∷ rest ↦ elim rest [
    | [] ↦ is_number whole && ltb 0 (number_of 0 whole) && leb (number_of 0 whole) 1024
    | fraction ∷ more ↦
        (let n = number_of 0 whole in
          let part = number_of 0 fraction in
          is_empty more
          && is_number whole
          && is_number fraction
          && (ltb 0 n || ltb 0 part)
          && (ltb n 1024 || (n == 1024 && part == 0)))
  ]
]

-- Each memory a size, each number of CPUs in its range.
unfoldable pub check_limits : List Limits → Result PolicyError (Unit {0})
unfolding kilobytes is_cpus
check_limits [] = ok tt
check_limits (l ∷ ls) =
    kilobytes l.memory >>= λ _. ensure (is_cpus l.cpus) (bad_cpus l.name) >>= λ _. check_limits ls

unfoldable pub memory_in : Text → List Limits → Text
memory_in name [] = []
memory_in name (l ∷ ls) = if l.name == name then l.memory else memory_in name ls

-- Of the kilobytes of a service's memory, so many tenths in whole megabytes, but `least` at the least.
unfoldable pub share_of : ℕ → ℕ → ℕ → ℕ
share_of least tenths memory =
    let size = memory * tenths / (10 * 1024) in if ltb size least then least else size

-- `[1-9]\d*[KMG]?`
is_pool_size : Text → Bool
is_pool_size size = elim (final_char size) [
  | none ↦ false
  | some c ↦
      if c == b'K' || c == b'M' || c == b'G' then is_positive (init size) else is_positive size
]

pub record Sizes : Type 0 where
  pub buffer_pool : Text
  pub memcached : Text
  pub redis : Text

unfoldable pub resolve_sizes : Values → List Limits → Result PolicyError Sizes
unfolding memory_in share_of is_pool_size digits kilobytes
resolve_sizes settings limits = do
  database ← kilobytes (memory_in (codes "DATABASE") limits)
  let buffer_pool =
      setting_or settings (codes "DATABASE_BUFFER_POOL")
        (digits (share_of 64 6 database) ++ codes "M")
  ensure (is_pool_size buffer_pool) (bad_size (codes "DATABASE_BUFFER_POOL"))
  cache ← kilobytes (memory_in (codes "MEMCACHED") limits)
  let memcached = setting_or settings (codes "MEMCACHED_CACHE_MB") (digits (share_of 16 9 cache))
  ensure (is_positive memcached) (bad_number (codes "MEMCACHED_CACHE_MB"))
  store ← kilobytes (memory_in (codes "REDIS") limits)
  let redis = setting_or settings (codes "REDIS_MAXMEMORY_MB") (digits (share_of 16 9 store))
  ensure (is_positive redis) (bad_number (codes "REDIS_MAXMEMORY_MB"))
  ok (record { buffer_pool = buffer_pool; memcached = memcached; redis = redis })

pub record Resolved : Type 0 where
  pub limits : List Limits
  pub sizes : Sizes

unfoldable pub resolve_limits : Values → Text → Result PolicyError Resolved
unfolding lacking_limits limits_of check_limits resolve_sizes
resolve_limits settings environment = do
  let lacking = lacking_limits settings environment resources
  ensure (is_empty lacking) (missing_limits lacking)
  let limits = map (limits_of settings) resources
  check_limits limits
  sizes ← resolve_sizes settings limits
  ok (record { limits = limits; sizes = sizes })
