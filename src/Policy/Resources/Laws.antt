-- ===== src/Policy/Resources/Laws.antt =====
-- A server environment runs its main services under limits that its settings write out.
use docker_development_envir.Common.{
  any, codes, Bool, not, ◌&&◌, nat_eq, list_eq, List, Text, is_empty,
}
use docker_development_envir.Settings.{Values, value_of}
use docker_development_envir.Policy.{setting_or}
use docker_development_envir.Policy.Resources.{
  Resource, memory_key, cpus_key, explicit_memory, explicit_cpus,
}

-- Both limits of a service are written out.
abbrev pub is_explicit : Values → Resource → Bool
is_explicit settings r =
    not (is_empty (explicit_memory settings r)) && not (is_empty (explicit_cpus settings r))

-- One of the keys has a value.
abbrev pub is_given : Values → List Text → Bool
is_given settings keys = any (λ key. not (is_empty (value_of key settings))) keys

-- Both limits of a service are given, by its name and its container's key.
abbrev both_given : Values → Text → Text → Bool
both_given settings name alias =
    not (is_empty (setting_or settings (memory_key name) (value_of alias settings)))
    && not (
        is_empty (setting_or settings (cpus_key name) (value_of (codes "CONTAINER_CPUS") settings)))
