-- ===== src/Tests/Stacks.antt =====
-- Two domains, and a stack with one secret.
use docker_development_envir.Common.{
  Bool, true, false, ◌&&◌, nat_eq, list_eq, List, [], ◌∷◌, Option, some, Text, ◌≡◌, refl, ok, codes,
  is_distinct, all, ◌⊎◌, if◌then◌else◌,
}
use docker_development_envir.Environments.{is_server}
use docker_development_envir.Settings.{Values, value_of}
use docker_development_envir.Settings.Setup.{words}
use docker_development_envir.Domains.{
  References, Project, hosts_variable, is_hostname, stays, resolve_domains, apply_domains,
  extra_hosts,
}
use docker_development_envir.Domains.Hosts.{resolve_domains-hosts}
use docker_development_envir.Domains.Carried.{extra_hosts-apply_domains}
use docker_development_envir.Domains.Words.{is_word}
use docker_development_envir.Store.{fill, fill_from_store}
use docker_development_envir.Store.Filled.{value_of-fill, value_of-fill_from_store}

abbrev domain_entries : Values
domain_entries = (codes "DOMAIN_LT", codes "Demo.lt") ∷ []

abbrev project : Project
project = record {
  settings = (codes "DOMAIN", codes "DOMAIN_LT demo.ee demo.lt") ∷ [];
  references = [];
  process_env = [];
}

abbrev domains : List Text × References
domains = (codes "demo.lt" ∷ codes "demo.ee" ∷ [], (codes "DOMAIN_LT", codes "demo.lt") ∷ [])

domains_resolved :
    resolve_domains (value_of (codes "DOMAIN") project.settings) domain_entries ≡ ok domains
unfolding resolve_domains
domains_resolved = refl

resolve_domains-hosts_example :
    (is_distinct domains.0 ≡ true)
    × (all is_word domains.0 ≡ true)
    × ((all is_hostname domains.0 ≡ true)
        ⊎ ((domains.0 ≡ words (value_of (codes "DOMAIN") project.settings))
            × (stays (words (value_of (codes "DOMAIN") project.settings)) ≡ true)))
resolve_domains-hosts_example =
    resolve_domains-hosts (value_of (codes "DOMAIN") project.settings) domain_entries
      {found = domains} domains_resolved

abbrev applied : Project
applied = record {
  settings = (codes "DOMAIN", codes "demo.lt") ∷ (hosts_variable, codes "demo.lt demo.ee") ∷ [];
  references = (codes "DOMAIN_LT", codes "demo.lt") ∷ [];
  process_env = (codes "DOMAIN", codes "demo.lt") ∷ (hosts_variable, codes "demo.lt demo.ee") ∷ [];
}

domains_applied : apply_domains domain_entries project ≡ ok applied
unfolding apply_domains
domains_applied = refl

extra_hosts-apply_domains_example :
    (value_of (codes "DOMAIN") applied.settings ≡ codes "demo.lt")
    × (extra_hosts applied.settings ≡ codes "demo.ee" ∷ [])
    × (value_of (codes "DOMAIN") applied.process_env ≡ codes "demo.lt")
    × (words (value_of hosts_variable applied.process_env) ≡ domains.0)
extra_hosts-apply_domains_example =
    extra_hosts-apply_domains domain_entries project {found = domains} {after = applied}
      domains_resolved domains_applied

value_of-fill_example :
    value_of (codes "TOKEN") (fill ((codes "TOKEN", codes "b") ∷ []) (codes "TOKEN" ∷ []) []).1
    ≡ (if true && true then codes "b" else [])
value_of-fill_example =
    value_of-fill ((codes "TOKEN", codes "b") ∷ []) (codes "TOKEN" ∷ []) [] (codes "TOKEN")

abbrev shop : Values
shop =
    (codes "PROJECT_NAME", codes "shop") ∷ (codes "DEPLOY_REQUIRED_VARIABLES", codes "API_KEY") ∷ []

abbrev process : Values
process = (codes "DATABASE_PASSWORD", codes "mine") ∷ []

abbrev held_lines : Text → Text → Option (List Text)
held_lines context name = some (codes "API_KEY=b" ∷ codes "DATABASE_PASSWORD=theirs" ∷ [])

filled_from_store :
    fill_from_store held_lines (ok (shop, [])) (codes "stage") false process
    ≡ ok (
      codes "API_KEY" ∷ [],
      (codes "DATABASE_PASSWORD", codes "mine") ∷ (codes "API_KEY", codes "b") ∷ [],
    )
unfolding fill_from_store
filled_from_store = refl

value_of-fill_from_store_example :
    (codes "mine" ≡ value_of (codes "DATABASE_PASSWORD") process)
    × (((codes "DATABASE_PASSWORD", codes "mine") ∷ (codes "API_KEY", codes "b") ∷ [] ≡ process)
        ⊎ ((◌≡◌ {A = Bool} false false) × (is_server (codes "stage") ≡ true)))
value_of-fill_from_store_example =
    value_of-fill_from_store held_lines (ok (shop, [])) (codes "stage") false process
      (codes "DATABASE_PASSWORD") filled_from_store refl
