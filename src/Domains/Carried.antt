-- ===== src/Domains/Carried.antt =====
-- The settings that carry the hostnames of DOMAIN.
use docker_development_envir.Common.{
  true, false, not, ◌==◌, nat_eq, list_eq, option_eq, List, [], ◌∷◌, Text, ◌≡◌, refl, sym, ◌∙◌, ap,
  ok, codes, contains, is_distinct, all, drop, filter_by, put, arith, beq_self,
}
use docker_development_envir.Common.Results.{>>=-ok, ok-injective}
use docker_development_envir.Settings.{Values, value_of}
use docker_development_envir.Settings.Put.{value_of-put}
use docker_development_envir.Settings.Setup.{words}
use docker_development_envir.Domains.{
  DomainError, References, resolve_domains, Project, hosts_variable, primary_of, sql_domain,
  apply_domains, extra_hosts, spaced,
}
use docker_development_envir.Domains.Words.{is_word, words-spaced}
use docker_development_envir.Domains.Hosts.{resolve_domains-hosts}

filter_by-others :
    (x : Text) (xs : List Text)
    → contains x xs ≡ false
    → filter_by (λ host. not (host == x)) xs ≡ xs
filter_by-others x [] h = refl
filter_by-others x (y ∷ xs) h =
    let other : (y == x) ≡ false = ground arith in
    rw other (ap (◌∷◌ y) (filter_by-others x xs (ground arith)))

filter_by-primary :
    (hosts : List Text)
    → is_distinct hosts ≡ true
    → filter_by (λ host. not (host == primary_of hosts)) hosts ≡ drop 1 hosts
filter_by-primary [] d = refl
filter_by-primary (x ∷ xs) d = rw (beq_self x) (filter_by-others x xs (ground arith))

-- Settings with the hosts in their two places.
abbrev stored : List Text → Values → Values
stored hosts settings =
    put hosts_variable (spaced hosts) (put (codes "DOMAIN") (primary_of hosts) settings)

value_of-stored :
    (hosts : List Text) (settings : Values)
    → value_of (codes "DOMAIN") (stored hosts settings) ≡ primary_of hosts
value_of-stored hosts settings =
    value_of-put hosts_variable (codes "DOMAIN") (spaced hosts)
      (put (codes "DOMAIN") (primary_of hosts) settings)
    ∙ value_of-put (codes "DOMAIN") (codes "DOMAIN") (primary_of hosts) settings

words-stored :
    (hosts : List Text) (settings : Values)
    → all is_word hosts ≡ true
    → words (value_of hosts_variable (stored hosts settings)) ≡ hosts
words-stored hosts settings h =
    ap words (
      value_of-put hosts_variable hosts_variable (spaced hosts)
        (put (codes "DOMAIN") (primary_of hosts) settings))
    ∙ words-spaced hosts h

extra_hosts-stored :
    (hosts : List Text) (settings : Values)
    → is_distinct hosts ≡ true
    → all is_word hosts ≡ true
    → extra_hosts (stored hosts settings) ≡ drop 1 hosts
unfolding extra_hosts
extra_hosts-stored hosts settings d h =
    ap (filter_by (λ host. not (host == value_of (codes "DOMAIN") (stored hosts settings))))
      (words-stored hosts settings h)
    ∙ ap (λ (p : Text). filter_by (λ host. not (host == p)) hosts) (value_of-stored hosts settings)
    ∙ filter_by-primary hosts d

-- After apply_domains the settings name the first host as DOMAIN, extra_hosts finds exactly the other
-- hosts, in their order, and a process finds all of them in SETUP_DOMAIN_HOSTS and the first in DOMAIN.
pub extra_hosts-apply_domains :
    (entries : Values) (project : Project) {found : List Text × References} {after : Project}
    → resolve_domains (value_of (codes "DOMAIN") project.settings) entries ≡ ok found
    → apply_domains entries project ≡ ok after
    → (value_of (codes "DOMAIN") after.settings ≡ primary_of found.0)
      × (extra_hosts after.settings ≡ drop 1 found.0)
      × (value_of (codes "DOMAIN") after.process_env ≡ primary_of found.0)
      × (words (value_of hosts_variable after.process_env) ≡ found.0)
unfolding apply_domains
extra_hosts-apply_domains entries project {found} {after} h k =
    let a = >>=-ok (resolve_domains (value_of (codes "DOMAIN") project.settings) entries) _ k in
    let same : a.0 ≡ found = ok-injective {E = DomainError} (sym a.1 ∙ h) in
    let hosts = resolve_domains-hosts (value_of (codes "DOMAIN") project.settings) entries h in
    let before =
      sql_domain (value_of (codes "DOMAIN") project.settings) (primary_of found.0)
        project.settings in
    let settings_is = ap (λ (p : Project). p.settings) (sym (ok-injective {E = DomainError} a.2)) in
    let env_is = ap (λ (p : Project). p.process_env) (sym (ok-injective {E = DomainError} a.2)) in
    rw (settings_is, env_is, same)
      (
        value_of-stored found.0 before,
        extra_hosts-stored found.0 before hosts.0 hosts.1,
        value_of-stored found.0 project.process_env,
        words-stored found.0 project.process_env hosts.1,
      )
