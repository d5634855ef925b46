-- ===== src/Domains.antt =====
-- docker/project_domains.py: DOMAIN as one hostname or a list of hostnames and of DOMAIN_<NAME> variables.
pub mod Words
pub mod Hosts
pub mod Carried
use docker_development_envir.Common.{
  ℕ, Bool, true, false, not, ◌&&◌, ◌||◌, ◌==◌, nat_eq, list_eq, option_eq, List, [], ◌∷◌, ◌++◌,
  Option, none, some, Text, Result, ok, err, codes, contains, get, put, all, filter_by, has_prefix,
  drop, is_empty, is_digit, is_lower, is_upper, split_on, last?, map, ◌+◌, length, ltb,
  if◌then◌else◌,
}
use docker_development_envir.Common.Results.{◌>>=◌, ◌>>◌, ensure}
use docker_development_envir.Settings.{Values, value_of}
use docker_development_envir.Settings.Dotenv.{trimmed}
use docker_development_envir.Settings.Setup.{words}

pub data DomainError : Type 0 where
  unset bad_host neither : Text → DomainError

is_label_char : ℕ → Bool
is_label_char c = is_lower c || is_digit c || c == b'-'

ends_plain : Text → Bool
ends_plain label = elim (last? label) [ none ↦ false | some c ↦ not (c == b'-') ]

starts_plain : Text → Bool
starts_plain [] = false
starts_plain (c ∷ cs) = not (c == b'-')

-- `[a-z0-9](?:[a-z0-9-]*[a-z0-9])?`
is_label : Text → Bool
unfolding is_label_char ends_plain starts_plain
is_label label = all is_label_char label && starts_plain label && ends_plain label

-- HOSTNAME: labels between dots
unfoldable pub is_hostname : Text → Bool
unfolding is_label
is_hostname host = all is_label (split_on b'.' host)

-- REFERENCE, `DOMAIN_[A-Z0-9_]+`
unfoldable pub is_reference : Text → Bool
is_reference word =
    has_prefix (codes "DOMAIN_") word
    && not (is_empty (drop 7 word))
    && all (λ c. is_upper c || is_digit c || c == b'_') (drop 7 word)

lower_char : ℕ → ℕ
lower_char c = if is_upper c then c + 32 else c

-- The variables of a list that name a host, with their hosts.
abbrev pub References : Type 0
References = List (Text × Text)

-- The host that one word stands for.
unfoldable pub host_of : Values → Text → Result DomainError Text
unfolding is_reference is_hostname lower_char
host_of values word =
    let named = map lower_char (trimmed (value_of word values)) in
    if is_reference word
    then (if is_empty named
        then err (unset word)
        else if is_hostname named
        then ok named
        else err (bad_host word))
    else if is_hostname word
    then ok word
    else err (neither word)

abbrev pub add_host : Text → List Text → List Text
add_host host hosts = if contains host hosts then hosts else hosts ++ host ∷ []

abbrev pub add_reference : Text → Text → References → References
add_reference word host references =
    if is_reference word then put word host references else references

-- The loop over the words, with the hosts and references found so far.
unfoldable pub collect :
    Values → List Text → List Text × References → Result DomainError (List Text × References)
unfolding host_of
collect values [] found = ok found
collect values (word ∷ more) (hosts, references) = host_of values word >>= λ host.
    collect values more (add_host host hosts, add_reference word host references)

-- A single word that names no variable stays as it is.
unfoldable pub stays : List Text → Bool
stays [] = false
stays (word ∷ []) = not (is_reference word)
stays (word ∷ other ∷ more) = false

unfoldable pub resolve_domains : Text → Values → Result DomainError (List Text × References)
unfolding words stays collect
resolve_domains raw values =
    if stays (words raw) then ok (words raw, []) else collect values (words raw) ([], [])

-- `' '.join(hosts)`
unfoldable pub spaced : List Text → Text
spaced [] = []
spaced (x ∷ []) = x
spaced (x ∷ y ∷ xs) = x ++ (b' ' ∷ spaced (y ∷ xs))

-- The settings, the references among them, and the environment of the processes.
pub record Project : Type 0 where
  pub settings : Values
  pub references : References
  pub process_env : Values

abbrev pub hosts_variable : Text
hosts_variable = codes "SETUP_DOMAIN_HOSTS"

abbrev pub primary_of : List Text → Text
primary_of [] = []
primary_of (host ∷ hosts) = host

-- SQL_DOMAIN follows DOMAIN where it is its default.
abbrev pub sql_domain : Text → Text → Values → Values
sql_domain raw primary settings =
    if get (codes "SQL_DOMAIN") settings == some raw
    then put (codes "SQL_DOMAIN") primary settings
    else settings

-- apply_domains: `entries` are those of the env files.
unfoldable pub apply_domains : Values → Project → Result DomainError Project
unfolding resolve_domains spaced
apply_domains entries project = do
  let raw = value_of (codes "DOMAIN") project.settings
  found ← resolve_domains raw entries
  let primary = primary_of found.0
  let renamed = put (codes "DOMAIN") primary (sql_domain raw primary project.settings)
  ok (record {
    settings = put hosts_variable (spaced found.0) renamed;
    references = found.1;
    process_env =
        put hosts_variable (spaced found.0) (put (codes "DOMAIN") primary project.process_env);
  })

-- The hostnames after the primary one.
unfoldable pub extra_hosts : Values → List Text
unfolding words
extra_hosts settings =
    filter_by (λ host. not (host == value_of (codes "DOMAIN") settings))
      (words (value_of hosts_variable settings))

-- domain_aliases: the names that the network gives to nginx-proxy, none with one hostname.
unfoldable pub domain_aliases : Values → List Text
unfolding words
domain_aliases settings =
    let hosts = words (value_of hosts_variable settings) in
    if ltb (length hosts) 2 then [] else hosts
