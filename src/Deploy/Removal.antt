-- ===== src/Deploy/Removal.antt =====
-- The files that a deploy removes from the target, the releases kept, and cache=auto.
pub mod Laws
pub mod Pruned
use docker_development_envir.Common.{
  map, ℕ, Bool, true, false, not, ◌&&◌, ◌||◌, ◌==◌, nat_eq, string_eq, list_eq, option_eq, List, [],
  ◌∷◌, ◌++◌, Option, none, some, String, Text, codes, is_some, is_empty, any, filter_by, contains,
  take, drop, length, leb, ltb, zero, suc, ◌-◌, truthy, short, concat, join, decimal, if◌then◌else◌,
}
use docker_development_envir.Common.Sort.{sorted_set}
use docker_development_envir.Attempts.{Entry, is_failed}
use docker_development_envir.Deploy.{Host}
use docker_development_envir.Deploy.History.{or_nil, removal_sources, reversed}
use docker_development_envir.Deploy.Paths.{is_protected, safe_names, cache_path_matches}

abbrev codes_of : List String → List Text
codes_of = map codes

prestashop_writable : List Text
prestashop_writable = codes_of (
    "/var/" ∷ "/img/" ∷ "/upload/" ∷ "/download/" ∷ "/cache/" ∷ "/config/themes/"
    ∷ "/app/config/parameters.php" ∷ "/config/settings.inc.php" ∷ "/app/Resources/translations/"
    ∷ "/themes/*/cache/" ∷ "/themes/*/assets/cache/" ∷ "/modules/*/cache/" ∷ "/modules/*/var/"
    ∷ "/modules/*/translations/" ∷ "/themes/*/modules/*/translations/" ∷ "/mails/*/lang.php"
    ∷ "/themes/*/mails/*/lang.php" ∷ "/translations/*-*/" ∷ "/translations/export/" ∷ "/.htaccess"
    ∷ "/robots.txt" ∷ "/sitemap*.xml" ∷ [])

tool_paths : List Text
tool_paths = codes_of ("/.setup-tools/" ∷ "/.git/" ∷ "/.claude/" ∷ "/.idea/" ∷ [])

-- Paths of the code tree that a deploy never overwrites or deletes.
unfoldable pub protected_paths : Host → List Text
unfolding prestashop_writable tool_paths
protected_paths host =
    (if host.prestashop then prestashop_writable else []) ++ tool_paths ++ host.project_paths

prestashop_cache_paths : List Text
prestashop_cache_paths = codes_of ("*.yml" ∷ "*.yaml" ∷ "*.xlf" ∷ "*.twig" ∷ [])

unfoldable pub cache_patterns : Host → List Text
unfolding prestashop_cache_paths
cache_patterns host =
    (if host.prestashop then prestashop_cache_paths else []) ++ host.cache_clear_paths

-- (known, the names) of the manifests that can be read.
unfoldable pub shipped : (String → Option (List Text)) → List String → Bool × List Text
shipped manifest [] = (false, [])
shipped manifest (c ∷ cs) =
    let (known, names) = shipped manifest cs in
    elim (manifest c) [ none ↦ (known, names) | some ns ↦ (true, ns ++ names) ]

module _ (host : Host) where
  unfoldable pub removed_files : List Entry → String → List Text
  removed_files entries current =
      let (commits, pending) = removal_sources entries in
      let (known, names) = shipped host.manifest commits in
      let after = or_nil (host.manifest current) in
      let stale =
        filter_by
          (λ (name : Text).
            not (contains name after)
            && not (is_empty name)
            && not (is_protected (protected_paths host) name))
          (sorted_set (pending ++ names)) in
      if not known && is_empty pending then [] else safe_names stale

-- The newest completed releases by their first 12 digits, each once, at most `n` of them.
-- `seen` are those found so far; the entries come newest first.
unfoldable pub distinct_releases : ℕ → List String → List Entry → List String
distinct_releases n seen [] = seen
distinct_releases n seen (e ∷ es) =
    let now =
      if not (is_failed e) && not (contains (short e.commit) seen)
      then seen ++ short e.commit ∷ []
      else seen in
    let rest = distinct_releases n now es in if length now == n then now else rest

abbrev pub keep_releases : ℕ
keep_releases = 3

-- The code that the target holds now.
held_release : List Entry → List String
held_release [] = []
held_release (e ∷ es) = short e.commit ∷ []

-- The names that prune_releases removes: `releases` are the folders, newest first.
unfoldable pub pruned : List Entry → String → List String → List String
unfolding distinct_releases held_release
pruned entries keep releases =
    let used = keep ∷ distinct_releases keep_releases [] (reversed entries) in
    let held = held_release (reversed entries) in
    filter_by (λ name. not (contains name (used ++ held))) (drop keep_releases releases)

-- cache=auto: (clear or not, the reason)
module _ (host : Host) where
  abbrev added_patterns : List Text
  added_patterns = if host.prestashop then codes "override/" ∷ [] else []

  unfoldable pub cache_changed : Text × ℕ → Bool
  unfolding cache_patterns
  cache_changed (name, status) =
      any (cache_path_matches name) (cache_patterns host)
      || ((status == b'A' || status == b'D') && any (cache_path_matches name) added_patterns)

  unfoldable pub cache_since : Entry → String → Bool
  unfolding cache_changed
  cache_since previous commit = elim (host.changed_code previous.commit commit) [
    | none ↦ true
    | some changed ↦ any cache_changed changed
  ]

  unfoldable pub cache_needed : List Entry → String → Bool → List String → Bool
  unfolding cache_since
  cache_needed entries commit rollback translations = elim (reversed entries) [
    | [] ↦ true
    | previous ∷ earlier ↦
        if rollback
        then true
        else if is_failed previous
        then true
        else if not (is_empty translations)
        then true
        else if host.prestashop && not (previous.ps_version == host.ps_version)
        then true
        else if is_empty (cache_patterns host)
        then true
        else cache_since previous commit
  ]
