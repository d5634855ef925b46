-- ===== src/Store.antt =====
-- docker/project_secret_store.py: a stack keeps the Deployment variables that it was deployed with, and a command
-- outside a pipeline takes from it what its process lacks.
pub mod Filled
use docker_development_envir.Common.{
  ℕ, Bool, true, false, not, ◌&&◌, ◌||◌, ◌==◌, nat_eq, list_eq, List, [], ◌∷◌, ◌++◌, Option, none,
  some, Text, Result, ok, err, codes, filter_by, put, is_empty, map, if◌then◌else◌,
}
use docker_development_envir.Common.Results.{◌>>=◌}
use docker_development_envir.Environments.{is_server}
use docker_development_envir.Settings.{Values, value_of}
use docker_development_envir.Settings.Variables.{SettingsError, listed_names, deployment_variables}

-- `entry.split('=', 1)`: none without a `=`
split_entry : Text → Option (Text × Text)
split_entry [] = none
split_entry (c ∷ cs) =
    let rest = split_entry cs in
    if c == b'='
    then some ([], cs)
    else elim rest [ none ↦ none | some (name, value) ↦ some (c ∷ name, value) ]

entries_onto : Values → List Text → Values
unfolding split_entry
entries_onto values [] = values
entries_onto values (line ∷ lines) =
    entries_onto
      (elim (split_entry line) [ none ↦ values | some (name, value) ↦ put name value values ]) lines

-- read_store: `inspected` is the environment of the container; none without a running one.
unfoldable pub read_store : Option (List Text) → Values
unfolding entries_onto
read_store none = []
read_store (some lines) = entries_onto [] lines

unfoldable pub container_name : Text → Text → Text
container_name project environment = project ++ codes "-" ++ environment ++ codes "-secrets"

-- store_names: `files` is what file_settings gives, (the values, the mentioned ones).
unfoldable pub store_names :
    Result SettingsError (Values × Values) → Text → Result SettingsError (List Text)
unfolding deployment_variables
store_names files environment =
    let names = files >>= λ (found : Values × Values).
    deployment_variables found.0 found.1 >>= λ listed. ok (listed_names listed) in
    if is_server environment then names else ok []

-- `process_env.update({name: store[name] for name in filled})`
unfoldable pub put_all : Values → List Text → Values → Values
put_all store [] process_env = process_env
put_all store (name ∷ names) process_env =
    put_all store names (put name (value_of name store) process_env)

abbrev pub lacking : Values → List Text → List Text
lacking process_env = filter_by (λ name. is_empty (value_of name process_env))

abbrev pub held : Values → List Text → List Text
held store = filter_by (λ name. not (is_empty (value_of name store)))

-- The names that the process lacks and the store has: (they, the process with their values).
unfoldable pub fill : Values → List Text → Values → List Text × Values
unfolding put_all
fill store names process_env =
    let filled = held store (lacking process_env names) in
    (filled, put_all store filled process_env)

module _ (inspect : Text → Text → Option (List Text)) where
  -- fill_from_store: `ci` is whether the process says CI=true.
  unfoldable pub fill_from_store :
      Result SettingsError (Values × Values)
      → Text
      → Bool
      → Values
      → Result SettingsError (List Text × Values)
  unfolding store_names fill read_store container_name is_server
  fill_from_store files environment ci process_env =
      let filled = store_names files environment >>= λ names.
      if is_empty (lacking process_env names)
      then ok ([], process_env)
      else (files >>= λ (found : Values × Values).
          let name = container_name (value_of (codes "PROJECT_NAME") found.0) environment in
          let store = read_store (inspect (value_of (codes "DEPLOY_CONTEXT") found.0) name) in
          ok (fill store names process_env)) in
      if not (is_server environment) || ci then ok ([], process_env) else filled

-- secret_store: the lines of the overlay; a name is written as a reference, `NAME: ${NAME-}`.
unfoldable pub store_lines : List Text → List Text
store_lines [] = []
store_lines (name ∷ names) =
    (codes "# Generated: the Deployment variables this stack was deployed with (references only)."
      ∷ codes "services:"
      ∷ codes "  secrets:"
      ∷ codes
          "    image: ${PROJECT_NAME}-php-fpm-${IMAGE_ENV:-${ENV}}${SETUP_IMAGE_SUFFIX_PHP_FPM:-}"
      ∷ codes "    container_name: ${PROJECT_NAME}-${ENV}-secrets"
      ∷ codes "    user: \"${HOST_UID:-1000}:${HOST_GID:-1000}\""
      ∷ codes "    entrypoint: [\"sleep\", \"infinity\"]"
      ∷ codes "    network_mode: none"
      ∷ codes "    read_only: true"
      ∷ codes "    stop_signal: SIGKILL"
      ∷ codes "    mem_limit: 16m"
      ∷ codes "    cpus: 0.05"
      ∷ codes "    restart: unless-stopped"
      ∷ codes "    environment:"
      ∷ [])
    ++ map (λ n. codes "      " ++ n ++ codes ": ${" ++ n ++ codes "-}") (name ∷ names)
