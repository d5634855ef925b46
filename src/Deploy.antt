-- ===== src/Deploy.antt =====
-- docker/project_deploy.py: the code deploy. What one run reads of the project and what its external
-- steps answer is a `Host`; what the run changes is a `Deploying`.
pub mod History
pub mod Paths
pub mod Removal
pub mod Stages
pub mod Machine
pub mod Recorded
pub mod Kept
pub mod Final
pub mod Verdict
use docker_development_envir.Common.{
  ℕ, Bool, List, [], ◌∷◌, ◌++◌, Option, none, String, Text, Result, Run, lift, modify, ◌>>=◌, ◌>>◌,
}
use docker_development_envir.Attempts.{Entry, Value, Release}
use docker_development_envir.Attempts.Record

-- An exception: a `ValueError`, a failed command, or any other.
pub data Failure : Type 0 where
  value_error process_error other_error : String → Failure

-- The external steps of a deploy, in the order in which a run begins them.
pub data Action : Type 0 where
  build : String → Action
  list_modules wait_ready back_up check_links : Action
  push : String → Action
  push_protected write_manifest : Action
  remove : List Text → Action
  sync_environment hook upgrade_modules migrate translate report_schema : Action
  clear_cache reload_php publish report_traffic : Action

-- The project's settings and files, and the answers of the steps, for one run.
pub record Host : Type 0 where
  pub prestashop : Bool
  pub isolated : Bool
  -- release_settings up to the first check_trusted, and the second one
  pub prepared : Result Failure (Unit {0})
  pub trusted : Result Failure (Unit {0})
  pub php_reload : Option String
  pub ps_version : Option String
  -- DEPLOY_CACHE_CLEAR_PATHS, and code_tree_patterns of DEPLOY_PROTECTED_PATHS
  pub cache_clear_paths : List Text
  pub project_paths : List Text
  pub has_hook : Bool
  pub has_migrations : Bool
  pub has_translations : Bool
  pub has_schema : Bool
  pub cache_command : Option String
  -- the commit that `build_code` makes a release of
  pub built_commit : Result Failure String
  -- whether the release of a commit's first 12 digits is complete
  pub is_built : String → Bool
  -- the file names a release ships, none without a file list, and the list that write_manifest writes
  pub manifest : String → Option (List Text)
  pub new_manifest : List Text
  pub old_manifest : String → Bool
  -- what changed between two commits: the path and its status letter
  pub changed_code : String → String → Option (List (Text × ℕ))
  pub modules_listed : Result Failure (Unit {0})
  pub database_ready : Result Failure (Unit {0})
  pub backup : Result Failure String
  pub links_checked : Result Failure (Unit {0})
  pub pushed : Result Failure (Unit {0})
  pub protected_pushed : Result Failure (Unit {0})
  pub manifest_written : Result Failure (Unit {0})
  -- the names that the target had to leave
  pub removed : List Text → Result Failure (List Text)
  pub synced : Result Failure (Unit {0})
  pub hooked : Result Failure (Unit {0})
  pub hook_seconds : ℕ
  pub upgraded : Result Failure (Unit {0})
  pub migrated : Result Failure (List String)
  pub translated : Result Failure (List String)
  pub schema_reported : Result Failure (Unit {0})
  pub cache_cleared : Result Failure (Unit {0})
  pub reloaded : Result Failure (Unit {0})
  pub published : Result Failure (Unit {0})
  pub traffic_reported : Result Failure (Unit {0})

-- The state of one run: the release directory, the steps begun, and the locals that its exception
-- handler reads (`stage`, `entry`, `pending`), and whether the database was waited for.
pub record Deploying : Type 0 where
  pub release : Release
  pub trace : List Action
  pub stage : String
  pub entry : Entry
  pub pending : Bool
  pub waited : Bool

abbrev pub Deploy : Type 0 → Type 0
Deploy A = Run Failure Deploying A

unfoldable pub act : {A : Type 0} → Action → Result Failure A → Deploy A
act a r s = (r, record s { trace = s.trace ++ a ∷ [] })

unfoldable pub at_stage : String → Deploy (Unit {0})
unfolding modify
at_stage name = modify (λ s. record s { stage = name })

unfoldable pub change_entry : (Entry → Entry) → Deploy (Unit {0})
unfolding modify
change_entry f = modify (λ s. record s { entry = f s.entry })

unfoldable pub change_history : (List Entry → List Entry) → Deploy (Unit {0})
unfolding modify
change_history f =
    modify (λ s. record s { release = record s.release { history = f s.release.history } })

module _ (now : ℕ → String) where
  -- `events.event(...)`
  unfoldable pub note : Option String → String → String → List (String × Value) → Deploy (Unit {0})
  unfolding modify
  note id stage state fields =
      modify (λ s. record s { release = Record.event now id stage state fields s.release })
