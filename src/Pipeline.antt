-- ===== src/Pipeline.antt =====
-- docker/project_pipeline.py: the CI deploy step. What one run reads of git, the file system and the
-- server is `Tools`; what it changes, and the locals that its handler reads, is a `Stepping`.
pub mod Step
pub mod Decisions
pub mod Order
pub mod Body
pub mod Main
pub mod Inputs
pub mod Checks
pub mod Repeated
pub mod Stable
pub mod Marked
pub mod Ended
pub mod Unstarted
pub mod Started
pub mod Handled
pub mod Restored
use docker_development_envir.Common.{
  ℕ, Bool, true, false, not, ◌==◌, string_eq, nat_eq, List, [], ◌∷◌, Option, none, some, String,
  Text, Result, Run, codes, or_default, get, if◌then◌else◌,
}
use docker_development_envir.Attempts.{Release}

abbrev pub Settings : Type 0
Settings = List (String × String)

-- `values.get(key) or ''`
abbrev pub setting : String → Settings → String
setting key values = elim (get key values) [ none ↦ "" | some v ↦ v ]

-- The exceptions of a step: the Refusals, a failed git command, and any other error.
pub data Fault : Type 0 where
  -- reason, status
  refusal : String → ℕ → Fault
  setup_too_old : String → Fault
  missing_variables : List String → Fault
  -- reason, status
  step_failed : String → ℕ → Fault
  git_failed : ℕ → Fault
  other_error : Fault

abbrev pub usage : ℕ
usage = 64

abbrev pub bad_input : Fault
bad_input = refusal "bad_input" usage

-- pipeline-run.json
pub record Marker : Type 0 where
  -- `from`; none where the file has none
  pub start : Option String
  pub target : String
  pub attempt : Option String
  pub images : Bool
  pub entries : ℕ

pub data MarkerFile : Type 0 where
  broken : MarkerFile
  readable : Marker → MarkerFile

-- The make steps that a run starts.
pub data MakeCall : Type 0 where
  release_images : MakeCall
  -- transfer=0
  deploy_images : Bool → MakeCall
  -- ref, backup=1, cache, attempt
  deploy : String → Bool → String → Option String → MakeCall
  -- cache, attempt
  deploy_rollback : String → Option String → MakeCall
  -- attempt, rollback=1
  deploy_health : Option String → Bool → MakeCall
  cron_reload : MakeCall

-- The release lock of the images: no file, one that names no setup, or the setup they were built with.
pub data ImagesLock : Type 0 where
  absent unnamed : ImagesLock
  built : String → ImagesLock

-- A Deployment variable of deployment_variables: its name, and whether it is required.
abbrev pub Variable : Type 0
Variable = String × Bool

-- What a commit of the environment repository holds.
pub record Tree : Type 0 where
  -- the names at the repository's root
  pub names : List Text
  -- whether the environment is one of server_environments
  pub listed : Bool
  -- the entries of env/<env>.env.example
  pub example : Option Settings
  -- file_settings
  pub values : Settings
  pub variables : Result (Unit {0}) (List Variable)
  pub needed_setup : Result (Unit {0}) (Option String)

pub record Tools : Type 0 where
  pub environment : String
  pub separate : Bool
  pub monorepo : Bool
  pub tree : String → Tree
  -- target_settings of the build root
  pub target_settings : Result Fault Settings
  pub runner_ids : Settings
  pub fetch : Result Fault (Unit {0})
  pub fetch_code : Result Fault (Unit {0})
  pub resolve_environment : String → Option String
  pub resolve_code : String → Option String
  pub git_checkout : String → Result Fault (Unit {0})
  pub has_commit : String → Bool
  pub images_lock : ImagesLock
  pub current_setup : Option String
  pub diff_images : String → String → Result Fault Bool
  pub diff_cron : String → String → Result Fault Bool
  -- a make step: its exit status and the release directory that it leaves
  pub make : MakeCall → Release → ℕ × Release
  -- update_setup: the new tag; the step then starts again on it
  pub update_setup : String → Option String

pub record Stepping : Type 0 where
  pub release : Release
  pub marker : Option MarkerFile
  pub own_marker : Option Marker
  -- the commit that the build root is checked out at
  pub head : String
  -- the commit whose example env/<env>.env was written from, and the entries added to it
  pub env_file : Option (String × Settings)
  pub made : List MakeCall
  -- the commit that the run began at, after a repair
  pub live : String
  pub restoring : Bool
  pub images : Bool
  pub deploying : Bool
  pub deployed : Bool
  pub target : String
  pub health : Bool
  pub entries : Option ℕ

abbrev pub Pipeline : Type 0 → Type 0
Pipeline A = Run Fault Stepping A

-- `error.status`, `error.reason`; a git command that ended by status 0 counts as 1
unfoldable pub status_of : Fault → ℕ
status_of (refusal reason status) = status
status_of (setup_too_old wanted) = usage
status_of (missing_variables names) = usage
status_of (step_failed reason status) = status
status_of (git_failed status) = if status == 0 then 1 else status
status_of other_error = 1

unfoldable pub reason_of : Fault → String
reason_of (refusal reason status) = reason
reason_of (setup_too_old wanted) = "setup_too_old"
reason_of (missing_variables names) = "missing_settings"
reason_of (step_failed reason status) = reason
reason_of (git_failed status) = "error"
reason_of other_error = "error"

-- `isinstance(error, Refusal) and not isinstance(error, StepFailed)`
unfoldable pub is_plain_refusal : Fault → Bool
is_plain_refusal (refusal reason status) = true
is_plain_refusal (setup_too_old wanted) = true
is_plain_refusal (missing_variables names) = true
is_plain_refusal (step_failed reason status) = false
is_plain_refusal (git_failed status) = false
is_plain_refusal other_error = false
