-- ===== src/Tests/Steps.antt =====
-- A build root at one commit, the deploy step to another, and a repeated attempt.
use docker_development_envir.Common.{
  last?, ◌&&◌, ◌==◌, not, option_eq, string_eq, true, false, [], ◌∷◌, none, some, ◌≡◌, refl, ok,
  Post, decimal, codes,
}
use docker_development_envir.Attempts.{Outcome, AttemptFile}
use docker_development_envir.Pipeline.{Fault, absent, Tree, Tools, Stepping}
use docker_development_envir.Pipeline.Order.{Switches, Exit, Order}
use docker_development_envir.Pipeline.Inputs.{attempt_mode}
use docker_development_envir.Pipeline.Checks.{Given, checked_step}
use docker_development_envir.Pipeline.Repeated.{
  is_new, known-attempt_mode, IsRefusal, IsRefusal-checked_step,
}
use docker_development_envir.Attempts.{Entry, is_failed}
use docker_development_envir.Attempts.Record.{read_attempt}
use docker_development_envir.Attempts.Status.{document_attempt}

abbrev tree : Tree
tree = record {
  names = codes "env" ∷ [];
  listed = true;
  example = some (("DEPLOY_PATH", "/srv/shop") ∷ []);
  values = ("DEPLOY_PATH", "/srv/shop") ∷ ("DEPLOY_SSH", "shop") ∷ [];
  variables = ok (("DATABASE_PASSWORD", true) ∷ []);
  needed_setup = ok none;
}

abbrev tools : Tools
tools = record {
  environment = "stage";
  separate = false;
  monorepo = false;
  tree = λ _. tree;
  target_settings = ok [];
  runner_ids = [];
  fetch = ok tt;
  fetch_code = ok tt;
  resolve_environment = λ ref. some ref;
  resolve_code = λ ref. some ref;
  git_checkout = λ _. ok tt;
  has_commit = λ _. true;
  images_lock = absent;
  current_setup = none;
  diff_images = λ _ _. ok true;
  diff_cron = λ _ _. ok false;
  make = λ call r. (1, r);
  update_setup = λ _. none;
}

abbrev switches : Switches
switches = record {
  images = "yes";
  cron = "auto";
  cache = "auto";
  rollback = false;
  backup = false;
  health = "no";
}

abbrev order : Order
order = record {
  environ = ("DATABASE_PASSWORD", "secret") ∷ [];
  pipeline_commit = "new";
  ref = "";
  switches = switches;
  attempt = some "attempt-1";
  follow = false;
}

abbrev attempt : AttemptFile
attempt = record {
  id = "attempt-1";
  sha = none;
  expected_live = none;
  outcome = Outcome.live;
  reason = none;
  ref = none;
  rollback = none;
  events = [];
}

abbrev start : Stepping
start = record {
  release = record { history = []; attempts = ("attempt-1", attempt) ∷ []; clock = 0 };
  marker = none;
  own_marker = none;
  head = "old";
  env_file = none;
  made = [];
  live = "old";
  restoring = false;
  images = false;
  deploying = false;
  deployed = false;
  target = "";
  health = false;
  entries = none;
}

abbrev given : Given
given = record {
  expanded = ok tt;
  environ = order.environ;
  pipeline_commit = "new";
  variables = ok [];
}

attempt_there : read_attempt start.release "attempt-1" ≡ some attempt
unfolding read_attempt
attempt_there = refl

nothing_deployed :
    (final : Entry)
    → last? start.release.history ≡ some final
    → (final.attempt == some "attempt-1" && is_failed final) ≡ false
nothing_deployed final h = absurd (cc)

IsRefusal-checked_step_example :
    Post {E = Fault} {A = Exit}
      (IsRefusal "attempt-1" start)
      (λ _ _. ⊥)
      (checked_step decimal tools given (some "attempt-1") start)
IsRefusal-checked_step_example =
    IsRefusal-checked_step decimal tools given "attempt-1" start {f = attempt} attempt_there refl
      nothing_deployed

known-attempt_mode_example :
    (document_attempt start.release "attempt-1").known
    ≡ not (is_new (attempt_mode [] (some "attempt-1") start.release))
known-attempt_mode_example = known-attempt_mode [] start.release "attempt-1"
