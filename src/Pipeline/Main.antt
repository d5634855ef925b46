-- ===== src/Pipeline/Main.antt =====
-- run_step: its handler, restore, and the whole step.
use docker_development_envir.Common.{
  ℕ, Bool, not, ◌&&◌, ◌||◌, ◌==◌, nat_eq, string_eq, List, [], ◌∷◌, Option, none, some, String,
  last?, pure, gets, catch, ◌>>=◌, ◌>>◌, when, if◌then◌else◌,
}
use docker_development_envir.Attempts.{Entry, Value, Outcome, is_failed}
use docker_development_envir.Attempts.Record.{Field}
use docker_development_envir.Pipeline.{
  setting, Fault, setup_too_old, usage, Tools, Pipeline, status_of, reason_of, is_plain_refusal,
}
use docker_development_envir.Pipeline.Step.{repair_crashes, checkout, unmark, event, update}
use docker_development_envir.Pipeline.Order.{Exit, Order, has_reached, settle, auto_rollback}
use docker_development_envir.Pipeline.Body.{run_body}

module _ (now : ℕ → String) (tools : Tools) (order : Order) where
  abbrev id : Option String
  id = order.attempt

  -- restore: after the containers were restarted on new images nothing is undone.
  unfoldable pub restore : Pipeline (Unit {0})
  unfolding checkout ◌>>=◌
  restore = do
    images ← gets (λ s. s.images)
    live ← gets (λ s. s.live)
    if images then pure tt else catch (checkout now tools live) (λ e. pure tt)

  -- The new tag of a setup that could be updated: the process starts again on it.
  unfoldable pub updated_setup : Fault → Option String
  updated_setup (setup_too_old wanted) =
      if setting "SETUP_SERVER_ROOT" order.environ == ""
        || not (setting "SETUP_SELF_UPDATED" order.environ == "")
      then none
      else tools.update_setup wanted
  updated_setup error = none

  -- The step of a failed deploy in the attempt's words.
  unfoldable pub failed_stage : String → String
  failed_stage stage =
      if stage == "after-rsync"
      then "hook"
      else if stage == "incomplete"
      then "interrupted"
      else stage

  unfoldable pub failure_of : Bool → String → List Entry → String
  unfolding failed_stage
  failure_of reached reason history = elim (last? history) [
    | none ↦ reason
    | some e ↦ elim e.failed [
      | none ↦ reason
      | some stage ↦ if reached && is_failed e then failed_stage stage else reason
    ]
  ]

  -- The attempt's outcome after a failure that no rollback of this run answers.
  unfoldable pub settle_failure : Fault → Bool → String → Pipeline (Unit {0})
  unfolding settle
  settle_failure error reached reason =
      if reached
      then settle now tools order Outcome.failed_after_code reason
      else if is_plain_refusal error
      then settle now tools order Outcome.refused reason
      else settle now tools order Outcome.not_deployed reason

  -- The setup is updated and the step starts again, or the attempt is settled.
  unfoldable pub after_unmark : Fault → Bool → String → Option String → Pipeline Exit
  unfolding settle_failure event ◌>>=◌
  after_unmark error reached reason none = do
    settle_failure error reached reason
    pure (Exit.exited (status_of error))
  after_unmark error reached reason (some tag) = do
    event now tools id "setup" "updated" (("to", Value.text tag) ∷ [])
    pure Exit.restarted

  unfoldable pub restore_held : Pipeline (Unit {0})
  unfolding restore ◌>>=◌
  restore_held = do restoring ← gets (λ s. s.restoring); when restoring restore

  unfoldable pub end_failed : Fault → Bool → String → Pipeline Exit
  unfolding restore_held unmark updated_setup after_unmark ◌>>=◌
  end_failed error reached reason = do
    restore_held
    unmark now tools
    after_unmark error reached reason (updated_setup error)

  unfoldable pub unmark_exit : ℕ → Pipeline Exit
  unfolding unmark ◌>>=◌
  unmark_exit status = do unmark now tools; pure (Exit.exited status)

  -- After the deploy the code is live and stays; the attempt keeps its outcome.
  unfoldable pub end_deployed : Fault → Pipeline Exit
  unfolding event unmark_exit ◌>>=◌
  end_deployed error = do
    event now tools id (reason_of error) "failed" []
    unmark_exit (status_of error)

  unfoldable pub end_rolled_back : Fault → String → Pipeline Exit
  unfolding update auto_rollback unmark_exit ◌>>=◌
  end_rolled_back error reason = do
    update now tools id (Field.outcome Outcome.failed_after_code ∷ Field.reason (some reason) ∷ [])
    auto_rollback now tools order
    unmark_exit (status_of error)

  -- Whether the handler rolls a recorded deploy back.
  unfoldable pub rolls_back : Bool → Bool → Bool
  rolls_back reached health =
      reached && health && tools.environment == "prod" && not order.switches.rollback

  -- How the handler answers: `reached` says that the history grew.
  unfoldable pub answer : Fault → Bool → Bool → Bool → String → Pipeline Exit
  unfolding rolls_back end_deployed end_rolled_back end_failed
  answer error deployed reached health reason =
      if deployed
      then end_deployed error
      else if rolls_back reached health
      then end_rolled_back error reason
      else end_failed error reached reason

  -- The handler of the `try`. It reads the history and writes the attempt's file, which may fail in the source
  -- and is taken to succeed here.
  unfoldable pub handle_failure : Fault → Pipeline Exit
  unfolding failure_of has_reached answer ◌>>=◌
  handle_failure error = do
    entries ← gets (λ s. s.entries)
    history ← gets (λ s. s.release.history)
    deployed ← gets (λ s. s.deployed)
    health ← gets (λ s. s.health)
    let reached = has_reached entries history
    answer error deployed reached health (failure_of reached (reason_of error) history)

  -- The build root is no checkout with a commit.
  unfoldable pub refuse_build_root : Pipeline Exit
  unfolding settle ◌>>=◌
  refuse_build_root = do
    settle now tools order Outcome.refused "bad_input"
    pure (Exit.exited usage)

  -- run_step; without a commit `live` is "". The body begins by the repair, so a repair that crashes ends the run
  -- before anything else is done.
  unfoldable pub run_step : Pipeline Exit
  unfolding refuse_build_root repair_crashes run_body handle_failure ◌>>=◌
  run_step = do
    live ← gets (λ s. s.live)
    crashes ← gets (λ s. repair_crashes now tools s.marker s.release.history)
    let run = catch (run_body now tools order) handle_failure
    if live == "" then refuse_build_root else if crashes then pure Exit.crashed else run
