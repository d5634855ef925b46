-- ===== src/Pipeline/Order.antt =====
-- What a run of the step is asked to do, the choices that it makes of it, and the automatic rollback.
use docker_development_envir.Common.{
  ℕ, Bool, true, false, not, ◌&&◌, ◌==◌, nat_eq, string_eq, List, [], ◌∷◌, Option, none, some,
  String, Result, ok, err, length, ltb, pure, gets, catch, ◌>>=◌, ◌>>◌, when, if◌then◌else◌,
}
use docker_development_envir.Attempts.{Entry, Value, Outcome}
use docker_development_envir.Attempts.Record.{Field}
use docker_development_envir.Deploy.History.{rollback_commit}
use docker_development_envir.Pipeline.{
  Settings, Fault, bad_input, MakeCall, Tools, Pipeline, reason_of,
}
use docker_development_envir.Pipeline.Step.{checkout, run_make, make, event, update}
use docker_development_envir.Pipeline.Decisions.{images_needed, cron_needed, needed_since, decide}

-- SWITCHES, as read from the environment.
pub record Switches : Type 0 where
  pub images : String
  pub cron : String
  pub cache : String
  pub rollback : Bool
  pub backup : Bool
  pub health : String

-- How a run ends: by an exit status, or by the process that starts again on a newer setup.
pub data Exit : Type 0 where
  exited : ℕ → Exit
  restarted : Exit
  -- an exception that run_step does not catch
  crashed : Exit

-- What a run is asked to do. `code_commit` is the pipeline's own commit.
pub record Order : Type 0 where
  pub environ : Settings
  pub pipeline_commit : String
  pub ref : String
  pub switches : Switches
  pub attempt : Option String
  pub follow : Bool

-- Whether a failed run recorded a deploy: `entries` is the history's length at its start.
unfoldable pub has_reached : Option ℕ → List Entry → Bool
has_reached none history = false
has_reached (some entries) history = ltb entries (length history)

module _ (now : ℕ → String) (tools : Tools) (order : Order) where
  abbrev id : Option String
  id = order.attempt

  -- settle: a follow-up rollback that fails leaves production in doubt.
  unfoldable pub settle : Outcome → String → Pipeline (Unit {0})
  unfolding event update ◌>>=◌
  settle outcome reason =
      if order.follow
      then (do
        event now tools id "rollback" "failed" (("reason", Value.text reason) ∷ [])
        update now tools id (Field.outcome Outcome.rollback_failed ∷ []))
      else update now tools id (Field.outcome outcome ∷ Field.reason (some reason) ∷ [])

  unfoldable pub rollback_failed : Value → Pipeline String
  unfolding event update ◌>>=◌
  rollback_failed reason = do
    event now tools id "rollback" "failed" (("reason", reason) ∷ [])
    update now tools id (Field.outcome Outcome.rollback_failed ∷ [])
    pure ""

  -- The rollback target's checkout, its deploy, and the check that confirms it.
  unfoldable pub roll_back_to : String → Pipeline String
  unfolding checkout make run_make event update ◌>>=◌
  roll_back_to to = do
    when (not tools.separate) (checkout now tools to)
    make now tools (MakeCall.deploy_rollback order.switches.cache id)
    pure to

  unfoldable pub confirm_rollback : String → Pipeline String
  unfolding run_make event update ◌>>=◌
  confirm_rollback to = do
    event now tools id "rollback" "ok" (("to", Value.text to) ∷ [])
    status ← run_make now tools (MakeCall.deploy_health id true)
    update now tools id
        (Field.outcome (if status == 0 then Outcome.rolled_back else Outcome.rollback_failed) ∷ [])
    pure to

  -- auto_rollback: the commit rolled back to, or '' when there was none or it failed.
  unfoldable pub auto_rollback : Pipeline String
  unfolding rollback_failed roll_back_to confirm_rollback rollback_commit ◌>>=◌
  auto_rollback = do
    entries ← gets (λ s. s.release.history)
    let to = rollback_commit entries
    if to == "" then rollback_failed (Value.text "no earlier completed deploy") else do
      went ← catch (roll_back_to to) (λ e. rollback_failed (Value.text (reason_of e)))
      if went == "" then pure "" else confirm_rollback to

  -- The commit to check out and the code commit that is deployed.
  unfoldable pub choose_target : List Entry → Result Fault (String × String)
  unfolding rollback_commit
  choose_target entries =
      let back = rollback_commit entries in
      let resolved = λ (o : Option String). elim o as (λ _. Result Fault String) [
        | none ↦ err bad_input
        | some c ↦ ok c
      ] in
      let ref = if order.ref == "" then order.pipeline_commit else order.ref in
      if order.switches.rollback && back == ""
      then err bad_input
      else if tools.separate
      then (elim (resolved (tools.resolve_environment order.pipeline_commit)) [
        | err e ↦ err e
        | ok target ↦
            if order.switches.rollback
            then ok (target, back)
            else elim (resolved (tools.resolve_code order.ref)) [
              | err e ↦ err e
              | ok code ↦ ok (target, code)
            ]
      ])
      else if order.switches.rollback
      then ok (back, back)
      else elim (resolved (tools.resolve_environment ref)) [
        | err e ↦ err e
        | ok code ↦ ok (code, code)
      ]

  -- The ref that make deploy is given.
  unfoldable pub deployed_ref : String
  deployed_ref =
      if tools.separate
      then order.ref
      else if order.ref == ""
      then order.pipeline_commit
      else order.ref

  -- Reads of the deployed commit that a ValueError ends as a refusal.
  unfoldable pub refused_as : {A : Type 0} → Result (Unit {0}) A → Result Fault A
  refused_as (ok a) = ok a
  refused_as (err u) = err bad_input

  -- IMAGES and CRON, decided while the build root still holds the live commit.
  unfoldable pub decide_images : List String → String → Result Fault Bool
  decide_images bases target =
      let value =
        if order.switches.rollback && order.switches.images == "auto"
        then "no"
        else order.switches.images in
      decide tools value (needed_since tools (images_needed tools) bases target)

  unfoldable pub decide_cron : List String → String → Result Fault Bool
  decide_cron bases target =
      decide tools order.switches.cron (needed_since tools (cron_needed tools) bases target)
