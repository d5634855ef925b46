-- ===== src/Pipeline/Checks.antt =====
-- pipeline_deploy and checked_step: the deploy step up to its acceptance, and its refusals.
use docker_development_envir.Common.{
  ℕ, Bool, true, false, not, ◌&&◌, ◌==◌, string_eq, option_eq, list_eq, nat_eq, List, [], ◌∷◌,
  Option, none, some, String, Text, Result, ok, err, codes, is_some, pure, gets, modify, ◌>>=◌,
  ◌>>◌, when, if◌then◌else◌,
}
use docker_development_envir.Attempts.{Entry, Value, Outcome, check_attempt}
use docker_development_envir.Attempts.Record
use docker_development_envir.Attempts.Record.{Field, is_known}
use docker_development_envir.Pipeline.{
  Settings, setting, Fault, usage, bad_input, Tools, Pipeline, Variable, reason_of,
}
use docker_development_envir.Pipeline.Step.{event, update, require}
use docker_development_envir.Pipeline.Order.{Switches, Exit, exited}
use docker_development_envir.Pipeline.Main.{run_step}
use docker_development_envir.Pipeline.Inputs.{
  environment_of, attempt_mode, bind_ok, switches_of, check_expected_live, given_ref, Mode, unnamed,
  new, resume, follow, known,
}

-- What a run of the step is given beside the process environment: the pipeline's own commit ("" when it is
-- not set), and deployment_variables of the build root as it is.
pub record Given : Type 0 where
  -- whether expand_json accepts the two JSON variables
  pub expanded : Result Fault (Unit {0})
  pub environ : Settings
  pub pipeline_commit : String
  pub variables : Result (Unit {0}) (List Variable)

module _ (now : ℕ → String) (tools : Tools) (given : Given) where
  -- `environ.get(...) or None`
  or_none : String → Option String
  or_none value = if value == "" then none else some value

  expected : String
  expected = setting "DEPLOY_EXPECTED_LIVE" given.environ

  create : Option String → List Field → Pipeline (Unit {0})
  unfolding modify
  create id fields = modify (λ s. record s { release = Record.create id fields s.release })

  -- A refusal, as far as the attempt's mode records it.
  unfoldable pub record_refusal : Mode → Option String → String → Pipeline (Unit {0})
  unfolding create expected or_none event update ◌>>=◌
  record_refusal unnamed id reason = pure tt
  record_refusal known id reason = pure tt
  record_refusal new id reason = do
    create id (
        Field.outcome Outcome.refused
        ∷ Field.reason (some reason)
        ∷ Field.expected_live (or_none expected)
        ∷ [])
    event now tools id "refused" "refused" (("reason", Value.text reason) ∷ [])
  record_refusal follow id reason =
      event now tools id "rollback" "refused" (("reason", Value.text reason) ∷ [])
  record_refusal resume id reason = do
    event now tools id "refused" "refused" (("reason", Value.text reason) ∷ [])
    update now tools id (Field.outcome Outcome.refused ∷ Field.reason (some reason) ∷ [])

  unfoldable pub refuse : Mode → Option String → Fault → Pipeline Exit
  unfolding record_refusal ◌>>=◌
  refuse mode id error = do record_refusal mode id (reason_of error); pure (exited usage)

  unfoldable pub refuse_known : Option String → Pipeline Exit
  unfolding event ◌>>=◌
  refuse_known id = do
    found ← gets (λ s. Record.read id s.release)
    when (is_some found)
        (event now tools id "repeated" "refused" (("reason", Value.text "attempt_exists") ∷ []))
    pure (exited usage)

  -- The refs, the commit that must be live and the Deployment variables: the ref to deploy.
  unfoldable pub checks : Switches → List Entry → Result Fault String
  unfolding bind_ok expected given_ref check_expected_live require
  checks switches entries = bind_ok (given_ref given.environ) λ ref.
      bind_ok
        (if tools.separate && not switches.rollback && ref == ""
          then err bad_input
          else if not tools.separate
              && not switches.rollback
              && ref == ""
              && given.pipeline_commit == ""
          then err bad_input
          else if tools.separate && given.pipeline_commit == ""
          then err bad_input
          else ok tt)
        λ _. bind_ok (check_expected_live entries expected) λ _.
          bind_ok (elim given.variables [ err e ↦ err bad_input | ok variables ↦ ok variables ])
            λ variables. bind_ok (require now tools variables given.environ) λ _. ok ref

  is_follow : Mode → Bool
  is_follow follow = true
  is_follow mode = false

  -- The accepted run.
  unfoldable pub accept : Mode → Option String → Switches → String → Pipeline (Unit {0})
  unfolding create expected or_none event ◌>>=◌
  accept new id switches ref = do
    create id (
        Field.expected_live (or_none expected)
        ∷ Field.ref (or_none ref)
        ∷ Field.rollback switches.rollback
        ∷ [])
    event now tools id "accepted" "ok" (("rollback", Value.flag switches.rollback) ∷ [])
  accept mode id switches ref = pure tt

  -- `follow` needs ROLLBACK=yes.
  unfoldable pub mode_with : Bool → Mode → Mode
  mode_with rollback follow = if rollback then follow else known
  mode_with rollback mode = mode

  unfoldable pub step_of : Mode → Option String → Switches → String → Pipeline Exit
  unfolding accept is_follow run_step ◌>>=◌
  step_of mode id switches ref = do
    accept mode id switches ref
    run_step now tools (record {
      environ = given.environ;
      pipeline_commit = given.pipeline_commit;
      ref = ref;
      switches = switches;
      attempt = id;
      follow = is_follow mode;
    })

  -- After the switches are read.
  unfoldable pub with_switches : Mode → Option String → Switches → List Entry → Pipeline Exit
  unfolding refuse_known refuse checks step_of
  with_switches known id switches entries = refuse_known id
  with_switches mode id switches entries = elim (checks switches entries) [
    | err e ↦ refuse mode id e
    | ok ref ↦ step_of mode id switches ref
  ]

  unfoldable pub checked_step : Option String → Pipeline Exit
  unfolding attempt_mode switches_of refuse mode_with with_switches ◌>>=◌
  checked_step id = do
    r ← gets (λ s. s.release)
    let mode = attempt_mode given.environ id r
    elim (switches_of given.environ) [
      | err e ↦ refuse mode id e
      | ok switches ↦ with_switches (mode_with switches.rollback mode) id switches r.history
    ]

  -- pipeline_deploy: the step's environment and attempt, before its lock; nothing is recorded of a refusal here.
  unfoldable pub pipeline_deploy : Text → Text → String → Pipeline Exit
  unfolding environment_of check_attempt or_none checked_step
  pipeline_deploy environment deployment attempt = elim (environment_of environment deployment) [
    | err e ↦ pure (exited usage)
    | ok found ↦ elim given.expanded [
      | err e ↦ pure (exited usage)
      | ok u ↦
          if not (attempt == "") && not (check_attempt (codes attempt))
          then pure (exited usage)
          else checked_step (or_none attempt)
    ]
  ]
