-- ===== src/Pipeline/Step.antt =====
-- The class `Step` of docker/project_pipeline.py: the build root's checkout and env file, the make
-- steps, the run's marker and the repair of a killed run.
use docker_development_envir.Common.{
  ℕ, Bool, true, false, not, ◌&&◌, ◌||◌, ◌==◌, nat_eq, string_eq, list_eq, List, [], ◌∷◌, ◌++◌,
  Option, none, some, String, Text, Result, ok, err, codes, length, ltb, any, is_empty, is_some,
  filter_by, last?, map, get, is_digit, is_lower, is_upper, has_prefix, drop, pure, raise, lift,
  gets, modify, ◌>>=◌, ◌>>◌, when, if◌then◌else◌,
}
use docker_development_envir.Attempts.{Entry, Value, Outcome, is_failed, check_attempt}
use docker_development_envir.Attempts.Record
use docker_development_envir.Attempts.Record.{Field, outcome_of}
use docker_development_envir.Pipeline.{
  Settings, setting, Fault, refusal, missing_variables, step_failed, other_error, usage, bad_input,
  Marker, MarkerFile, broken, readable, MakeCall, Tree, Tools, Pipeline, Variable,
}

abbrev target_keys : List String
target_keys = "DEPLOY_CONTEXT" ∷ "DEPLOY_SSH" ∷ "DEPLOY_PATH" ∷ "APP_UID" ∷ "APP_GID" ∷ []

-- TRACKED_TARGET, `target(\.[A-Za-z0-9_-]+)?\.env`
name_code : ℕ → Bool
name_code c = is_upper c || is_lower c || is_digit c || c == b'_' || c == b'-'

-- `[A-Za-z0-9_-]+\.env`
named_env : Text → Bool
named_env [] = false
named_env (c ∷ cs) = name_code c && (cs == codes ".env" || named_env cs)

unfoldable pub is_tracked_target : Text → Bool
unfolding named_env name_code
is_tracked_target name =
    name == codes "target.env" || (has_prefix (codes "target.") name && named_env (drop 7 name))

-- `self.same_host`
unfoldable pub same_host : Tree → Bool
same_host tree =
    setting "DEPLOY_CONTEXT" tree.values == "default" && setting "DEPLOY_SSH" tree.values == ""

-- `for key in TARGET_KEYS if key in target`
entries_of : List String → Settings → Settings
entries_of [] target = []
entries_of (key ∷ keys) target =
    let rest = entries_of keys target in
    elim (get key target) [ none ↦ rest | some value ↦ (key, value) ∷ rest ]

-- What write_env adds to the example, or its refusal.
added_entries : Tools → Tree → Settings → Settings → Result Fault Settings
unfolding same_host entries_of
added_entries tools tree example target =
    if not (is_empty target)
    then (if any (λ key. is_some (get key example)) target_keys
        then err bad_input
        else ok (entries_of target_keys target))
    else if setting "DEPLOY_PATH" tree.values == ""
    then err bad_input
    else if same_host tree && setting "APP_UID" tree.values == ""
    then ok tools.runner_ids
    else ok []

module _ (now : ℕ → String) (tools : Tools) where
  -- write_env, with the checked-out commit.
  unfoldable pub write_env : String → Pipeline (Unit {0})
  unfolding added_entries ◌>>=◌
  write_env commit =
      if not (tools.tree commit).listed then raise bad_input else elim (tools.tree commit).example [
        | none ↦ raise bad_input
        | some example ↦ (do
          target ← lift tools.target_settings
          added ← lift (added_entries tools (tools.tree commit) example target)
          modify (λ s. record s { env_file = some (commit, added) }))
      ]

  unfoldable pub refuse_tracked_target : String → Pipeline (Unit {0})
  unfolding is_tracked_target ◌>>=◌
  refuse_tracked_target commit =
      when (not tools.separate && tools.monorepo && any is_tracked_target (tools.tree commit).names)
        (raise (refusal "target_tracked" usage))

  unfoldable pub checkout : String → Pipeline (Unit {0})
  unfolding refuse_tracked_target write_env ◌>>=◌
  checkout commit = do
    refuse_tracked_target commit
    lift (tools.git_checkout commit)
    modify (λ s. record s { head = commit })
    write_env commit

  unfoldable pub run_make : MakeCall → Pipeline ℕ
  run_make call s =
      let (status, release) = tools.make call s.release in
      (ok status, record s { release = release; made = s.made ++ call ∷ [] })

  -- A step's status that is not 0 is a StepFailed; the image steps share a reason.
  unfoldable pub failure_reason : MakeCall → String
  failure_reason MakeCall.release_images = "images"
  failure_reason (MakeCall.deploy_images transfer) = "images"
  failure_reason (MakeCall.deploy ref backup cache attempt) = "deploy"
  failure_reason (MakeCall.deploy_rollback cache attempt) = "deploy"
  failure_reason (MakeCall.deploy_health attempt rollback) = "deploy-health"
  failure_reason MakeCall.cron_reload = "cron-reload"

  unfoldable pub make : MakeCall → Pipeline (Unit {0})
  unfolding run_make failure_reason ◌>>=◌
  make call = do
    status ← run_make call
    when (not (status == 0)) (raise (step_failed (failure_reason call) status))

  unfoldable pub mark : Marker → Pipeline (Unit {0})
  unfolding modify
  mark m = modify (λ s. record s { own_marker = some m; marker = some (readable m) })

  -- `self.mark(images=True)`
  unfoldable pub mark_images : Pipeline (Unit {0})
  unfolding modify
  mark_images = modify (λ s. elim s.own_marker [
    | none ↦ s
    | some m ↦
        let m' : Marker = record m { images = true } in
        record s { own_marker = some m'; marker = some (readable m') }
  ])

  -- Only the run that wrote the marker removes it.
  unfoldable pub unmark : Pipeline (Unit {0})
  unfolding modify
  unmark =
      modify (λ s. elim s.own_marker [
        | none ↦ s
        | some m ↦ record s { own_marker = none; marker = none }
      ])

  -- `record.event(...)`, `record.update(...)`, `record.create(...)`
  unfoldable pub event :
      Option String → String → String → List (String × Value) → Pipeline (Unit {0})
  unfolding modify
  event id stage state fields =
      modify (λ s. record s { release = Record.event now id stage state fields s.release })

  unfoldable pub update : Option String → List Field → Pipeline (Unit {0})
  unfolding modify
  update id fields = modify (λ s. record s { release = Record.update id fields s.release })

  -- `Attempt(...)` of an id that the marker names.
  unfoldable pub attempt_of : Option String → Result Fault (Option String)
  unfolding check_attempt
  attempt_of id = elim id [
    | none ↦ ok none
    | some name ↦
        if name == ""
        then ok none
        else if check_attempt (codes name)
        then ok (some name)
        else err other_error
  ]

  -- The killed run's attempt gets the end that it lacks.
  unfoldable pub settle_interrupted : Option String → Bool → Pipeline (Unit {0})
  unfolding attempt_of event update outcome_of ◌>>=◌
  settle_interrupted left grown = do
    id ← lift (attempt_of left)
    outcome ← gets (λ s. outcome_of id s.release)
    when
        (elim outcome [ none ↦ false | some o ↦ elim o [ Outcome.in_progress ↦ true | _ ↦ false ] ])
        (do
          event id "interrupted" "failed" (("code_reached", Value.flag grown) ∷ [])
          update id (
              Field.outcome (if grown then Outcome.failed_after_code else Outcome.not_deployed)
              ∷ Field.reason (some "interrupted")
              ∷ []))

  abbrev final_completed : List Entry → Bool
  final_completed entries = elim (last? entries) [ none ↦ false | some e ↦ not (is_failed e) ]

  abbrev final_commit : String → List Entry → String
  final_commit head entries = elim (last? entries) [ none ↦ head | some e ↦ e.commit ]

  -- Where the build root belongs after a killed run: at the code that it deployed, where it restarted
  -- the containers, else where it started. A marker that does not say where: repair_crashes.
  unfoldable pub repaired_commit : String → Marker → List Entry → Bool → String
  repaired_commit head left entries grown =
      let deployed = grown && final_completed entries in
      if deployed && not tools.separate
      then final_commit head entries
      else if deployed || left.images
      then head
      else elim left.start [ none ↦ head | some commit ↦ commit ]

  -- `left['from']` of a marker without one: a KeyError, and not one that run_step catches.
  unfoldable pub is_startless : Marker → List Entry → Bool
  is_startless left entries =
      not (is_some left.start)
      && not (ltb left.entries (length entries) && final_completed entries)
      && not left.images

  unfoldable pub repair_crashes : Option MarkerFile → List Entry → Bool
  unfolding is_startless
  repair_crashes none entries = false
  repair_crashes (some broken) entries = false
  repair_crashes (some (readable left)) entries = is_startless left entries

  unfoldable pub repaired : String → Option String → Marker → List Entry → Bool → Pipeline String
  unfolding repaired_commit checkout settle_interrupted event ◌>>=◌
  repaired head id left entries grown = do
    let commit = repaired_commit head left entries grown
    when (not (commit == head)) (checkout commit)
    modify (λ s. record s { marker = none })
    settle_interrupted left.attempt grown
    event id "repair" "ok" (
        ("checkout_repaired", Value.flag (not (commit == head)))
        ∷ ("interrupted_attempt", (elim left.attempt [ none ↦ Value.null | some a ↦ Value.text a ]))
        ∷ ("commit", Value.text commit)
        ∷ [])
    pure commit

  -- A marker that cannot be read is refused.
  unfoldable pub repair_from : String → Option String → List Entry → MarkerFile → Pipeline String
  unfolding repaired
  repair_from head id entries broken = raise bad_input
  repair_from head id entries (readable left) =
      repaired head id left entries (ltb left.entries (length entries))

  unfoldable pub repair : String → Option String → Pipeline String
  unfolding repair_from ◌>>=◌
  repair head id = do
    found ← gets (λ s. s.marker)
    entries ← gets (λ s. s.release.history)
    elim found [ none ↦ pure head | some file ↦ repair_from head id entries file ]

  -- `require`: the required Deployment variables that the process lacks
  unfoldable pub missing : List Variable → Settings → List String
  missing variables environ =
      map (λ (v : Variable). v.0)
        (filter_by (λ (v : Variable). v.1 && setting v.0 environ == "") variables)

  unfoldable pub require : List Variable → Settings → Result Fault (Unit {0})
  unfolding missing
  require variables environ =
      if is_empty (missing variables environ)
      then ok tt
      else err (missing_variables (missing variables environ))
