-- ===== src/Pipeline/Body.antt =====
-- The body of run_step: from the repair of a killed run to the removal of its own marker.
use docker_development_envir.Common.{
  ℕ, Bool, true, false, not, ◌&&◌, ◌==◌, nat_eq, string_eq, List, [], ◌∷◌, Option, none, some,
  String, length, filter_by, map, pure, raise, lift, gets, modify, ◌>>=◌, ◌>>◌, when, if◌then◌else◌,
}
use docker_development_envir.Attempts.{Entry, Value, Outcome}
use docker_development_envir.Attempts.Record.{Field}
use docker_development_envir.Deploy.History.{last_commit}
use docker_development_envir.Pipeline.{setting, setup_too_old, MakeCall, Tools, Pipeline, Variable}
use docker_development_envir.Pipeline.Step.{
  same_host, refuse_tracked_target, checkout, run_make, make, mark, mark_images, unmark, event,
  update, repair, require,
}
use docker_development_envir.Pipeline.Decisions.{cron_needed, live_bases, decide, health_wanted}
use docker_development_envir.Pipeline.Order.{
  Exit, Order, auto_rollback, choose_target, deployed_ref, refused_as, decide_images, decide_cron,
}

module _ (now : ℕ → String) (tools : Tools) (order : Order) where
  abbrev id : Option String
  id = order.attempt

  -- The repair of a killed run; the commit that the run begins at, and the history as it is now.
  unfoldable pub begin : Pipeline (String × List Entry)
  unfolding repair modify ◌>>=◌
  begin = do
    head ← gets (λ s. s.live)
    live ← repair now tools head id
    modify (λ s. record s { live = live })
    entries ← gets (λ s. s.release.history)
    modify (λ s. record s { entries = some (length s.release.history) })
    pure (live, entries)

  -- (target, images, cron), while the build root still holds the live commit.
  unfoldable pub plan : String → List Entry → Pipeline (String × Bool × Bool)
  unfolding choose_target decide_images decide_cron live_bases update refuse_tracked_target ◌>>=◌
  plan live entries = do
    lift tools.fetch
    when tools.separate (lift tools.fetch_code)
    (target, code) ← lift (choose_target now tools order entries)
    when (not order.follow) (update now tools id (Field.sha (some code) ∷ []))
    let bases = live_bases tools live entries
    images ← lift (decide_images now tools order bases target)
    cron ← lift (decide_cron now tools order bases target)
    refuse_tracked_target now tools target
    pure (target, images, cron)

  -- From here on a failure restores the build root.
  unfoldable pub hold : String → List Entry → String → Pipeline (Unit {0})
  unfolding mark modify ◌>>=◌
  hold live entries target = do
    modify (λ s. record s { restoring = true; target = target })
    mark now tools (record {
      start = some live;
      target = target;
      attempt = id;
      images = false;
      entries = length entries;
    })

  -- Up to the checkout of the target.
  unfoldable pub prepare : Pipeline (String × Bool × Bool)
  unfolding begin plan hold ◌>>=◌
  prepare = do
    (live, entries) ← begin
    (target, images, cron) ← plan live entries
    hold live entries target
    pure (target, images, cron)

  -- `if wanted: raise SetupTooOld(...)`
  unfoldable pub refuse_newer : Option String → Pipeline (Unit {0})
  unfolding pure raise
  refuse_newer none = pure tt
  refuse_newer (some version) = raise (setup_too_old version)

  -- The deployed commit's own lists, checked before anything runs; whether a check is configured.
  unfoldable pub check_target : String → Pipeline Bool
  unfolding checkout refused_as refuse_newer require health_wanted event modify ◌>>=◌
  check_target target = do
    checkout now tools target
    variables ← lift (refused_as now tools order (tools.tree target).variables)
    wanted ← lift (refused_as now tools order (tools.tree target).needed_setup)
    refuse_newer wanted
    lift (require now tools variables order.environ)
    let empty =
        map (λ (v : Variable). v.0)
          (filter_by (λ (v : Variable). not v.1 && setting v.0 order.environ == "") variables)
    (health, checked) ←
        lift (health_wanted tools (tools.tree target) order.switches.health order.environ)
    modify (λ s. record s { health = health })
    event now tools id "settings" "ok" (("empty_settings", Value.texts empty) ∷ [])
    pure checked

  -- After the restart of the containers.
  unfoldable pub transfer_images : String → Pipeline (Unit {0})
  unfolding make mark_images same_host event ◌>>=◌
  transfer_images target = do
    mark_images now tools
    make now tools (MakeCall.deploy_images (same_host (tools.tree target)))
    event now tools id "images" "ok" []

  unfoldable pub build_images : String → Pipeline (Unit {0})
  unfolding make transfer_images modify ◌>>=◌
  build_images target = do
    make now tools MakeCall.release_images
    modify (λ s. record s { images = true })
    transfer_images target

  unfoldable pub run_images : String → Bool → Pipeline (Unit {0})
  unfolding build_images event
  run_images target images =
      if images then build_images target else event now tools id "images" "skipped" []

  -- make deploy, and what the attempt knows of it.
  unfoldable pub deploy_code : String → Bool → Pipeline (Unit {0})
  unfolding make deployed_ref event update checkout last_commit modify ◌>>=◌
  deploy_code target checked = do
    make now tools (
        if order.switches.rollback
        then MakeCall.deploy_rollback order.switches.cache id
        else MakeCall.deploy (deployed_ref now tools order) order.switches.backup
            order.switches.cache id)
    modify (λ s. record s { restoring = false; deployed = true })
    entries ← gets (λ s. s.release.history)
    health ← gets (λ s. s.health)
    when order.switches.rollback (
        event now tools id "rollback" "ok"
          (("to", Value.text (last_commit entries)) ∷ ("checked", Value.flag health) ∷ []))
    when (not checked && not order.follow) (update now tools id (Field.outcome Outcome.live ∷ []))
    let found = last_commit entries
    when (not tools.separate && not (found == "") && not (found == target))
        (checkout now tools found)

  unfoldable pub run_deploy : String → Bool → Pipeline (Unit {0})
  unfolding deploy_code modify ◌>>=◌
  run_deploy target checked = do
    modify (λ s. record s { deploying = true })
    deploy_code target checked

  -- make deploy-health, and on prod the rollback of a release that fails it: (status, cron).
  unfoldable pub run_health : Bool → Pipeline (ℕ × Bool)
  unfolding run_make update auto_rollback cron_needed decide ◌>>=◌
  run_health cron = do
    health ← gets (λ s. s.health)
    if not health then pure (0, cron) else do
      status ← run_make now tools (MakeCall.deploy_health id order.follow)
      when order.follow (
          update now tools id (
            Field.outcome (if status == 0 then Outcome.rolled_back else Outcome.rollback_failed)
            ∷ []))
      if not (status == 0) && tools.environment == "prod" && not order.switches.rollback
          then (do
            to ← auto_rollback now tools order
            live ← gets (λ s. s.live)
            if to == "" then pure (status, cron) else do
              again ← lift (decide tools order.switches.cron (cron_needed tools live to))
              pure (status, again))
          else pure (status, cron)

  -- The body of the `try`.
  unfoldable pub deploy_body : Pipeline ℕ
  unfolding prepare check_target run_images run_deploy run_health make unmark ◌>>=◌
  deploy_body = do
    (target, images, cron) ← prepare
    checked ← check_target target
    run_images target images
    run_deploy target checked
    (status, reload) ← run_health cron
    when reload (make now tools MakeCall.cron_reload)
    unmark now tools
    pure status

  unfoldable pub run_body : Pipeline Exit
  unfolding deploy_body ◌>>=◌
  run_body = do status ← deploy_body; pure (Exit.exited status)
