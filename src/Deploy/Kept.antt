-- ===== src/Deploy/Kept.antt =====
-- Each step of finish_deploy before the completed entry keeps the invariant of a running deploy.
use docker_development_envir.Common.{ℕ, Bool, List, Option, String, refl, modify, true}
use docker_development_envir.Common.Triples.{
  Keeps, keeps_rules, Keeps-lift, Keeps-raise, Keeps-catch, Triple-modify,
}
use docker_development_envir.Attempts.{Entry}
use docker_development_envir.Deploy.{Failure, value_error, process_error, other_error, Host}
use docker_development_envir.Deploy.Recorded.{
  Running, Running-act, Running-at_stage, Running-change_entry, Running-note, Running-save_entry,
}
use docker_development_envir.Deploy.Stages.{
  ready, hook_failure, after_rsync, hook_event, run_hook, run_modules, run_migrations,
  run_translations, run_schema, clear_cache, run_cache, run_reload,
}

pub ruleset running_rules = (keeps_rules, Running-act, Running-change_entry, Running-note)

module _ {before : List Entry} {commit : String} (now : ℕ → String) (host : Host)
    (events : Option String) where
  pub Running-waited :
      Keeps (Running before commit) (modify {E = Failure} (λ s. record s { waited = true }))
  Running-waited = Triple-modify _ (λ s p. p)

  pub Running-ready : Keeps (Running before commit) (ready host)
  unfolding ready
  Running-ready = search (running_rules, Running-waited)

  pub Running-hook_failure :
      (e : Failure) → Keeps (Running before commit) (hook_failure {A = Unit {0}} e)
  unfolding hook_failure
  Running-hook_failure (process_error m) = Keeps-raise _
  Running-hook_failure (value_error m) = Keeps-raise _
  Running-hook_failure (other_error m) = Keeps-raise _

  pub Running-hook_event :
      (e : Failure) → Keeps (Running before commit) (hook_event now host events e)
  unfolding hook_event
  Running-hook_event (value_error m) = search running_rules
  Running-hook_event (process_error m) = Keeps-raise _
  Running-hook_event (other_error m) = Keeps-raise _

  pub Running-after_rsync : Keeps (Running before commit) (after_rsync host)
  unfolding after_rsync
  Running-after_rsync = search (running_rules, Running-hook_failure)

  pub Running-run_hook : Keeps (Running before commit) (run_hook now host events)
  unfolding run_hook
  Running-run_hook = search (
    running_rules,
    Running-hook_event,
    Running-after_rsync,
    Running-at_stage "after-rsync" refl refl,
  )

  pub Running-run_modules : Keeps (Running before commit) (run_modules now host events)
  unfolding run_modules
  Running-run_modules = search (running_rules, Running-ready, Running-at_stage "modules" refl refl)

  pub Running-run_migrations : Keeps (Running before commit) (run_migrations now host events)
  unfolding run_migrations
  Running-run_migrations =
      search (running_rules, Running-ready, Running-at_stage "migrations" refl refl) depth 9

  pub Running-run_translations : Keeps (Running before commit) (run_translations now host events)
  unfolding run_translations
  Running-run_translations =
      search (running_rules, Running-ready, Running-at_stage "translations" refl refl) depth 9

  pub Running-run_schema : Keeps (Running before commit) (run_schema now host events)
  unfolding run_schema
  Running-run_schema = search (running_rules, Running-at_stage "schema" refl refl)

  pub Running-clear_cache : Keeps (Running before commit) (clear_cache now host events)
  unfolding clear_cache
  Running-clear_cache = search running_rules

  pub Running-run_cache :
      (entries : List Entry) (rollback : Bool) (cache : String)
      → Keeps (Running before commit) (run_cache now host events entries commit rollback cache)
  unfolding run_cache
  Running-run_cache entries rollback cache =
      search (running_rules, Running-clear_cache, Running-at_stage "cache" refl refl) depth 9

  pub Running-run_reload : Keeps (Running before commit) (run_reload now host events)
  unfolding run_reload
  Running-run_reload = search (running_rules, Running-at_stage "reload" refl refl) depth 9
