-- ===== src/Deploy/Stages.antt =====
-- finish_deploy: what follows the copy, step by step; `stage` names the step that a failure is recorded with.
use docker_development_envir.Common.{
  ℕ, Bool, true, false, ◌==◌, string_eq, List, [], ◌∷◌, Option, some, String, Result, ok, err, pure,
  raise, lift, gets, modify, ◌>>=◌, ◌>>◌, catch, when, or_default, if◌then◌else◌,
}
use docker_development_envir.Attempts.{Entry, Value}
use docker_development_envir.Deploy.{
  Failure, value_error, process_error, other_error, Action, Host, Deploy, act, at_stage,
  change_entry, change_history, note,
}
use docker_development_envir.Deploy.History.{replace_last, or_nil}
use docker_development_envir.Deploy.Removal.{cache_needed}

-- php_reload: on unless the project says off; any other value is refused.
unfoldable pub php_reload : Host → Result Failure Bool
php_reload host =
    let value = or_default host.php_reload "on" in
    if value == "on"
    then ok true
    else if value == "off"
    then ok false
    else err (value_error "DEPLOY_PHP_RELOAD must be on or off")

-- after_rsync: a failed command of the hook is a `ValueError`.
unfoldable pub hook_failure : {A : Type 0} → Failure → Deploy A
hook_failure (process_error m) = raise (value_error m)
hook_failure (value_error m) = raise (value_error m)
hook_failure (other_error m) = raise (other_error m)

unfoldable pub after_rsync : Host → Deploy Bool
unfolding hook_failure act ◌>>=◌
after_rsync host =
    if host.has_hook
    then (do catch (act Action.hook host.hooked) hook_failure; pure true)
    else pure false

-- database_ready: waits once per deploy.
unfoldable pub ready : Host → Deploy (Unit {0})
unfolding act modify ◌>>=◌
ready host = do
  waited ← gets (λ s. s.waited)
  if waited
      then pure tt
      else do act Action.wait_ready host.database_ready; modify (λ s. record s { waited = true })

-- replace_last of the run's own entry.
unfoldable pub save_entry : (Entry → Entry) → Deploy (Unit {0})
unfolding change_history replace_last ◌>>=◌
save_entry f = do e ← gets (λ s. s.entry); change_history (replace_last (f e))

module _ (now : ℕ → String) (host : Host) (events : Option String) where
  -- Only a `ValueError` of the hook leaves an event.
  unfoldable pub hook_event : Failure → Deploy Bool
  unfolding note ◌>>=◌
  hook_event (value_error m) = do
    note now events "hook" "failed" (("seconds", Value.number host.hook_seconds) ∷ [])
    raise (value_error m)
  hook_event (process_error m) = raise (process_error m)
  hook_event (other_error m) = raise (other_error m)

  unfoldable pub run_hook : Deploy (Unit {0})
  unfolding at_stage after_rsync hook_event note ◌>>=◌
  run_hook = do
    at_stage "after-rsync"
    hooked ← catch (after_rsync host) hook_event
    when hooked (note now events "hook" "ok" (("seconds", Value.number host.hook_seconds) ∷ []))

  unfoldable pub run_modules : Deploy (Unit {0})
  unfolding at_stage act ready ◌>>=◌
  run_modules =
      when host.prestashop
        (do at_stage "modules"; ready host; act Action.upgrade_modules host.upgraded)

  unfoldable pub run_migrations : Deploy (Unit {0})
  unfolding at_stage act ready change_entry note ◌>>=◌
  run_migrations = when host.has_migrations (do
    ready host
    at_stage "migrations"
    applied ← act Action.migrate host.migrated
    change_entry (λ e. record e { migrations = some applied })
    note now events "migrations" "ok" (("applied", Value.texts applied) ∷ []))

  unfoldable pub run_translations : Deploy (Unit {0})
  unfolding at_stage act ready change_entry ◌>>=◌
  run_translations = when host.prestashop (
      when host.has_translations (do
        ready host
        at_stage "translations"
        applied ← act Action.translate host.translated
        change_entry (λ e. record e { translations = some applied })))

  unfoldable pub run_schema : Deploy (Unit {0})
  unfolding at_stage act ◌>>=◌
  run_schema =
      when host.has_schema (do at_stage "schema"; act Action.report_schema host.schema_reported)

  -- clear_cache: a profile without a command clears nothing.
  unfoldable pub clear_cache : Deploy (Unit {0})
  unfolding act ◌>>=◌
  clear_cache =
      if host.prestashop
      then act Action.clear_cache host.cache_cleared
      else if or_default host.cache_command "" == ""
      then pure tt
      else act Action.clear_cache host.cache_cleared

  unfoldable pub run_cache : List Entry → String → Bool → String → Deploy (Unit {0})
  unfolding at_stage cache_needed clear_cache change_entry note ◌>>=◌
  run_cache entries commit rollback cache = do
    at_stage "cache"
    e ← gets (λ s. s.entry)
    let clear =
        if cache == "auto"
        then cache_needed host entries commit rollback (or_nil e.translations)
        else cache == "yes"
    when clear clear_cache
    note now events "cache" "ok" (("cleared", Value.flag clear) ∷ [])
    change_entry (λ e. record e { cache = some clear })

  -- reload_php, and its event
  unfoldable pub run_reload : Deploy (Unit {0})
  unfolding at_stage act change_entry php_reload note ◌>>=◌
  run_reload = do
    when host.prestashop (change_entry (λ e. record e { ps_version = host.ps_version }))
    at_stage "reload"
    reload ← lift (php_reload host)
    when reload (act Action.reload_php host.reloaded)
    note now events "reload" (if reload then "ok" else "skipped") []

  -- The completed entry; what follows it only reports.
  unfoldable pub run_completed : Deploy (Unit {0})
  unfolding save_entry at_stage act ◌>>=◌
  run_completed = do
    save_entry (λ e. e)
    at_stage "completed"
    act Action.publish host.published
    act Action.report_traffic host.traffic_reported

  unfoldable pub finish_deploy : List Entry → String → Bool → String → Deploy String
  unfolding act run_hook run_modules run_migrations run_translations run_schema run_cache run_reload
      run_completed ◌>>=◌
  finish_deploy entries commit rollback cache = do
    act Action.sync_environment host.synced
    run_hook
    run_modules
    run_migrations
    run_translations
    run_schema
    run_cache entries commit rollback cache
    run_reload
    run_completed
    pure commit
