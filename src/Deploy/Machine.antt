-- ===== src/Deploy/Machine.antt =====
-- locked_deploy: the checks, the release, the copy, the provisional entry and the removals, and the
-- handler that records the stage of a failure.
use docker_development_envir.Common.{
  ℕ, Bool, true, false, not, ◌&&◌, ◌||◌, ◌==◌, string_eq, suc, List, [], ◌∷◌, Option, none, some,
  String, Result, ok, err, codes, pure, raise, lift, gets, modify, ◌>>=◌, ◌>>◌, catch, when, truthy,
  is_empty, is_some, length, short, if◌then◌else◌,
}
use docker_development_envir.Attempts.{Entry, Value, check_attempt}
use docker_development_envir.Deploy.{
  Failure, value_error, Action, Host, Deploy, act, at_stage, change_entry, change_history, note,
}
use docker_development_envir.Deploy.History.{rollback_entry, record_entry}
use docker_development_envir.Deploy.Removal.{removed_files}
use docker_development_envir.Deploy.Stages.{php_reload, ready, save_entry, finish_deploy}

-- make deploy's arguments.
pub record Request : Type 0 where
  pub ref : Option String
  pub backup : Bool
  pub rollback : Bool
  pub cache : String
  pub attempt : Option String

-- The entry with a failure's name and, while the removals are owed, their mark.
unfoldable pub failed_entry : String → Bool → Entry → Entry
failed_entry stage pending e =
    if pending
    then record e { failed = some stage; removals = some "pending" }
    else record e { failed = some stage }

-- `events`: a rollback's stages are not events of the attempt.
unfoldable pub events_of : Request → Option String
events_of request =
    if request.rollback then none else if truthy request.attempt then request.attempt else none

unfoldable pub check_request : Request → Result Failure (Unit {0})
unfolding check_attempt
check_request request =
    if not (request.cache == "auto" || request.cache == "yes" || request.cache == "no")
    then err (value_error "cache must be auto, yes or no")
    else elim request.attempt [
      | none ↦ ok tt
      | some id ↦
          if not (id == "") && not (check_attempt (codes id))
          then err (value_error "attempt must be 8-64 letters, digits or dashes")
          else ok tt
    ]

module _ (now : ℕ → String) (host : Host) (request : Request) where
  -- (ref, commit) of a rollback, refused when the release is gone.
  unfoldable pub rollback_release : List Entry → Result Failure (String × String)
  unfolding rollback_entry
  rollback_release entries = elim (rollback_entry entries) [
    | none ↦ err (value_error "No previous deployment to roll back to")
    | some previous ↦
        if not (host.is_built (short previous.commit))
        then err (value_error "The previous release is no longer on this machine")
        else ok (previous.ref, previous.commit)
  ]

  unfoldable pub build_release : String → Deploy (String × String)
  unfolding act ◌>>=◌
  build_release ref =
      if ref == ""
      then raise (value_error "Name the shop release to deploy")
      else (do commit ← act (Action.build ref) host.built_commit; pure (ref, commit))

  unfoldable pub choose_release : List Entry → Deploy (String × String)
  unfolding rollback_release build_release ◌>>=◌
  choose_release entries =
      if request.rollback
      then lift (rollback_release entries)
      else build_release (elim request.ref [ none ↦ "" | some r ↦ r ])

  unfoldable pub back_up : Deploy (Option String)
  unfolding ready act note ◌>>=◌
  back_up =
      if request.backup
      then (do
        ready host
        file ← act Action.back_up host.backup
        note now (events_of request) "backup" "ok" (("file", Value.text file) ∷ [])
        pure (some file))
      else pure none

  unfoldable pub fresh_entry : String → String → String → Option String → Entry
  fresh_entry ref commit at backup = record {
    ref = ref;
    commit = commit;
    at = at;
    rollback = request.rollback;
    backup = backup;
    attempt = if truthy request.attempt then request.attempt else none;
    failed = none;
    health = none;
    migrations = none;
    translations = none;
    cache = none;
    ps_version = none;
    removals = none;
    pending_removals = none;
  }

  -- Everything before the history is written; returns the commit that the target holds now.
  unfoldable pub copy_release : List Entry → Deploy String
  unfolding act choose_release back_up modify ◌>>=◌
  copy_release entries = do
    (ref, commit) ← choose_release entries
    lift host.trusted
    act Action.list_modules host.modules_listed
    backup ← back_up
    modify (λ s. record s {
      entry = fresh_entry ref commit (now s.release.clock) backup;
      release = record s.release { clock = suc s.release.clock };
    })
    act Action.check_links host.links_checked
    act (Action.push commit) host.pushed
    pure commit

  -- The file lists once the release's own is written.
  unfoldable pub with_manifest : String → Host
  with_manifest commit = record host {
    manifest = λ c.
        if c == commit
        then some (elim (host.manifest commit) [ none ↦ host.new_manifest | some names ↦ names ])
        else host.manifest c;
  }

  -- The removal step: what the target had to leave stays in the entry.
  unfoldable pub remove_stale : List Entry → String → Deploy (Unit {0})
  unfolding at_stage act with_manifest removed_files change_entry save_entry modify note ◌>>=◌
  remove_stale entries commit = do
    at_stage "removals"
    let removed = removed_files (with_manifest commit) entries commit
    left ← act (Action.remove removed) (host.removed removed)
    when (not (is_empty left)) (change_entry (λ e. record e { pending_removals = some left }))
    modify (λ s. record s { pending = false })
    save_entry (failed_entry "incomplete" false)
    note now (events_of request) "code" "ok" (("removed_files", Value.number (length removed)) ∷ [])

  -- The body of the `try`.
  unfoldable pub after_copy : List Entry → String → Deploy String
  unfolding act at_stage remove_stale finish_deploy ◌>>=◌
  after_copy entries commit = do
    act Action.push_protected host.protected_pushed
    at_stage "manifest"
    when (not (is_some (host.manifest commit))) (act Action.write_manifest host.manifest_written)
    remove_stale entries commit
    at_stage "environment"
    finish_deploy now host (events_of request) entries commit request.rollback request.cache

  -- `except Exception`: the failed stage is recorded unless the deploy was completed.
  unfoldable pub record_failure : Failure → Deploy String
  unfolding save_entry ◌>>=◌
  record_failure error = do
    stage ← gets (λ s. s.stage)
    pending ← gets (λ s. s.pending)
    when (not (stage == "completed")) (save_entry (failed_entry stage pending))
    raise error

  unfoldable pub provisional : Deploy (Unit {0})
  unfolding change_history record_entry modify ◌>>=◌
  provisional = do
    e ← gets (λ s. s.entry)
    change_history (record_entry (failed_entry "incomplete" true e))
    modify (λ s. record s { stage = "protected-files"; pending = true })

  unfoldable pub locked_deploy : Deploy String
  unfolding check_request php_reload copy_release provisional after_copy record_failure ◌>>=◌
  locked_deploy = do
    lift (check_request request)
    lift host.prepared
    lift (php_reload host)
    entries ← gets (λ s. s.release.history)
    commit ← copy_release entries
    provisional
    catch (after_copy entries commit) record_failure
