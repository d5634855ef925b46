-- ===== src/Tests/Deploys.antt =====
-- A history with a completed and a failed deploy, and a project that deploys a third commit.
use docker_development_envir.Common.{
  true, false, [], ◌∷◌, Option, none, some, String, string_eq, ◌≡◌, ◌≢◌, refl, ok, err, contains,
  codes, decimal, Post, nat_eq, list_eq, short, List, ℕ,
}
use docker_development_envir.Common.Members.{In}
use docker_development_envir.Attempts.{Entry, is_failed, live_entry}
use docker_development_envir.Deploy.{Failure, process_error, Host, Deploying}
use docker_development_envir.Deploy.History.Laws.{
  live_entry-failed, rollback_entry_sound, rollback_entry-live,
}
use docker_development_envir.Deploy.Removal.{pruned}
use docker_development_envir.Deploy.Removal.Pruned.{pruned-rollback_entry}
use docker_development_envir.Deploy.History.{rollback_entry}
use docker_development_envir.Deploy.Machine.{Request, locked_deploy}
use docker_development_envir.Deploy.Final.{Completed}
use docker_development_envir.Deploy.Verdict.{Recorded, Recorded-deploy}

abbrev entry_of : String → Option String → Entry
entry_of commit failed = record {
  ref = commit;
  commit = commit;
  at = "";
  rollback = false;
  backup = none;
  attempt = none;
  failed = failed;
  health = none;
  migrations = none;
  translations = none;
  cache = none;
  ps_version = none;
  removals = none;
  pending_removals = none;
}

abbrev first_entry : Entry
first_entry = entry_of "aaaa" none

abbrev broken_entry : Entry
broken_entry = entry_of "bbbb" (some "after-rsync")

abbrev host : Host
host = record {
  prestashop = true;
  isolated = false;
  prepared = ok tt;
  trusted = ok tt;
  php_reload = none;
  ps_version = some "8.1.0";
  cache_clear_paths = [];
  project_paths = codes "/uploads/" ∷ [];
  has_hook = true;
  has_migrations = true;
  has_translations = false;
  has_schema = false;
  cache_command = none;
  built_commit = ok "cccc";
  is_built = λ _. true;
  manifest = λ commit. some (codes commit ∷ codes "uploads/a.png" ∷ codes "index.php" ∷ []);
  new_manifest = [];
  old_manifest = λ _. false;
  changed_code = λ _ _. none;
  modules_listed = ok tt;
  database_ready = ok tt;
  backup = ok "backup.sql";
  links_checked = ok tt;
  pushed = ok tt;
  protected_pushed = ok tt;
  manifest_written = ok tt;
  removed = λ _. ok [];
  synced = ok tt;
  hooked = err (process_error "hook");
  hook_seconds = 3;
  upgraded = ok tt;
  migrated = ok ("1.sql" ∷ []);
  translated = ok [];
  schema_reported = ok tt;
  cache_cleared = ok tt;
  reloaded = ok tt;
  published = ok tt;
  traffic_reported = ok tt;
}

abbrev request : Request
request = record {
  ref = some "v2";
  backup = true;
  rollback = false;
  cache = "auto";
  attempt = none;
}

abbrev start : Deploying
start = record {
  release = record { history = first_entry ∷ []; attempts = []; clock = 0 };
  trace = [];
  stage = "";
  entry = entry_of "" none;
  pending = false;
  waited = false;
}

Recorded-deploy_example :
    Post {E = Failure} {A = String}
      (λ c t. Completed (first_entry ∷ []) c t.release.history)
      (λ _. Recorded (first_entry ∷ []))
      (locked_deploy decimal host request start)
Recorded-deploy_example = Recorded-deploy decimal host request start

live_entry-failed_example :
    live_entry (first_entry ∷ broken_entry ∷ []) ≡ live_entry (first_entry ∷ [])
live_entry-failed_example = live_entry-failed (first_entry ∷ []) broken_entry refl

first_found : rollback_entry (first_entry ∷ broken_entry ∷ []) ≡ some first_entry
unfolding rollback_entry
first_found = refl

rollback_entry_sound_example :
    In first_entry (first_entry ∷ [])
    × (is_failed first_entry ≡ false)
    × (first_entry.commit ≢ broken_entry.commit)
rollback_entry_sound_example = rollback_entry_sound (first_entry ∷ []) broken_entry first_found

first_live : live_entry (first_entry ∷ []) ≡ some first_entry
unfolding live_entry
first_live = refl

commits_differ : first_entry.commit ≢ broken_entry.commit
commits_differ h = let k : false ≡ true = (string_eq.beq_iff "aaaa" "bbbb").1 h in absurd (cc)

rollback_entry-live_example : rollback_entry (first_entry ∷ broken_entry ∷ []) ≡ some first_entry
rollback_entry-live_example =
    rollback_entry-live (first_entry ∷ []) broken_entry first_live commits_differ

abbrev page : List ℕ
page = codes "uploads/a.png"

pruned-rollback_entry_example :
    contains
      (short first_entry.commit)
      (pruned (first_entry ∷ broken_entry ∷ []) "cccc" ("dddd" ∷ "cccc" ∷ "bbbb" ∷ "aaaa" ∷ []))
    ≡ false
pruned-rollback_entry_example =
    pruned-rollback_entry (first_entry ∷ []) broken_entry first_entry "cccc"
      ("dddd" ∷ "cccc" ∷ "bbbb" ∷ "aaaa" ∷ []) first_found
