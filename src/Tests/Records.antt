-- ===== src/Tests/Records.antt =====
-- Two migrations, an extra environment, a checked entry and an attempt's events.
use docker_development_envir.Common.{
  get, none, some, ◌⊎◌, ◌++◌, List, Text, false, true, false, not, ◌&&◌, string_eq, [], ◌∷◌, ◌++◌,
  none, some, String, ◌≡◌, refl, ok, Post, decimal, codes, contains, is_distinct, map, ◌⊎◌, all,
  ltb, length, list_eq, nat_eq,
}
use docker_development_envir.Attempts.{Entry, Release, live_entry}
use docker_development_envir.Attempts.Record
use docker_development_envir.Attempts.Record.{Field, read_attempt, read_or_blank, append_event}
use docker_development_envir.Attempts.Events.{read_attempt-event, events-update}
use docker_development_envir.Attempts.Record.{is_known}
use docker_development_envir.Health.{target_entry, accept_entry, health_entry, record_health}
use docker_development_envir.Health.Paths.{
  is_page, max_paths, listed_pages, health_paths, contains-health_paths,
}
use docker_development_envir.Health.Laws.{live_entry-record_health}
use docker_development_envir.Environments.{deployment_environment, deployment_name, is_name}
use docker_development_envir.Environments.Names.{deployment_environment-deployment_name}
use docker_development_envir.Settings.{process_secrets, Values, hides_process_value}
use docker_development_envir.Settings.Variables.{
  Listing, is_set, list_names, list_groups, checked_listing, names_setting, deployment_variables,
}
use docker_development_envir.Settings.Setup.{words}
use docker_development_envir.Settings.Listed.{get-deployment_variables}
use docker_development_envir.Migrations.{Lines, Migration, Row, names_of, pending_of}
use docker_development_envir.Migrations.Run.{failed, Database, Setup, identities, migrate, rollback}
use docker_development_envir.Migrations.Applied.{Prefix-migrate, pending_of-applied}
use docker_development_envir.Migrations.Prefixes.{Accepted, Prefix, statement}
use docker_development_envir.Migrations.Dry.{unchanged_by_dry}
use docker_development_envir.Migrations.Undone.{contains-rollback}

abbrev first_file : Migration
first_file = record {
  identity = "20260101120000-first.sql";
  schema = none;
  text = codes "SELECT 1;" ∷ codes "-- Rollback:" ∷ codes "SELECT 2;" ∷ [];
}

abbrev second_file : Migration
second_file = record {
  identity = "20260102120000-second.sql";
  schema = some "extra";
  text = codes "SELECT 3;" ∷ [];
}

abbrev digest : Lines → String
digest text = "sum"

abbrev setup : Setup
setup = record {
  enabled = true;
  files = first_file ∷ second_file ∷ [];
  digest = digest;
  accepts = λ ran statement. true;
  now = λ n. n;
}

abbrev first_row : Row
first_row = record { name = first_file.identity; checksum = "sum"; at = 0 }

abbrev second_row : Row
second_row = record { name = second_file.identity; checksum = "sum"; at = 1 }

abbrev database : Database
database = record { rows = first_row ∷ []; ran = []; clock = 1 }

Prefix-migrate_example :
    Post
      (λ applied t.
        (applied ≡ identities setup (pending_of digest setup.files database.rows))
        × (names_of digest t.rows ≡ names_of digest database.rows ++ applied)
        × (t.ran ≡ database.ran ++ map statement (pending_of digest setup.files database.rows))
        × Accepted setup database.ran (map statement (pending_of digest setup.files database.rows)))
      (λ _ t.
        Prefix setup
          (names_of digest database.rows)
          database.ran
          (pending_of digest setup.files database.rows)
          (names_of digest t.rows)
          t.ran)
      (migrate setup false database)
Prefix-migrate_example = Prefix-migrate setup database

both_applied :
    names_of digest (first_row ∷ second_row ∷ [])
    ≡ names_of digest (first_row ∷ [])
      ++ map
          (λ (item : Migration × String). item.0.identity)
          (pending_of digest setup.files (first_row ∷ []))
unfolding pending_of
both_applied = refl

pending_of-applied_example : pending_of digest setup.files (first_row ∷ second_row ∷ []) ≡ []
pending_of-applied_example =
    pending_of-applied digest setup.files (first_row ∷ []) (first_row ∷ second_row ∷ [])
      both_applied

contains-rollback_example :
    Post
      (λ ids t.
        (n : String)
        → contains n (names_of digest t.rows)
          ≡ (contains n (names_of digest database.rows) && not (contains n ids)))
      (λ e t. (e ≡ failed) ⊎ (t ≡ database))
      (rollback setup 1 none false database)
contains-rollback_example = contains-rollback setup 1 none database

unchanged_by_dry_example :
    Post
      (λ names t. (names ≡ []) × (t ≡ database))
      (λ _ t. t ≡ database)
      (migrate setup true database)
    × Post
        (λ names t. (names ≡ []) × (t ≡ database))
        (λ _ t. t ≡ database)
        (rollback setup 1 none true database)
unchanged_by_dry_example = unchanged_by_dry setup database 1 none

is_mdv : is_name (codes "mdv") ≡ true
unfolding is_name
is_mdv = refl

deployment_environment-deployment_name_example :
    deployment_environment (deployment_name (codes "mdv")) (codes "mdv" ∷ []) ≡ some (codes "mdv")
deployment_environment-deployment_name_example =
    deployment_environment-deployment_name (codes "mdv") (codes "mdv" ∷ []) refl is_mdv refl refl

abbrev entry : Entry
entry = record {
  ref = "v1";
  commit = "aaaa";
  at = "";
  rollback = false;
  backup = none;
  attempt = some "attempt-1";
  failed = some "health";
  health = some "failed";
  migrations = none;
  translations = none;
  cache = none;
  ps_version = none;
  removals = none;
  pending_removals = none;
}

is_accepted : target_entry (entry ∷ []) (some "attempt-1") false ≡ ok entry
unfolding target_entry accept_entry
is_accepted = refl

live_entry-record_health_example :
    live_entry (record_health true (entry ∷ [])) ≡ some (health_entry true entry)
live_entry-record_health_example =
    live_entry-record_health [] entry (some "attempt-1") false true is_accepted

abbrev release : Release
release = record { history = []; attempts = []; clock = 4 }

read_attempt-event_example :
    read_attempt (Record.event decimal (some "attempt-1") "code" "ok" [] release) "attempt-1"
    ≡ some (record (read_or_blank "attempt-1" release) {
      events =
          (read_or_blank "attempt-1" release).events
          ++ record { stage = "code"; state = "ok"; fields = []; at = decimal 4 } ∷ [];
    })
read_attempt-event_example =
    read_attempt-event decimal "attempt-1" "attempt-1" "code" "ok" [] release

events-update_example :
    (read_or_blank "attempt-1"
      (Record.update (some "attempt-1") (Field.events [] ∷ []) release)).events
    ≡ (read_or_blank "attempt-1" release).events
events-update_example = events-update (some "attempt-1") (Field.events [] ∷ []) "attempt-1" release

abbrev settings : Values
settings = (codes "DEPLOY_REQUIRED_VARIABLES", codes "API_KEY") ∷ []

abbrev listing : Text → Listing
listing name = record { name = name; required = true; secured = true }

abbrev listed : List Listing
listed =
    listing (codes "DATABASE_PASSWORD")
    ∷ listing (codes "DATABASE_ROOT_PASSWORD")
    ∷ listing (codes "API_KEY")
    ∷ []

is_listed : deployment_variables settings ((codes "DATABASE_PASSWORD", []) ∷ []) ≡ ok listed
unfolding deployment_variables list_groups list_names is_set checked_listing hides_process_value
    names_setting
is_listed = refl

abbrev env_files : Values
env_files = (codes "DATABASE_PASSWORD", []) ∷ []

get-deployment_variables_example :
    (get (codes "DATABASE_PASSWORD") env_files ≡ none)
    ⊎ ((get (codes "DATABASE_PASSWORD") env_files ≡ some [])
        × (contains (codes "DATABASE_PASSWORD") process_secrets ≡ true))
get-deployment_variables_example =
    get-deployment_variables settings env_files listed (codes "DATABASE_PASSWORD") is_listed refl

abbrev page_settings : Values
page_settings =
    (codes "DEPLOY_HEALTH_PATHS", codes "/ /shop")
    ∷ (codes "DEPLOY_HEALTH_RELEASE_PATH", codes "/_health")
    ∷ []

abbrev page_environ : Values
page_environ = (codes "DEPLOY_HEALTH_EXTRA", codes "/shop /new") ∷ []

abbrev pages : List Text
pages = map codes ("/" ∷ "/shop" ∷ "/new" ∷ "/_health" ∷ [])

pages_found : health_paths page_settings page_environ ≡ ok (pages, codes "/_health")
unfolding health_paths listed_pages words is_page
pages_found = refl

contains-health_paths_example :
    (contains (codes "/shop") pages
      ≡ contains (codes "/shop") (listed_pages page_settings page_environ))
    × (all is_page pages ≡ true)
    × (is_distinct pages ≡ true)
    × (ltb max_paths (length pages) ≡ false)
contains-health_paths_example =
    contains-health_paths page_settings page_environ (codes "/shop") pages_found
