-- ===== src/Lib.antt =====
-- The deploy tooling of a Docker development environment for PHP shops: a model of the Python programs under
-- docker/, and what holds of them.
--
-- Parts and files
--   Attempts      docker/project_attempts.py. The directory .generated/release/<env>/ is the record Release:
--                 deployments.json (history), the files of attempts/ (attempts), and how often the clock was
--                 read (clock). Attempts/Record has the class Attempt (create, update, event), Attempts/Status
--                 what make deploy-status says, Attempts/Events what the writes change.
--   Deploy        docker/project_deploy.py. One make deploy is a run of locked_deploy (Deploy/Machine) on a
--                 Deploying: the release directory, the steps begun (trace), and the locals that its exception
--                 handler reads. Deploy/Stages has finish_deploy, Deploy/History the rollback target and the
--                 removals owed, Deploy/Paths protected and safe names, Deploy/Removal the files removed, the
--                 releases pruned and cache=auto. Recorded, Kept, Final and Verdict prove what a run records.
--   Pipeline      docker/project_pipeline.py. Pipeline/Inputs and Pipeline/Checks have the step up
--                 to its acceptance (pipeline_deploy, checked_step), Pipeline/Step the class Step,
--                 Pipeline/Decisions the auto switches; run_step is in Pipeline/Order (its target
--                 and auto_rollback), Pipeline/Body (the body of its try) and Pipeline/Main (its handler,
--                 restore). Stable, Marked, Ended, Unstarted, Started, Handled, Restored and Repeated prove what a run leaves.
--                 A run is a Stepping: the release directory, the marker pipeline-run.json, the commit of the
--                 build root, the env file written last, the make steps, and the locals of run_step. It calls
--                 make deploy and make deploy-health as processes, so their effect on the release directory
--                 is a function of Tools.
--   Health        docker/project_deploy_health.py: the check of the pages and what its result writes;
--                 Health/Paths which pages are asked for.
--   Migrations    docker/database_migrations_guarded.py: Migrations/Files finds and orders the files,
--                 Migrations/Run is make db-migrate and make db-rollback on a Database (Prefixes, Applied, Undone
--                 and Dry prove what they leave). Migrations/Drafts reads
--                 table definitions and compares them (parse_table, table_changes); the blocks of table_changes
--                 are values of Change, whose SQL is in Drafts/Written (guarded, create_table, todo); Drafts/Draft
--                 has changes and draft_text.
--                 The source goes through the dropped keys in no fixed order; the model keeps that of the
--                 old definition. Drafts/Folder has write_draft on a folder of migrations, Drafts/Write its loop
--                 over the schemas (write_drafts), Drafts/Commit the commit check; the SHA-256 and git's answers
--                 are parameters. Edited, Kept, Untouched and Covered prove what is left alone and what is covered.
--                 What the SQL of a draft does on a server is not modelled.
--   Database      docker/database_client.py: quoting, names of tables (Database), the schemas of the settings
--                 (Database/Schemas; Schemas/Reached has what their patterns reach). Database/Quoted reads quoted text back the way a server does.
--                 docker/database_registry.py: Database/Registry, with Registry/Resolved on what resolve asks
--                 and Registry/Written on the lines it appends.
--   Environments  docker/project_environments.py.
--   Settings      docker/project_env_files.py: Settings/Dotenv the parser, Settings/Variables the Deployment
--                 variables, Settings/Setup the names among them that the setup itself asks for,
--                 Settings/Versions the setup version, and expand_json of project_pipeline.py.
--   Policy        docker/project_policy.py: Policy/Switches, Policy/Checks, Policy/Resources (container limits) and
--                 Policy/Pool (PHP-FPM) are the parts of resolve_policy, which Policy/Resolve puts together.
--   Domains       docker/project_domains.py: the hostnames of DOMAIN (Domains/Hosts) and the settings that
--                 carry them (Domains/Carried).
--   Store         docker/project_secret_store.py: what a command takes from a running stack.
--   Common        lists, texts, equality tests, the runs with state and exceptions (Runs) and the rules for
--                 them (Triples), fnmatch (Glob), sorted sets (Sort).
--   Tests         concrete inputs.
--
-- Conventions
--   Code that changes state and may raise is a Run: it gives a result or an error, and always the state, so
--   what was written before an exception stays written. What git, Docker, rsync, the database, the pages and
--   the clock answer is a parameter (Host, Tools, Check, Setup, now). Texts of messages, and fields of events
--   that only repeat a message, are left out; so are printing and file permissions. Numbers are natural
--   numbers. Text operations are on ASCII: strip and split know the ASCII blanks only. Loops are recursion on
--   the list they go through; release_seen goes through the answers of the release page until the wait is
--   over. Where the code puts entries in a set, the model keeps a list. Reading the deploy history and writing the
--   file of an attempt do not fail in the model, also not in the exception handlers, which rely on it.
--
-- Not modelled: the locks, the building of a release, rsync and the sockets of the health check; the size limit
-- of the status document; the queries of the database client; everything outside the files named here.
pub mod Attempts
pub mod Common
pub mod Database
pub mod Deploy
pub mod Domains
pub mod Environments
pub mod Health
pub mod Migrations
pub mod Pipeline
pub mod Policy
pub mod Settings
pub mod Store
pub mod Tests
