-- ===== src/Migrations/Run.antt =====
-- make db-migrate and make db-rollback. What the database answers to a statement is a parameter.
use docker_development_envir.Common.{
  ℕ, suc, Bool, not, ◌&&◌, ◌||◌, ◌==◌, nat_eq, string_eq, List, [], ◌∷◌, ◌++◌, Option, none, some,
  String, Result, ok, err, Run, pure, raise, lift, gets, ◌>>=◌, ◌>>◌, when, map, take, filter_by,
  codes, has_prefix, if◌then◌else◌, ltb,
}
use docker_development_envir.Common.Sort.{text_ltb}
use docker_development_envir.Migrations.{
  Lines, Migration, Row, split_rollback, is_open, is_written, pending_of,
}

pub data Problem : Type 0 where
  migrations_off still_open failed not_applied bad_steps missing_file no_way_back : Problem

-- The table setup_migrations, the statements that the database has run, and the clock's readings.
pub record Database : Type 0 where
  pub rows : List Row
  pub ran : List (Option String × Lines)
  pub clock : ℕ

abbrev pub Migrating : Type 0 → Type 0
Migrating A = Run Problem Database A

pub record Setup : Type 0 where
  pub enabled : Bool
  -- migration_files, in apply order
  pub files : List Migration
  pub digest : Lines → String
  -- whether the database runs a statement, after those it has run
  pub accepts : List (Option String × Lines) → Option String × Lines → Bool
  pub now : ℕ → ℕ

module _ (setup : Setup) where
  unfoldable pub require_enabled : Migrating (Unit {0})
  unfolding ◌>>=◌
  require_enabled = if setup.enabled then pure tt else raise migrations_off

  -- One `execute`: the statement and, behind it, the change of setup_migrations. A failed one changes no row.
  unfoldable pub execute : Option String → Lines → (ℕ → List Row → List Row) → Migrating (Unit {0})
  execute schema sql change db =
      let statement : Option String × Lines = (schema, sql) in
      let next : Database = record db { ran = db.ran ++ statement ∷ []; clock = suc db.clock } in
      if setup.accepts db.ran statement
      then (ok tt, record next { rows = change (setup.now db.clock) db.rows })
      else (err failed, next)

  abbrev pub insert_row : String → String → ℕ → List Row → List Row
  insert_row name checksum at rows =
      rows ++ record { name = name; checksum = checksum; at = at } ∷ []

  -- `DELETE FROM setup_migrations WHERE name = ...`
  abbrev pub delete_row : String → ℕ → List Row → List Row
  delete_row name at rows = filter_by (λ (row : Row). not (row.name == name)) rows

  -- The loop of migrate: stops at the first failure.
  unfoldable pub apply_all : Bool → List (Migration × String) → Migrating (Unit {0})
  unfolding execute split_rollback is_open ◌>>=◌
  apply_all dry [] = pure tt
  apply_all dry ((file, checksum) ∷ pending) = do
    let sql = (split_rollback file.text).0
    when (is_open sql) (raise still_open)
    when (not dry) (execute file.schema sql (insert_row file.identity checksum))
    apply_all dry pending

  abbrev pub identities : List (Migration × String) → List String
  identities = map (λ (item : Migration × String). item.0.identity)

  unfoldable pub migrate : Bool → Migrating (List String)
  unfolding require_enabled pending_of apply_all ◌>>=◌
  migrate dry = do
    require_enabled
    rows ← gets (λ db. db.rows)
    let pending = pending_of setup.digest setup.files rows
    apply_all dry pending
    pure (if dry then [] else identities pending)

  -- `ORDER BY applied_at DESC, name DESC`
  is_later : Row → Row → Bool
  is_later a b = ltb b.at a.at || (a.at == b.at && text_ltb (codes b.name) (codes a.name))

  insert_latest : Row → List Row → List Row
  unfolding is_later
  insert_latest row [] = row ∷ []
  insert_latest row (other ∷ rows) =
      let rest = insert_latest row rows in
      if is_later row other then row ∷ other ∷ rows else other ∷ rest

  latest_first : List Row → List Row
  unfolding insert_latest
  latest_first [] = []
  latest_first (row ∷ rows) = insert_latest row (latest_first rows)

  -- The applied migrations that have a way back, the latest first.
  unfoldable pub rollback_rows : List Row → List String
  unfolding latest_first
  rollback_rows rows =
      map (λ (row : Row). row.name)
        (latest_first (
          filter_by (λ (row : Row). not (has_prefix (codes "translations:") (codes row.name)))
            rows))

  -- `rows[:rows.index(to)]`
  before_name : String → List String → Option (List String)
  before_name to [] = none
  before_name to (name ∷ names) =
      let rest = before_name to names in
      if name == to then some [] else elim rest [ none ↦ none | some found ↦ some (name ∷ found) ]

  -- `to` is none for the last `steps`.
  unfoldable pub rollback_targets : ℕ → Option String → List String → Result Problem (List String)
  unfolding before_name
  rollback_targets steps none rows = if steps == 0 then err bad_steps else ok (take steps rows)
  rollback_targets steps (some to) rows = elim (before_name to rows) [
    | none ↦ err not_applied
    | some names ↦ ok names
  ]

  find_file : String → List Migration → Option Migration
  find_file name [] = none
  find_file name (file ∷ files) = if file.identity == name then some file else find_file name files

  -- The check of one target: (schema, sql).
  unfoldable pub plan_of : String → Result Problem (Option String × Lines)
  unfolding find_file split_rollback is_written is_open
  plan_of name = elim (find_file name setup.files) [
    | none ↦ err missing_file
    | some file ↦ elim (split_rollback file.text).1 [
      | none ↦ err no_way_back
      | some sql ↦
          if not (is_written sql)
          then err no_way_back
          else if is_open sql
          then err still_open
          else ok (file.schema, sql)
    ]
  ]

  -- Every target is checked before anything changes.
  unfoldable pub plans_of : List String → Result Problem (List (String × Option String × Lines))
  unfolding plan_of
  plans_of [] = ok []
  plans_of (name ∷ names) = elim (plan_of name) [
    | err e ↦ err e
    | ok plan ↦ elim (plans_of names) [
      | err e ↦ err e
      | ok plans ↦ ok ((name, plan.0, plan.1) ∷ plans)
    ]
  ]

  unfoldable pub undo_all : Bool → List (String × Option String × Lines) → Migrating (Unit {0})
  unfolding execute ◌>>=◌
  undo_all dry [] = pure tt
  undo_all dry ((name, schema, sql) ∷ plans) = do
    when (not dry) (execute schema sql (delete_row name))
    undo_all dry plans

  unfoldable pub rollback : ℕ → Option String → Bool → Migrating (List String)
  unfolding require_enabled rollback_rows rollback_targets plans_of undo_all ◌>>=◌
  rollback steps to dry = do
    require_enabled
    rows ← gets (λ db. db.rows)
    targets ← lift (rollback_targets steps to (rollback_rows rows))
    plans ← lift (plans_of targets)
    undo_all dry plans
    pure (if dry then [] else targets)
