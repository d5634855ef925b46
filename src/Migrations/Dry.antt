-- ===== src/Migrations/Dry.antt =====
-- make db-migrate and make db-rollback with dry: what they would do is only said.
use docker_development_envir.Common.{
  ℕ, true, List, [], ◌∷◌, Option, String, ◌≡◌, refl, Post, Triple, pure, raise,
}
use docker_development_envir.Common.Triples.{
  Keeps, Keeps-if, Keeps-raise, Keeps-pure, Keeps-lift, Keeps-gets, Triple-bind, Triple-pure,
}
use docker_development_envir.Migrations.{Lines, Migration, pending_of, is_open, split_rollback}
use docker_development_envir.Migrations.Run.{
  Database, Setup, require_enabled, migrations_off, still_open, apply_all, migrate, rollback_rows,
  rollback_targets, plans_of, undo_all, rollback,
}

module _ (setup : Setup) (db : Database) where
  abbrev Unchanged : Database → Type 0
  Unchanged t = t ≡ db

  Unchanged-require_enabled : Keeps Unchanged (require_enabled setup)
  unfolding require_enabled
  Unchanged-require_enabled =
      Keeps-if setup.enabled (pure tt) (raise migrations_off) (Keeps-pure tt)
        (Keeps-raise migrations_off)

  Unchanged-apply_all :
      (pending : List (Migration × String)) → Keeps Unchanged (apply_all setup true pending)
  unfolding apply_all
  Unchanged-apply_all [] = Keeps-pure tt
  Unchanged-apply_all ((file, checksum) ∷ pending) =
      Triple-bind (λ _. Unchanged) _ _
        (Keeps-if (is_open (split_rollback file.text).0) (raise still_open) (pure tt)
          (Keeps-raise still_open) (Keeps-pure tt))
        λ _. Triple-bind (λ _. Unchanged) _ _ (Keeps-pure tt) (λ _. Unchanged-apply_all pending)

  Unchanged-undo_all :
      (plans : List (String × Option String × Lines)) → Keeps Unchanged (undo_all setup true plans)
  unfolding undo_all
  Unchanged-undo_all [] = Keeps-pure tt
  Unchanged-undo_all ((name, schema, sql) ∷ plans) =
      Triple-bind (λ _. Unchanged) _ _ (Keeps-pure tt) (λ _. Unchanged-undo_all plans)

  abbrev Said : List String → Database → Type 0
  Said names t = (names ≡ []) × (t ≡ db)

  Said-migrate : Triple Unchanged (migrate setup true) Said (λ _. Unchanged)
  unfolding migrate
  Said-migrate =
      Triple-bind (λ _. Unchanged) _ _ Unchanged-require_enabled
        λ _.
          Triple-bind (λ _. Unchanged) _ _ (Keeps-gets (λ (t : Database). t.rows))
            λ rows.
              Triple-bind (λ _. Unchanged) _ _
                (Unchanged-apply_all (pending_of setup.digest setup.files rows))
                λ _. Triple-pure [] (λ t p. (refl, p))

  Said-rollback :
      (steps : ℕ) (to : Option String)
      → Triple Unchanged (rollback setup steps to true) Said (λ _. Unchanged)
  unfolding rollback
  Said-rollback steps to =
      Triple-bind (λ _. Unchanged) _ _ Unchanged-require_enabled
        λ _.
          Triple-bind (λ _. Unchanged) _ _ (Keeps-gets (λ (t : Database). t.rows))
            λ rows.
              Triple-bind (λ _. Unchanged) _ _
                (Keeps-lift (rollback_targets setup steps to (rollback_rows setup rows)))
                λ targets.
                  Triple-bind (λ _. Unchanged) _ _ (Keeps-lift (plans_of setup targets))
                    λ plans.
                      Triple-bind (λ _. Unchanged) _ _ (Unchanged-undo_all plans)
                        λ _. Triple-pure [] (λ t p. (refl, p))

-- With dry, make db-migrate and make db-rollback run no statement of a migration and change no row of
-- setup_migrations, also where they raise; when they return, they return no migration.
pub unchanged_by_dry :
    (setup : Setup) (db : Database) (steps : ℕ) (to : Option String)
    → Post (λ names t. (names ≡ []) × (t ≡ db)) (λ _ t. t ≡ db) (migrate setup true db)
      × Post (λ names t. (names ≡ []) × (t ≡ db)) (λ _ t. t ≡ db) (rollback setup steps to true db)
unchanged_by_dry setup db steps to =
    ((Said-migrate setup db).holds db refl, (Said-rollback setup db steps to).holds db refl)
