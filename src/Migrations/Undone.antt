-- ===== src/Migrations/Undone.antt =====
-- What make db-rollback leaves in setup_migrations: its targets are gone, or a refusal changed nothing.
use docker_development_envir.Common.{
  ℕ, Bool, false, not, ◌&&◌, ◌==◌, string_eq, List, [], ◌∷◌, Option, String, ◌≡◌, refl, sym, ◌∙◌,
  ap, ◌⊎◌, inl, inr, ok, err, Post, Triple, pure, raise, ◌>>◌, map, contains, arith, Bool-cases,
  filter_by, Result-cases,
}
use docker_development_envir.Common.Triples.{
  Triple-bind, Triple-weaken, Triple-if, Triple-gets, Triple-pure, Triple-raise, Triple-lift,
}
use docker_development_envir.Migrations.{Lines, Row, names_of}
use docker_development_envir.Migrations.Run.{
  failed, migrations_off, Database, Setup, require_enabled, execute, delete_row, rollback_rows,
  rollback_targets, plan_of, plans_of, undo_all, rollback,
}

abbrev names : List Row → List String
names rows = map (λ (row : Row). row.name) rows

contains-delete :
    (n name : String) (rows : List Row)
    → contains n (names (filter_by (λ (row : Row). not (row.name == name)) rows))
      ≡ (contains n (names rows) && not (name == n))
contains-delete n name [] = refl
contains-delete n name (row ∷ rows) = ground (
  arith,
  contains-delete n name rows,
  string_eq.beq_iff row.name name,
  string_eq.beq_iff row.name n,
  string_eq.beq_iff name n,
)

abbrev Plan : Type 0
Plan = String × Option String × Lines

-- `recorded` tells which names setup_migrations holds.
abbrev Holds : (String → Bool) → Database → Type 0
Holds recorded db = (n : String) → contains n (names db.rows) ≡ recorded n

module _ (setup : Setup) where
  Holds-execute :
      (recorded : String → Bool) (name : String) (schema : Option String) (sql : Lines)
      → Triple
          (Holds recorded)
          (execute setup schema sql (delete_row setup name))
          (λ _. Holds (λ n. recorded n && not (name == n)))
          (λ e _. e ≡ failed)
  unfolding execute
  Holds-execute recorded name schema sql = record {
    holds = λ db p. elim (Bool-cases (setup.accepts db.ran (schema, sql))) [
      | inl h ↦
          rw h (λ n. contains-delete n name db.rows ∙ ap (λ (b : Bool). b && not (name == n)) (p n))
      | inr h ↦ rw h refl
    ];
  }

  Holds-undo_all :
      (recorded : String → Bool) (plans : List Plan)
      → Triple
          (Holds recorded)
          (undo_all setup false plans)
          (λ _. Holds (λ n. recorded n && not (contains n (map (λ (plan : Plan). plan.0) plans))))
          (λ e _. e ≡ failed)
  unfolding undo_all
  Holds-undo_all recorded [] = Triple-pure tt (λ db p n. p n ∙ ground arith)
  Holds-undo_all recorded ((name, schema, sql) ∷ plans) =
      Triple-bind (λ _. Holds (λ n. recorded n && not (name == n))) _ _
        (Holds-execute recorded name schema sql)
        λ _.
          Triple-weaken (λ s p. p) (λ s a p n. p n ∙ ground arith) (λ s e p. p)
            (Holds-undo_all (λ n. recorded n && not (name == n)) plans)

  plans_of-names :
      (targets : List String) (plans : List Plan)
      → plans_of setup targets ≡ ok plans
      → map (λ (plan : Plan). plan.0) plans ≡ targets
  unfolding plans_of
  plans_of-names [] plans h = cc
  plans_of-names (name ∷ others) plans h = elim (Result-cases (plan_of setup name)) [
    | inl (e, k) ↦ absurd (let clash : err e ≡ ok plans = rw (k, plans_of) at h in cc)
    | inr (plan, k) ↦ elim (Result-cases (plans_of setup others)) [
      | inl (e, j) ↦ absurd (let clash : err e ≡ ok plans = rw (k, plans_of, j) at h in cc)
      | inr (rest, j) ↦
          (let same : ok ((name, plan.0, plan.1) ∷ rest) ≡ ok plans = rw (k, plans_of, j) at h in
            let tail : map (λ (p : Plan). p.0) rest ≡ others = plans_of-names others rest j in
            let whole : (name, plan.0, plan.1) ∷ rest ≡ plans = cc in
            ap (map (λ (p : Plan). p.0)) (sym whole) ∙ ap (◌∷◌ name) tail)
    ]
  ]

  -- The plans name the targets.
  undone :
      (db : Database) (targets : List String) (plans : List Plan)
      → plans_of setup targets ≡ ok plans
      → Triple
          (λ s. s ≡ db)
          (undo_all setup false plans >> pure targets)
          (λ ids t. Holds (λ n. contains n (names db.rows) && not (contains n ids)) t)
          (λ e t. (e ≡ failed) ⊎ (t ≡ db))
  undone db targets plans h =
      Triple-bind
        (λ _. Holds (λ n.
          contains n (names db.rows) && not (contains n (map (λ (plan : Plan). plan.0) plans))))
        _ _
        (Triple-weaken (λ s p n. ap (λ (d : Database). contains n (names d.rows)) p) (λ s a p. p)
          (λ s e p. inl p) (Holds-undo_all (λ n. contains n (names db.rows)) plans))
        λ _. Triple-pure targets λ s p n.
          p n
          ∙ ap (λ (l : List String). contains n (names db.rows) && not (contains n l))
              (plans_of-names targets plans h)

  Holds-rollback :
      (steps : ℕ) (to : Option String) (db : Database)
      → Triple
          (λ s. s ≡ db)
          (rollback setup steps to false)
          (λ ids t. Holds (λ n. contains n (names db.rows) && not (contains n ids)) t)
          (λ e t. (e ≡ failed) ⊎ (t ≡ db))
  unfolding rollback require_enabled
  Holds-rollback steps to db =
      Triple-bind (λ _ s. s ≡ db) _ _
        (Triple-if setup.enabled (pure tt) (raise migrations_off) (λ _. Triple-pure tt (λ s p. p))
          (λ _. Triple-raise migrations_off (λ s p. inr p)))
        λ _.
          Triple-bind (λ _ s. s ≡ db) _ _ (Triple-gets (λ s. s.rows) (λ s p. p))
            λ rows.
              Triple-bind (λ _ s. s ≡ db) _ _
                (Triple-lift (rollback_targets setup steps to (rollback_rows setup rows))
                  (λ s a p h. p) (λ s e p h. inr p))
                λ targets.
                  Triple-bind (λ plans s. (plans_of setup targets ≡ ok plans) × (s ≡ db)) _
                    (λ plans. undo_all setup false plans >> pure targets)
                    (Triple-lift (plans_of setup targets) (λ s a p h. (h, p)) (λ s e p h. inr p))
                    λ plans. record { holds = λ s p. (undone db targets plans p.0).holds s p.1 }

-- A make db-rollback that returns has taken exactly the migrations that it returns out of setup_migrations.
-- One that raises has either met a failing statement, or changed nothing at all: every target is checked
-- before the first one is rolled back.
pub contains-rollback :
    (setup : Setup) (steps : ℕ) (to : Option String) (db : Database)
    → Post
        (λ ids t.
          (n : String)
          → contains n (names_of setup.digest t.rows)
            ≡ (contains n (names_of setup.digest db.rows) && not (contains n ids)))
        (λ e t. (e ≡ failed) ⊎ (t ≡ db))
        (rollback setup steps to false db)
contains-rollback setup steps to db = (Holds-rollback setup steps to db).holds db refl
