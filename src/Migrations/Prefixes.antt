-- ===== src/Migrations/Prefixes.antt =====
-- What the loop of make db-migrate leaves, also where a statement fails: the statements and rows of a prefix.
use docker_development_envir.Common.{
  true, false, string_eq, List, [], ◌∷◌, ◌++◌, String, ◌≡◌, refl, sym, ◌∙◌, ap, inl, inr, Triple,
  pure, raise, map, append-nil, append_assoc, Bool-cases, Option, ◌⊎◌,
}
use docker_development_envir.Common.Triples.{
  Keeps-if, Triple-bind, Triple-weaken, Triple-pure, Keeps-raise, Keeps-pure,
}
use docker_development_envir.Migrations.{Lines, Migration, Row, split_rollback, is_open}
use docker_development_envir.Migrations.Run.{
  Database, Setup, still_open, execute, insert_row, apply_all, identities,
}

abbrev pub names : Database → List String
names db = map (λ (row : Row). row.name) db.rows

abbrev pub Statement : Type 0
Statement = Option String × Lines

-- What the database runs for a migration: the file up to its rollback section, in the file's schema.
abbrev pub statement : Migration × String → Statement
statement item = (item.0.schema, (split_rollback item.0.text).0)

abbrev pub At : List String → List Statement → Database → Type 0
At before ran db = (names db ≡ before) × (db.ran ≡ ran)

map-append :
    (xs ys : List Row)
    → map (λ (r : Row). r.name) (xs ++ ys)
      ≡ map (λ (r : Row). r.name) xs ++ map (λ (r : Row). r.name) ys
map-append [] ys = refl
map-append (x ∷ xs) ys = ap (◌∷◌ x.name) (map-append xs ys)

module _ (setup : Setup) where
  -- The database, after it has run `ran`, runs these statements one after the other.
  abbrev pub Accepted : List Statement → List Statement → Type 0
  Accepted ran [] = Unit {0}
  Accepted ran (next ∷ more) = (setup.accepts ran next ≡ true) × Accepted (ran ++ next ∷ []) more

  -- At most the statement of the first of `rest` was tried, and refused.
  abbrev pub Tried : List Statement → List (Migration × String) → List Statement → Type 0
  Tried ran rest tried =
      (tried ≡ [])
      ⊎ ((next : Migration × String) × (more : List (Migration × String)) × (rest ≡ next ∷ more)
          × (tried ≡ statement next ∷ [])
          × (setup.accepts ran (statement next) ≡ false))

  -- The migrations of `pending` are run and recorded up to some point, in order.
  abbrev pub Prefix :
      List String
      → List Statement
      → List (Migration × String)
      → List String
      → List Statement
      → Type 0
  Prefix before ran pending after after_ran =
      (done : List (Migration × String)) × (rest : List (Migration × String)) × (tried : List
        Statement)
      × (pending ≡ done ++ rest)
      × (after ≡ before ++ map (λ (item : Migration × String). item.0.identity) done)
      × (after_ran ≡ ran ++ (map statement done ++ tried))
      × Accepted ran (map statement done)
      × Tried (ran ++ map statement done) rest tried

  abbrev pub Stopped : List String → List Statement → List (Migration × String) → Database → Type 0
  Stopped before ran pending db = Prefix before ran pending (names db) db.ran

  still_refused :
      {ran after : List Statement} (rest : List (Migration × String)) (tried : List Statement)
      → ran ≡ after
      → Tried ran rest tried
      → Tried after rest tried
  still_refused rest tried eq (inl none_tried) = inl none_tried
  still_refused rest tried eq (inr (next, more, first, one, rejected)) = inr (
    next,
    more,
    first,
    one,
    ap (λ (r : List Statement). setup.accepts r (statement next)) (sym eq) ∙ rejected,
  )

  longer :
      (before : List String) (ran : List Statement) (item : Migration × String)
      (pending : List (Migration × String)) (after : List String) (after_ran : List Statement)
      → setup.accepts ran (statement item) ≡ true
      → Prefix (before ++ item.0.identity ∷ []) (ran ++ statement item ∷ []) pending after after_ran
      → Prefix before ran (item ∷ pending) after after_ran
  longer before ran item pending after after_ran taken
        (done, rest, tried, h, k, r, accepted, last) =
      (
        item ∷ done,
        rest,
        tried,
        ap (◌∷◌ item) h,
        k ∙ append_assoc before (item.0.identity ∷ []) _,
        r ∙ append_assoc ran (statement item ∷ []) _,
        (taken, accepted),
        still_refused rest tried (append_assoc ran (statement item ∷ []) _) last,
      )

  -- Nothing of `pending` was begun.
  pub unbegun :
      (before : List String) (ran : List Statement) (pending : List (Migration × String))
      (db : Database)
      → At before ran db
      → Stopped before ran pending db
  unbegun before ran pending db p =
      ([], pending, [], refl, p.0 ∙ sym (append-nil _), p.1 ∙ sym (append-nil _), tt, inl refl)

  refused :
      (before : List String) (ran : List Statement) (item : Migration × String)
      (pending : List (Migration × String)) (db : Database)
      → At before (ran ++ statement item ∷ []) db
      → setup.accepts ran (statement item) ≡ false
      → Stopped before ran (item ∷ pending) db
  refused before ran item pending db p rejected = (
    [],
    item ∷ pending,
    statement item ∷ [],
    refl,
    p.0 ∙ sym (append-nil _),
    p.1,
    tt,
    inr (
      item,
      pending,
      refl,
      refl,
      ap (λ (r : List Statement). setup.accepts r (statement item)) (append-nil ran) ∙ rejected,
    ),
  )

  At-execute :
      (before : List String) (ran : List Statement) (file : Migration) (checksum : String)
      (sql : Lines)
      → Triple
          (At before ran)
          (execute setup file.schema sql (insert_row setup file.identity checksum))
          (λ _ db.
            At (before ++ file.identity ∷ []) (ran ++ (file.schema, sql) ∷ []) db
            × (setup.accepts ran (file.schema, sql) ≡ true))
          (λ _ db.
            At before (ran ++ (file.schema, sql) ∷ []) db
            × (setup.accepts ran (file.schema, sql) ≡ false))
  unfolding execute
  At-execute before ran file checksum sql = record {
    holds = λ db p.
        (let grown : db.ran ++ (file.schema, sql) ∷ [] ≡ ran ++ (file.schema, sql) ∷ [] =
            ap (λ (l : List Statement). l ++ (file.schema, sql) ∷ []) p.1 in
          let same : setup.accepts db.ran (file.schema, sql)
              ≡ setup.accepts ran (file.schema, sql) =
            ap (λ (r : List Statement). setup.accepts r (file.schema, sql)) p.1 in
          elim (Bool-cases (setup.accepts db.ran (file.schema, sql))) [
            | inl h ↦
                (let taken = sym same ∙ h in
                  rw h (
                    (
                      map-append db.rows _ ∙ ap (λ (l : List String). l ++ file.identity ∷ []) p.0,
                      grown,
                    ),
                    taken,
                  ))
            | inr h ↦ (let rejected = sym same ∙ h in rw h ((p.0, grown), rejected))
          ]);
  }

  pub Prefix-apply_all :
      (before : List String) (ran : List Statement) (pending : List (Migration × String))
      → Triple
          (At before ran)
          (apply_all setup false pending)
          (λ _ db.
            At (before ++ identities setup pending) (ran ++ map statement pending) db
            × Accepted ran (map statement pending))
          (λ _. Stopped before ran pending)
  unfolding apply_all
  Prefix-apply_all before ran [] =
      Triple-pure tt (λ db p. ((p.0 ∙ sym (append-nil _), p.1 ∙ sym (append-nil _)), tt))
  Prefix-apply_all before ran ((file, checksum) ∷ pending) =
      Triple-bind (λ _. At before ran) _ _
        (Triple-weaken (λ s p. p) (λ s a p. p)
          (λ s e p. unbegun before ran ((file, checksum) ∷ pending) s p)
          (Keeps-if (is_open (split_rollback file.text).0) (raise still_open) (pure tt)
            (Keeps-raise _) (Keeps-pure _)))
        λ _.
          Triple-bind
            (λ _ db.
              At (before ++ file.identity ∷ []) (ran ++ statement (file, checksum) ∷ []) db
              × (setup.accepts ran (statement (file, checksum)) ≡ true))
            _ _
            (Triple-weaken (λ s p. p) (λ s a p. p)
              (λ s e p. refused before ran (file, checksum) pending s p.0 p.1)
              (At-execute before ran file checksum _))
            λ _. record {
              holds = λ s p.
                  (Triple-weaken (λ t q. q)
                      (λ t a q. (
                        (
                          q.0.0 ∙ append_assoc before (file.identity ∷ []) _,
                          q.0.1 ∙ append_assoc ran (statement (file, checksum) ∷ []) _,
                        ),
                        (p.1, q.1),
                      ))
                      (λ t e q. longer before ran (file, checksum) pending (names t) t.ran p.1 q)
                      (Prefix-apply_all (before ++ file.identity ∷ [])
                        (ran ++ statement (file, checksum) ∷ []) pending)).holds
                    s p.0;
            }
