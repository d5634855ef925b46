-- ===== src/Migrations/Applied.antt =====
-- What make db-migrate and make db-rollback leave in setup_migrations, also where a statement fails.
use docker_development_envir.Common.{
  true, false, string_eq, List, [], ◌∷◌, ◌++◌, String, ◌≡◌, refl, sym, subst, ◌∙◌, ap, inl, inr,
  Post, Triple, pure, raise, ◌>>◌, map, contains, append_assoc, arith, beq_self, Bool-cases,
}
use docker_development_envir.Common.Triples.{
  Triple-bind, Triple-if, Triple-gets, Triple-pure, Triple-raise,
}
use docker_development_envir.Common.Members.{contains-append}
use docker_development_envir.Migrations.{Lines, Migration, Row, pending_of, names_of}
use docker_development_envir.Migrations.Run.{
  Database, Setup, migrations_off, require_enabled, apply_all, identities, migrate,
}
use docker_development_envir.Migrations.Prefixes.{
  names, statement, Accepted, Prefix, At, Stopped, unbegun, Prefix-apply_all,
}

module _ (setup : Setup) where
  abbrev Applied : Database → List String → Database → Type 0
  Applied db applied t =
      (applied ≡ identities setup (pending_of setup.digest setup.files db.rows))
      × (names t ≡ names db ++ applied)
      × (t.ran ≡ db.ran ++ map statement (pending_of setup.digest setup.files db.rows))
      × Accepted setup db.ran (map statement (pending_of setup.digest setup.files db.rows))

  Applied-migrate :
      (db : Database)
      → Triple
          (λ s. s ≡ db)
          (migrate setup false)
          (Applied db)
          (λ _. Stopped setup (names db) db.ran (pending_of setup.digest setup.files db.rows))
  unfolding migrate require_enabled
  Applied-migrate db =
      let pending = pending_of setup.digest setup.files db.rows in
      Triple-bind (λ _ s. s ≡ db) _ _
        (Triple-if setup.enabled (pure tt) (raise migrations_off) (λ _. Triple-pure tt (λ s p. p))
          (λ _. Triple-raise migrations_off (λ s p.
            unbegun setup (names db) db.ran pending s
              (ap names p, ap (λ (t : Database). t.ran) p))))
        λ _.
          Triple-bind (λ found s. (found ≡ db.rows) × At (names db) db.ran s) _
            (λ found.
              apply_all setup false (pending_of setup.digest setup.files found)
              >> pure (identities setup (pending_of setup.digest setup.files found)))
            (Triple-gets (λ (s : Database). s.rows)
              (λ s p.
                (ap (λ (t : Database). t.rows) p, (ap names p, ap (λ (t : Database). t.ran) p))))
            λ found. record {
              holds = λ s p.
                  subst
                    (λ (r : List Row).
                      Post (Applied db) (λ _. Stopped setup (names db) db.ran pending)
                        ((apply_all setup false (pending_of setup.digest setup.files r)
                            >> pure (identities setup (pending_of setup.digest setup.files r)))
                          s))
                    (sym p.0)
                    ((Triple-bind _ _ _ (Prefix-apply_all setup (names db) db.ran pending) (λ _.
                        Triple-pure (identities setup pending)
                          (λ _ q. (refl, q.0.0, q.0.1, q.1)))).holds
                      s p.1);
            }

-- make db-migrate that returns has run exactly the pending migrations, each file's SQL up to its rollback
-- section in the file's schema, none of which the database refused, and recorded them, both in their order, and
-- returns them. One that raises has run, without a refusal, and recorded some of them from the front, in their
-- order, and of the others at most tried the statement of the next one, which was refused and is not recorded.
pub Prefix-migrate :
    (setup : Setup) (db : Database)
    → Post
        (λ applied t.
          (applied ≡ identities setup (pending_of setup.digest setup.files db.rows))
          × (names_of setup.digest t.rows ≡ names_of setup.digest db.rows ++ applied)
          × (t.ran ≡ db.ran ++ map statement (pending_of setup.digest setup.files db.rows))
          × Accepted setup db.ran (map statement (pending_of setup.digest setup.files db.rows)))
        (λ _ t.
          Prefix setup
            (names_of setup.digest db.rows)
            db.ran
            (pending_of setup.digest setup.files db.rows)
            (names_of setup.digest t.rows)
            t.ran)
        (migrate setup false db)
Prefix-migrate setup db = (Applied-migrate setup db).holds db refl

listed : (a : String) (xs ys : List String) → contains a (xs ++ a ∷ ys) ≡ true
listed a [] ys = rw (beq_self a) refl
listed a (x ∷ xs) ys = ground (arith, listed a xs ys)

module _ (digest : Lines → String) where
  none_pending :
      (files : List Migration) (rows after : List Row) (done : List String)
      → names_of digest after
        ≡ names_of digest rows
          ++ (done
              ++ map
                  (λ (item : Migration × String). item.0.identity)
                  (pending_of digest files rows))
      → pending_of digest files after ≡ []
  unfolding pending_of
  none_pending [] rows after done h = refl
  none_pending (file ∷ files) rows after done h =
      elim (Bool-cases (contains file.identity (names_of digest rows))) [
        | inl k ↦
            (let inside : contains file.identity (names_of digest after) ≡ true =
                ap (contains file.identity) h
                ∙ contains-append file.identity (names_of digest rows) _
                ∙ rw k refl in
              rw inside (none_pending files rows after done (rw k at h)))
        | inr k ↦
            (let grown : names_of digest after
                  ≡ names_of digest rows
                    ++ (done
                        ++ file.identity
                          ∷ map (λ (item : Migration × String). item.0.identity)
                              (pending_of digest files rows)) =
                rw k at h in
              let inside : contains file.identity (names_of digest after) ≡ true =
                ap (contains file.identity) grown
                ∙ contains-append file.identity (names_of digest rows) _
                ∙ rw k (listed file.identity done _) in
              rw inside (
                none_pending files rows after (done ++ file.identity ∷ []) (
                  grown
                  ∙ ap (◌++◌ (names_of digest rows))
                      (sym (append_assoc done (file.identity ∷ []) _)))))
      ]

-- After a db-migrate that applied all pending migrations nothing is pending.
pub pending_of-applied :
    (digest : Lines → String) (files : List Migration) (rows after : List Row)
    → names_of digest after
      ≡ names_of digest rows
        ++ map (λ (item : Migration × String). item.0.identity) (pending_of digest files rows)
    → pending_of digest files after ≡ []
pending_of-applied digest files rows after h = none_pending digest files rows after [] h
