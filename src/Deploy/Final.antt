-- ===== src/Deploy/Final.antt =====
-- What a deploy leaves in the history, on every path.
use docker_development_envir.Common.{
  ℕ, Bool, true, false, not, ◌==◌, string_eq, List, [], ◌∷◌, ◌++◌, Option, String, ◌≡◌, refl,
  Result, ok, err, Run, Triple, init-concat, last?, last?-concat, some, modify, ◌>>=◌, ap, ◌∙◌, inl,
  inr, catch, when, is_some, ◌⊎◌,
}
use docker_development_envir.Common.Triples.{
  Keeps, Triple-modify, Triple-bind, Triple-weaken, Triple-pure, Triple-catch,
}
use docker_development_envir.Attempts.{Entry, is_failed}
use docker_development_envir.Deploy.{
  Failure, Action, Host, Deploying, act, at_stage, change_history,
}
use docker_development_envir.Deploy.History.{replace_last}
use docker_development_envir.Deploy.Stages.{save_entry, run_completed, finish_deploy}
use docker_development_envir.Deploy.Machine.{
  Request, failed_entry, events_of, remove_stale, after_copy, record_failure,
}
use docker_development_envir.Deploy.Recorded.{
  Running, Running-act, Running-at_stage, Running-save_entry,
}
use docker_development_envir.Deploy.Kept.{
  running_rules, Running-run_hook, Running-run_modules, Running-run_migrations,
  Running-run_translations, Running-run_schema, Running-run_cache, Running-run_reload,
}

-- The history is `before` and a completed entry for the commit.
pub record Completed (before : List Entry) (commit : String) (history : List Entry) : Type 0 where
  pub final : Entry
  pub history_is : history ≡ before ++ final ∷ []
  pub final_commit : final.commit ≡ commit
  pub final_failed : is_failed final ≡ false

-- The history is `before` and an entry for the commit that names the stage of a failure.
pub record Interrupted (before : List Entry) (commit : String) (history : List Entry) : Type 0 where
  pub final : Entry
  pub history_is : history ≡ before ++ final ∷ []
  pub final_commit : final.commit ≡ commit
  pub final_failed : is_failed final ≡ true

abbrev Done : List Entry → String → Deploying → Type 0
Done before commit s = Completed before commit s.release.history × (s.stage ≡ "completed")

-- The step that began last only reports: publish_release_info or report_traffic_classes.
abbrev pub Reporting : Deploying → Type 0
Reporting s = (last? s.trace ≡ some Action.publish) ⊎ (last? s.trace ≡ some Action.report_traffic)

-- A failure after the copy: of a running deploy, or of a report that follows a completed one.
abbrev Stopped : List Entry → String → Deploying → Type 0
Stopped before commit s = Running before commit s ⊎ (Done before commit s × Reporting s)

module _ {before : List Entry} {commit : String} where
  Done-publish :
      {A : Type 0} (r : Result Failure A)
      → Triple
          (Done before commit)
          (act Action.publish r)
          (λ _. Done before commit)
          (λ _. Stopped before commit)
  unfolding act
  Done-publish (ok x) = record { holds = λ s p. p }
  Done-publish (err e) = record {
    holds = λ s p. inr (p, inl (last?-concat s.trace Action.publish));
  }

  Done-report :
      {A : Type 0} (r : Result Failure A)
      → Triple
          (Done before commit)
          (act Action.report_traffic r)
          (λ _. Done before commit)
          (λ _. Stopped before commit)
  unfolding act
  Done-report (ok x) = record { holds = λ s p. p }
  Done-report (err e) = record {
    holds = λ s p. inr (p, inr (last?-concat s.trace Action.report_traffic));
  }

  Done-save_entry :
      Triple
        (Running before commit)
        (save_entry (λ e. e))
        (λ _ s. Completed before commit s.release.history)
        (λ _. Stopped before commit)
  unfolding save_entry change_history replace_last ◌>>=◌
  Done-save_entry = record {
    holds = λ s p. record {
      final = s.entry;
      history_is =
          rw p.history_is (ap (λ (l : List Entry). l ++ s.entry ∷ []) (init-concat before p.final));
      final_commit = p.entry_commit;
      final_failed = rw p.entry_failed;
    };
  }

  Done-at_stage :
      Triple
        (λ s. Completed before commit s.release.history)
        (at_stage "completed")
        (λ _. Done before commit)
        (λ _. Stopped before commit)
  unfolding at_stage modify
  Done-at_stage = record { holds = λ s p. (p, refl) }

  -- A step of a running deploy, where what follows ends the deploy.
  Running-then :
      {A B : Type 0} (m : Run Failure Deploying A) (f : A → Run Failure Deploying B)
      {Q : B → Deploying → Type 0}
      → Keeps (Running before commit) m
      → ((a : A) → Triple (Running before commit) (f a) Q (λ _. Stopped before commit))
      → Triple (Running before commit) (m >>= f) Q (λ _. Stopped before commit)
  Running-then m f k next =
      Triple-bind (λ _. Running before commit) m f
        (Triple-weaken (λ s p. p) (λ s a p. p) (λ s e p. inl p) k) next

module _ {before : List Entry} {commit : String} (now : ℕ → String) (host : Host)
    (events : Option String) where
  -- After the last save the entry is completed, whatever the reports do.
  Done-run_completed :
      Triple
        (Running before commit)
        (run_completed now host events)
        (λ _. Done before commit)
        (λ _. Stopped before commit)
  unfolding run_completed
  Done-run_completed =
      Triple-bind (λ _ s. Completed before commit s.release.history) _ _ Done-save_entry
        λ _.
          Triple-bind (λ _. Done before commit) _ _ Done-at_stage
            λ _.
              Triple-bind (λ _. Done before commit) _ _ (Done-publish host.published)
                λ _. Done-report host.traffic_reported

  Done-finish_deploy :
      (entries : List Entry) (rollback : Bool) (cache : String)
      → Triple
          (Running before commit)
          (finish_deploy now host events entries commit rollback cache)
          (λ c s. Done before commit s × (c ≡ commit))
          (λ _. Stopped before commit)
  unfolding finish_deploy
  Done-finish_deploy entries rollback cache =
      Running-then _ _ (Running-act Action.sync_environment host.synced) λ _.
        Running-then _ _ (Running-run_hook now host events) λ _.
          Running-then _ _ (Running-run_modules now host events) λ _.
            Running-then _ _ (Running-run_migrations now host events) λ _.
              Running-then _ _ (Running-run_translations now host events) λ _.
                Running-then _ _ (Running-run_schema now host events) λ _.
                  Running-then _ _ (Running-run_cache now host events entries rollback cache) λ _.
                    Running-then _ _ (Running-run_reload now host events) λ _.
                      Triple-bind (λ _. Done before commit) _ _ Done-run_completed
                        λ _. Triple-pure commit (λ s p. (p, refl))

failed_entry-is_failed :
    (stage : String) (pending : Bool) (e : Entry)
    → (stage == "") ≡ false
    → (is_failed (failed_entry stage pending e) ≡ true)
      × ((failed_entry stage pending e).commit ≡ e.commit)
unfolding failed_entry
failed_entry-is_failed stage true e named = (rw named, refl)
failed_entry-is_failed stage false e named = (rw named, refl)

module _ {before : List Entry} {commit : String} (now : ℕ → String) (host : Host)
    (request : Request) where
  Running-save_failed :
      (stage : String) (pending : Bool)
      → Keeps (Running before commit) (save_entry (failed_entry stage pending))
  unfolding failed_entry
  Running-save_failed stage true = Running-save_entry _ (λ e. refl)
  Running-save_failed stage false = Running-save_entry _ (λ e. refl)

  Running-manifest :
      (missing : Bool)
      → Keeps
          (Running before commit)
          (when missing (act Action.write_manifest host.manifest_written))
  Running-manifest missing = search running_rules

  Running-settled :
      Keeps (Running before commit) (modify {E = Failure} (λ s. record s { pending = false }))
  Running-settled = Triple-modify _ (λ s p. p)

  Running-remove_stale :
      (entries : List Entry)
      → Keeps (Running before commit) (remove_stale now host request entries commit)
  unfolding remove_stale
  Running-remove_stale entries =
      search
        (running_rules, Running-save_failed, Running-settled, Running-at_stage "removals" refl refl)
        depth 9

  Done-after_copy :
      (entries : List Entry)
      → Triple
          (Running before commit)
          (after_copy now host request entries commit)
          (λ c s. Done before commit s × (c ≡ commit))
          (λ _. Stopped before commit)
  unfolding after_copy
  Done-after_copy entries =
      Running-then _ _ (Running-act Action.push_protected host.protected_pushed) λ _.
        Running-then _ _ (Running-at_stage "manifest" refl refl) λ _.
          Running-then _ _ (Running-manifest (not (is_some (host.manifest commit)))) λ _.
            Running-then _ _ (Running-remove_stale entries) λ _.
              Running-then _ _ (Running-at_stage "environment" refl refl) λ _.
                Done-finish_deploy now host (events_of request) entries request.rollback
                  request.cache

  Running-Interrupted :
      (s : Deploying)
      → Running before commit s
      → Interrupted before commit
          (replace_last (failed_entry s.stage s.pending s.entry) s.release.history)
  unfolding replace_last
  Running-Interrupted s p =
      let named = failed_entry-is_failed s.stage s.pending s.entry p.stage_named in
      let e = failed_entry s.stage s.pending s.entry in
      record {
        final = e;
        history_is =
            rw p.history_is (ap (λ (l : List Entry). l ++ e ∷ []) (init-concat before p.final));
        final_commit = named.1 ∙ p.entry_commit;
        final_failed = named.0;
      }

  -- The handler leaves a completed entry alone, and names the stage in any other.
  Stopped-record_failure :
      (e : Failure)
      → Triple
          (Stopped before commit)
          (record_failure now host request e)
          (λ _ _. ⊥)
          (λ _ s.
            (Completed before commit s.release.history × Reporting s)
            ⊎ Interrupted before commit s.release.history)
  unfolding record_failure save_entry change_history ◌>>=◌
  Stopped-record_failure e = record {
    holds = λ s p. elim p [
      | inl running ↦ rw running.stage_open (inr (Running-Interrupted s running))
      | inr done ↦ rw done.0.1 (inl (done.0.0, done.1))
    ];
  }

  pub Done-catch :
      (entries : List Entry)
      → Triple
          (Running before commit)
          (catch (after_copy now host request entries commit) (record_failure now host request))
          (λ c s. Done before commit s × (c ≡ commit))
          (λ _ s.
            (Completed before commit s.release.history × Reporting s)
            ⊎ Interrupted before commit s.release.history)
  Done-catch entries =
      Triple-catch (λ _. Stopped before commit) _ _ (Done-after_copy entries)
        λ e. Triple-weaken (λ s p. p) (λ s a p. absurd p) (λ s e p. p) (Stopped-record_failure e)
