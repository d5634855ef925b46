-- ===== src/Deploy/Verdict.antt =====
-- The headline of the deploy: what the history is after any run.
use docker_development_envir.Common.{
  ℕ, true, List, [], ◌∷◌, ◌++◌, Option, none, String, ◌≡◌, refl, Result, ok, err, Post, Triple,
  modify, ◌>>=◌, ap, ◌∙◌, ◌⊎◌, inl, inr, suc, sym, subst,
}
use docker_development_envir.Common.Triples.{
  Keeps, keeps_rules, Keeps-lift, Keeps-gets, Triple-modify, Triple-bind, Triple-weaken,
  Triple-pure,
}
use docker_development_envir.Attempts.{Entry, Value}
use docker_development_envir.Deploy.{
  Failure, Action, Host, Deploying, Deploy, act, note, change_history,
}
use docker_development_envir.Deploy.History.{record_entry}
use docker_development_envir.Deploy.Stages.{ready, php_reload}
use docker_development_envir.Deploy.Machine.{
  Request, failed_entry, check_request, choose_release, build_release, back_up, fresh_entry,
  copy_release, provisional, locked_deploy,
}
use docker_development_envir.Attempts.Events.{history-event}
use docker_development_envir.Deploy.Recorded.{Running}
use docker_development_envir.Deploy.Final.{Completed, Interrupted, Reporting, Done-catch}

abbrev Untouched : List Entry → Deploying → Type 0
Untouched before s = s.release.history ≡ before

-- The history is as it was, and the entry to be written is a fresh one for the commit.
record Copied (before : List Entry) (commit : String) (history : List Entry) (entry : Entry)
    : Type 0 where
  history_is : history ≡ before
  entry_commit : entry.commit ≡ commit
  entry_failed : entry.failed ≡ none

abbrev IsCopied : List Entry → String → Deploying → Type 0
IsCopied before commit s = Copied before commit s.release.history s.entry

-- After a failure: nothing was recorded, or this run's entry was, completed where only a report failed, else
-- with the stage that failed.
abbrev pub Recorded : List Entry → Deploying → Type 0
Recorded before t =
    (t.release.history ≡ before)
    ⊎ ((commit : String) × ((Completed before commit t.release.history × Reporting t)
          ⊎ Interrupted before commit t.release.history))

module _ {before : List Entry} where
  Untouched-act :
      {A : Type 0} (a : Action) (r : Result Failure A) → Keeps (Untouched before) (act a r)
  unfolding act
  Untouched-act a (ok x) = record { holds = λ s p. p }
  Untouched-act a (err e) = record { holds = λ s p. p }

  Untouched-note :
      (now : ℕ → String) (id : Option String) (stage state : String)
      (fields : List (String × Value))
      → Keeps (Untouched before) (note now id stage state fields)
  unfolding note modify
  Untouched-note now id stage state fields = record {
    holds = λ s p. history-event now id stage state fields s.release ∙ p;
  }

  Untouched-waited :
      Keeps (Untouched before) (modify {E = Failure} (λ s. record s { waited = true }))
  Untouched-waited = Triple-modify _ (λ s p. p)

  Untouched-ready : (host : Host) → Keeps (Untouched before) (ready host)
  unfolding ready
  Untouched-ready host = search (keeps_rules, Untouched-act, Untouched-waited)

  Copied-act :
      {commit : String} {A : Type 0} (a : Action) (r : Result Failure A)
      → Keeps (IsCopied before commit) (act a r)
  unfolding act
  Copied-act a (ok x) = record { holds = λ s p. p }
  Copied-act a (err e) = record { holds = λ s p. p }

module _ {before : List Entry} (now : ℕ → String) (host : Host) (request : Request) where
  Untouched-build_release :
      (ref : String) → Keeps (Untouched before) (build_release now host request ref)
  unfolding build_release
  Untouched-build_release ref = search (keeps_rules, Untouched-act)

  Untouched-choose_release :
      (entries : List Entry) → Keeps (Untouched before) (choose_release now host request entries)
  unfolding choose_release
  Untouched-choose_release entries = search (keeps_rules, Untouched-build_release)

  Untouched-back_up : Keeps (Untouched before) (back_up now host request)
  unfolding back_up
  Untouched-back_up = search (keeps_rules, Untouched-act, Untouched-note, Untouched-ready)

  Copied-modify :
      (ref commit : String) (backup : Option String)
      → Triple
          (Untouched before)
          (modify {E = Failure} (λ s. record s {
            entry = fresh_entry now host request ref commit (now s.release.clock) backup;
            release = record s.release { clock = suc s.release.clock };
          }))
          (λ _. IsCopied before commit)
          (λ _. Untouched before)
  unfolding fresh_entry
  Copied-modify ref commit backup =
      Triple-modify _ (λ s p. record { history_is = p; entry_commit = refl; entry_failed = refl })

  Copied-copy_release :
      (entries : List Entry)
      → Triple
          (Untouched before)
          (copy_release now host request entries)
          (IsCopied before)
          (λ _. Untouched before)
  unfolding copy_release
  Copied-copy_release entries =
      Triple-bind (λ _. Untouched before) _ _ (Untouched-choose_release entries)
        λ (ref, commit).
          Triple-bind (λ _. Untouched before) _ _ (Keeps-lift host.trusted)
            λ _.
              Triple-bind (λ _. Untouched before) _ _
                (Untouched-act Action.list_modules host.modules_listed)
                λ _.
                  Triple-bind (λ _. Untouched before) _ _ Untouched-back_up
                    λ backup.
                      Triple-bind (λ _. IsCopied before commit) _ _
                        (Copied-modify ref commit backup)
                        λ _.
                          Triple-bind (λ _. IsCopied before commit) _ _
                            (Triple-weaken (λ s p. p) (λ s a p. p) (λ s e p. p.history_is)
                              (Copied-act Action.check_links host.links_checked))
                            λ _.
                              Triple-bind (λ _. IsCopied before commit) _ _
                                (Triple-weaken (λ s p. p) (λ s a p. p) (λ s e p. p.history_is)
                                  (Copied-act (Action.push commit) host.pushed))
                                λ _. Triple-pure commit (λ s p. p)

  Running-provisional :
      (commit : String)
      → Triple
          (IsCopied before commit)
          (provisional now host request)
          (λ _. Running before commit)
          (λ _. Untouched before)
  unfolding provisional change_history record_entry failed_entry ◌>>=◌
  Running-provisional commit = record {
    holds = λ s p. record {
      final = failed_entry "incomplete" true s.entry;
      history_is =
          ap (λ (l : List Entry). l ++ failed_entry "incomplete" true s.entry ∷ []) p.history_is;
      final_commit = p.entry_commit;
      entry_commit = p.entry_commit;
      entry_failed = p.entry_failed;
      stage_named = refl;
      stage_open = refl;
    };
  }

  early :
      {A : Type 0} {m : Deploy A} {Q : A → Deploying → Type 0}
      → Triple (Untouched before) m Q (λ _. Untouched before)
      → Triple (Untouched before) m Q (λ _. Recorded before)
  early t = Triple-weaken (λ s p. p) (λ s a p. p) (λ s e p. inl p) t

  Recorded-locked_deploy :
      Triple
        (Untouched before)
        (locked_deploy now host request)
        (λ c s. Completed before c s.release.history)
        (λ _. Recorded before)
  unfolding locked_deploy
  Recorded-locked_deploy =
      Triple-bind (λ _. Untouched before) _ _ (early (Keeps-lift (check_request request)))
        λ _.
          Triple-bind (λ _. Untouched before) _ _ (early (Keeps-lift host.prepared))
            λ _.
              Triple-bind (λ _. Untouched before) _ _ (early (Keeps-lift (php_reload host)))
                λ _.
                  Triple-bind (λ _. Untouched before) _ _
                    (early (Keeps-gets (λ s. s.release.history)))
                    λ entries.
                      Triple-bind (IsCopied before) _ _ (early (Copied-copy_release entries))
                        λ commit.
                          Triple-bind (λ _. Running before commit) _ _
                            (Triple-weaken (λ s p. p) (λ s a p. p) (λ s e p. inl p)
                              (Running-provisional commit))
                            λ _.
                              Triple-weaken (λ s p. p)
                                (λ s c p.
                                  subst (λ x. Completed before x s.release.history) (sym p.1) p.0.0)
                                (λ s e p. inr (commit, p)) (Done-catch now host request entries)

-- After a run that returns, the history is the old one and one completed entry for the commit that
-- is returned. After a run that raises, it is the old one, or the old one and one entry: a completed one
-- only where the step that began last is publish_release_info or report_traffic_classes, else one that
-- is marked as failed.
pub Recorded-deploy :
    (now : ℕ → String) (host : Host) (request : Request) (s : Deploying)
    → Post {E = Failure} {A = String}
        (λ c t. Completed s.release.history c t.release.history)
        (λ _. Recorded s.release.history)
        (locked_deploy now host request s)
Recorded-deploy now host request s = (Recorded-locked_deploy now host request).holds s refl
