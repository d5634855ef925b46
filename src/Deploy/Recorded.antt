-- ===== src/Deploy/Recorded.antt =====
-- The invariant of a deploy between its copy and its completed entry, and the rules that keep it.
use docker_development_envir.Common.{
  ℕ, false, ◌==◌, string_eq, List, [], ◌∷◌, ◌++◌, Option, none, String, ◌≡◌, Result, ok, err,
  init-concat, modify, ◌>>=◌, ap, ◌∙◌,
}
use docker_development_envir.Common.Triples.{Keeps}
use docker_development_envir.Attempts.{Entry, Value}
use docker_development_envir.Attempts.Events.{history-event}
use docker_development_envir.Deploy.{
  Failure, Action, Deploying, act, at_stage, change_entry, change_history, note,
}
use docker_development_envir.Deploy.History.{replace_last}
use docker_development_envir.Deploy.Stages.{save_entry}

-- The history is `before` and one entry of this run; the entry being filled names the commit that
-- was copied and no failure; the running stage has a name, and is not the last.
pub record Owned (before : List Entry) (commit : String) (history : List Entry) (entry : Entry)
    (stage : String) : Type 0 where
  pub final : Entry
  pub history_is : history ≡ before ++ final ∷ []
  pub final_commit : final.commit ≡ commit
  pub entry_commit : entry.commit ≡ commit
  pub entry_failed : entry.failed ≡ none
  pub stage_named : (stage == "") ≡ false
  pub stage_open : (stage == "completed") ≡ false

abbrev pub Running : List Entry → String → Deploying → Type 0
Running before commit s = Owned before commit s.release.history s.entry s.stage

module _ {before : List Entry} {commit : String} where
  pub Running-act :
      {A : Type 0} (a : Action) (r : Result Failure A) → Keeps (Running before commit) (act a r)
  unfolding act
  Running-act a (ok x) = record { holds = λ s p. p }
  Running-act a (err e) = record { holds = λ s p. p }

  pub Running-at_stage :
      (name : String)
      → (name == "") ≡ false
      → (name == "completed") ≡ false
      → Keeps (Running before commit) (at_stage name)
  unfolding at_stage modify
  Running-at_stage name named open_ = record {
    holds = λ s p. record {
      final = p.final;
      history_is = p.history_is;
      final_commit = p.final_commit;
      entry_commit = p.entry_commit;
      entry_failed = p.entry_failed;
      stage_named = named;
      stage_open = open_;
    };
  }

  pub Running-change_entry :
      (f : Entry → Entry)
      → ((e : Entry) → (f e).commit ≡ e.commit)
      → ((e : Entry) → (f e).failed ≡ e.failed)
      → Keeps (Running before commit) (change_entry f)
  unfolding change_entry modify
  Running-change_entry f same_commit same_failed = record {
    holds = λ s p. record {
      final = p.final;
      history_is = p.history_is;
      final_commit = p.final_commit;
      entry_commit = same_commit s.entry ∙ p.entry_commit;
      entry_failed = same_failed s.entry ∙ p.entry_failed;
      stage_named = p.stage_named;
      stage_open = p.stage_open;
    };
  }

  pub Running-note :
      (now : ℕ → String) (id : Option String) (stage state : String)
      (fields : List (String × Value))
      → Keeps (Running before commit) (note now id stage state fields)
  unfolding note modify
  Running-note now id stage state fields = record {
    holds = λ s p. rw (history-event now id stage state fields s.release) p;
  }

  pub Running-save_entry :
      (f : Entry → Entry)
      → ((e : Entry) → (f e).commit ≡ e.commit)
      → Keeps (Running before commit) (save_entry f)
  unfolding save_entry change_history replace_last ◌>>=◌
  Running-save_entry f same_commit = record {
    holds = λ s p. record {
      final = f s.entry;
      history_is =
          rw p.history_is
            (ap (λ (l : List Entry). l ++ f s.entry ∷ []) (init-concat before p.final));
      final_commit = same_commit s.entry ∙ p.entry_commit;
      entry_commit = p.entry_commit;
      entry_failed = p.entry_failed;
      stage_named = p.stage_named;
      stage_open = p.stage_open;
    };
  }
