-- ===== src/Pipeline/Stable.antt =====
-- Predicates on a run's state that its events, make steps and checkouts do not touch, and the parts of
-- a step that keep them.
use docker_development_envir.Common.{
  ◌++◌, [], ◌∷◌, ℕ, Bool, List, Option, none, some, String, raise, modify, when, not, ◌==◌, nat_eq,
}
use docker_development_envir.Common.Triples.{
  Keeps, Total, Total-Keeps, keeps_rules, total_rules, Triple-modify, Keeps-bind, Keeps-raise,
  Keeps-if, Triple-option,
}
use docker_development_envir.Attempts.{Value, Outcome, Release}
use docker_development_envir.Attempts.Record.{Field}
use docker_development_envir.Pipeline.{Settings, Fault, step_failed, MakeCall, Tools, Stepping}
use docker_development_envir.Pipeline.Step.{
  event, update, run_make, failure_reason, make, write_env, refuse_tracked_target, checkout,
}
use docker_development_envir.Pipeline.Order.{
  Order, settle, rollback_failed, roll_back_to, confirm_rollback, auto_rollback,
}
use docker_development_envir.Pipeline.Main.{restore, settle_failure, after_unmark}

-- Kept by a checkout.
pub record Movable (I : Stepping → Type 0) : Type 0 where
  pub keeps_head : (s : Stepping) (c : String) → I s → I (record s { head = c })
  pub keeps_env_file :
      (s : Stepping) (e : Option (String × Settings)) → I s → I (record s { env_file = e })

-- Kept by checkouts, make steps and the attempt's events.
pub record Stable (I : Stepping → Type 0) : Type 0 where
  pub keeps_release : (s : Stepping) (r : Release) → I s → I (record s { release = r })
  pub keeps_made :
      (s : Stepping) (call : MakeCall) → I s → I (record s { made = s.made ++ call ∷ [] })
  pub movable : Movable I

module _ {I : Stepping → Type 0} (movable : Movable I) (now : ℕ → String) (tools : Tools) where
  Movable-env_file :
      (e : Option (String × Settings))
      → Keeps {E = Fault} I (modify (λ s. record s { env_file = e }))
  Movable-env_file e = Triple-modify _ (λ s p. movable.keeps_env_file s e p)

  Movable-head : (c : String) → Keeps {E = Fault} I (modify (λ s. record s { head = c }))
  Movable-head c = Triple-modify _ (λ s p. movable.keeps_head s c p)

  pub Movable-write_env : (commit : String) → Keeps I (write_env now tools commit)
  unfolding write_env
  Movable-write_env commit = Keeps-if _ _ _ (Keeps-raise _) (
      Triple-option (tools.tree commit).example (λ _. Keeps-raise _)
        (λ example _. search (keeps_rules, Movable-env_file)))

  pub Movable-refuse_tracked_target :
      (commit : String) → Keeps I (refuse_tracked_target now tools commit)
  unfolding refuse_tracked_target
  Movable-refuse_tracked_target commit = search keeps_rules

  pub Movable-checkout : (commit : String) → Keeps I (checkout now tools commit)
  unfolding checkout
  Movable-checkout commit =
      search (keeps_rules, Movable-refuse_tracked_target, Movable-head, Movable-write_env)

module _ {I : Stepping → Type 0}
    (keeps_release : (s : Stepping) (r : Release) → I s → I (record s { release = r }))
    (now : ℕ → String) (tools : Tools) where
  pub Noted-event :
      (id : Option String) (stage state : String) (fields : List (String × Value))
      → Total I (event now tools id stage state fields)
  unfolding event
  Noted-event id stage state fields = Triple-modify _ (λ s p. keeps_release s _ p)

  pub Noted-update :
      (id : Option String) (fields : List Field) → Total I (update now tools id fields)
  unfolding update
  Noted-update id fields = Triple-modify _ (λ s p. keeps_release s _ p)

  pub Noted-settle :
      (order : Order) (outcome : Outcome) (reason : String)
      → Total I (settle now tools order outcome reason)
  unfolding settle
  Noted-settle order outcome reason = search (total_rules, Noted-event, Noted-update)

  pub Noted-settle_failure :
      (order : Order) (error : Fault) (reached : Bool) (reason : String)
      → Total I (settle_failure now tools order error reached reason)
  unfolding settle_failure
  Noted-settle_failure order error reached reason = search (total_rules, Noted-settle)

  pub Noted-after_unmark :
      (order : Order) (error : Fault) (reached : Bool) (reason : String) (tag : Option String)
      → Total I (after_unmark now tools order error reached reason tag)
  unfolding after_unmark
  Noted-after_unmark order error reached reason none = search (total_rules, Noted-settle_failure)
  Noted-after_unmark order error reached reason (some tag) = search (total_rules, Noted-event)

module _ {I : Stepping → Type 0} (stable : Stable I) (now : ℕ → String) (tools : Tools) where
  pub Stable-event :
      (id : Option String) (stage state : String) (fields : List (String × Value))
      → Total I (event now tools id stage state fields)
  Stable-event = Noted-event stable.keeps_release now tools

  pub Stable-update :
      (id : Option String) (fields : List Field) → Total I (update now tools id fields)
  Stable-update = Noted-update stable.keeps_release now tools

  pub Stable-run_make : (call : MakeCall) → Total I (run_make now tools call)
  unfolding run_make
  Stable-run_make call = record {
    holds = λ s p. stable.keeps_made _ _ (stable.keeps_release s _ p);
  }

  pub Stable-make : (call : MakeCall) → Keeps I (make now tools call)
  unfolding make
  Stable-make call =
      Keeps-bind (run_make now tools call)
        (λ status.
          when (not (status == 0)) (raise (step_failed (failure_reason now tools call) status)))
        (Total-Keeps (Stable-run_make call)) (λ status. search keeps_rules)

  pub Stable-refuse_tracked_target :
      (commit : String) → Keeps I (refuse_tracked_target now tools commit)
  Stable-refuse_tracked_target commit =
      Movable-refuse_tracked_target stable.movable now tools commit

  pub Stable-checkout : (commit : String) → Keeps I (checkout now tools commit)
  Stable-checkout commit = Movable-checkout stable.movable now tools commit

module _ {I : Stepping → Type 0} (stable : Stable I) (now : ℕ → String) (tools : Tools)
    (order : Order) where
  pub Stable-settle :
      (outcome : Outcome) (reason : String) → Total I (settle now tools order outcome reason)
  Stable-settle = Noted-settle stable.keeps_release now tools order

  Stable-rollback_failed : (reason : Value) → Total I (rollback_failed now tools order reason)
  unfolding rollback_failed
  Stable-rollback_failed reason =
      search (total_rules, Stable-event stable now tools, Stable-update stable now tools)

  Stable-roll_back_to : (to : String) → Keeps I (roll_back_to now tools order to)
  unfolding roll_back_to
  Stable-roll_back_to to =
      search (keeps_rules, Stable-checkout stable now tools, Stable-make stable now tools)

  Stable-confirm_rollback : (to : String) → Total I (confirm_rollback now tools order to)
  unfolding confirm_rollback
  Stable-confirm_rollback to = search (
    total_rules,
    Stable-event stable now tools,
    Stable-update stable now tools,
    Stable-run_make stable now tools,
  )

  pub Stable-auto_rollback : Total I (auto_rollback now tools order)
  unfolding auto_rollback
  Stable-auto_rollback =
      search (total_rules, Stable-rollback_failed, Stable-roll_back_to, Stable-confirm_rollback)

  pub Stable-restore : Total I (restore now tools order)
  unfolding restore
  Stable-restore = search (total_rules, Stable-checkout stable now tools)

  pub Stable-after_unmark :
      (error : Fault) (reached : Bool) (reason : String) (tag : Option String)
      → Total I (after_unmark now tools order error reached reason tag)
  Stable-after_unmark = Noted-after_unmark stable.keeps_release now tools order
