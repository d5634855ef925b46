-- ===== src/Pipeline/Handled.antt =====
-- A run that restarted containers or began a deploy stays such a run in its handler.
use docker_development_envir.Common.{ℕ, Bool, nat_eq, string_eq, String}
use docker_development_envir.Common.Triples.{Total}
use docker_development_envir.Pipeline.{Fault, Tools}
use docker_development_envir.Pipeline.Order.{Order}
use docker_development_envir.Common.Triples.{total_rules}
use docker_development_envir.Pipeline.Main.{
  restore_held, end_deployed, end_rolled_back, end_failed, unmark_exit, handle_failure, answer,
}
use docker_development_envir.Pipeline.Stable.{
  Stable-auto_rollback, Stable-after_unmark, Stable-restore,
}
use docker_development_envir.Pipeline.Started.{Started, Stable-Started, Started-unmark}

module _ (now : ℕ → String) (tools : Tools) (order : Order) where
  -- A started run stays started in its handler.
  Started-unmark_exit : (status : ℕ) → Total Started (unmark_exit now tools order status)
  unfolding unmark_exit
  Started-unmark_exit status = search (total_rules, Started-unmark)

  Started-end_deployed : (error : Fault) → Total Started (end_deployed now tools order error)
  unfolding end_deployed
  Started-end_deployed error = search (total_rules, Started-unmark_exit)

  Started-end_rolled_back :
      (error : Fault) (reason : String)
      → Total Started (end_rolled_back now tools order error reason)
  unfolding end_rolled_back
  Started-end_rolled_back error reason =
      search (total_rules, Stable-auto_rollback, Stable-Started, Started-unmark_exit)

  Started-restore_held : Total Started (restore_held now tools order)
  unfolding restore_held
  Started-restore_held = search (total_rules, Stable-restore, Stable-Started)

  Started-end_failed :
      (error : Fault) (reached : Bool) (reason : String)
      → Total Started (end_failed now tools order error reached reason)
  unfolding end_failed
  Started-end_failed error reached reason =
      search
        (total_rules, Started-restore_held, Started-unmark, Stable-after_unmark, Stable-Started)

  pub Started-handle_failure :
      (error : Fault) → Total Started (handle_failure now tools order error)
  unfolding handle_failure answer
  Started-handle_failure error =
      search (total_rules, Started-end_deployed, Started-end_rolled_back, Started-end_failed) depth
        9
