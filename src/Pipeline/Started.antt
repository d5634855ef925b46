-- ===== src/Pipeline/Started.antt =====
-- The body of run_step: where it fails, it had started the target's containers or code, or the build root
-- is held for restore.
use docker_development_envir.Common.{
  any, ◌||◌, ◌++◌, ◌∷◌, ◌∙◌, arith, if◌then◌else◌, ℕ, Bool, true, false, not, ◌==◌, nat_eq,
  string_eq, List, [], Option, none, String, ◌≡◌, refl, ◌⊎◌, inl, inr, Triple, raise, modify, when,
  Option-cases,
}
use docker_development_envir.Common.Triples.{
  Keeps, Total, Total-Keeps, keeps_rules, Triple-modify, Triple-bind, Triple-weaken, Triple-if,
  Triple-pure,
}
use docker_development_envir.Attempts.{Value, Release}
use docker_development_envir.Attempts.Record.{Field}
use docker_development_envir.Pipeline.{Fault, MakeCall, Tools, Stepping, Pipeline}
use docker_development_envir.Pipeline.Step.{
  same_host, event, update, run_make, make, mark_images, failure_reason,
}
use docker_development_envir.Pipeline.Order.{Order}
use docker_development_envir.Pipeline.{step_failed}
use docker_development_envir.Pipeline.Step.{unmark}
use docker_development_envir.Pipeline.Order.{exited, auto_rollback}
use docker_development_envir.Pipeline.Body.{
  run_images, build_images, transfer_images, run_deploy, deploy_code, run_health, deploy_body,
  run_body,
}
use docker_development_envir.Pipeline.Stable.{
  Stable, Stable-event, Stable-update, Stable-run_make, Stable-make, Stable-checkout,
  Stable-auto_rollback,
}
use docker_development_envir.Pipeline.Unstarted.{
  Home, Holding, Safe, Holding-prepare, Holding-check_target, Holding-event,
}

-- make deploy-images, which restarts the containers, or make deploy
abbrev pub is_start : MakeCall → Bool
is_start MakeCall.release_images = false
is_start (MakeCall.deploy_images transfer) = true
is_start (MakeCall.deploy ref backup cache attempt) = true
is_start (MakeCall.deploy_rollback cache attempt) = true
is_start (MakeCall.deploy_health attempt rollback) = false
is_start MakeCall.cron_reload = false

-- Such a make step was run.
abbrev pub Started : Stepping → Type 0
Started s = any is_start s.made ≡ true

any-append :
    (xs : List MakeCall) (call : MakeCall)
    → any is_start (xs ++ call ∷ []) ≡ (any is_start xs || is_start call)
any-append [] call = ground arith
any-append (x ∷ xs) call = ground (arith, any-append xs call)

-- What a failure of the body leaves.
abbrev pub Failed : String → Stepping → Type 0
Failed live s = Started s ⊎ Safe live s

pub Stable-Started : Stable Started
Stable-Started = record {
  keeps_release = λ s r p. p;
  keeps_made = λ s call p. any-append s.made call ∙ rw p refl;
  movable = record { keeps_head = λ s c p. p; keeps_env_file = λ s e p. p };
}

module _ (now : ℕ → String) (tools : Tools) where
  pub Started-unmark : Total Started (unmark now tools)
  unfolding unmark modify
  Started-unmark = record {
    holds = λ s p. elim (Option-cases s.own_marker) [ inl h ↦ rw h p | inr (m, h) ↦ rw h p ];
  }

  Started-event :
      (id : Option String) (stage state : String) (fields : List (String × Value))
      → Keeps Started (event now tools id stage state fields)
  Started-event id stage state fields =
      Total-Keeps (Stable-event Stable-Started now tools id stage state fields)

  Started-update :
      (id : Option String) (fields : List Field) → Keeps Started (update now tools id fields)
  Started-update id fields = Total-Keeps (Stable-update Stable-Started now tools id fields)

  Started-run_make : (call : MakeCall) → Keeps Started (run_make now tools call)
  Started-run_make call = Total-Keeps (Stable-run_make Stable-Started now tools call)

  begun-made :
      (s : Stepping) (call : MakeCall)
      → is_start call ≡ true
      → any is_start (s.made ++ call ∷ []) ≡ true
  begun-made s call h = any-append s.made call ∙ rw h (or_true (any is_start s.made))
    where
      or_true : (b : Bool) → (b || true) ≡ true
      or_true true = refl
      or_true false = refl

  Started-run :
      (call : MakeCall)
      → is_start call ≡ true
      → Triple (λ _. Unit {0}) (run_make now tools call) (λ _. Started) (λ _. Started)
  unfolding run_make
  Started-run call h = record { holds = λ s p. begun-made s call h }

  -- A step that starts: whether it succeeds or fails.
  Started-first :
      (call : MakeCall)
      → is_start call ≡ true
      → Triple (λ _. Unit {0}) (make now tools call) (λ _. Started) (λ _. Started)
  unfolding make
  Started-first call h =
      Triple-bind (λ _. Started) (run_make now tools call)
        (λ status.
          when (not (status == 0)) (raise (step_failed (failure_reason now tools call) status)))
        (Started-run call h) (λ status. search keeps_rules)

module _ (now : ℕ → String) (tools : Tools) (order : Order) where
  ruleset started_rules = (
    keeps_rules, Started-event, Started-update, Started-run_make, Stable-make, Stable-checkout,
    Stable-Started,
  )

  Started-auto_rollback : Keeps Started (auto_rollback now tools order)
  Started-auto_rollback = Total-Keeps (Stable-auto_rollback Stable-Started now tools order)

  Started-flags :
      Keeps {E = Fault} Started (modify (λ s. record s { restoring = false; deployed = true }))
  Started-flags = Triple-modify _ (λ s p. p)

  starts :
      (rollback : Bool) (a b : MakeCall)
      → is_start a ≡ true
      → is_start b ≡ true
      → is_start (if rollback then a else b) ≡ true
  starts true a b h k = h
  starts false a b h k = k

  Started-deploy_code :
      (target : String) (checked : Bool)
      → Triple
          (λ _. Unit {0})
          (deploy_code now tools order target checked)
          (λ _. Started)
          (λ _. Started)
  unfolding deploy_code
  Started-deploy_code target checked =
      Triple-bind (λ _. Started) _ _
        (Started-first now tools _ (starts order.switches.rollback _ _ refl refl))
        (λ _. search (started_rules, Started-flags) depth 14)

  Started-run_deploy :
      (target : String) (checked : Bool)
      → Triple
          (λ _. Unit {0})
          (run_deploy now tools order target checked)
          (λ _. Started)
          (λ _. Started)
  unfolding run_deploy
  Started-run_deploy target checked =
      Triple-bind (λ _ _. Unit {0}) _ _ (Triple-modify _ (λ s p. tt))
        (λ _. Started-deploy_code target checked)

  Started-run_health : (cron : Bool) → Keeps Started (run_health now tools order cron)
  unfolding run_health
  Started-run_health cron = search (started_rules, Started-auto_rollback) depth 12

  any_mark_images : Triple (λ _. Unit {0}) (mark_images now tools) (λ _ _. Unit {0}) (λ _. Started)
  unfolding mark_images modify
  any_mark_images = record { holds = λ s p. tt }

  Started-transfer_images :
      (target : String)
      → Triple
          (λ _. Unit {0})
          (transfer_images now tools order target)
          (λ _. Started)
          (λ _. Started)
  unfolding transfer_images
  Started-transfer_images target =
      Triple-bind (λ _ _. Unit {0}) _ _ any_mark_images
        λ _.
          Triple-bind (λ _. Started) _ _
            (Started-first now tools (MakeCall.deploy_images (same_host (tools.tree target))) refl)
            (λ _. Started-event now tools order.attempt "images" "ok" [])

  Started-cron_reload :
      (reload : Bool) → Keeps Started (when reload (make now tools MakeCall.cron_reload))
  Started-cron_reload reload = search started_rules

-- make release leaves the deploy history alone.
module _ (now : ℕ → String) (tools : Tools) (order : Order) {live : String}
    (keeps_history : (r : Release)
      → (tools.make MakeCall.release_images r).1.history ≡ r.history) where
  Holding-run_make : Keeps (Holding live) (run_make now tools MakeCall.release_images)
  unfolding run_make
  Holding-run_make = record {
    holds = λ s p. (
      record {
        live_is = p.0.live_is;
        deployed_is = p.0.deployed_is;
        images_is = p.0.images_is;
        unreached = rw (keeps_history s.release) p.0.unreached;
      },
      p.1,
    );
  }

  Holding-make : Keeps (Holding live) (make now tools MakeCall.release_images)
  unfolding make
  Holding-make =
      Triple-bind (λ _. Holding live) (run_make now tools MakeCall.release_images)
        (λ status.
          when (not (status == 0))
            (raise (step_failed (failure_reason now tools MakeCall.release_images) status)))
        Holding-run_make (λ status. search keeps_rules)

  Failed-build_images :
      (target : String)
      → Triple
          (Holding live)
          (build_images now tools order target)
          (λ _ _. Unit {0})
          (λ _. Failed live)
  unfolding build_images
  Failed-build_images target =
      Triple-bind (λ _. Holding live) _ _
        (Triple-weaken (λ s p. p) (λ s a p. p) (λ s e p. inr (p.0, inl p.1)) Holding-make)
        λ _.
          Triple-bind (λ _ _. Unit {0}) _ _
            (Triple-modify (λ s. record s { images = true }) (λ s p. tt))
            λ _.
              Triple-weaken (λ s p. p) (λ s a p. tt) (λ s e p. inl p)
                (Started-transfer_images now tools order target)

  Failed-run_images :
      (target : String) (images : Bool)
      → Triple
          (Holding live)
          (run_images now tools order target images)
          (λ _ _. Unit {0})
          (λ _. Failed live)
  unfolding run_images
  Failed-run_images target images =
      Triple-if images _ _ (λ _. Failed-build_images target)
        (λ _.
          Triple-weaken (λ s p. p) (λ s a p. tt) (λ s e p. inr (p.0, inl p.1))
            (Holding-event now tools order.attempt "images" "skipped" []))

  started :
      {A : Type 0} {P : Stepping → Type 0} {m : Pipeline A}
      → Triple P m (λ _. Started) (λ _. Started)
      → Triple P m (λ _. Started) (λ _. Failed live)
  started t = Triple-weaken (λ s p. p) (λ s a p. p) (λ s e p. inl p) t

  Failed-deploy_body :
      Triple
        (λ s. Home live s × (s.marker ≡ none))
        (deploy_body now tools order)
        (λ _. Started)
        (λ _. Failed live)
  unfolding deploy_body
  Failed-deploy_body =
      Triple-bind (λ _. Holding live) _ _
        (Triple-weaken (λ s p. p) (λ s a p. p) (λ s e p. inr p) (Holding-prepare now tools order))
        λ (target, images, cron).
          Triple-bind (λ _. Holding live) _ _
            (Triple-weaken (λ s p. p) (λ s a p. p) (λ s e p. inr (p.0, inl p.1))
              (Holding-check_target now tools order target))
            λ checked.
              Triple-bind (λ _ _. Unit {0}) _ _ (Failed-run_images target images)
                λ _.
                  Triple-bind (λ _. Started) _ _
                    (started (Started-run_deploy now tools order target checked))
                    λ _.
                      Triple-bind (λ _. Started) _ _
                        (started (Started-run_health now tools order cron))
                        λ (status, reload).
                          Triple-bind (λ _. Started) _ _
                            (started (Started-cron_reload now tools order reload))
                            λ _.
                              Triple-bind (λ _. Started) _ _
                                (started (Total-Keeps (Started-unmark now tools)))
                                λ _. Triple-pure status (λ s p. p)

  pub Failed-run_body :
      Triple
        (λ s. Home live s × (s.marker ≡ none))
        (run_body now tools order)
        (λ _. Started)
        (λ _. Failed live)
  unfolding run_body
  Failed-run_body =
      Triple-bind (λ _. Started) _ _ Failed-deploy_body
        (λ status. Triple-pure (exited status) (λ s p. p))
