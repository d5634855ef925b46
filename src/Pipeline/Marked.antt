-- ===== src/Pipeline/Marked.antt =====
-- The marker pipeline-run.json in the body of run_step: the run's own, or the one that it found.
use docker_development_envir.Common.{
  ℕ, Bool, string_eq, List, Option, none, some, String, ◌≡◌, refl, ◌⊎◌, inl, inr, Triple, modify,
  when, Option-cases,
}
use docker_development_envir.Common.Triples.{
  Keeps, Total-Keeps, keeps_rules, Triple-modify, Triple-bind, Triple-weaken, Triple-pure,
  Triple-option, Keeps-bind, Keeps-raise, Keeps-pure, Keeps-gets,
}
use docker_development_envir.Attempts.{Value, Entry}
use docker_development_envir.Attempts.Record.{Field}
use docker_development_envir.Pipeline.{
  Fault, Marker, MarkerFile, broken, readable, MakeCall, Tools, Stepping,
}
use docker_development_envir.Pipeline.Step.{
  event, update, run_make, make, mark, mark_images, unmark, repair, repair_from, repaired,
  settle_interrupted,
}
use docker_development_envir.Pipeline.Order.{Order, exited, auto_rollback}
use docker_development_envir.Pipeline.Body.{
  begin, plan, hold, refuse_newer, run_body, prepare, check_target, run_images, build_images,
  transfer_images, run_deploy, deploy_code, run_health, deploy_body,
}
use docker_development_envir.Pipeline.Stable.{
  Stable, Stable-event, Stable-update, Stable-run_make, Stable-make, Stable-checkout,
  Stable-refuse_tracked_target, Stable-auto_rollback,
}

-- A run that holds no marker has left the file as it was, or has removed it.
abbrev pub Held : Option MarkerFile → Option Marker → Option MarkerFile → Type 0
Held found none file = (file ≡ none) ⊎ (file ≡ found)
Held found (some own) file = Unit {0}

abbrev pub Marked : Option MarkerFile → Stepping → Type 0
Marked found s = Held found s.own_marker s.marker

-- The run holds no marker: the file is the one found, or none.
abbrev pub Unmarked : Option MarkerFile → Stepping → Type 0
Unmarked found s = (s.own_marker ≡ none) × ((s.marker ≡ none) ⊎ (s.marker ≡ found))

Held-removed : (found : Option MarkerFile) (own : Option Marker) → Held found own none
Held-removed found none = inl refl
Held-removed found (some own) = tt

module _ {found : Option MarkerFile} where
  pub Held-none :
      (own : Option Marker) (file : Option MarkerFile)
      → own ≡ none
      → (file ≡ none) ⊎ (file ≡ found)
      → Held found own file
  Held-none none file h p = p
  Held-none (some own) file h p = tt

  pub Stable-Marked : Stable (Marked found)
  Stable-Marked = record {
    keeps_release = λ s r p. p;
    keeps_made = λ s m p. p;
    movable = record { keeps_head = λ s c p. p; keeps_env_file = λ s e p. p };
  }

  pub Stable-Unmarked : Stable (Unmarked found)
  Stable-Unmarked = record {
    keeps_release = λ s r p. p;
    keeps_made = λ s m p. p;
    movable = record { keeps_head = λ s c p. p; keeps_env_file = λ s e p. p };
  }

  Marked-removed : Keeps {E = Fault} (Marked found) (modify (λ s. record s { marker = none }))
  Marked-removed = Triple-modify _ (λ s p. Held-removed found s.own_marker)

module _ {found : Option MarkerFile} (now : ℕ → String) (tools : Tools) where
  Marked-mark : (m : Marker) → Keeps (Marked found) (mark now tools m)
  unfolding mark
  Marked-mark m = Triple-modify _ (λ s p. tt)

  pub Unmarked-unmark : Triple (Marked found) (unmark now tools) (λ _. Unmarked found) (λ _ _. ⊥)
  unfolding unmark modify
  Unmarked-unmark = record {
    holds = λ s p. elim (Option-cases s.own_marker) [
      | inl h ↦ rw h (h, rw h at p)
      | inr (m, h) ↦ rw h (refl, inl refl)
    ];
  }

  Marked-unmark : Keeps (Marked found) (unmark now tools)
  Marked-unmark =
      Triple-weaken (λ s p. p) (λ s a p. Held-none s.own_marker s.marker p.0 p.1)
        (λ s e p. absurd p) Unmarked-unmark

  Marked-mark_images : Keeps (Marked found) (mark_images now tools)
  unfolding mark_images modify
  Marked-mark_images = record {
    holds = λ s p. elim (Option-cases s.own_marker) [ inl h ↦ rw h p | inr (m, h) ↦ rw h tt ];
  }

  Marked-event :
      (id : Option String) (stage state : String) (fields : List (String × Value))
      → Keeps (Marked found) (event now tools id stage state fields)
  Marked-event id stage state fields =
      Total-Keeps (Stable-event Stable-Marked now tools id stage state fields)

  Marked-update :
      (id : Option String) (fields : List Field) → Keeps (Marked found) (update now tools id fields)
  Marked-update id fields = Total-Keeps (Stable-update Stable-Marked now tools id fields)

  Marked-run_make : (call : MakeCall) → Keeps (Marked found) (run_make now tools call)
  Marked-run_make call = Total-Keeps (Stable-run_make Stable-Marked now tools call)

  ruleset marked_rules = (
    keeps_rules, Marked-event, Marked-update, Marked-run_make, Marked-mark, Marked-unmark,
    Marked-removed, Marked-mark_images,
  )

  Marked-settle_interrupted :
      (left : Option String) (grown : Bool)
      → Keeps (Marked found) (settle_interrupted now tools left grown)
  unfolding settle_interrupted
  Marked-settle_interrupted left grown = search marked_rules

  Marked-repaired :
      (head : String) (id : Option String) (left : Marker) (entries : List Entry) (grown : Bool)
      → Keeps (Marked found) (repaired now tools head id left entries grown)
  unfolding repaired
  Marked-repaired head id left entries grown =
      search (marked_rules, Marked-settle_interrupted, Stable-checkout Stable-Marked now tools)
        depth 9

  Marked-repair_from :
      (head : String) (id : Option String) (entries : List Entry) (file : MarkerFile)
      → Keeps (Marked found) (repair_from now tools head id entries file)
  unfolding repair_from
  Marked-repair_from head id entries broken = Keeps-raise _
  Marked-repair_from head id entries (readable left) = Marked-repaired head id left entries _

  Marked-repair :
      (head : String) (id : Option String) → Keeps (Marked found) (repair now tools head id)
  unfolding repair
  Marked-repair head id = Keeps-bind _ _ (Keeps-gets (λ s. s.marker)) λ file.
      Keeps-bind _ _ (Keeps-gets (λ s. s.release.history)) λ entries.
        Triple-option file (λ _. Keeps-pure head) (λ f _. Marked-repair_from head id entries f)

module _ {found : Option MarkerFile} (now : ℕ → String) (tools : Tools) (order : Order) where
  ruleset body_rules = (
    keeps_rules, Marked-event, Marked-update, Marked-run_make, Marked-mark, Marked-unmark,
    Marked-mark_images, Marked-repair, Stable-checkout, Stable-refuse_tracked_target, Stable-make,
    Stable-Marked,
  )

  Marked-begin : Keeps (Marked found) (begin now tools order)
  unfolding begin
  Marked-begin = search body_rules depth 9

  Marked-plan :
      (live : String) (entries : List Entry)
      → Keeps (Marked found) (plan now tools order live entries)
  unfolding plan
  Marked-plan live entries = search body_rules depth 12

  Marked-hold :
      (live : String) (entries : List Entry) (target : String)
      → Keeps (Marked found) (hold now tools order live entries target)
  unfolding hold
  Marked-hold live entries target = search body_rules

  Marked-prepare : Keeps (Marked found) (prepare now tools order)
  unfolding prepare
  Marked-prepare = search (keeps_rules, Marked-begin, Marked-plan, Marked-hold)

  Marked-run_images :
      (target : String) (images : Bool)
      → Keeps (Marked found) (run_images now tools order target images)
  unfolding run_images build_images transfer_images
  Marked-run_images target images = search body_rules depth 12

  Marked-run_deploy :
      (target : String) (checked : Bool)
      → Keeps (Marked found) (run_deploy now tools order target checked)
  unfolding run_deploy deploy_code
  Marked-run_deploy target checked = search body_rules depth 14

  Marked-auto_rollback : Keeps (Marked found) (auto_rollback now tools order)
  Marked-auto_rollback = Total-Keeps (Stable-auto_rollback Stable-Marked now tools order)

  Marked-run_health : (cron : Bool) → Keeps (Marked found) (run_health now tools order cron)
  unfolding run_health
  Marked-run_health cron = search (body_rules, Marked-auto_rollback) depth 12

  Marked-refuse_newer :
      (wanted : Option String) → Keeps (Marked found) (refuse_newer now tools order wanted)
  unfolding refuse_newer
  Marked-refuse_newer none = Keeps-pure tt
  Marked-refuse_newer (some version) = Keeps-raise _

  Marked-check_target :
      (target : String) → Keeps (Marked found) (check_target now tools order target)
  unfolding check_target
  Marked-check_target target = search (body_rules, Marked-refuse_newer) depth 14

  Marked-cron_reload :
      (reload : Bool) → Keeps (Marked found) (when reload (make now tools MakeCall.cron_reload))
  Marked-cron_reload reload = search body_rules

  Unmarked-unmark_body :
      Triple (Marked found) (unmark now tools) (λ _. Unmarked found) (λ _. Marked found)
  Unmarked-unmark_body =
      Triple-weaken (λ s p. p) (λ s a p. p) (λ s e p. absurd p) (Unmarked-unmark now tools)

  -- The body ends by removing the run's marker.
  Unmarked-deploy_body :
      Triple (Marked found) (deploy_body now tools order) (λ _. Unmarked found) (λ _. Marked found)
  unfolding deploy_body
  Unmarked-deploy_body =
      Triple-bind (λ _. Marked found) _ _ Marked-prepare
        λ (target, images, cron).
          Triple-bind (λ _. Marked found) _ _ (Marked-check_target target)
            λ checked.
              Triple-bind (λ _. Marked found) _ _ (Marked-run_images target images)
                λ _.
                  Triple-bind (λ _. Marked found) _ _ (Marked-run_deploy target checked)
                    λ _.
                      Triple-bind (λ _. Marked found) _ _ (Marked-run_health cron)
                        λ (status, reload).
                          Triple-bind (λ _. Marked found) _ _ (Marked-cron_reload reload)
                            λ _.
                              Triple-bind (λ _. Unmarked found) _ _ Unmarked-unmark_body
                                λ _. Triple-pure status (λ s p. p)

  pub Unmarked-run_body :
      Triple (Marked found) (run_body now tools order) (λ _. Unmarked found) (λ _. Marked found)
  unfolding run_body
  Unmarked-run_body =
      Triple-bind (λ _. Unmarked found) _ _ Unmarked-deploy_body
        (λ status. Triple-pure (exited status) (λ s p. p))
