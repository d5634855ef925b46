-- ===== src/Pipeline/Unstarted.antt =====
-- What is true of a step's state while no containers were restarted and no deploy was begun.
use docker_development_envir.Common.{
  ℕ, Bool, true, false, string_eq, List, Option, none, some, String, ◌≡◌, refl, ◌⊎◌, inr, Triple,
  pure, gets, modify, ◌>>=◌, length, ltb, arith,
}
use docker_development_envir.Common.Triples.{
  Keeps, keeps_rules, Triple-modify, Triple-bind, Triple-weaken, Triple-pure, Keeps-pure,
  Keeps-raise,
}
use docker_development_envir.Attempts.{Value, Entry, Release}
use docker_development_envir.Attempts.Record.{Field}
use docker_development_envir.Attempts.Events.{history-event, history-update}
use docker_development_envir.Pipeline.{Fault, Tools, Stepping, Pipeline}
use docker_development_envir.Pipeline.Step.{event, update, mark, repair, refuse_tracked_target}
use docker_development_envir.Pipeline.Stable.{Movable, Movable-checkout}
use docker_development_envir.Pipeline.Order.{Order, has_reached}
use docker_development_envir.Pipeline.Body.{begin, plan, hold, prepare, refuse_newer, check_target}

-- The run began at `live`; it recorded no deploy that is new.
pub record Begun (live : String) (s : Stepping) : Type 0 where
  pub live_is : s.live ≡ live
  pub deployed_is : s.deployed ≡ false
  pub images_is : s.images ≡ false
  pub unreached : has_reached s.entries s.release.history ≡ false

-- The build root still stands at `live`.
abbrev pub Home : String → Stepping → Type 0
Home live s = Begun live s × (s.head ≡ live)

-- A failure restores the build root.
abbrev pub Holding : String → Stepping → Type 0
Holding live s = Begun live s × (s.restoring ≡ true)

abbrev pub Safe : String → Stepping → Type 0
Safe live s = Begun live s × ((s.restoring ≡ true) ⊎ (s.head ≡ live))

ltb_self : (n : ℕ) → ltb n n ≡ false
ltb_self n = ground arith

-- A predicate of the head, the flags and the rest that events do not touch.
module _ {live : String} (now : ℕ → String) (tools : Tools) where
  Begun-release :
      (s : Stepping) (r : Release)
      → r.history ≡ s.release.history
      → Begun live s
      → Begun live (record s { release = r })
  Begun-release s r h p = record {
    live_is = p.live_is;
    deployed_is = p.deployed_is;
    images_is = p.images_is;
    unreached = rw h p.unreached;
  }

  Home-update :
      (id : Option String) (fields : List Field) → Keeps (Home live) (update now tools id fields)
  unfolding update modify
  Home-update id fields = record {
    holds = λ s p. (Begun-release s _ (history-update id fields s.release) p.0, p.1);
  }

  pub Holding-event :
      (id : Option String) (stage state : String) (fields : List (String × Value))
      → Keeps (Holding live) (event now tools id stage state fields)
  unfolding event modify
  Holding-event id stage state fields = record {
    holds = λ s p. (Begun-release s _ (history-event now id stage state fields s.release) p.0, p.1);
  }

  Home-refuse_tracked_target :
      (commit : String) → Keeps (Home live) (refuse_tracked_target now tools commit)
  unfolding refuse_tracked_target
  Home-refuse_tracked_target commit = search keeps_rules

  -- A run that finds no marker begins at the build root's commit.
  Home-begin :
      (order : Order)
      → Triple
          (λ s. Home live s × (s.marker ≡ none))
          (begin now tools order)
          (λ (found, _) s. Home live s × (found ≡ live))
          (λ _. Safe live)
  unfolding begin repair has_reached gets modify pure ◌>>=◌
  Home-begin order = record {
    holds = λ s p. rw p.1 (
      (
        record {
          live_is = p.0.0.live_is;
          deployed_is = p.0.0.deployed_is;
          images_is = p.0.0.images_is;
          unreached = ltb_self (length s.release.history);
        },
        p.0.1,
      ),
      p.0.0.live_is,
    );
  }

  Home-plan :
      (order : Order) (begun : String) (entries : List Entry)
      → Keeps (Home live) (plan now tools order begun entries)
  unfolding plan
  Home-plan order begun entries =
      search (keeps_rules, Home-update, Home-refuse_tracked_target) depth 12

  Holding-hold :
      (order : Order) (begun : String) (entries : List Entry) (target : String)
      → Triple
          (Home live)
          (hold now tools order begun entries target)
          (λ _. Holding live)
          (λ _. Safe live)
  unfolding hold mark modify ◌>>=◌
  Holding-hold order begun entries target = record {
    holds = λ s p. (
      record {
        live_is = p.0.live_is;
        deployed_is = p.0.deployed_is;
        images_is = p.0.images_is;
        unreached = p.0.unreached;
      },
      refl,
    );
  }

  Home-Safe :
      {A : Type 0} {m : Pipeline A}
      → Keeps (Home live) m
      → Triple (Home live) m (λ _. Home live) (λ _. Safe live)
  Home-Safe t = Triple-weaken (λ s p. p) (λ s a p. p) (λ s e p. (p.0, inr p.1)) t

  pub Holding-prepare :
      (order : Order)
      → Triple
          (λ s. Home live s × (s.marker ≡ none))
          (prepare now tools order)
          (λ _. Holding live)
          (λ _. Safe live)
  unfolding prepare
  Holding-prepare order =
      Triple-bind (λ _. Home live) _ _
        (Triple-weaken (λ s p. p) (λ s a p. p.0) (λ s e p. p) (Home-begin order))
        λ (begun, entries).
          Triple-bind (λ _. Home live) _ _ (Home-Safe (Home-plan order begun entries))
            λ (target, images, cron).
              Triple-bind (λ _. Holding live) _ _ (Holding-hold order begun entries target)
                λ _. Triple-pure (target, images, cron) (λ s p. p)

  Holding-health :
      (b : Bool) → Keeps {E = Fault} (Holding live) (modify (λ s. record s { health = b }))
  Holding-health b = Triple-modify _ λ s p. (
    record {
      live_is = p.0.live_is;
      deployed_is = p.0.deployed_is;
      images_is = p.0.images_is;
      unreached = p.0.unreached;
    },
    p.1,
  )

  Movable-Holding : Movable (Holding live)
  Movable-Holding = record {
    keeps_head = λ s c p. (
      record {
        live_is = p.0.live_is;
        deployed_is = p.0.deployed_is;
        images_is = p.0.images_is;
        unreached = p.0.unreached;
      },
      p.1,
    );
    keeps_env_file = λ s e p. (
      record {
        live_is = p.0.live_is;
        deployed_is = p.0.deployed_is;
        images_is = p.0.images_is;
        unreached = p.0.unreached;
      },
      p.1,
    );
  }

  Holding-refuse_newer :
      (order : Order) (wanted : Option String)
      → Keeps (Holding live) (refuse_newer now tools order wanted)
  unfolding refuse_newer
  Holding-refuse_newer order none = Keeps-pure tt
  Holding-refuse_newer order (some version) = Keeps-raise _

  pub Holding-check_target :
      (order : Order) (target : String) → Keeps (Holding live) (check_target now tools order target)
  unfolding check_target
  Holding-check_target order target =
      search
        (
          keeps_rules, Holding-refuse_newer, Holding-event, Holding-health, Movable-checkout,
          Movable-Holding,
        )
        depth 14
