-- ===== src/Pipeline/Decisions.antt =====
-- The switches that take auto: what the deployed commits change decides them.
use docker_development_envir.Common.{
  Bool, true, false, not, ◌&&◌, ◌||◌, ◌==◌, string_eq, List, [], ◌∷◌, none, some, String, Result,
  ok, err, any, codes, leb, nat_eq, if◌then◌else◌,
}
use docker_development_envir.Attempts.{Entry, live_commit}
use docker_development_envir.Pipeline.{
  Settings, setting, Fault, bad_input, absent, unnamed, built, Tree, Tools,
}

module _ (tools : Tools) where
  -- IMAGES=auto, for one commit to compare with
  unfoldable pub images_needed : String → String → Result Fault Bool
  images_needed live target = elim tools.images_lock [
    | absent ↦ ok true
    | unnamed ↦ ok true
    | built setup ↦ elim tools.current_setup [
      | none ↦ ok true
      | some current ↦ if not (setup == current) then ok true else tools.diff_images live target
    ]
  ]

  -- CRON=auto
  unfoldable pub cron_needed : String → String → Result Fault Bool
  cron_needed live target = tools.diff_cron live target

  -- The commits that auto compares with: the build root's, and the last completed deploy's.
  unfoldable pub live_bases : String → List Entry → List String
  unfolding live_commit
  live_bases head entries =
      let recorded = live_commit entries in
      if tools.separate
      then head ∷ []
      else if not (recorded == "") && tools.has_commit recorded && not (recorded == head)
      then head ∷ recorded ∷ []
      else head ∷ []

  -- Every base is asked, so an error of one is the step's; the first yes wins.
  unfoldable pub needed_since :
      (String → String → Result Fault Bool) → List String → String → Result Fault Bool
  needed_since needed [] target = ok false
  needed_since needed (base ∷ bases) target = elim (needed base target) [
    | err e ↦ err e
    | ok answer ↦ elim (needed_since needed bases target) [
      | err e ↦ err e
      | ok later ↦ ok (answer || later)
    ]
  ]

  unfoldable pub decide : String → Result Fault Bool → Result Fault Bool
  decide value needed = if not (value == "auto") then ok (value == "yes") else needed

  -- `text.strip()` as a condition, on ASCII
  has_text : String → Bool
  has_text s = any (λ c. not (c == 32 || (leb 9 c && leb c 13) || (leb 28 c && leb c 31))) (codes s)

  -- `configured` of project_deploy_health.py
  unfoldable pub health_configured : Tree → Settings → Bool
  unfolding has_text
  health_configured tree environ =
      has_text (setting "DEPLOY_HEALTH_PATHS" tree.values)
      || has_text (setting "DEPLOY_HEALTH_RELEASE_PATH" tree.values)
      || has_text (setting "DEPLOY_HEALTH_EXTRA" environ)

  -- health_wanted: (run the check in this step, a check is configured)
  unfoldable pub health_wanted : Tree → String → Settings → Result Fault (Bool × Bool)
  unfolding health_configured
  health_wanted tree value environ =
      let wanted = health_configured tree environ in
      if value == "yes" && not wanted
      then err bad_input
      else ok ((if value == "auto" then wanted else value == "yes"), wanted)
