-- ===== src/Health/Laws.antt =====
-- What a health check does to the deploy history: a release that passes is live, one that fails is not.
use docker_development_envir.Common.{
  ℕ, Bool, true, false, not, ◌&&◌, ◌==◌, string_eq, option_eq, List, [], ◌∷◌, ◌++◌, Option, some,
  String, ◌≡◌, refl, ◌∙◌, ap, ok, err, truthy, last?-concat, init-concat, if◌then◌else◌, Bool-cases,
  inl, inr, arith,
}
use docker_development_envir.Attempts.{Entry, Value, Release, is_failed, live_entry}
use docker_development_envir.Attempts.Events.{history-event, history-update}
use docker_development_envir.Deploy.History.Laws.{live_entry-concat, live_entry-failed}
use docker_development_envir.Health.{
  Refused, other_attempt, no_rollback, deploy_failed, Check, accept_entry, target_entry,
  health_entry, record_health, record_attempt,
}

record_health-concat :
    (passing : Bool) (entries : List Entry) (e : Entry)
    → record_health passing (entries ++ e ∷ []) ≡ entries ++ health_entry passing e ∷ []
unfolding record_health
record_health-concat passing entries e =
    rw (record_health, last?-concat entries e)
      (ap (λ (l : List Entry). l ++ health_entry passing e ∷ []) (init-concat entries e))

last_guard :
    (first second third : Bool) (a b c : Refused) (e found : Entry)
    → (if first then err a else if second then err b else if third then err c else ok e) ≡ ok found
    → (third ≡ false) × (e ≡ found)
last_guard true second third a b c e found h = absurd (cc)
last_guard false true third a b c e found h = absurd (cc)
last_guard false false true a b c e found h = absurd (cc)
last_guard false false false a b c e found h = (refl, cc)

-- An entry that the check accepts is completed, or failed its last check.
accepted :
    (e found : Entry) (attempt : Option String) (rollback : Bool)
    → accept_entry e attempt rollback ≡ ok found
    → ((is_failed e && not (e.failed == some "health")) ≡ false) × (e ≡ found)
unfolding accept_entry
accepted e found attempt rollback h =
    last_guard (truthy attempt && not (e.attempt == attempt)) (rollback && not e.rollback) _
      other_attempt no_rollback deploy_failed e found h

passing_entry :
    (e : Entry)
    → (is_failed e && not (e.failed == some "health")) ≡ false
    → is_failed (health_entry true e) ≡ false
unfolding health_entry
passing_entry e h = elim (Bool-cases (e.failed == some "health")) [
  | inl k ↦ rw k refl
  | inr k ↦ rw k (ground arith)
]

-- A check that passes makes the last entry the live release; one that fails leaves the release live that was
-- live before that entry.
pub live_entry-record_health :
    (entries : List Entry) (e : Entry) (attempt : Option String) (rollback passing : Bool)
    → target_entry (entries ++ e ∷ []) attempt rollback ≡ ok e
    → live_entry (record_health passing (entries ++ e ∷ []))
      ≡ (if passing then some (health_entry true e) else live_entry entries)
unfolding target_entry health_entry
live_entry-record_health entries e attempt rollback true h =
    ap live_entry (record_health-concat true entries e)
    ∙ live_entry-concat entries (health_entry true e) (
        passing_entry e
          (accepted e e attempt rollback (rw (target_entry, last?-concat entries e) at h)).0)
live_entry-record_health entries e attempt rollback false h =
    ap live_entry (record_health-concat false entries e)
    ∙ live_entry-failed entries (health_entry false e) refl

module _ (now : ℕ → String) (check : Check) where
  history-record_attempt :
      (passing : Bool) (fields : List (String × Value)) (r : Release)
      → (record_attempt now check passing fields r).history ≡ r.history
  unfolding record_attempt
  history-record_attempt passing fields r =
      history-update check.attempt _ _ ∙ history-event now check.attempt _ _ fields r
