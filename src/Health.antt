-- ===== src/Health.antt =====
-- docker/project_deploy_health.py: the health check of the deployed release and what it records. The answers
-- of the pages are parameters: one GET gives its status, or none for a timeout or a connection error.
pub mod Laws
pub mod Paths
use docker_development_envir.Common.{
  ℕ, Bool, true, false, not, ◌&&◌, ◌||◌, ◌==◌, nat_eq, string_eq, option_eq, List, [], ◌∷◌, ◌++◌,
  Option, none, some, String, Text, Result, ok, err, all, leb, ltb, is_empty, last?, init, map,
  truthy, codes, is_some, if◌then◌else◌,
}
use docker_development_envir.Attempts.{Entry, Value, Outcome, Release, is_failed, check_attempt}
use docker_development_envir.Attempts.Record
use docker_development_envir.Attempts.Record.{Field}

pub data Refused : Type 0 where
  bad_attempt no_pages nothing_deployed other_attempt no_rollback deploy_failed bad_endpoint :
      Refused

-- A page's result: its status, and how often it was asked.
pub record Answer : Type 0 where
  pub status : Option ℕ
  pub tries : ℕ

-- `status is None or status >= 500`
abbrev pub is_retried : Option ℕ → Bool
is_retried none = true
is_retried (some status) = leb 500 status

-- check_page: `ask n` is the n-th answer.
unfoldable pub check_page : (ℕ → Option ℕ) → Answer
check_page ask =
    if is_retried (ask 1)
    then record { status = ask 2; tries = 2 }
    else record { status = ask 1; tries = 1 }

unfoldable pub passed : Answer → Bool
passed answer = elim answer.status [ none ↦ false | some status ↦ leb 200 status && ltb status 400 ]

-- One poll of the release page: the release it names (none when the status is not 200), and whether the wait
-- is over then.
pub record Poll : Type 0 where
  pub reported : Option String
  pub late : Bool

-- release_seen: asked until it is the expected commit, or the wait is over.
unfoldable pub release_seen : String → Option String → List Poll → Option String
release_seen expected seen [] = seen
release_seen expected seen (poll ∷ polls) =
    let now = if is_some poll.reported then poll.reported else seen in
    let later = release_seen expected now polls in
    if poll.reported == some expected then now else if poll.late then now else later

-- target_entry: the checks of the last entry
unfoldable pub accept_entry : Entry → Option String → Bool → Result Refused Entry
accept_entry final attempt rollback =
    if truthy attempt && not (final.attempt == attempt)
    then err other_attempt
    else if rollback && not final.rollback
    then err no_rollback
    else if is_failed final && not (final.failed == some "health")
    then err deploy_failed
    else ok final

unfoldable pub target_entry : List Entry → Option String → Bool → Result Refused Entry
unfolding accept_entry
target_entry entries attempt rollback = elim (last? entries) [
  | none ↦ err nothing_deployed
  | some final ↦ accept_entry final attempt rollback
]

-- The last entry, with the check's result.
unfoldable pub health_entry : Bool → Entry → Entry
health_entry true e =
    if e.failed == some "health"
    then record e { health = some "ok"; failed = none }
    else record e { health = some "ok" }
health_entry false e = record e { health = some "failed"; failed = some "health" }

unfoldable pub record_health : Bool → List Entry → List Entry
unfolding health_entry
record_health passing entries = elim (last? entries) [
  | none ↦ entries
  | some final ↦ init entries ++ health_entry passing final ∷ []
]

-- What a run is asked, and what its settings and pages answer.
pub record Check : Type 0 where
  pub attempt : Option String
  pub rollback : Bool
  -- health_paths: the pages and the release page
  pub paths : Result Refused (List String × Option String)
  pub endpoint : Result Refused (Unit {0})
  pub ask : String → ℕ → Option ℕ
  pub polls : List Poll

module _ (now : ℕ → String) (check : Check) where
  -- What the check writes of the attempt: after a rollback, a passing check, a failing one.
  unfoldable pub outcome_fields : Bool → Bool → List Field
  outcome_fields true passing =
      Field.outcome (if passing then Outcome.rolled_back else Outcome.rollback_failed) ∷ []
  outcome_fields false true = Field.outcome Outcome.live ∷ Field.reason none ∷ []
  outcome_fields false false =
      Field.outcome Outcome.failed_after_code ∷ Field.reason (some "health") ∷ []

  -- record_attempt: `seen` and the results are the event's fields.
  unfoldable pub record_attempt : Bool → List (String × Value) → Release → Release
  unfolding outcome_fields Record.event Record.update
  record_attempt passing fields r =
      let stage = if check.rollback then "health_after_rollback" else "health" in
      Record.update check.attempt (outcome_fields check.rollback passing)
        (Record.event now check.attempt stage (if passing then "ok" else "failed") fields r)

  -- refused_rollback_check
  unfoldable pub refused_rollback_check : Release → Release
  unfolding check_attempt Record.event Record.update Record.read
  refused_rollback_check r = elim check.attempt [
    | none ↦ r
    | some id ↦ elim (last? r.history) [
      | none ↦ r
      | some final ↦
          if check.rollback
            && check_attempt (codes id)
            && final.attempt == some id
            && final.rollback
            && is_some (Record.read (some id) r)
          then Record.update (some id) (Field.outcome Outcome.rollback_failed ∷ [])
              (Record.event now (some id) "health_after_rollback" "refused" [] r)
          else r
    ]
  ]

  -- The checks before anything is asked: the pages, the release page and the entry.
  unfoldable pub checked : Release → Result Refused ((List String × Option String) × Entry)
  unfolding target_entry check_attempt
  checked r =
      if truthy check.attempt
        && not (elim check.attempt [ none ↦ true | some id ↦ check_attempt (codes id) ])
      then err bad_attempt
      else elim check.paths [
        | err e ↦ err e
        | ok found ↦ if is_empty found.0 then err no_pages else elim check.endpoint [
          | err e ↦ err e
          | ok u ↦ elim (target_entry r.history check.attempt check.rollback) [
            | err e ↦ err e
            | ok final ↦ ok (found, final)
          ]
        ]
      ]

  -- Whether every page passes and the release page names the deployed commit.
  unfoldable pub is_healthy : List String × Option String → Entry → Bool
  unfolding check_page passed release_seen
  is_healthy (paths, release) final =
      all (λ path. passed (check_page (check.ask path))) paths
      && (not (is_some release) || release_seen final.commit none check.polls == some final.commit)

  -- deploy_health: (exit status, the release directory)
  unfoldable pub deploy_health : Release → ℕ × Release
  unfolding checked is_healthy record_health record_attempt refused_rollback_check
  deploy_health r = elim (checked r) [
    | err e ↦ (64, refused_rollback_check r)
    | ok (found, final) ↦
        (let passing = is_healthy found final in
          (
            if passing then 0 else 1,
            record_attempt passing [] (record r { history = record_health passing r.history }),
          ))
  ]
