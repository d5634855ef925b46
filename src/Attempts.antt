-- ===== src/Attempts.antt =====
-- docker/project_attempts.py: the deploy history, the attempt files and their stage events.
-- The directory .generated/release/<env>/ is one value, `Release`: deployments.json, the files of
-- attempts/, and the readings of the clock that the events take.
pub mod Record
pub mod Events
pub mod Status
use docker_development_envir.Common.{
  ℕ, Bool, true, false, not, ◌&&◌, ◌||◌, ◌==◌, string_eq, option_eq, nat_eq, List, [], ◌∷◌, Option,
  none, some, String, Text, codes, is_digit, is_lower, is_upper, leb, length, all, last?, filter_by,
  truthy, if◌then◌else◌,
}

-- A value of a JSON document, as far as history entries and events hold one.
pub data Value : Type 0 where
  null : Value
  flag : Bool → Value
  number : ℕ → Value
  text : String → Value
  texts : List String → Value

-- An entry of deployments.json; a key that the entry lacks is `none`.
pub record Entry : Type 0 where
  pub ref : String
  pub commit : String
  pub at : String
  pub rollback : Bool
  pub backup : Option String
  pub attempt : Option String
  pub failed : Option String
  pub health : Option String
  pub migrations : Option (List String)
  pub translations : Option (List String)
  pub cache : Option Bool
  pub ps_version : Option String
  pub removals : Option String
  pub pending_removals : Option (List Text)

-- OUTCOMES
pub data Outcome : Type 0 where
  in_progress live refused not_deployed failed_after_code : Outcome
  rolled_back rollback_failed unknown_attempt : Outcome

pub record Event : Type 0 where
  pub stage : String
  pub state : String
  pub fields : List (String × Value)
  pub at : String

-- attempts/<id>.json
pub record AttemptFile : Type 0 where
  pub id : String
  pub sha : Option String
  pub expected_live : Option String
  pub outcome : Outcome
  pub reason : Option String
  pub ref : Option String
  pub rollback : Option Bool
  pub events : List Event

pub record Release : Type 0 where
  pub history : List Entry
  pub attempts : List (String × AttemptFile)
  pub clock : ℕ

-- `entry.get('failed')` as a condition
abbrev pub is_failed : Entry → Bool
is_failed e = truthy e.failed

-- The environment's live release: its latest completed deploy.
unfoldable pub live_entry : List Entry → Option Entry
live_entry entries = last? (filter_by (λ e. not (is_failed e)) entries)

unfoldable pub live_commit : List Entry → String
unfolding live_entry
live_commit entries = elim (live_entry entries) [ none ↦ "" | some e ↦ e.commit ]

unfoldable pub attempt_entries : List Entry → String → List Entry
attempt_entries entries attempt = filter_by (λ e. e.attempt == some attempt) entries

-- ATTEMPT, `[A-Za-z0-9-]{8,64}`
is_attempt_code : ℕ → Bool
is_attempt_code c = is_upper c || is_lower c || is_digit c || c == b'-'

unfoldable pub check_attempt : Text → Bool
unfolding is_attempt_code
check_attempt value = leb 8 (length value) && leb (length value) 64 && all is_attempt_code value

-- An attempt that the history knows but no file describes; the entries are not empty.
unfoldable pub derived_outcome : List Entry → Outcome
derived_outcome entries = elim (last? entries) [
  | none ↦ unknown_attempt
  | some final ↦
      if not (is_failed final)
      then (if leb 2 (length entries) && final.rollback then rolled_back else live)
      else if leb 2 (length entries)
      then rollback_failed
      else failed_after_code
]
