-- ===== src/Attempts/Record.antt =====
-- The class `Attempt` of docker/project_attempts.py: one attempt's file. Without an id every method
-- does nothing. `now n` is the text of the n-th reading of the clock.
use docker_development_envir.Common.{
  ℕ, ◌+◌, Bool, not, ◌||◌, string_eq, List, [], ◌∷◌, ◌++◌, Option, none, some, String, get, put,
  is_some, is_empty,
}
use docker_development_envir.Attempts.{Value, Outcome, Event, AttemptFile, Release, attempt_entries}

-- The keyword arguments of `create` and `update`.
pub data Field : Type 0 where
  sha expected_live reason ref : Option String → Field
  outcome : Outcome → Field
  rollback : Bool → Field
  events : List Event → Field

unfoldable pub set_field : AttemptFile → Field → AttemptFile
set_field f (Field.sha v) = record f { sha = v }
set_field f (Field.expected_live v) = record f { expected_live = v }
set_field f (Field.reason v) = record f { reason = v }
set_field f (Field.ref v) = record f { ref = v }
set_field f (Field.outcome v) = record f { outcome = v }
set_field f (Field.rollback v) = record f { rollback = some v }
set_field f (Field.events v) = record f { events = v }

unfoldable pub set_fields : AttemptFile → List Field → AttemptFile
unfolding set_field
set_fields f [] = f
set_fields f (x ∷ xs) = set_fields (set_field f x) xs

-- `key != 'events'`
unfoldable pub without_events : List Field → List Field
without_events [] = []
without_events (Field.events v ∷ xs) = without_events xs
without_events (x ∷ xs) = x ∷ without_events xs

unfoldable pub blank : String → AttemptFile
blank id = record {
  id = id;
  sha = none;
  expected_live = none;
  outcome = Outcome.in_progress;
  reason = none;
  ref = none;
  rollback = none;
  events = [];
}

unfoldable pub write_attempt : String → AttemptFile → Release → Release
write_attempt id f r = record r { attempts = put id f r.attempts }

unfoldable pub read_attempt : Release → String → Option AttemptFile
read_attempt r id = get id r.attempts

unfoldable pub is_known : Release → String → Bool
unfolding read_attempt attempt_entries
is_known r id = is_some (read_attempt r id) || not (is_empty (attempt_entries r.history id))

unfoldable pub read : Option String → Release → Option AttemptFile
unfolding read_attempt
read none r = none
read (some id) r = read_attempt r id

unfoldable pub create : Option String → List Field → Release → Release
unfolding set_fields blank write_attempt
create none fields r = r
create (some id) fields r =
    write_attempt id (record (set_fields (blank id) fields) { events = [] }) r

-- `data = self.read()`, after `self.create()` where there was no file
unfoldable pub read_or_blank : String → Release → AttemptFile
unfolding read_attempt blank
read_or_blank id r = elim (read_attempt r id) [ none ↦ blank id | some f ↦ f ]

unfoldable pub update : Option String → List Field → Release → Release
unfolding read_or_blank set_fields without_events write_attempt
update none fields r = r
update (some id) fields r =
    write_attempt id (set_fields (read_or_blank id r) (without_events fields)) r

unfoldable pub append_event : AttemptFile → Event → AttemptFile
append_event f e = record f { events = f.events ++ e ∷ [] }

module _ (now : ℕ → String) where
  unfoldable pub event : Option String → String → String → List (String × Value) → Release → Release
  unfolding read_or_blank append_event write_attempt
  event none stage state fields r = r
  event (some id) stage state fields r =
      let e : Event = record { stage = stage; state = state; fields = fields; at = now r.clock } in
      write_attempt id (append_event (read_or_blank id r) e) (record r { clock = r.clock + 1 })

-- The method `outcome`.
unfoldable pub outcome_of : Option String → Release → Option Outcome
unfolding read
outcome_of id r = elim (read id r) [ none ↦ none | some f ↦ some f.outcome ]

unfoldable pub code_reached : Release → String → Bool
unfolding attempt_entries
code_reached r id = not (is_empty (attempt_entries r.history id))
