-- ===== src/Attempts/Events.antt =====
-- What the writes of an attempt change: its own file and no other, its events only by a new last one, and
-- never the deploy history.
use docker_development_envir.Common.{
  ◌++◌, ◌∷◌, [], ℕ, Bool, true, false, ◌==◌, string_eq, List, [], ◌∷◌, Option, none, some, String,
  ◌≡◌, refl, ◌∙◌, ap, get, get-put, if◌then◌else◌,
}
use docker_development_envir.Attempts.{Value, AttemptFile, Release}
use docker_development_envir.Attempts.Record
use docker_development_envir.Attempts.Record.{
  Field, set_field, set_fields, without_events, read_attempt, write_attempt, read_or_blank,
  append_event, blank,
}

pub history-event :
    (now : ℕ → String) (id : Option String) (stage state : String) (fields : List (String × Value))
    (r : Release)
    → (Record.event now id stage state fields r).history ≡ r.history
unfolding Record.event
history-event now none stage state fields r = refl
history-event now (some id) stage state fields r = refl

pub history-update :
    (id : Option String) (fields : List Field) (r : Release)
    → (Record.update id fields r).history ≡ r.history
unfolding Record.update
history-update none fields r = refl
history-update (some id) fields r = refl

-- An event stands in its attempt's file behind the events that were there, and nothing else of the file is
-- changed; a file that was not there begins as a blank one. No other attempt's file is changed.
pub read_attempt-event :
    (now : ℕ → String) (id other stage state : String) (fields : List (String × Value))
    (r : Release)
    → read_attempt (Record.event now (some id) stage state fields r) other ≡ (
        if id == other
        then some (record (read_or_blank id r) {
          events =
              (read_or_blank id r).events
              ++ record { stage = stage; state = state; fields = fields; at = now r.clock } ∷ [];
        })
        else read_attempt r other)
unfolding read_attempt Record.event append_event
read_attempt-event now id other stage state fields r = get-put id other _ r.attempts

events-set_field :
    (f : AttemptFile) (fields : List Field)
    → (set_fields f (without_events fields)).events ≡ f.events
unfolding set_fields without_events
events-set_field f [] = refl
events-set_field f (Field.events v ∷ xs) = events-set_field f xs
events-set_field f (Field.sha v ∷ xs) = events-set_field _ xs
events-set_field f (Field.expected_live v ∷ xs) = events-set_field _ xs
events-set_field f (Field.reason v ∷ xs) = events-set_field _ xs
events-set_field f (Field.ref v ∷ xs) = events-set_field _ xs
events-set_field f (Field.outcome v ∷ xs) = events-set_field _ xs
events-set_field f (Field.rollback v ∷ xs) = events-set_field _ xs

abbrev file_or_blank : String → Option AttemptFile → AttemptFile
file_or_blank id found = elim found [ none ↦ blank id | some f ↦ f ]

read_or_blank-update :
    (id other : String) (fields : List Field) (r : Release)
    → read_or_blank other (Record.update (some id) fields r)
      ≡ file_or_blank other (
          if id == other
          then some (set_fields (read_or_blank id r) (without_events fields))
          else get other r.attempts)
unfolding Record.update read_or_blank read_attempt
read_or_blank-update id other fields r = ap (file_or_blank other) (get-put id other _ r.attempts)

events-update_in :
    (id other : String) (fields : List Field) (r : Release) (same : Bool)
    → id == other ≡ same
    → (file_or_blank other (
        if same
        then some (set_fields (read_or_blank id r) (without_events fields))
        else get other r.attempts)).events
      ≡ (read_or_blank other r).events
unfolding read_or_blank read_attempt
events-update_in id other fields r true h =
    rw ((string_eq.beq_iff id other).0 h) (events-set_field (read_or_blank other r) fields)
events-update_in id other fields r false h = refl

-- An update changes no attempt's events, whatever fields it is given.
pub events-update :
    (id : Option String) (fields : List Field) (other : String) (r : Release)
    → (read_or_blank other (Record.update id fields r)).events ≡ (read_or_blank other r).events
unfolding Record.update
events-update none fields other r = refl
events-update (some id) fields other r =
    ap (λ (f : AttemptFile). f.events) (read_or_blank-update id other fields r)
    ∙ events-update_in id other fields r (id == other) refl
