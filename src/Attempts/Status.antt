-- ===== src/Attempts/Status.antt =====
-- make deploy-status: what the status document says of an attempt and of the live release, and its fields.
use docker_development_envir.Common.{
  Bool, true, false, not, ◌&&◌, ◌||◌, ◌==◌, string_eq, List, [], ◌∷◌, Option, none, some, String,
  ◌≡◌, refl, Result, ok, err, contains, is_some, is_empty, codes, if◌then◌else◌,
}
use docker_development_envir.Attempts.{
  Entry, Outcome, Event, AttemptFile, Release, live_entry, live_commit, attempt_entries,
  derived_outcome, check_attempt,
}
use docker_development_envir.Attempts.Record.{read_attempt, is_known, code_reached}

-- The document's `attempt`.
pub record View : Type 0 where
  pub id : String
  pub known : Bool
  pub sha : Option String
  pub expected_live : Option String
  pub outcome : Outcome
  pub reason : Option String
  pub events : List Event

-- An attempt that only the history knows: `own` are its entries.
derived_view : String → List Entry → View
unfolding derived_outcome
derived_view id [] = record {
  id = id;
  known = false;
  sha = none;
  expected_live = none;
  outcome = Outcome.unknown_attempt;
  reason = none;
  events = [];
}
derived_view id (first ∷ later) = record {
  id = id;
  known = true;
  sha = some first.commit;
  expected_live = none;
  outcome = derived_outcome (first ∷ later);
  reason = none;
  events = [];
}

view_of : String → AttemptFile → View
view_of id f = record {
  id = id;
  known = true;
  sha = f.sha;
  expected_live = f.expected_live;
  outcome = f.outcome;
  reason = f.reason;
  events = f.events;
}

unfoldable pub document_attempt : Release → String → View
unfolding derived_view view_of read_attempt attempt_entries
document_attempt r id = elim (read_attempt r id) [
  | none ↦ derived_view id (attempt_entries r.history id)
  | some f ↦ view_of id f
]

-- The document's `live`: the live release's commit and whether a rollback put it there.
unfoldable pub document_live : List Entry → Option (String × Bool)
unfolding live_entry
document_live entries = elim (live_entry entries) [
  | none ↦ none
  | some e ↦ some (e.commit, e.rollback)
]

-- What deploy-status prints of one field: a commit or `none`, a truth value, or an outcome.
pub data Printed : Type 0 where
  commit : String → Printed
  truth : Bool → Printed
  outcome : Outcome → Printed

pub data BadField : Type 0 where
  unknown_field needs_attempt bad_attempt : BadField

unfoldable pub status_field : Release → String → String → Result BadField Printed
unfolding live_commit code_reached document_attempt
status_field r attempt field =
    if not (contains field ("live" ∷ "code_reached" ∷ "outcome" ∷ []))
    then err unknown_field
    else if field == "live"
    then ok (commit (if live_commit r.history == "" then "none" else live_commit r.history))
    else if attempt == ""
    then err needs_attempt
    else if field == "code_reached"
    then ok (truth (code_reached r attempt))
    else ok (Printed.outcome (document_attempt r attempt).outcome)

-- deploy_status with a field: the printed value, or the refusal of bad arguments (exit status 64).
unfoldable pub deploy_status : Release → String → String → Result BadField Printed
unfolding check_attempt status_field
deploy_status r attempt field =
    if not (attempt == "") && not (check_attempt (codes attempt))
    then err bad_attempt
    else status_field r attempt field

known-derived_view :
    (id : String) (own : List Entry) → (derived_view id own).known ≡ not (is_empty own)
unfolding derived_view
known-derived_view id [] = refl
known-derived_view id (first ∷ later) = refl

known_in :
    (id : String) (own : List Entry) (file : Option AttemptFile)
    → (elim file as (λ _. View) [ none ↦ derived_view id own | some f ↦ view_of id f ]).known
      ≡ (is_some file || not (is_empty own))
unfolding view_of
known_in id own none = known-derived_view id own
known_in id own (some f) = refl

-- The status document calls an attempt known exactly when is_known of the pipeline step does.
pub known-document_attempt :
    (r : Release) (id : String) → (document_attempt r id).known ≡ is_known r id
unfolding document_attempt is_known
known-document_attempt r id = known_in id (attempt_entries r.history id) (read_attempt r id)
