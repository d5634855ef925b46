-- ===== src/Pipeline/Inputs.antt =====
-- What the deploy step reads before it changes anything: its environment, the mode of its attempt, its switches,
-- its ref and the commit that must be live. The process environment is `environ`, after expand_json.
use docker_development_envir.Common.{
  Bool, true, false, not, ◌&&◌, ◌||◌, ◌==◌, string_eq, option_eq, list_eq, nat_eq, List, [], ◌∷◌,
  Option, none, some, String, Text, Result, ok, err, codes, filter_by, contains, dedup, is_empty,
  is_some, last?, length, all, leb, is_digit, if◌then◌else◌,
}
use docker_development_envir.Attempts.{
  Entry, Outcome, Event, AttemptFile, Release, is_failed, live_commit,
}
use docker_development_envir.Attempts.Record
use docker_development_envir.Attempts.Record.{Field, is_known}
use docker_development_envir.Environments.{is_server, is_name, lower, named_environment, reserved}
use docker_development_envir.Pipeline.{Settings, setting, Fault, refusal, usage, bad_input}
use docker_development_envir.Pipeline.Order.{Switches}

-- environment_of: the derived environment, and the one of this step.
derived_environment : Text → Option Text
derived_environment name = elim (named_environment (lower name)) [
  | some environment ↦ some environment
  | none ↦
      if is_name (lower name) && not (contains (lower name) reserved)
      then some (lower name)
      else none
]

unfoldable pub environment_of : Text → Text → Result Fault Text
unfolding derived_environment
environment_of environment name =
    let derived = derived_environment name in
    if is_empty name
    then err bad_input
    else if is_server environment
    then (if is_some derived && not (derived == some environment)
        then err bad_input
        else ok environment)
    else elim derived [
      | none ↦ err bad_input
      | some found ↦ if environment == codes "local" then ok found else err bad_input
    ]

-- attempt_mode
pub data Mode : Type 0 where
  unnamed new resume follow known : Mode

-- The last event's stage that is not `repeated`.
own_stage : List Event → Option String
own_stage events = elim (last? (filter_by (λ (e : Event). not (e.stage == "repeated")) events)) [
  | none ↦ none
  | some e ↦ some e.stage
]

unfoldable pub is_resumed : Settings → Option AttemptFile → Bool
unfolding own_stage
is_resumed environ file = elim file [
  | none ↦ false
  | some f ↦
      not (setting "SETUP_SELF_UPDATED" environ == "")
      && (elim f.outcome [ Outcome.in_progress ↦ true | _ ↦ false ])
      && own_stage f.events == some "setup"
]

unfoldable pub attempt_mode : Settings → Option String → Release → Mode
unfolding is_resumed
attempt_mode environ none r = unnamed
attempt_mode environ (some id) r =
    if not (is_known r id)
    then new
    else if is_resumed environ (Record.read (some id) r)
    then resume
    else elim (last? r.history) [
      | none ↦ known
      | some final ↦ if final.attempt == some id && is_failed final then follow else known
    ]

-- One switch: its value or default, refused when it is none of the allowed words.
switch_of : Settings → String → String → List String → Result Fault String
switch_of environ name default allowed =
    let value = if setting name environ == "" then default else setting name environ in
    if contains value allowed then ok value else err bad_input

abbrev yes_no : List String
yes_no = "yes" ∷ "no" ∷ []

abbrev yes_no_auto : List String
yes_no_auto = "yes" ∷ "no" ∷ "auto" ∷ []

unfoldable pub bind_ok : {A B : Type 0} → Result Fault A → (A → Result Fault B) → Result Fault B
bind_ok (ok a) f = f a
bind_ok (err e) f = err e

-- SWITCHES, in their order
unfoldable pub switches_of : Settings → Result Fault Switches
unfolding switch_of bind_ok
switches_of environ = bind_ok (switch_of environ "IMAGES" "no" yes_no_auto) λ images.
    bind_ok (switch_of environ "CRON" "auto" yes_no_auto) λ cron.
      bind_ok (switch_of environ "CACHE" "auto" yes_no_auto) λ cache.
        bind_ok (switch_of environ "ROLLBACK" "no" yes_no) λ rollback.
          bind_ok (switch_of environ "BACKUP" "no" yes_no) λ backup.
            bind_ok (switch_of environ "HEALTH" "auto" yes_no_auto) λ health. ok (record {
              images = images;
              cron = cron;
              cache = cache;
              rollback = rollback == "yes";
              backup = backup == "yes";
              health = health;
            })

-- COMMIT, `[0-9a-f]{40}`
is_commit : Text → Bool
is_commit value = length value == 40 && all (λ c. is_digit c || (leb b'a' c && leb c b'f')) value

unfoldable pub check_expected_live : List Entry → String → Result Fault (Unit {0})
unfolding is_commit
check_expected_live entries expected =
    let live = if live_commit entries == "" then "none" else live_commit entries in
    if expected == ""
    then ok tt
    else if not (expected == "none") && not (is_commit (codes expected))
    then err bad_input
    else if live == expected
    then ok tt
    else err (refusal "live_changed" usage)

-- REF, APP_REF and SHOP_REF name one ref, or none.
unfoldable pub given_ref : Settings → Result Fault String
given_ref environ =
    let given =
      filter_by (λ (ref : String). not (ref == ""))
        (setting "REF" environ ∷ setting "APP_REF" environ ∷ setting "SHOP_REF" environ ∷ []) in
    elim (dedup given) [ [] ↦ ok "" | ref ∷ more ↦ if is_empty more then ok ref else err bad_input ]
