-- ===== src/Pipeline/Repeated.antt =====
-- A repeated attempt: the step is refused, whatever its switches and refs say.
use docker_development_envir.Common.{
  Bool, true, false, not, ◌&&◌, ◌==◌, string_eq, option_eq, some, last?, ap, Bool-cases,
  Option-cases, ℕ, List, [], ◌∷◌, String, ◌≡◌, refl, ◌∙◌, inl, inr, Post, Triple, gets, ◌>>=◌,
  Result-cases, is_some,
}
use docker_development_envir.Common.Triples.{
  Total, Triple-bind, Triple-modify, Triple-pure, Triple-gets, Total-if, Total-pure,
}
use docker_development_envir.Attempts.{Value, Entry, AttemptFile, Release, is_failed}
use docker_development_envir.Attempts.Record.{is_known}
use docker_development_envir.Attempts.Status.{document_attempt, known-document_attempt}
use docker_development_envir.Attempts.Record
use docker_development_envir.Attempts.Events.{history-event, read_attempt-event}
use docker_development_envir.Pipeline.{Settings, setting, Fault, usage, Tools, Stepping}
use docker_development_envir.Pipeline.Step.{event}
use docker_development_envir.Pipeline.Order.{Exit, exited}
use docker_development_envir.Pipeline.Inputs.{
  Mode, unnamed, new, resume, follow, is_resumed, known, attempt_mode, switches_of,
}
use docker_development_envir.Pipeline.Checks.{
  Given, record_refusal, refuse, refuse_known, mode_with, with_switches, checked_step,
}

-- Of `s`, at most the file of attempt `id` is changed: the build root, the env file, the make steps, the marker,
-- the flags of the run, the deploy history and the files of the other attempts are as they were.
pub record Same (id : String) (s t : Stepping) : Type 0 where
  pub rest_same : t ≡ record s { release = t.release }
  pub history_same : t.release.history ≡ s.release.history
  pub others_same :
      (other : String)
      → (id == other) ≡ false
      → Record.read_attempt t.release other ≡ Record.read_attempt s.release other

-- The step ended by a refusal.
abbrev pub IsRefusal : String → Stepping → Exit → Stepping → Type 0
IsRefusal id s exit t = (exit ≡ exited usage) × Same id s t

module _ (now : ℕ → String) (tools : Tools) (id : String) {s : Stepping} where
  Same-event :
      (stage state : String) (fields : List (String × Value))
      → Total (Same id s) (event now tools (some id) stage state fields)
  unfolding event
  Same-event stage state fields = Triple-modify _ λ t p. record {
    rest_same =
        ap
          (λ (u : Stepping). record u {
            release = Record.event now (some id) stage state fields t.release;
          })
          p.rest_same;
    history_same = history-event now (some id) stage state fields t.release ∙ p.history_same;
    others_same = λ other h.
        read_attempt-event now id other stage state fields t.release ∙ rw h (p.others_same other h);
  }

module _ (now : ℕ → String) (tools : Tools) (given : Given) (id : String) {s : Stepping} where
  IsRefusal-known :
      Triple (Same id s) (refuse_known now tools given (some id)) (IsRefusal id s) (λ _ _. ⊥)
  unfolding refuse_known
  IsRefusal-known =
      Triple-bind (λ _. Same id s) _ _
        (Triple-gets (λ t. Record.read (some id) t.release) (λ t p. p))
        λ found.
          Triple-bind (λ _. Same id s) _ _
            (Total-if (is_some found) _ _
              (Same-event now tools id "repeated" "refused"
                (("reason", Value.text "attempt_exists") ∷ []))
              (Total-pure tt))
            λ _. Triple-pure (exited usage) (λ t p. (refl, p))

  IsRefusal-unrecorded :
      (error : Fault)
      → Triple
          (Same id s)
          (refuse now tools given known (some id) error)
          (IsRefusal id s)
          (λ _ _. ⊥)
  unfolding refuse record_refusal
  IsRefusal-unrecorded error =
      Triple-bind (λ _. Same id s) _ _ (Triple-pure tt (λ t p. p))
        λ _. Triple-pure (exited usage) (λ t p. (refl, p))

-- An attempt with a file, in a process that no newer setup started again: known, unless its deploy failed last.
attempt_mode-known :
    (environ : Settings) (id : String) (r : Release) {f : AttemptFile}
    → Record.read_attempt r id ≡ some f
    → setting "SETUP_SELF_UPDATED" environ ≡ ""
    → ((final : Entry)
        → last? r.history ≡ some final
        → (final.attempt == some id && is_failed final) ≡ false)
    → attempt_mode environ (some id) r ≡ known
unfolding attempt_mode is_known Record.read is_resumed
attempt_mode-known environ id r {f} found first over =
    let there : is_known r id ≡ true = rw (found, is_known) refl in
    let unresumed : is_resumed environ (Record.read (some id) r) ≡ false =
      rw (found, is_resumed, first) refl in
    rw (there, unresumed, attempt_mode)
      (elim (Option-cases (last? r.history)) [
        | inl empty ↦ rw empty refl
        | inr (final, last) ↦ rw (last, over final last) refl
      ])

-- A step for an attempt whose file is there is refused, where no newer setup started it again and the deploy
-- history does not end with a failed deploy of that attempt: it exits by 64, and changes nothing but the file
-- of that attempt.
pub IsRefusal-checked_step :
    (now : ℕ → String) (tools : Tools) (given : Given) (id : String) (s : Stepping)
    {f : AttemptFile}
    → Record.read_attempt s.release id ≡ some f
    → setting "SETUP_SELF_UPDATED" given.environ ≡ ""
    → ((final : Entry)
        → last? s.release.history ≡ some final
        → (final.attempt == some id && is_failed final) ≡ false)
    → Post {E = Fault} {A = Exit}
        (IsRefusal id s)
        (λ _ _. ⊥)
        (checked_step now tools given (some id) s)
unfolding checked_step mode_with with_switches gets ◌>>=◌
IsRefusal-checked_step now tools given id s found first over =
    let h = attempt_mode-known given.environ id s.release found first over in
    let same : Same id s s = record {
      rest_same = refl;
      history_same = refl;
      others_same = λ other k. refl;
    } in
    elim (Result-cases (switches_of given.environ)) [
      | inl (e, k) ↦ rw (k, h) ((IsRefusal-unrecorded now tools given id e).holds s same)
      | inr (switches, k) ↦ rw (k, h) ((IsRefusal-known now tools given id).holds s same)
    ]

abbrev pub is_new : Mode → Bool
is_new unnamed = false
is_new new = true
is_new resume = false
is_new follow = false
is_new known = false

-- make deploy-status calls an attempt known exactly when the pipeline step would not take it for a new one.
pub known-attempt_mode :
    (environ : Settings) (r : Release) (id : String)
    → (document_attempt r id).known ≡ not (is_new (attempt_mode environ (some id) r))
unfolding attempt_mode
known-attempt_mode environ r id = known-document_attempt r id ∙ (elim (Bool-cases (is_known r id)) [
  | inr fresh ↦ rw (fresh, attempt_mode) refl
  | inl there ↦
      rw (there, attempt_mode)
        (elim (Bool-cases (is_resumed environ (Record.read (some id) r))) [
          | inl resumed ↦ rw resumed refl
          | inr other ↦ rw other (elim (Option-cases (last? r.history)) [
            | inl empty ↦ rw empty refl
            | inr (final, last) ↦
                rw last (elim (Bool-cases (final.attempt == some id && is_failed final)) [
                  | inl own ↦ rw own refl
                  | inr not_own ↦ rw not_own refl
                ])
          ])
        ])
])
