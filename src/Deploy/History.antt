-- ===== src/Deploy/History.antt =====
-- The deploy history: the rollback target, the removals still owed, and how a run writes its entry.
pub mod Laws
use docker_development_envir.Common.{
  not, ◌&&◌, ◌==◌, string_eq, option_eq, List, [], ◌∷◌, ◌++◌, Option, none, some, String, Text,
  last?, init, filter_by, if◌then◌else◌,
}
use docker_development_envir.Attempts.{Entry, is_failed}

-- The release that rollback=1 returns to: the latest other completed deploy before the last one.
-- `final` is `entries[-1]`.
unfoldable pub rollback_entry : List Entry → Option Entry
rollback_entry entries = elim (last? entries) [
  | none ↦ none
  | some final ↦
      last? (filter_by (λ e. not (is_failed e) && not (e.commit == final.commit)) (init entries))
]

-- history_commit of project_pipeline.py: which='last', and which='rollback'; '' is "none".
unfoldable pub last_commit : List Entry → String
last_commit entries = elim (last? entries) [ none ↦ "" | some e ↦ e.commit ]

unfoldable pub rollback_commit : List Entry → String
unfolding rollback_entry
rollback_commit entries = elim (rollback_entry entries) [ none ↦ "" | some e ↦ e.commit ]

abbrev pub or_nil {ℓ} : {A : Type ℓ} → Option (List A) → List A
or_nil none = []
or_nil (some xs) = xs

-- The loop of removal_sources over `reversed(entries)`.
unfoldable pub sources_of : List Entry → List String × List Text
sources_of [] = ([], [])
sources_of (e ∷ es) =
    let (commits, pending) = sources_of es in
    if e.removals == some "pending"
    then (e.commit ∷ commits, or_nil e.pending_removals ++ pending)
    else (e.commit ∷ [], or_nil e.pending_removals)

abbrev pub reversed : List Entry → List Entry
reversed [] = []
reversed (e ∷ es) = reversed es ++ e ∷ []

unfoldable pub removal_sources : List Entry → List String × List Text
unfolding sources_of
removal_sources entries = sources_of (reversed entries)

-- `record`, and `replace_last`
unfoldable pub record_entry : Entry → List Entry → List Entry
record_entry e entries = entries ++ e ∷ []

unfoldable pub replace_last : Entry → List Entry → List Entry
replace_last e entries = init entries ++ e ∷ []
