-- ===== src/Pipeline/Ended.antt =====
-- The end of run_step: what its handler leaves of the marker pipeline-run.json.
use docker_development_envir.Common.{string_eq, Option, Triple}
use docker_development_envir.Pipeline.{MarkerFile, Pipeline}
use docker_development_envir.Pipeline.Order.{Order, Exit}
use docker_development_envir.Pipeline.Marked.{Marked, Unmarked}

-- From a marked state the action returns and the run holds no marker any more.
abbrev Ends : Option MarkerFile → Pipeline Exit → Type 0
Ends found m = Triple (Marked found) m (λ _. Unmarked found) (λ _ _. ⊥)
