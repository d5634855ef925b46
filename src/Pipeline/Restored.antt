-- ===== src/Pipeline/Restored.antt =====
-- restore: a step that neither restarted containers nor began a deploy leaves the build root where it was.
use docker_development_envir.Common.{nat_eq, string_eq, none, String, ◌≡◌, ◌⊎◌}
use docker_development_envir.Pipeline.{Stepping}
use docker_development_envir.Pipeline.Order.{Order}
use docker_development_envir.Pipeline.Unstarted.{Home}
use docker_development_envir.Pipeline.Started.{Started}

-- The state of a run that begins at `live` and finds no marker.
abbrev Fresh : String → Stepping → Type 0
Fresh live s = Home live s × (s.marker ≡ none)

-- The build root is back, or had to stay.
abbrev pub Returned : String → Stepping → Type 0
Returned live s = Started s ⊎ (s.head ≡ live)
