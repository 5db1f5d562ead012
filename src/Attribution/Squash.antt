-- ===== src/Attribution/Squash.antt =====
-- internal/enrich/attribution/confidence.go on what internal/image/runtime/normalize.go returns: the mark
-- of a squashed layer stands only where the runtime is Kaniko.
use astinus.Base.{◌≡◌, false, List, text_eq, nat_eq, ◌==◌, length}
use astinus.Runtime.{Runtime, NormalizedLayer}
use astinus.Attribution.{looks_squashed}

-- Layers of which none is marked as squashed, and some.
abbrev IsPlain : List NormalizedLayer → Type 0
IsPlain nls = (looks_squashed nls ≡ false) × ((length nls == 0) ≡ false)
