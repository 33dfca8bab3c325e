-- ===== src/Start.antt =====
-- run of cmd/forge-api/main.go and run of cmd/forge-worker/main.go: what the two servers are started
-- with. `getenv` is os.Getenv. What the libraries open and dial are parameters, `none` and an error
-- where they fail; closing at the end is left out.
pub mod Api
pub mod Worker
pub mod Audience
use env_forge.Prelude.{Bool, true, false, Text, lit, is_empty}

-- envOrDefault, the same in the three commands
unfoldable pub env_or_default : (Text → Text) → Text → Text → Text
env_or_default getenv key default = elim (is_empty (getenv key)) [
  | true ↦ default
  | false ↦ getenv key
]
