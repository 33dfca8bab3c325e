-- ===== src/Tests/Startup.antt =====
-- The theorems on what the servers are started with, at concrete inputs.
use env_forge.Prelude.{
  ◌≡◌, ◌↔◌, ◌⊎◌, true, false, Option, none, some, Text, lit, is_empty, ℕ, ◌==◌, if◌then◌else◌,
}
use env_forge.Go.{ok}
use env_forge.Start.Api.{Libraries, audience_of, build_verifier}
use env_forge.Start.Api.Verifier.{Fail, build_verifier-none}
use env_forge.Start.Worker.{target_service}
use env_forge.Start.Audience.{audience_of-eq-target_service}

audience_of-eq-target_service_example :
    (audience_of (lit "cluster.local") ≡ target_service)
    ↔ (lit "cluster.local" ≡ lit "cluster.local")
audience_of-eq-target_service_example = audience_of-eq-target_service (lit "cluster.local")

-- the keys are there at the second attempt
abbrev at_second : ℕ → Option Text
at_second n = if n == 2 then some (lit "keys") else none

unfoldable late_keys : Libraries Text
late_keys = record {
  bolt_open = λ path. none;
  create_bucket = λ path. none;
  dial_conductor = λ addr. none;
  new_verifier = λ url attempt. at_second attempt;
  is_done = λ attempt. false;
}

build_verifier-none_example :
    (build_verifier late_keys (lit "http://keys") ≡ ok none)
    ↔ ((is_empty (lit "http://keys") ≡ true) ⊎ Fail late_keys (lit "http://keys") 1 10)
build_verifier-none_example = build_verifier-none late_keys (lit "http://keys")
