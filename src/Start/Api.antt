-- ===== src/Start/Api.antt =====
-- run of cmd/forge-api/main.go, up to the point where the server listens.
pub mod Verifier
use env_forge.Prelude.{
  ℕ, zero, suc, if◌then◌else◌, Bool, true, false, Option, none, some, ◌++◌, Text, lit, is_empty,
}
use env_forge.Go.{Error, other, wrap, Result, ok, err, panic, hung}
use env_forge.Environment.Store.{open_store}
use env_forge.Conductor.{new_conductor}
use env_forge.Start.{env_or_default}

-- bolt.Open of a path, the transaction that creates the bucket, and the client of saga-conductor for
-- an address, by their error if they fail; NewVerifier of a URL at an attempt, `none` where it fails;
-- and whether a signal ends the wait after an attempt
pub record Libraries (V : Type 0) : Type 0 where
  pub bolt_open : Text → Option Error
  pub create_bucket : Text → Option Error
  pub dial_conductor : Text → Option Error
  pub new_verifier : Text → ℕ → Option V
  pub is_done : ℕ → Bool

-- what the server is made of; `verifier` is `none` where requests are not validated
pub record Serving (V : Type 0) : Type 0 where
  pub addr : Text
  pub db_path : Text
  pub conductor_addr : Text
  pub worker_url : Text
  pub audience : Text
  pub verifier : Option V

-- fmt.Sprintf("spiffe://%s/ns/default/sa/forge-api", trustDomain)
unfoldable pub audience_of : Text → Text
audience_of trust_domain = lit "spiffe://" ++ trust_domain ++ lit "/ns/default/sa/forge-api"

abbrev pub ended : {A : Type 0} → Result A
ended = err (other (lit "context canceled"))

module _ {V : Type 0} (libs : Libraries V) where
  -- what an attempt and the wait after it make of the loop
  abbrev pub attempted : Option V → Bool → Result (Option V) → Result (Option V)
  attempted (some v) done rest = ok (some v)
  attempted none true rest = ended
  attempted none false rest = rest

  -- the loop over the attempts: those that are left, and the number of the next
  unfoldable pub try_verifier : Text → ℕ → ℕ → Result (Option V)
  try_verifier url zero attempt = ok none
  try_verifier url (suc left) attempt =
      attempted (libs.new_verifier url attempt) (libs.is_done attempt)
        (try_verifier url left (suc attempt))

  unfoldable pub build_verifier : Text → Result (Option V)
  build_verifier url = if is_empty url then ok none else try_verifier url 10 1

  abbrev pub serve : (Text → Text) → Result (Option V) → Result (Serving V)
  serve getenv (ok v) = ok (record {
    addr = env_or_default getenv (lit "STEP_ADDR") (lit ":9090");
    db_path = env_or_default getenv (lit "DB_PATH") (lit "env-forge.db");
    conductor_addr =
        env_or_default getenv (lit "CONDUCTOR_ADDR")
          (lit "saga-conductor.default.svc.cluster.local:8080");
    worker_url =
        env_or_default getenv (lit "FORGE_WORKER_URL")
          (lit "http://forge-worker.default.svc.cluster.local:9091");
    audience = audience_of (env_or_default getenv (lit "TRUST_DOMAIN") (lit "cluster.local"));
    verifier = v;
  })
  serve getenv (err e) = err e
  serve getenv panic = panic
  serve getenv hung = hung

  abbrev pub connect : (Text → Text) → Option Error → Result (Serving V)
  connect getenv (some e) = err (wrap (lit "connect to conductor") e)
  connect getenv none =
      serve getenv (build_verifier (env_or_default getenv (lit "SVIDEXCHANGE_JWKS_URL") (lit "")))

  abbrev pub opened : (Text → Text) → Option Error → Result (Serving V)
  opened getenv (some e) = err (wrap (lit "open store") e)
  opened getenv none = connect getenv (
      new_conductor (
        libs.dial_conductor (
          env_or_default getenv (lit "CONDUCTOR_ADDR")
            (lit "saga-conductor.default.svc.cluster.local:8080"))))

  -- run
  unfoldable pub run : (Text → Text) → Result (Serving V)
  run getenv =
      let db_path = env_or_default getenv (lit "DB_PATH") (lit "env-forge.db") in
      opened getenv (open_store (libs.bolt_open db_path) (libs.create_bucket db_path))
