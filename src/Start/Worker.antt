-- ===== src/Start/Worker.antt =====
-- run and buildStateClient of cmd/forge-worker/main.go, up to the point where the server listens, and
-- LoadClients of internal/aws/session.go.
use env_forge.Prelude.{
  ℕ, Bool, true, false, ◌||◌, ◌⊎◌, inl, inr, Option, none, some, List, [], ◌∷◌, Text, lit, is_empty,
}
use env_forge.Go.{Error, other, wrap, Result, ok, err, panic, hung}
use env_forge.Steps.All.{Options}
use env_forge.Start.{env_or_default}

-- svidclient.Options
pub record ExchangeOptions : Type 0 where
  pub addr : Text
  pub spiffe_socket : Text
  pub target_service : Text
  pub scopes : List Text
  pub ttl_seconds : ℕ

-- credentials of the connection to svid-exchange's admin API
pub data Creds (X : Type 0) : Type 0 where
  insecure : Creds X
  mtls : X → Creds X

-- svidclient.New and workloadapi.NewX509Source, `none` where they fail, config.LoadDefaultConfig, by
-- the region that it loads, and grpc.NewClient
pub record Libraries (E X G : Type 0) : Type 0 where
  pub new_exchange : ExchangeOptions → Option E
  pub load_config : Error ⊎ Text
  pub new_x509 : Text → Option X
  pub new_grpc : Text → Creds X → Result G

-- LoadClients of internal/aws/session.go, by the region of its clients
unfoldable pub load_clients : Error ⊎ Text → Error ⊎ Text
load_clients (inl e) = inl (wrap (lit "load aws config") e)
load_clients (inr region) = elim (is_empty region) [
  | true ↦ inl (other (lit "AWS_REGION must be set"))
  | false ↦ inr region
]

-- an error that is only logged
abbrev pub unless_failed : {A : Type 0} → Error ⊎ A → Option A
unless_failed (inl e) = none
unless_failed (inr a) = some a

abbrev pub target_service : Text
target_service = lit "spiffe://cluster.local/ns/default/sa/forge-api"

abbrev pub exchange_options : Text → Text → ExchangeOptions
exchange_options spiffe_socket svid_addr = record {
  addr = svid_addr;
  spiffe_socket = spiffe_socket;
  target_service = target_service;
  scopes = lit "env:read" ∷ lit "env:write" ∷ [];
  ttl_seconds = 3600;
}

-- What the server is made of: the state client, whose `exchange` is `none` where it sends no token,
-- what the steps are built from, and the connection to svid-exchange.
pub record Serving (E G : Type 0) : Type 0 where
  pub addr : Text
  pub api_url : Text
  pub exchange : Option E
  pub options : Options
  pub admin : Option G

module _ {E X G : Type 0} (libs : Libraries E X G) where
  -- buildStateClient
  unfoldable pub build_state_client : Text → Text → Option E
  build_state_client spiffe_socket svid_addr = elim (is_empty spiffe_socket || is_empty svid_addr) [
    | true ↦ none
    | false ↦ libs.new_exchange (exchange_options spiffe_socket svid_addr)
  ]

  -- the AWS clients of run, by their region
  unfoldable pub load_aws : Text → Option Text
  load_aws aws_region = elim (is_empty aws_region) [
    | true ↦ none
    | false ↦ unless_failed (load_clients libs.load_config)
  ]

  abbrev pub x509_creds : Option X → Creds X
  x509_creds none = insecure
  x509_creds (some src) = mtls src

  unfoldable pub admin_creds : Text → Creds X
  admin_creds spiffe_socket = elim (is_empty spiffe_socket) [
    | true ↦ insecure
    | false ↦ x509_creds (libs.new_x509 spiffe_socket)
  ]

  abbrev pub dialled : Result G → Result (Option G)
  dialled (ok conn) = ok (some conn)
  dialled (err e) = err (wrap (lit "dial svid-exchange admin") e)
  dialled panic = panic
  dialled hung = hung

  unfoldable pub dial_admin : Text → Text → Result (Option G)
  dial_admin admin_addr spiffe_socket = elim (is_empty admin_addr) [
    | true ↦ ok none
    | false ↦ dialled (libs.new_grpc admin_addr (admin_creds spiffe_socket))
  ]

  -- region of buildSteps
  abbrev pub region_of : (Text → Text) → Option Text → Text
  region_of getenv none = env_or_default getenv (lit "AWS_REGION") (lit "us-east-1")
  region_of getenv (some region) = region

  abbrev pub is_some : {A : Type 0} → Option A → Bool
  is_some none = false
  is_some (some a) = true

  abbrev pub serve : ℕ → (Text → Text) → Result (Option G) → Result (Serving E G)
  serve fuel getenv (ok admin) = ok (record {
    addr = env_or_default getenv (lit "WORKER_ADDR") (lit ":9091");
    api_url =
        env_or_default getenv (lit "FORGE_API_URL")
          (lit "http://forge-api.default.svc.cluster.local:9090");
    exchange =
        build_state_client (env_or_default getenv (lit "SPIFFE_ENDPOINT_SOCKET") (lit ""))
          (env_or_default getenv (lit "SVIDEXCHANGE_ADDR") (lit ""));
    options = record {
      fuel = fuel;
      region = region_of getenv (load_aws (getenv (lit "AWS_REGION")));
      connected = is_some admin;
      settings = record {
        svid_exchange_addr = env_or_default getenv (lit "SVIDEXCHANGE_ADDR") (lit "");
        trust_domain = env_or_default getenv (lit "TRUST_DOMAIN") (lit "cluster.local");
        local_env_dir = env_or_default getenv (lit "LOCAL_ENV_DIR") (lit "/tmp/envfiles");
      };
    };
    admin = admin;
  })
  serve fuel getenv (err e) = err e
  serve fuel getenv panic = panic
  serve fuel getenv hung = hung

  -- run; `fuel` is the bound on the pages that the S3 step reads
  unfoldable pub run : ℕ → (Text → Text) → Result (Serving E G)
  run fuel getenv = serve fuel getenv (
      dial_admin (env_or_default getenv (lit "SVIDEXCHANGE_ADMIN_ADDR") (lit ""))
        (env_or_default getenv (lit "SPIFFE_ENDPOINT_SOCKET") (lit "")))
