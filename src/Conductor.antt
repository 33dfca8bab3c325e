-- ===== src/Conductor.antt =====
-- internal/conductor/client.go, over saga-conductor's gRPC client, which is a parameter. A stub keeps
-- a state `C` of its own.
pub mod Routes
use env_forge.Prelude.{ℤ, ℕ, List, [], ◌∷◌, ◌++◌, Option, none, some, Text, lit, slice_to, map}
use env_forge.Environment.{Environment}
use env_forge.Go.{Error, wrap, Result, ok, err, panic, hung, wrapped}

-- pb.SagaStatus
pub data SagaStatus : Type 0 where
  unspecified pending running completed failed aborted compensating compensation_failed : SagaStatus

-- what the code reads of a *pb.StepExecution. A time is its count of seconds. `error_detail` is what
-- decoding the bytes of that name gives, its http_status_code and its response_body, and `none` if
-- there are none or they are no such JSON; `status` is what `%s` prints of the status.
pub record StepExecution : Type 0 where
  pub name : Text
  pub status : Text
  pub started_at : Option ℤ
  pub completed_at : Option ℤ
  pub error : Text
  pub error_detail : Option (ℤ × Text)

-- what the code reads of a *pb.SagaExecution
pub record SagaExecution : Type 0 where
  pub id : Text
  pub status : SagaStatus
  pub failed_step : Text
  pub created_at : Option ℤ
  pub steps : List StepExecution

-- pb.ListSagasRequest
pub record ListSagasRequest : Type 0 where
  pub page_token : Text
  pub page_size : ℤ
  pub status : SagaStatus

-- pb.StepDefinition
pub record StepDefinition : Type 0 where
  pub name : Text
  pub forward_url : Text
  pub compensate_url : Text
  pub timeout_seconds : ℕ
  pub max_retries : ℕ
  pub retry_backoff_ms : ℕ

-- pb.CreateSagaRequest; its payload is the JSON object with the one member env_id
pub record CreateSagaRequest : Type 0 where
  pub name : Text
  pub idempotency_key : Text
  pub saga_timeout_seconds : ℕ
  pub steps : List StepDefinition
  pub env_id : Text

-- saga-conductor's client
pub record Stub (C : Type 0) : Type 0 where
  pub create_saga : CreateSagaRequest → C → Result Text × C
  pub start_saga : Text → C → Result (Option SagaExecution) × C
  pub get_saga : Text → C → Result SagaExecution × C
  pub list_sagas : ListSagasRequest → C → Result (List SagaExecution × Text) × C
  pub abort_saga : Text → C → Result SagaExecution × C

-- New, by its error: from that of saga-conductor's client
unfoldable pub new_conductor : Option Error → Option Error
new_conductor (some e) = some (wrap (lit "dial saga-conductor") e)
new_conductor none = none

-- stepSpec
pub record StepSpec : Type 0 where
  pub name : Text
  pub fwd : Text
  pub comp : Text
  pub timeout_seconds : ℕ
  pub max_retries : ℕ
  pub retry_backoff_ms : ℕ

abbrev pub spec : Text → Text → Text → ℕ → ℕ → ℕ → StepSpec
spec name fwd comp timeout retries backoff = record {
  name = name;
  fwd = fwd;
  comp = comp;
  timeout_seconds = timeout;
  max_retries = retries;
  retry_backoff_ms = backoff;
}

-- the table `specs`
unfoldable pub specs : List StepSpec
specs =
    spec (lit "vpc") (lit "/steps/vpc") (lit "/steps/vpc/compensate") 30 2 500
    ∷ spec (lit "rds") (lit "/steps/rds") (lit "/steps/rds/compensate") 600 3 2000
    ∷ spec (lit "ec2") (lit "/steps/ec2") (lit "/steps/ec2/compensate") 300 3 2000
    ∷ spec (lit "s3") (lit "/steps/s3") (lit "/steps/s3/compensate") 30 2 500
    ∷ spec (lit "identity") (lit "/steps/identity") (lit "/steps/identity/compensate") 30 2 500
    ∷ spec (lit "config") (lit "/steps/config") (lit "/steps/config/compensate") 30 2 500
    ∷ spec (lit "health") (lit "/steps/health") (lit "/steps/health/compensate") 60 1 1000
    ∷ spec (lit "registry") (lit "/steps/registry") (lit "/steps/registry/compensate") 10 1 200
    ∷ []

abbrev pub definition_of : Text → StepSpec → StepDefinition
definition_of self_url sp = record {
  name = sp.name;
  forward_url = self_url ++ sp.fwd;
  compensate_url = self_url ++ sp.comp;
  timeout_seconds = sp.timeout_seconds;
  max_retries = sp.max_retries;
  retry_backoff_ms = sp.retry_backoff_ms;
}

unfoldable pub build_step_defs : Text → List StepDefinition
unfolding specs
build_step_defs self_url = map (definition_of self_url) specs

unfoldable pub saga_request : Text → Environment → Text → CreateSagaRequest
saga_request self_url env short = record {
  name = lit "provision-env-" ++ short;
  idempotency_key = lit "env-" ++ env.id;
  saga_timeout_seconds = 300;
  steps = build_step_defs self_url;
  env_id = env.id;
}

module _ {C : Type 0} (stub : Stub C) (self_url : Text) where
  abbrev create_with : Environment → Option Text → C → Result Text × C
  create_with env none c = (panic, c)
  create_with env (some short) c =
      let (r, c') = stub.create_saga (saga_request self_url env short) c in
      (wrapped (lit "create saga") r, c')

  -- CreateEnvSaga
  unfoldable pub create_env_saga : Environment → C → Result Text × C
  create_env_saga env c = create_with env (slice_to env.id 8) c

  -- StartEnvSaga
  unfoldable pub start_env_saga : Text → C → Result (Option SagaExecution) × C
  start_env_saga saga_id c =
      let (r, c') = stub.start_saga saga_id c in (wrapped (lit "start saga") r, c')

module _ {C : Type 0} (stub : Stub C) where
  -- GetSaga, ListSagas and AbortSaga
  unfoldable pub get_saga : Text → C → Result SagaExecution × C
  get_saga saga_id c = stub.get_saga saga_id c

  unfoldable pub list_sagas : ListSagasRequest → C → Result (List SagaExecution × Text) × C
  list_sagas req c = stub.list_sagas req c

  unfoldable pub abort_saga : Text → C → Result SagaExecution × C
  abort_saga saga_id c = stub.abort_saga saga_id c
