-- ===== src/Api/Sagas.antt =====
-- The routes of internal/apiserver/server.go that pass a request on to saga-conductor: abort, saga of
-- an environment, list of sagas. `saga` is `none` where the server has no SagaClient. The bodies of
-- the replies stand for their JSON: json.Marshal cannot fail on them, so that return is left out.
-- A reply of `none` is a connection that is closed without one, after a panic.
pub mod Abort
use env_forge.Prelude.{◌++◌, if◌then◌else◌, List, Option, none, some, Text, lit, is_empty, ℤ, pos}
use env_forge.Environment.{Environment}
use env_forge.Environment.Json.{TimeText}
use env_forge.Environment.Store.{Bucket, Store}
use env_forge.Go.{Result, ok, err, panic, hung, is_not_found, message}
use env_forge.Conductor.{
  SagaStatus, unspecified, SagaExecution, ListSagasRequest, Stub, get_saga, list_sagas, abort_saga,
}
use env_forge.Api.{
  Body, text, saga, sagas, Response, reply, internal_error, prefix_not_found, find_by_prefix,
}

abbrev pub not_configured : Option Response
not_configured = some (reply 503 (text (lit "saga client not configured")))

abbrev pub no_saga : Option Response
no_saga = some (reply 400 (text (lit "environment has no associated saga")))

-- the reply to what the conductor came back with
abbrev pub answer : {A : Type 0} → Text → (A → Body) → Result A → Option Response
answer what body (ok a) = some (reply 200 (body a))
answer what body (err e) = some (reply 500 (text (what ++ lit " failed: " ++ message e)))
answer what body panic = none
answer what body hung = none

module _ {C : Type 0} where
  -- what a handler asks of the conductor for the saga of an environment
  abbrev pub about_saga :
      Text → (Text → C → Result SagaExecution × C) → Environment → C → Option Response × C
  about_saga what ask env c =
      if is_empty env.saga_id
      then (no_saga, c)
      else let (r, c') = ask env.saga_id c in (answer what saga r, c')

  abbrev pub about_env :
      Text
      → (Text → C → Result SagaExecution × C)
      → Text
      → Result Environment
      → C
      → Option Response × C
  about_env what ask prefix (ok env) c = about_saga what ask env c
  about_env what ask prefix (err e) c =
      if is_not_found e then (some (prefix_not_found prefix), c) else (some internal_error, c)
  about_env what ask prefix panic c = (none, c)
  about_env what ask prefix hung c = (none, c)

module _ {B C : Type 0} (b : Bucket B) (t : TimeText) where
  -- POST /envs/{id}/abort
  unfoldable pub handle_abort_env : Option (Stub C) → Text → Store B → C → Option Response × C
  handle_abort_env none prefix s c = (not_configured, c)
  handle_abort_env (some stub) prefix s c =
      about_env (lit "abort") (abort_saga stub) prefix (find_by_prefix b t prefix s) c

  -- GET /envs/{id}/saga
  unfoldable pub handle_get_env_saga : Option (Stub C) → Text → Store B → C → Option Response × C
  handle_get_env_saga none prefix s c = (not_configured, c)
  handle_get_env_saga (some stub) prefix s c =
      about_env (lit "get saga") (get_saga stub) prefix (find_by_prefix b t prefix s) c

-- the query of GET /sagas; a parameter that is not there is empty
pub record Query : Type 0 where
  pub cursor : Text
  pub page_size : Text
  pub status : Text

-- fmt.Sscanf(s, "%d", &n) for an int32, `none` where it fails, and pb.SagaStatus_value
pub record Parsers : Type 0 where
  pub scan : Text → Option ℤ
  pub status_value : Text → Option SagaStatus

abbrev pub int_or_zero : Option ℤ → ℤ
int_or_zero none = pos 0
int_or_zero (some n) = n

abbrev pub status_or_any : Option SagaStatus → SagaStatus
status_or_any none = unspecified
status_or_any (some s) = s

unfoldable pub sagas_request : Parsers → Query → ListSagasRequest
sagas_request parsers q = record {
  page_token = q.cursor;
  page_size = if is_empty q.page_size then pos 0 else int_or_zero (parsers.scan q.page_size);
  status =
      if is_empty q.status
      then unspecified
      else status_or_any (parsers.status_value (lit "SAGA_STATUS_" ++ q.status));
}

module _ {C : Type 0} (parsers : Parsers) where
  -- GET /sagas
  unfoldable pub handle_list_sagas : Option (Stub C) → Query → C → Option Response × C
  handle_list_sagas none q c = (not_configured, c)
  handle_list_sagas (some stub) q c =
      let (r, c') = list_sagas stub (sagas_request parsers q) c in
      (answer (lit "list sagas") (λ (l, next). sagas l next) r, c')
