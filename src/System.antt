-- ===== src/System.antt =====
-- forge-api while it serves: its store, which requests, provision goroutines and workers change in any
-- order (handleCreateEnv, its goroutine, handleInternalGetEnv and handleInternalPutEnv of
-- internal/apiserver/server.go, Provision of cmd/forge-api/main.go). A transaction of the store is one
-- step, and between any two of them others may come.
pub mod Moves
pub mod Reached
pub mod Ready
pub mod RolledBack
pub mod Requests
pub mod Served
pub mod Handled
use mathlib.Core.List.{Memᴰ}
use env_forge.Prelude.{◌≡◌, ℕ, List, [], ◌∷◌, ◌++◌, Option, none, some, Text}
use env_forge.Environment.{Environment}
use env_forge.Environment.Json.{TimeText}
use env_forge.Environment.Origin.{origin}
use env_forge.Environment.Store
use env_forge.Environment.Store.{Bucket, Store}
use env_forge.Go.{Result, ok, err, panic, hung, not_found}
use env_forge.Conductor.{SagaExecution, Stub}
use env_forge.Api.{CreateRequest, Created, handle_create_env}
use env_forge.Api.Internal.{Verifier, handle_internal_put}
use env_forge.Api.Provision.{Begun, begin, conclude, provision_result}

-- a provision goroutine: before CreateSaga, or in StartSaga for the saga of the id
pub data Task : Type 0 where
  spawned : Environment → Task
  blocked : Text → Environment → Task

abbrev pub env_of : Task → Environment
env_of (spawned env) = env
env_of (blocked saga_id env) = env

-- `read` are the environments that requests to workers have read and still work on
pub record System (B C : Type 0) : Type 0 where
  pub store : Store B
  pub conductor : C
  pub tasks : List Task
  pub read : List Environment

-- forge-api before it serves, on a store that it has opened
abbrev pub opened : {B C : Type 0} → Store B → C → System B C
opened st c = record { store = st; conductor = c; tasks = []; read = [] }

abbrev pub task_of : Option Environment → List Task
task_of none = []
task_of (some env) = spawned env ∷ []

module _ {B C : Type 0} (b : Bucket B) (t : TimeText) (stub : Stub C) (self_url : Text) where
  -- a POST to /envs/create, up to its reply
  abbrev pub after_create : Created b t → System B C → System B C
  after_create r s = record s { store = r.store; tasks = task_of r.spawned ++ s.tasks }

  -- the goroutine after its part before StartSaga
  abbrev pub begun :
      Result Text → Begun b t stub self_url → List Task → List Task → System B C → System B C
  begun (ok saga_id) g before after s = record s {
    store = g.store;
    conductor = g.conductor;
    tasks = before ++ (blocked saga_id g.env ∷ after);
  }
  begun (err e) g before after s = record s {
    store = (conclude b t (err e) g.env g.store).0;
    conductor = g.conductor;
    tasks = before ++ after;
  }
  begun panic g before after s = record s {
    store = g.store;
    conductor = g.conductor;
    tasks = before ++ after;
  }
  begun hung g before after s = record s {
    store = g.store;
    conductor = g.conductor;
    tasks = before ++ after;
  }

  module _ {K : Type 0} (v : Option (Verifier K)) where
    pub data Step (s : System B C) : System B C → Type 0 where
      -- a request to create, whose new UUID is the id of no environment yet
      create :
          (body : Option CreateRequest) (id : Text)
          → (Store.get b t id s.store).0 ≡ err not_found
          → Step s (after_create (handle_create_env b t body id s.store) s)
      -- a goroutine comes to its call of StartSaga, or ends before
      start :
          (before after : List Task) (env : Environment)
          → s.tasks ≡ before ++ (spawned env ∷ after)
          → Step s (
              let g = begin b t stub self_url env s.store s.conductor in
              begun g.result g before after s)
      -- StartSaga returns, with anything, and the goroutine ends
      finish :
          (before after : List Task) (saga_id : Text) (env : Environment)
          (ended : Result (Option SagaExecution))
          → s.tasks ≡ before ++ (blocked saga_id env ∷ after)
          → Step s (record s {
            store = (conclude b t (provision_result ended) env s.store).0;
            tasks = before ++ after;
          })
      -- a request to a worker reads its environment
      fetch :
          (id : Text) (env : Environment)
          → (Store.get b t id s.store).0 ≡ ok env
          → Step s (record s { read = env ∷ s.read })
      -- a request to a worker puts an environment with the origin of the one that it has read
      save :
          (header : Option Text) (env x : Environment)
          → Memᴰ env s.read
          → origin x ≡ origin env
          → Step s (record s { store = (handle_internal_put b t v header (some x) s.store).1 })
      -- a request to a worker ends
      leave :
          (before after : List Environment)
          → (env : Environment) → s.read ≡ before ++ (env ∷ after)
          → Step s (record s { read = before ++ after })
      -- time goes on
      wait : (now : ℕ) → Step s (record s { store = record s.store { now = now } })
      -- forge-conductor goes on
      conduct : (c : C) → Step s (record s { conductor = c })
      -- forge-api starts again, on the store as it is
      restart : Step s (record s { tasks = [] })

    pub data Reach (s : System B C) : System B C → Type 0 where
      here : Reach s s
      next : {u w : System B C} → Reach s u → Step u w → Reach s w
