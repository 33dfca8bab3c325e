-- ===== src/Api/Provision.antt =====
-- The goroutine that POST /envs/create starts, and conductorProvisioner.Provision of
-- cmd/forge-api/main.go, which it runs. StartSaga blocks until the saga has ended. Until then other
-- requests change the store, so the goroutine is two functions: up to that call, and after it.
pub mod Ending
use env_forge.Prelude.{ℕ, Bool, true, false, List, [], ◌∷◌, ◌++◌, Option, none, some, Text, lit}
use env_forge.Environment.{Environment, status_failed}
use env_forge.Environment.Json.{TimeText}
use env_forge.Environment.Store
use env_forge.Environment.Store.{Bucket, Store}
use env_forge.Go.{Error, other, wrap, Result, ok, err, panic, hung, wrapped}
use env_forge.Go.Format.{quote}
use env_forge.Conductor.{SagaStatus, failed, SagaExecution, Stub, create_env_saga, start_env_saga}

-- the labels of metrics.SagaOutcome that are counted
pub data Outcome : Type 0 where
  success failure : Outcome

-- exec.Status == pb.SagaStatus_SAGA_STATUS_FAILED
abbrev pub is_failed : SagaStatus → Bool
is_failed failed = true
is_failed _ = false

-- how Provision returns from what StartSaga came back with; `none` is a nil execution
unfoldable pub provision_result : Result (Option SagaExecution) → Result (Unit {0})
provision_result (ok none) = ok tt
provision_result (ok (some exec)) = elim (is_failed exec.status) [
  | true ↦ err (
      other (
        lit "saga failed: step " ++ quote exec.failed_step ++ lit " failed, compensation complete"))
  | false ↦ ok tt
]
provision_result (err e) = err e
provision_result panic = panic
provision_result hung = hung

abbrev pub named : Text → Result (Unit {0}) → Result Text
named saga_id (ok _) = ok saga_id
named saga_id (err e) = err e
named saga_id panic = panic
named saga_id hung = hung

abbrev pub give_up : Environment → Environment
give_up env = record env { status = status_failed }

-- what the goroutine does with Provision's result: the store, and what is counted
module _ {B : Type 0} (b : Bucket B) (t : TimeText) where
  unfoldable pub conclude : Result (Unit {0}) → Environment → Store B → Store B × Option Outcome
  conclude (ok _) env s = (s, some success)
  conclude (err e) env s = ((Store.put b t (give_up env) s).2, some failure)
  conclude panic env s = (s, none)
  conclude hung env s = (s, none)

module _ {B C : Type 0} (b : Bucket B) (t : TimeText) (stub : Stub C) (self_url : Text) where
  -- the goroutine before StartSaga: the saga's id, or the error that Provision returns
  pub record Begun : Type 0 where
    pub result : Result Text
    pub env : Environment
    pub store : Store B
    pub conductor : C

  abbrev pub persist : Result Text → Environment → Store B → C → Begun
  persist (ok saga_id) env s c =
      let (r, env', s') = Store.put b t (record env { saga_id = saga_id }) s in
      record {
        result = named saga_id (wrapped (lit "persist saga ID") r);
        env = env';
        store = s';
        conductor = c;
      }
  persist (err e) env s c = record { result = err e; env = env; store = s; conductor = c }
  persist panic env s c = record { result = panic; env = env; store = s; conductor = c }
  persist hung env s c = record { result = hung; env = env; store = s; conductor = c }

  unfoldable pub begin : Environment → Store B → C → Begun
  begin env s c = let (r, c') = create_env_saga stub self_url env c in persist r env s c'

  -- the goroutine after its first part; `between` is what other requests do while StartSaga blocks
  abbrev pub resume : (Store B → Store B) → Result Text → Begun → Store B × Option Outcome
  resume between (ok saga_id) g =
      conclude b t (provision_result (start_env_saga stub self_url saga_id g.conductor).0) g.env
        (between g.store)
  resume between (err e) g = conclude b t (err e) g.env g.store
  resume between panic g = conclude b t panic g.env g.store
  resume between hung g = conclude b t hung g.env g.store

  unfoldable pub provision :
      (Store B → Store B) → Environment → Store B → C → Store B × Option Outcome
  provision between env s c = let g = begin env s c in resume between g.result g
