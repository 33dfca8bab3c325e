-- ===== src/Worker.antt =====
-- internal/server/server.go: the step endpoints of forge-worker. A request's body stands for what
-- decoding it gives: its env_id, or `none` if it is no such JSON. A reply of `none` is a connection
-- that is closed without one, after a panic.
pub mod Handle
pub mod Framed
pub mod Recorded
pub mod Idempotence
pub mod Progress
pub mod Pipeline
pub mod Rollback
pub mod Cascade
pub mod Renewed
pub mod Proxy
use env_forge.Prelude.{
  ℕ, if◌then◌else◌, Bool, true, false, List, [], ◌∷◌, ◌++◌, Option, none, some, Text, lit, is_empty,
  text_eq,
}
use env_forge.Environment.{Environment}
use env_forge.Go.{Result, ok, err, panic, hung, message, is_not_found}
use env_forge.Cloud.{Call}
use env_forge.Action.{StateClient, Run, Action}
use env_forge.Steps.{Step}

pub record Response : Type 0 where
  pub code : ℕ
  pub body : Text

-- an observation of metrics.StepDuration, by its labels
pub record Observation : Type 0 where
  pub step : Text
  pub operation : Text
  pub failed : Bool

-- what a request may change: the state behind the client, the calls made, the metrics
pub record Worker (D : Type 0) : Type 0 where
  pub db : D
  pub calls : List Call
  pub observed : List Observation

abbrev pub Reply : Type 0 → Type 0
Reply D = Option Response × Worker D

abbrev pub respond : {D : Type 0} → ℕ → Text → Worker D → Reply D
respond code body w = (some (record { code = code; body = body }), w)

-- s.allSteps[name]: a later step takes the place of an earlier one of its name
unfoldable pub find_step : {D : Type 0} → Text → List (Step D) → Option (Step D)
find_step name [] = none
find_step name (step ∷ steps) = elim (find_step name steps) [
  | some later ↦ some later
  | none ↦ if text_eq step.name name then some step else none
]

-- a route of the worker's mux: POST to the path runs the step, forward or backward
pub record Route : Type 0 where
  pub path : Text
  pub step : Text
  pub compensate : Bool

-- the loop of New over the steps
unfoldable pub routes : {D : Type 0} → List (Step D) → List Route
routes [] = []
routes (step ∷ steps) =
    record { path = lit "/steps/" ++ step.name; step = step.name; compensate = false }
    ∷ record {
      path = lit "/steps/" ++ step.name ++ lit "/compensate";
      step = step.name;
      compensate = true;
    }
    ∷ routes steps

module _ {D : Type 0} where
  abbrev pub start : Environment → Worker D → Run D
  start env w = record { env = env; db = w.db; calls = w.calls }

  -- the worker after an action: its database and calls are those of the action
  abbrev pub after : Run D → Worker D → Worker D
  after s w = record w { db = s.db; calls = s.calls }

  abbrev observe : Text → Text → Bool → Worker D → Worker D
  observe step operation failed w = record w {
    observed = w.observed ++ (record { step = step; operation = operation; failed = failed }) ∷ [];
  }

  -- the reply to what Execute or Compensate came back with
  abbrev pub finish : Text → Text → Result (Unit {0}) → Worker D → Reply D
  finish step operation (ok _) w = respond 200 [] (observe step operation false w)
  finish step operation (err e) w = respond 500 (message e) (observe step operation true w)
  finish step operation panic w = (none, w)
  finish step operation hung w = (none, w)

  unfoldable pub run : Text → Text → Action D (Unit {0}) → Run D → Worker D → Reply D
  run step operation action s w = let (r, s') = action s in finish step operation r (after s' w)

  -- the forward branch, on what IsAlreadyDone came back with
  unfoldable pub forward : Step D → Text → Result Bool → Run D → Worker D → Reply D
  forward step name (ok true) s w = respond 200 [] w
  forward step name (ok false) s w = run name (lit "execute") step.execute s w
  forward step name (err e) s w = respond 500 (lit "is_already_done error") w
  forward step name panic s w = (none, w)
  forward step name hung s w = (none, w)

  unfoldable pub dispatch : Step D → Text → Bool → Environment → Worker D → Reply D
  dispatch step name true env w = run name (lit "compensate") step.compensate (start env w) w
  dispatch step name false env w =
      let (done, s) = step.is_already_done (start env w) in forward step name done s (after s w)

module _ {D : Type 0} (c : StateClient D) (steps : List (Step D)) where
  unfoldable pub with_env : Text → Text → Bool → Result Environment → Worker D → Reply D
  with_env env_id name compensate (ok env) w = elim (find_step name steps) [
    | none ↦ respond 404 (lit "unknown step: " ++ name) w
    | some step ↦ dispatch step name compensate env w
  ]
  with_env env_id name compensate (err e) w =
      if is_not_found e
      then respond 404 (lit "environment " ++ env_id ++ lit " not found") w
      else respond 500 (lit "internal error") w
  with_env env_id name compensate panic w = (none, w)
  with_env env_id name compensate hung w = (none, w)

  -- handle(w, r, stepName, compensate)
  unfoldable pub handle : Text → Bool → Option Text → Worker D → Reply D
  handle name compensate none w = respond 400 (lit "invalid payload") w
  handle name compensate (some env_id) w =
      if is_empty env_id
      then respond 400 (lit "missing env_id") w
      else let (r, db) = c.get env_id w.db in
        with_env env_id name compensate r (record w { db = db })
