-- ===== src/Worker/Handle.antt =====
-- What the handler of a step endpoint comes down to for a step that buildSteps built.
use env_forge.Prelude.{◌≡◌, refl, Bool, true, false, some, Text, lit, is_empty, text_eq}
use env_forge.Environment.{Environment}
use env_forge.Go.{ok}
use env_forge.Cloud.{Oracle}
use env_forge.Action.{StateClient, IsStateClient}
use env_forge.Steps.All.{Kind, vpc, Options, name_of, step_of, build_steps}
use env_forge.Steps.Done.{is_done, is_already_done-dry}
use env_forge.Worker.{Worker, find_step, start, forward, dispatch, with_env, handle}

module _ {D : Type 0} (p : Options) (o : Oracle) (c : StateClient D) where
  -- each of the eight names finds its step
  pub find_step-build_steps :
      (k : Kind) → find_step (name_of k) (build_steps p o c) ≡ some (step_of p o c k)
  unfolding find_step build_steps name_of lit text_eq step_of
  find_step-build_steps vpc = refl
  find_step-build_steps _ = refl

  pub with_env-eq-dispatch :
      (k : Kind) (env_id : Text) (compensate : Bool) (env : Environment) (w : Worker D)
      → with_env c (build_steps p o c) env_id (name_of k) compensate (ok env) w
        ≡ dispatch (step_of p o c k) (name_of k) compensate env w
  unfolding with_env
  with_env-eq-dispatch k env_id compensate env w = rw (find_step-build_steps k, with_env) refl

  pub handle-eq-dispatch :
      IsStateClient c
      → (k : Kind) (env_id : Text) (compensate : Bool) (env : Environment) (w : Worker D)
      → is_empty env_id ≡ false
      → (c.get env_id w.db).0 ≡ ok env
      → handle c (build_steps p o c) (name_of k) compensate (some env_id) w
        ≡ dispatch (step_of p o c k) (name_of k) compensate env w
  unfolding handle
  handle-eq-dispatch laws k env_id compensate env w n found =
      rw (n, found, laws.get_keeps) (with_env-eq-dispatch k env_id compensate env w)

  pub dispatch-dry :
      (k : Kind) (env : Environment) (w : Worker D)
      → env.dry_run ≡ true
      → dispatch (step_of p o c k) (name_of k) false env w
        ≡ forward (step_of p o c k) (name_of k) (ok (is_done k env)) (start env w) w
  unfolding dispatch
  dispatch-dry k env w h = rw (is_already_done-dry p o c k (start env w) h) refl
