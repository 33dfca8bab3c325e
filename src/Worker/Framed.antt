-- ===== src/Worker/Framed.antt =====
-- What a request to a step endpoint leaves of the state behind its client: what the step leaves, for
-- every relation that steps respect.
use env_forge.Prelude.{◌≡◌, refl, Bool, true, false, Bool-cases, ◌⊎◌, inl, inr, Text}
use env_forge.Environment.{Environment}
use env_forge.Go.{Result, ok, err, panic, hung, is_not_found}
use env_forge.Cloud.{Oracle}
use env_forge.Action.{StateClient, Run, Action}
use env_forge.Action.Rules.{Keeps}
use env_forge.Steps.{Step}
use env_forge.Steps.All.{Kind, Options, name_of, step_of, build_steps, without}
use env_forge.Steps.Frame.{IsFrame}
use env_forge.Steps.Frame.Every.{execute-Keeps, compensate-Keeps, already_done-Keeps}
use env_forge.Worker.{Worker, start, finish, run, forward, dispatch, with_env}
use env_forge.Worker.Handle.{with_env-eq-dispatch}
use env_forge.Worker.Idempotence.{without-id}

module _ {D : Type 0} where
  finish-db :
      (step operation : Text) (r : Result (Unit {0})) (w : Worker D)
      → (finish step operation r w).1.db ≡ w.db
  finish-db step operation (ok done) w = refl
  finish-db step operation (err e) w = refl
  finish-db step operation panic w = refl
  finish-db step operation hung w = refl

module _ {D : Type 0} (p : Options) (o : Oracle) (c : StateClient D)
    {R : (Environment → Environment) → Run D → Run D → Type 0} (frame : IsFrame c R)
    (k : Kind) where
  abbrev step : Step D
  step = step_of p o c k

  -- the step went from `s` to a state with this behind the client
  abbrev pub Leaves : Run D → D → Type 0
  Leaves s d = (u : Run D) × R (without k) s u × (d ≡ u.db)

  follows : (s u w : Run D) → R (without k) s u → R (without k) u w → R (without k) s w
  follows = (frame.preorder (without k) (without-id k)).trans

  run-Leaves :
      (name operation : Text) (m : Action D (Unit {0})) (s u : Run D) (w : Worker D)
      → R (without k) s u
      → Keeps (R (without k)) m
      → Leaves s (run name operation m u w).1.db
  unfolding run
  run-Leaves name operation m s u w r keeps =
      ((m u).1, follows s u (m u).1 r (keeps.at u), finish-db name operation (m u).0 _)

  forward-Leaves :
      (name : Text) (done : Result Bool) (s u : Run D) (w : Worker D)
      → R (without k) s u
      → w.db ≡ u.db
      → Leaves s (forward step name done u w).1.db
  unfolding forward
  forward-Leaves name (ok true) s u w r h = (u, r, h)
  forward-Leaves name (ok false) s u w r h =
      run-Leaves name _ step.execute s u w r (execute-Keeps p o c frame k)
  forward-Leaves name (err e) s u w r h = (u, r, h)
  forward-Leaves name panic s u w r h = (u, r, h)
  forward-Leaves name hung s u w r h = (u, r, h)

  dispatch-Leaves :
      (name : Text) (compensate : Bool) (env : Environment) (w : Worker D)
      → Leaves (start env w) (dispatch step name compensate env w).1.db
  unfolding dispatch
  dispatch-Leaves name true env w =
      run-Leaves name _ step.compensate (start env w) (start env w) w
        ((frame.preorder (without k) (without-id k)).rfl (start env w))
        (compensate-Keeps p o c frame k)
  dispatch-Leaves name false env w =
      forward-Leaves name _ (start env w) _ _ ((already_done-Keeps p o c frame k).at (start env w))
        refl

  -- the request read an environment and ran the step on it, or the store is as it was
  pub with_env-Leaves :
      (env_id : Text) (compensate : Bool) (r : Result Environment) (w : Worker D)
      → ((env : Environment) × (r ≡ ok env)
          × Leaves
              (start env w)
              (with_env c (build_steps p o c) env_id (name_of k) compensate r w).1.db)
        ⊎ ((with_env c (build_steps p o c) env_id (name_of k) compensate r w).1.db ≡ w.db)
  unfolding with_env
  with_env-Leaves env_id compensate (ok env) w = inl (
    env,
    refl,
    rw (with_env-eq-dispatch p o c k env_id compensate env w)
        (dispatch-Leaves (name_of k) compensate env w),
  )
  with_env-Leaves env_id compensate (err e) w = elim (Bool-cases (is_not_found e)) [
    | inl h ↦ rw h (inr refl)
    | inr h ↦ rw h (inr refl)
  ]
  with_env-Leaves env_id compensate panic w = inr refl
  with_env-Leaves env_id compensate hung w = inr refl
