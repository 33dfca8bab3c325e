-- ===== src/Worker/Idempotence.antt =====
-- A forward request that is sent again, as saga-conductor does after a crash.
use mathlib.Core.Path.{subst}
use env_forge.Prelude.{
  ℕ, ◌≡◌, ◌≢◌, refl, sym, ap, ◌∙◌, Bool, true, false, Bool-cases, inl, inr, [], Option, none, some,
  arith, Text, lit, is_empty,
}
use env_forge.Environment.{Environment}
use env_forge.Go.{Result, ok, err, panic, hung}
use env_forge.Cloud.{Oracle}
use env_forge.Action.{StateClient, IsStateClient, Run}
use env_forge.Steps.All.{Kind, vpc, health, Options, name_of, step_of, build_steps, without}
use env_forge.Steps.Done.{is_done, is_done-unstamped, execute-is_done}
use env_forge.Steps.Frame.{outside}
use env_forge.Steps.Frame.Every.{step-IsWithin}
use env_forge.Steps.Saved.{execute-IsSaved}
use env_forge.Worker.{Response, Worker, Reply, after, start, finish, run, forward, handle}
use env_forge.Worker.Handle.{handle-eq-dispatch, dispatch-dry}

abbrev pub done : Response
done = record { code = 200; body = [] }

abbrev code_of : Option Response → ℕ
code_of none = 0
code_of (some r) = r.code

-- what a step leaves alone includes the id and the flag of a dry run
pub without-id : (k : Kind) (e : Environment) → (outside (without k) e).id ≡ e.id
without-id vpc e = refl
without-id _ e = refl

pub without-dry_run : (k : Kind) (e : Environment) → (outside (without k) e).dry_run ≡ e.dry_run
without-dry_run vpc e = refl
without-dry_run _ e = refl

module _ {D : Type 0} (p : Options) (o : Oracle) (c : StateClient D) (laws : IsStateClient c) where
  abbrev pub send : Kind → Text → Worker D → Reply D
  send k env_id w = handle c (build_steps p o c) (name_of k) false (some env_id) w

  pub send-eq-forward :
      (k : Kind) (env_id : Text) (env : Environment) (w : Worker D)
      → is_empty env_id ≡ false
      → (c.get env_id w.db).0 ≡ ok env
      → env.dry_run ≡ true
      → send k env_id w ≡ forward (step_of p o c k) (name_of k) (ok (is_done k env)) (start env w) w
  send-eq-forward k env_id env w n found dry =
      handle-eq-dispatch p o c laws k env_id false env w n found ∙ dispatch-dry p o c k env w dry

  -- a step that is done already changes nothing
  send-done :
      (k : Kind) (env_id : Text) (env : Environment) (w : Worker D)
      → is_empty env_id ≡ false
      → (c.get env_id w.db).0 ≡ ok env
      → env.dry_run ≡ true
      → is_done k env ≡ true
      → send k env_id w ≡ (some done, w)
  unfolding forward
  send-done k env_id env w n found dry marked =
      rw (send-eq-forward k env_id env w n found dry, marked) refl

  -- the state that a 200 of `run` leaves comes from an action without an error
  code-ne :
      (n : ℕ) (e : Text)
      → n ≢ 200
      → ◌≢◌ {A = Option Response} (some (record { code = n; body = e })) (some done)
  code-ne n e differs h = differs (ap code_of h)

  pub finish-200 :
      (step operation : Text) (r : Result (Unit {0})) (w : Worker D)
      → (finish step operation r w).0 ≡ some done
      → r ≡ ok tt
  finish-200 step operation (ok tt) w h = refl
  finish-200 step operation (err e) w h = absurd (code-ne 500 _ (omega arith) h)
  finish-200 step operation panic w h = cc
  finish-200 step operation hung w h = cc

  pub finish-db :
      (step operation : Text) (r : Result (Unit {0})) (w : Worker D)
      → (finish step operation r w).1.db ≡ w.db
  finish-db step operation (ok tt) w = refl
  finish-db step operation (err e) w = refl
  finish-db step operation panic w = refl
  finish-db step operation hung w = refl

  handle_blank :
      (k : Kind) (env_id : Text) (w : Worker D)
      → is_empty env_id ≡ true
      → (send k env_id w).0 ≢ some done
  unfolding handle
  handle_blank k env_id w blank h =
      code-ne 400 (lit "missing env_id") (omega arith) (rw (blank, handle) at h)

  -- running a step that succeeds leaves, in the store, an environment that is marked as done
  run_marks :
      (k : Kind) (env : Environment) (w : Worker D)
      → k ≢ health
      → env.dry_run ≡ true
      → (run (name_of k) (lit "execute") (step_of p o c k).execute (start env w) w).0 ≡ some done
      → (stored : Environment) × ((c.get env.id
            (run (name_of k) (lit "execute") (step_of p o c k).execute (start env w) w).1.db).0
          ≡ ok stored)
        × (stored.dry_run ≡ true)
        × (is_done k stored ≡ true)
  unfolding run
  run_marks k env w n dry h =
      let s : Run D = start env w in
      let s' : Run D = ((step_of p o c k).execute s).1 in
      let ended = finish-200 _ _ ((step_of p o c k).execute s).0 _ h in
      let (stored, found, same) = execute-IsSaved p o c laws k s n ended in
      let kept = (step-IsWithin p o c laws k s).0 in
      let same_id : s'.env.id ≡ env.id =
        sym (without-id k s'.env) ∙ ap (λ e. e.id) kept.env ∙ without-id k env in
      let same_dry : s'.env.dry_run ≡ env.dry_run =
        sym (without-dry_run k s'.env) ∙ ap (λ e. e.dry_run) kept.env ∙ without-dry_run k env in
      (
        stored,
        rw (finish-db (name_of k) (lit "execute") ((step_of p o c k).execute s).0 (after s' w))
            (subst (λ i. (c.get i s'.db).0 ≡ ok stored) same_id found),
        ap (λ e. e.dry_run) same ∙ same_dry ∙ dry,
        is_done-unstamped k s'.env stored same ∙ execute-is_done p o c laws k s n dry ended,
      )

  forward_again :
      (k : Kind) (env_id : Text) (env : Environment) (w : Worker D) (marked : Bool)
      → k ≢ health
      → is_empty env_id ≡ false
      → (c.get env_id w.db).0 ≡ ok env
      → env.id ≡ env_id
      → env.dry_run ≡ true
      → is_done k env ≡ marked
      → (forward (step_of p o c k) (name_of k) (ok marked) (start env w) w).0 ≡ some done
      → send k env_id (forward (step_of p o c k) (name_of k) (ok marked) (start env w) w).1
        ≡ (some done, (forward (step_of p o c k) (name_of k) (ok marked) (start env w) w).1)
  unfolding forward
  forward_again k env_id env w true n full found same_id dry marked h =
      send-done k env_id env w full found dry marked
  forward_again k env_id env w false n full found same_id dry marked h =
      let (stored, saved, still_dry, now_done) = run_marks k env w n dry h in
      send-done k env_id stored _ full (rw (← same_id) saved) still_dry now_done

  -- In a dry run, for every step but health: if a forward request for the environment that is stored
  -- under `env_id` was answered 200 with no body, then the same request sent again is answered the
  -- same and changes nothing: no store, no call of a service, no metric.
  pub forward_idempotent :
      (k : Kind) (env_id : Text) (env : Environment) (w : Worker D)
      → k ≢ health
      → (c.get env_id w.db).0 ≡ ok env
      → env.id ≡ env_id
      → env.dry_run ≡ true
      → (send k env_id w).0 ≡ some done
      → send k env_id (send k env_id w).1 ≡ (some done, (send k env_id w).1)
  forward_idempotent k env_id env w n found same_id dry h = elim (Bool-cases (is_empty env_id)) [
    | inl blank ↦ absurd (handle_blank k env_id w blank h)
    | inr full ↦ rw (send-eq-forward k env_id env w full found dry) (
        forward_again k env_id env w (is_done k env) n full found same_id dry refl
          (rw (send-eq-forward k env_id env w full found dry) at h))
  ]
