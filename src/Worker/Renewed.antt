-- ===== src/Worker/Renewed.antt =====
-- A forward request after the compensation of its step.
use mathlib.Core.Path.{subst}
use env_forge.Prelude.{◌≡◌, refl, sym, ap, ◌∙◌, Bool, true, false, not, some, Text, lit, is_empty}
use env_forge.Environment.{Environment}
use env_forge.Environment.Origin.{origin}
use env_forge.Go.{ok}
use env_forge.Cloud.{Oracle}
use env_forge.Action.{StateClient, IsStateClient, Run, Action, actions, choose, pure}
use env_forge.Steps.All.{Kind, rds, ec2, Options, name_of, step_of, build_steps}
use env_forge.Steps.Vpc
use env_forge.Steps.Rds
use env_forge.Steps.Ec2
use env_forge.Steps.S3
use env_forge.Steps.Identity
use env_forge.Steps.Config
use env_forge.Steps.Health
use env_forge.Steps.Registry
use env_forge.Steps.Done.{is_done, is_done-unstamped}
use env_forge.Steps.Undone.{compensate-is_done}
use env_forge.Steps.Frame.Every.{step-IsWithin}
use env_forge.Steps.Frame.Recorded.{without-origin}
use env_forge.Steps.Resaved.{Settled-IsSaved, compensate-Settled}
use env_forge.Worker.{Worker, Reply, start, after, finish, run, forward, dispatch, handle}
use env_forge.Worker.Handle.{handle-eq-dispatch}
use env_forge.Worker.Idempotence.{done, finish-200, finish-db}

not-false : (x : Bool) → not x ≡ false → x ≡ true
not-false true h = refl
not-false false h = cc h

module _ {D : Type 0} (p : Options) (o : Oracle) (c : StateClient D) where
  nothing_there :
      (dry blank : Bool) (m : Action D Bool) (s : Run D)
      → blank ≡ true
      → choose dry (pure (not blank)) (choose blank (pure false) m) s ≡ (ok false, s)
  unfolding choose pure
  nothing_there true true m s h = refl
  nothing_there false true m s h = refl
  nothing_there dry false m s h = cc h

  -- in a dry run or not, IsAlreadyDone says no of an environment that nothing marks
  not_done :
      (k : Kind) (s : Run D)
      → is_done k s.env ≡ false
      → (step_of p o c k).is_already_done s ≡ (ok false, s)
  unfolding step_of actions Vpc.is_already_done Rds.is_already_done Ec2.is_already_done
      S3.is_already_done Identity.is_already_done Config.is_already_done Health.is_already_done
      Registry.is_already_done
  not_done rds s h = nothing_there s.env.dry_run _ _ s (not-false _ h)
  not_done ec2 s h = nothing_there s.env.dry_run _ _ s (not-false _ h)
  not_done _ s h = ap (λ x. (ok x, s)) h

  -- how the worker executes a step on an environment, and what it replies
  abbrev pub executing : Kind → Environment → Worker D → Reply D
  executing k env w =
      let (r, s) = (step_of p o c k).execute (start env w) in
      finish (name_of k) (lit "execute") r (after s w)

  not_done-executes :
      (k : Kind) (env : Environment) (w : Worker D)
      → is_done k env ≡ false
      → dispatch (step_of p o c k) (name_of k) false env w ≡ executing k env w
  unfolding dispatch forward run
  not_done-executes k env w h = rw (not_done k (start env w) h) refl

  module _ (laws : IsStateClient c) where
    -- what the compensation leaves in the store under the id
    abbrev Undone : Kind → Text → Environment → Worker D → Type 0
    Undone k env_id env w =
        (stored : Environment) × ((c.get env_id w.db).0 ≡ ok stored)
        × (origin stored ≡ origin env)
        × (is_done k stored ≡ false)

    ran-Undone :
        (k : Kind) (env_id : Text) (env : Environment) (w : Worker D)
        → (c.get env_id w.db).0 ≡ ok env
        → env.id ≡ env_id
        → (run (name_of k) (lit "compensate") (step_of p o c k).compensate (start env w) w).0
          ≡ some done
        → Undone k env_id env
            (run (name_of k) (lit "compensate") (step_of p o c k).compensate (start env w) w).1
    unfolding run
    ran-Undone k env_id env w found same_id h =
        let s : Run D = start env w in
        let s' : Run D = ((step_of p o c k).compensate s).1 in
        let r = ((step_of p o c k).compensate s).0 in
        let ended = finish-200 p o c laws (name_of k) (lit "compensate") r (after s' w) h in
        let held = subst (λ i. (c.get i w.db).0 ≡ ok env) (sym same_id) found in
        let (stored, kept, same) =
          Settled-IsSaved p o c laws s s' (compensate-Settled p o c laws k s ended) held in
        let born = without-origin k env s'.env (step-IsWithin p o c laws k s).1.env in
        let is_id : s'.env.id ≡ env_id = ap (λ e. e.id) born ∙ same_id in
        let saved : (c.get env_id s'.db).0 ≡ ok stored =
          subst (λ i. (c.get i s'.db).0 ≡ ok stored) is_id kept in
        (
          stored,
          rw (finish-db p o c laws (name_of k) (lit "compensate") r (after s' w)) saved,
          ap origin same ∙ born,
          is_done-unstamped k s'.env stored same ∙ compensate-is_done p o c laws k s ended,
        )

    -- For every step, in a dry run or not, and whatever the services answer: if a compensation request
    -- for an environment that is stored under its id, which is not empty, is answered 200, then the
    -- store holds afterwards, under the id, an environment with the id, the owner, the time of creation
    -- and the flags that it had, and a forward request for it runs Execute of the step on that
    -- environment: IsAlreadyDone neither ends the request nor asks any service.
    pub compensate-executing :
        (k : Kind) (env_id : Text) (env : Environment) (w : Worker D)
        → is_empty env_id ≡ false
        → (c.get env_id w.db).0 ≡ ok env
        → env.id ≡ env_id
        → (handle c (build_steps p o c) (name_of k) true (some env_id) w).0 ≡ some done
        → (let w' = (handle c (build_steps p o c) (name_of k) true (some env_id) w).1 in
            (stored : Environment) × ((c.get env_id w'.db).0 ≡ ok stored)
            × (origin stored ≡ origin env)
            × (handle c (build_steps p o c) (name_of k) false (some env_id) w'
                ≡ executing k stored w'))
    unfolding dispatch
    compensate-executing k env_id env w full found same_id h =
        let undo = handle-eq-dispatch p o c laws k env_id true env w full found in
        let (stored, kept, same, undone) = ran-Undone k env_id env w found same_id (rw undo at h) in
        let w1 : Worker D =
          (run (name_of k) (lit "compensate") (step_of p o c k).compensate (start env w) w).1 in
        rw undo (
          stored,
          kept,
          same,
          handle-eq-dispatch p o c laws k env_id false stored w1 full kept
              ∙ not_done-executes k stored w1 undone,
        )
