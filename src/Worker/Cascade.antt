-- ===== src/Worker/Cascade.antt =====
-- A saga that fails at its health step, as --fail-at-health asks: the forward requests up to that step,
-- and the compensation requests for the steps before it, in the reverse order.
use mathlib.Core.Path.{subst}
use mathlib.Core.List.{Memᴰ}
use env_forge.Prelude.{
  ◌≡◌, ◌≢◌, refl, sym, ap, ◌∙◌, Bool, true, false, List, [], ◌∷◌, Option, some, Text, lit, is_empty,
  map, All-mem,
}
use env_forge.Environment.{Environment}
use env_forge.Environment.Origin.{origin}
use env_forge.Go.{ok, err, other, message}
use env_forge.Cloud.{Call, Oracle}
use env_forge.Action.{
  StateClient, IsStateClient, Action, Run, drop_answer, get_env, choose, fail, ◌>>=◌,
}
use env_forge.Steps.All.{
  Kind, vpc, rds, ec2, s3, identity, config, health, registry, Options, name_of, step_of,
  build_steps,
}
use env_forge.Steps.Health
use env_forge.Steps.Done.{is_done}
use env_forge.Steps.Dry.{is_local}
use env_forge.Steps.Live.{HasShort}
use env_forge.Worker.{Response, Worker, Reply, start, run, forward, handle}
use env_forge.Worker.Progress.{Kind-discrete, short-full}
use env_forge.Worker.Pipeline.{send_all, sent_all}
use env_forge.Worker.Rollback.{undo_all, undo_all-undone}
use env_forge.Worker.Idempotence.{done, send-eq-forward}

-- the steps before health, in the saga's order and backwards
abbrev pub first_six : List Kind
first_six = vpc ∷ rds ∷ ec2 ∷ s3 ∷ identity ∷ config ∷ []

abbrev pub last_first : List Kind
last_first = config ∷ identity ∷ s3 ∷ ec2 ∷ rds ∷ vpc ∷ []

abbrev pub injected : Response
injected = record { code = 500; body = lit "injected health failure for demo (--fail-at-health)" }

-- the replies to the three parts of the saga
abbrev pub expected : List (Option Response) × Option Response × List (Option Response)
expected = (map (λ _. some done) first_six, some injected, map (λ _. some done) last_first)

-- nothing of the environment is done, but its status may still be that of an environment that is ready
abbrev pub IsUndone : Environment → Type 0
IsUndone e = (k : Kind) → k ≢ registry → is_done k e ≡ false

health-last : Memᴰ health first_six → ⊥
health-last m =
    All-mem (λ k. k ≢ health) health first_six
      ((λ h. cc h), ((λ h. cc h), ((λ h. cc h), ((λ h. cc h), ((λ h. cc h), ((λ h. cc h), tt)))))) m
      refl

Mem-last_first : (k : Kind) → k ≢ health → k ≢ registry → Memᴰ k last_first
Mem-last_first vpc n m = search (Memᴰ.head, Memᴰ.tail) depth 12
Mem-last_first rds n m = search (Memᴰ.head, Memᴰ.tail) depth 12
Mem-last_first ec2 n m = search (Memᴰ.head, Memᴰ.tail) depth 12
Mem-last_first s3 n m = search (Memᴰ.head, Memᴰ.tail) depth 12
Mem-last_first identity n m = search (Memᴰ.head, Memᴰ.tail) depth 12
Mem-last_first config n m = Memᴰ.head refl
Mem-last_first health n m = absurd (n refl)
Mem-last_first registry n m = absurd (m refl)

all-IsUndone :
    (e : Environment) → ((k : Kind) → Memᴰ k last_first → is_done k e ≡ false) → IsUndone e
all-IsUndone e h k n = elim (Kind-discrete k health) [
  | yes same ↦ subst (λ i. is_done i e ≡ false) (sym same) refl
  | no m ↦ h k (Mem-last_first k m n)
]

module _ {D : Type 0} (p : Options) (o : Oracle) (c : StateClient D) where
  abbrev pub fail_health : Text → Worker D → Reply D
  fail_health env_id w = handle c (build_steps p o c) (name_of health) false (some env_id) w

  -- the replies of the worker to the three parts, and the worker afterwards
  unfoldable pub cascade :
      Text
      → Worker D
      → (List (Option Response) × Option Response × List (Option Response)) × Worker D
  cascade env_id w =
      let (sent, w1) = send_all p o c first_six env_id w in
      let (failure, w2) = fail_health env_id w1 in
      let (undone, w3) = undo_all p o c last_first env_id w2 in ((sent, failure, undone), w3)

  forward-fails :
      (flag : Bool) (m : Action D (Unit {0})) (s : Run D)
      → flag ≡ true
      → choose flag (fail (other (lit "injected health failure for demo (--fail-at-health)"))) m s
        ≡ (err (other (lit "injected health failure for demo (--fail-at-health)")), s)
  unfolding choose fail
  forward-fails true m s h = refl
  forward-fails false m s h = cc h

  module _ (laws : IsStateClient c) where
    fail_health-replies :
        (env_id : Text) (env : Environment) (w : Worker D)
        → is_empty env_id ≡ false
        → (c.get env_id w.db).0 ≡ ok env
        → env.dry_run ≡ true
        → env.fail_at_health ≡ true
        → ((fail_health env_id w).0 ≡ some injected) × ((fail_health env_id w).1.db ≡ w.db)
    unfolding forward run step_of Health.execute ◌>>=◌ get_env message
    fail_health-replies env_id env w full found dry asked =
        rw (send-eq-forward p o c laws health env_id env w full found dry)
          (rw (forward-fails env.fail_at_health _ (start env w) asked) (refl, refl))

    module _ (stores : (e : Environment) (d : D) → (c.put e d).0 ≡ ok tt)
        (files : (before : List Call) (x : Call)
          → is_local x ≡ true
          → drop_answer (o before x) ≡ ok tt)
        (alone : p.connected ≡ false) where
      -- In a dry run, on a worker without a connection to svid-exchange, where the store takes every Put
      -- and the local files can be written and removed: if, for an environment that is stored under its
      -- id, whose id has eight bytes and for which a failure of the health step is asked, the forward
      -- requests of the first six steps are sent, then that of the health step, and then the
      -- compensation requests of the six in the reverse order, then the six are answered 200, health
      -- with 500 and the message of the injected failure, and the compensations 200; and afterwards the
      -- store holds, under the id, an environment with the id, the owner, the time of creation and the
      -- flags that it had, of which none of the steps but possibly registry is done.
      pub cascade-IsUndone :
          (env_id : Text) (env : Environment) (w : Worker D)
          → (c.get env_id w.db).0 ≡ ok env
          → env.id ≡ env_id
          → HasShort env
          → env.dry_run ≡ true
          → env.fail_at_health ≡ true
          → ((cascade env_id w).0 ≡ expected)
            × ((final : Environment) × ((c.get env_id (cascade env_id w).1.db).0 ≡ ok final)
                × (origin final ≡ origin env)
                × IsUndone final)
      unfolding cascade
      cascade-IsUndone env_id env w found same_id short dry asked =
          let (sent, g) =
            sent_all p o c laws stores files alone first_six env_id env (λ j. ⊥) w
              (λ m. absurd (health-last m))
              (record {
                env = env;
                found = found;
                same_id = same_id;
                same = refl;
                short = short;
                dry = dry;
                marks = λ j q. absurd q;
              }) in
          let full = ap is_empty (sym same_id) ∙ short-full env.id short.0 short.1 in
          let w1 : Worker D = (send_all p o c first_six env_id w).1 in
          let (failure, kept) =
            fail_health-replies env_id g.env w1 full g.found g.dry
              (ap (λ e. e.fail_at_health) g.same ∙ asked) in
          let (undone, (final, stored, same, marks)) =
            undo_all-undone p o c laws stores files alone last_first env_id g.env
              (fail_health env_id w1).1
              (subst (λ d. (c.get env_id d).0 ≡ ok g.env) (sym kept) g.found) g.same_id g.short
              g.dry in
          (
            rw (sent, failure, undone) refl,
            (final, stored, same ∙ g.same, all-IsUndone final marks),
          )
