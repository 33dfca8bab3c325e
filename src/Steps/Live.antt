-- ===== src/Steps/Live.antt =====
-- Execute of a dry run, where the store and the local files do not fail.
use env_forge.Prelude.{
  ◌≡◌, refl, ap, ◌∙◌, Bool, true, List, false, not, ◌&&◌, Option, none, some, Text, slice_to,
}
use env_forge.Environment.{Environment}
use env_forge.Go.{Result, ok, wrapped}
use env_forge.Cloud.{Call, Oracle, EnvConfig}
use env_forge.Action
use env_forge.Action.{
  StateClient, IsStateClient, unstamped, Run, Action, continue, drop_answer, ◌>>=◌, ◌>>◌, pure,
  context, get_env, set_env, short_id, deref, put, invoke, when, choose,
}
use env_forge.Steps.Dry.{is_local}
use env_forge.Steps.All.{
  Kind, vpc, rds, ec2, s3, identity, config, health, registry, Options, step_of,
}
use env_forge.Steps.Vpc
use env_forge.Steps.Rds
use env_forge.Steps.Ec2
use env_forge.Steps.S3
use env_forge.Steps.Identity
use env_forge.Steps.Config
use env_forge.Steps.Health
use env_forge.Steps.Registry

-- the id has the eight bytes that a step takes of it
abbrev pub HasShort : Environment → Type 0
HasShort e = (short : Text) × (slice_to e.id 8 ≡ some short)

-- From an environment with such an id, `m` returns a result and leaves one.
pub record Returns {D A : Type 0} (m : Action D A) : Type 0 where
  pub at : (s : Run D) → HasShort s.env → (a : A) × ((m s).0 ≡ ok a) × HasShort (m s).1.env

module _ {D : Type 0} where
  pub Returns-pure : {A : Type 0} (a : A) → Returns {D = D} (pure a)
  unfolding pure
  Returns-pure a = record { at = λ s h. (a, refl, h) }

  deref_state : {A : Type 0} (o : Option A) (s : Run D) → (deref o s).1 ≡ s
  unfolding deref Action.crash pure
  deref_state none s = refl
  deref_state (some a) s = refl

  pub Returns-short_id : Returns {D = D} short_id
  unfolding short_id deref pure
  Returns-short_id = record { at = λ s (short, h). (short, rw h refl, rw deref_state (short, h)) }

  pub Returns-set_env :
      (f : Environment → Environment)
      → ((e : Environment) → (f e).id ≡ e.id)
      → Returns {D = D} (set_env f)
  unfolding set_env
  Returns-set_env f same = record {
    at = λ s (short, h). (tt, refl, (short, ap (λ i. slice_to i 8) (same s.env) ∙ h));
  }

  continue-returns :
      {A B : Type 0} (f : A → Action D B) (r : Result A) (s : Run D) (a : A)
      → r ≡ ok a
      → ((b : B) × ((f a s).0 ≡ ok b) × HasShort (f a s).1.env)
      → (b : B) × ((continue r f s).0 ≡ ok b) × HasShort (continue r f s).1.env
  continue-returns f r s a e h = rw e h

  pub Returns-bind :
      {A B : Type 0} (m : Action D A) (f : A → Action D B)
      → Returns m
      → ((a : A) → Returns (f a))
      → Returns (m >>= f)
  unfolding ◌>>=◌
  Returns-bind m f km kf = record {
    at = λ s h.
        let (a, e, h') = km.at s h in continue-returns f (m s).0 (m s).1 a e ((kf a).at (m s).1 h');
  }

  pub Returns-then :
      {B : Type 0} (m : Action D (Unit {0})) (n : Action D B)
      → Returns m
      → Returns n
      → Returns (m >> n)
  unfolding ◌>>◌
  Returns-then m n km kn = Returns-bind m (λ _. n) km (λ _. kn)

  pub Returns-context :
      {A : Type 0} (what : Text) (m : Action D A) → Returns m → Returns (context what m)
  unfolding context
  Returns-context what m km = record {
    at = λ s h. let (a, e, h') = km.at s h in (a, ap (wrapped what) e, h');
  }

  Returns-put :
      {c : StateClient D}
      → IsStateClient c
      → ((e : Environment) (d : D) → (c.put e d).0 ≡ ok tt)
      → Returns (put c)
  unfolding put
  Returns-put laws stores = record {
    at = λ s (short, h). (
      tt,
      stores s.env s.db,
      (short, ap (λ (e : Environment). slice_to e.id 8) (laws.stamps s.env s.db) ∙ h),
    );
  }

  Returns-invoke :
      (o : Oracle) (x : Call)
      → ((before : List Call) → drop_answer (o before x) ≡ ok tt)
      → Returns {D = D} (invoke o x)
  unfolding invoke
  Returns-invoke o x answers = record { at = λ s h. (tt, answers s.calls, h) }

pub ruleset live_rules =
    (Returns-pure, Returns-short_id, Returns-set_env, Returns-bind, Returns-then, Returns-context)

module _ {D : Type 0} (p : Options) (o : Oracle) (c : StateClient D) (laws : IsStateClient c)
    (stores : (e : Environment) (d : D) → (c.put e d).0 ≡ ok tt)
    (files : (before : List Call) (x : Call)
      → is_local x ≡ true
      → drop_answer (o before x) ≡ ok tt) where
  pub put-Returns : Returns (put c)
  put-Returns = Returns-put laws stores

  pub file-Returns : (x : Call) → is_local x ≡ true → Returns {D = D} (invoke o x)
  file-Returns x h = Returns-invoke o x (λ before. files before x h)

  vpc-Returns : Returns (Vpc.simulate o c)
  unfolding Vpc.simulate
  vpc-Returns = search (live_rules, put-Returns) depth 12

  rds-Returns : Returns (Rds.simulate o c)
  unfolding Rds.simulate
  rds-Returns = search (live_rules, put-Returns) depth 12

  ec2-Returns : Returns (Ec2.simulate o c)
  unfolding Ec2.simulate
  ec2-Returns = search (live_rules, put-Returns) depth 12

  s3-Returns : Returns (S3.simulate p.fuel p.region o c)
  unfolding S3.simulate
  s3-Returns = search (live_rules, put-Returns) depth 12

  identity-Returns : Returns (Identity.simulate p.connected p.settings.trust_domain o c)
  unfolding Identity.simulate
  identity-Returns = search (live_rules, put-Returns) depth 12

  config-Returns : (cfg : EnvConfig) → Returns (Config.write_local p.settings o c cfg)
  unfolding Config.write_local
  config-Returns cfg = search (live_rules, put-Returns, file-Returns) depth 20

  registry-Returns : Returns (Registry.execute c)
  unfolding Registry.execute
  registry-Returns = search (live_rules, put-Returns) depth 12

  -- in a dry run only the first branch counts
  pub dry-Returns :
      (b : Bool) (m n : Action D (Unit {0})) (s : Run D)
      → b ≡ true
      → HasShort s.env
      → Returns m
      → (choose b m n s).0 ≡ ok tt
  unfolding choose
  dry-Returns true m n s h short k = (k.at s short).1
  dry-Returns false m n s h short k = cc h

  pub not_dry-Returns :
      (b : Bool) (m n : Action D (Unit {0})) (s : Run D)
      → b ≡ false
      → HasShort s.env
      → Returns n
      → ((when b m >> n) s).0 ≡ ok tt
  unfolding when ◌>>◌ ◌>>=◌ pure
  not_dry-Returns true m n s h short k = cc h
  not_dry-Returns false m n s h short k = (k.at s short).1

  pub health-Returns :
      (injected dry : Bool) (m n : Action D (Unit {0})) (s : Run D)
      → injected ≡ false
      → dry ≡ true
      → (choose injected m (choose dry (pure tt) n) s) ≡ (ok tt, s)
  unfolding choose pure
  health-Returns true dry m n s h h' = cc h
  health-Returns false true m n s h h' = refl
  health-Returns false false m n s h h' = cc h'

  -- In a dry run, on a worker without a connection to svid-exchange, where the store takes every Put
  -- and the local files can be written, Execute of every step returns without an error, if the id has
  -- eight bytes and, for the health step, no failure of it is asked for.
  pub execute-returns :
      p.connected ≡ false
      → (k : Kind) (s : Run D) → HasShort s.env
      → s.env.dry_run ≡ true
      → (k ≡ health → s.env.fail_at_health ≡ false)
      → ((step_of p o c k).execute s).0 ≡ ok tt
  unfolding step_of Vpc.execute Rds.execute Ec2.execute S3.execute Identity.execute Config.execute
      Health.execute ◌>>=◌ get_env
  execute-returns alone vpc s short h _ = dry-Returns s.env.dry_run _ _ s h short vpc-Returns
  execute-returns alone rds s short h _ = dry-Returns s.env.dry_run _ _ s h short rds-Returns
  execute-returns alone ec2 s short h _ = dry-Returns s.env.dry_run _ _ s h short ec2-Returns
  execute-returns alone s3 s short h _ = dry-Returns s.env.dry_run _ _ s h short s3-Returns
  execute-returns alone identity s short h _ =
      dry-Returns (s.env.dry_run && not p.connected) _ _ s (rw (h, alone) refl) short
        identity-Returns
  execute-returns alone config s short h _ =
      not_dry-Returns (not s.env.dry_run) _ _ s (rw h refl) short (config-Returns _)
  execute-returns alone health s short h healthy =
      ap (λ x. x.0) (health-Returns s.env.fail_at_health s.env.dry_run _ _ s (healthy refl) h)
  execute-returns alone registry s short h _ = (registry-Returns.at s short).1
