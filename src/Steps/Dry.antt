-- ===== src/Steps/Dry.antt =====
-- What a dry run leaves alone: the services in the cloud.
use mathlib.Core.List.{append-nil, append_assoc}
use env_forge.Prelude.{
  ◌≡◌, refl, sym, ap, ◌∙◌, Bool, true, false, ◌&&◌, not, All, All-append, Text, is_empty, List, [],
  ◌∷◌, ◌++◌,
}
use env_forge.Environment.{Environment}
use env_forge.Cloud.{EnvConfig, Call, Oracle, mkdir_all, write_file, remove_file}
use env_forge.Action.{
  StateClient, Run, Action, ◌>>◌, set_env, put, invoke, when, choose, pure, get_env, ◌>>=◌,
}
use env_forge.Action.Rules.{IsPreorder, Keeps, keeps_rules}
use env_forge.Steps.All.{
  Kind, vpc, rds, ec2, s3, identity, config, health, registry, Options, step_of,
}
use env_forge.Steps.Vpc
use env_forge.Steps.Rds
use env_forge.Steps.Ec2
use env_forge.Steps.S3
use env_forge.Steps.Identity
use env_forge.Steps.Config
use env_forge.Steps.Health
use env_forge.Steps.Registry

-- the calls that stay on the worker's own machine
abbrev pub is_local : Call → Bool
is_local (mkdir_all dir) = true
is_local (write_file path content) = true
is_local (remove_file path) = true
is_local _ = false

-- From `s` to `t` only calls were added that stay on the machine.
pub record IsDry {D : Type 0} (s t : Run D) : Type 0 where
  pub added : List Call
  pub calls : t.calls ≡ s.calls ++ added
  pub local : All (λ x. is_local x ≡ true) added

module _ {D : Type 0} where
  IsDry-preorder : IsPreorder (IsDry {D = D})
  IsDry-preorder = record {
    rfl = λ s. record { added = []; calls = sym (append-nil _); local = tt };
    trans = λ s t u v w. record {
      added = v.added ++ w.added;
      calls = w.calls ∙ ap (λ l. l ++ w.added) v.calls ∙ append_assoc s.calls v.added w.added;
      local = All-append (λ x. is_local x ≡ true) v.added w.added v.local w.local;
    };
  }

  set_env-IsDry : (f : Environment → Environment) → Keeps (IsDry {D = D}) (set_env f)
  unfolding set_env
  set_env-IsDry f = record {
    at = λ s. record { added = []; calls = sym (append-nil _); local = tt };
  }

  put-IsDry : (c : StateClient D) → Keeps IsDry (put c)
  unfolding put
  put-IsDry c = record { at = λ s. record { added = []; calls = sym (append-nil _); local = tt } }

  invoke-IsDry : (o : Oracle) (x : Call) → is_local x ≡ true → Keeps (IsDry {D = D}) (invoke o x)
  unfolding invoke
  invoke-IsDry o x h = record { at = λ s. record { added = x ∷ []; calls = refl; local = (h, tt) } }

  -- a test that passes: only the first branch counts
  choose-true :
      (b : Bool) (m n : Action D (Unit {0})) (s : Run D)
      → b ≡ true
      → Keeps IsDry m
      → IsDry s (choose b m n s).1
  unfolding choose
  choose-true true m n s h k = k.at s
  choose-true false m n s h k = cc h

  when-false :
      (b : Bool) (m n : Action D (Unit {0})) (s : Run D)
      → b ≡ false
      → Keeps IsDry n
      → IsDry s ((when b m >> n) s).1
  unfolding when ◌>>◌ ◌>>=◌ pure
  when-false true m n s h k = cc h
  when-false false m n s h k = k.at s

ruleset dry_rules = (keeps_rules, IsDry-preorder, set_env-IsDry, put-IsDry, invoke-IsDry)

module _ {D : Type 0} (p : Options) (o : Oracle) (c : StateClient D) where
  clear_and_put : (f : Environment → Environment) → Keeps IsDry (do set_env f; put c)
  clear_and_put f = search dry_rules depth 10

  vpc_simulate : Keeps IsDry (Vpc.simulate o c)
  unfolding Vpc.simulate
  vpc_simulate = search dry_rules depth 12

  rds_simulate : Keeps IsDry (Rds.simulate o c)
  unfolding Rds.simulate
  rds_simulate = search dry_rules depth 12

  ec2_simulate : Keeps IsDry (Ec2.simulate o c)
  unfolding Ec2.simulate
  ec2_simulate = search dry_rules depth 12

  s3_simulate : Keeps IsDry (S3.simulate p.fuel p.region o c)
  unfolding S3.simulate
  s3_simulate = search dry_rules depth 12

  identity_simulate : Keeps IsDry (Identity.simulate p.connected p.settings.trust_domain o c)
  unfolding Identity.simulate
  identity_simulate = search dry_rules depth 12

  config_write_local : (cfg : EnvConfig) → Keeps IsDry (Config.write_local p.settings o c cfg)
  unfolding Config.write_local
  config_write_local cfg = search dry_rules depth 20

  config_remove_local : (path : Text) → Keeps IsDry (Config.remove_local p.settings o c path)
  unfolding Config.remove_local
  config_remove_local path = search dry_rules depth 20

  health_choice :
      (injected dry : Bool) (m n : Action D (Unit {0})) (s : Run D)
      → dry ≡ true
      → Keeps IsDry m
      → IsDry s (choose injected m (choose dry (pure tt) n) s).1
  unfolding choose
  health_choice true dry m n s h k = k.at s
  health_choice false dry m n s h k = choose-true dry (pure tt) n s h (search dry_rules depth 4)

  module _ (alone : p.connected ≡ false) where
    execute-IsDry :
        (k : Kind) (s : Run D) → s.env.dry_run ≡ true → IsDry s ((step_of p o c k).execute s).1
    unfolding step_of Vpc.execute Rds.execute Ec2.execute S3.execute Identity.execute Config.execute
        Health.execute Registry.execute ◌>>=◌ get_env
    execute-IsDry vpc s h = choose-true s.env.dry_run _ _ s h vpc_simulate
    execute-IsDry rds s h = choose-true s.env.dry_run _ _ s h rds_simulate
    execute-IsDry ec2 s h = choose-true s.env.dry_run _ _ s h ec2_simulate
    execute-IsDry s3 s h = choose-true s.env.dry_run _ _ s h s3_simulate
    execute-IsDry identity s h =
        choose-true (s.env.dry_run && not p.connected) _ _ s (rw (h, alone) refl) identity_simulate
    execute-IsDry config s h =
        when-false (not s.env.dry_run) _ _ s (rw h refl) (config_write_local _)
    execute-IsDry health s h =
        health_choice s.env.fail_at_health s.env.dry_run _ _ s h (search dry_rules depth 4)
    execute-IsDry registry s h = (clear_and_put _).at s

    compensate-IsDry :
        (k : Kind) (s : Run D) → s.env.dry_run ≡ true → IsDry s ((step_of p o c k).compensate s).1
    unfolding step_of Vpc.compensate Rds.compensate Ec2.compensate S3.compensate Identity.compensate
        Config.compensate Health.compensate Registry.compensate ◌>>=◌ get_env pure
    compensate-IsDry vpc s h = choose-true s.env.dry_run _ _ s h (clear_and_put _)
    compensate-IsDry rds s h = choose-true s.env.dry_run _ _ s h (clear_and_put _)
    compensate-IsDry ec2 s h = choose-true s.env.dry_run _ _ s h (clear_and_put _)
    compensate-IsDry s3 s h = choose-true s.env.dry_run _ _ s h (clear_and_put _)
    compensate-IsDry identity s h =
        choose-true (s.env.dry_run && not p.connected) _ _ s (rw (h, alone) refl) (clear_and_put _)
    compensate-IsDry config s h =
        when-false (not s.env.dry_run && not (is_empty s.env.s3_bucket_name)) _ _ s (rw h refl)
          (search (dry_rules, config_remove_local) depth 12)
    compensate-IsDry health s h = IsDry-preorder.rfl s
    compensate-IsDry registry s h = (clear_and_put _).at s

    -- In a dry run, on a worker without a connection to svid-exchange, Execute and Compensate of every
    -- step call no service: all calls that they add make a directory, write a file or remove a file.
    pub step-IsDry :
        (k : Kind) (s : Run D)
        → s.env.dry_run ≡ true
        → IsDry s ((step_of p o c k).execute s).1 × IsDry s ((step_of p o c k).compensate s).1
    step-IsDry k s h = (execute-IsDry k s h, compensate-IsDry k s h)
