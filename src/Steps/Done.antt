-- ===== src/Steps/Done.antt =====
-- IsAlreadyDone of a dry run, before and after Execute.
use env_forge.Prelude.{
  ◌≡◌, ◌≢◌, refl, ap, ◌∙◌, Bool, true, false, not, Text, lit, is_empty, text_eq, text_eq_refl, ◌++◌,
}
use env_forge.Environment.{Environment, status_ready}
use env_forge.Go.{ok}
use env_forge.Cloud.{Oracle}
use env_forge.Action.{
  StateClient, IsStateClient, unstamped, Run, Action, choose, get_env, ◌>>=◌, ◌>>◌, set_env, put,
  actions,
}
use env_forge.Action.Rules.{Keeps}
use env_forge.Go.FilePath.{join_path_lem}
use env_forge.Action.Post.{
  set_then-Ensures, Ensures-then, Preserves, put-Preserves, preserve_rules, Ensures,
  set_put-Ensures, post_rules,
}
use env_forge.Steps.All.{
  Kind, vpc, rds, ec2, s3, identity, config, health, registry, Options, step_of,
}
use env_forge.Steps.Vpc
use env_forge.Steps.Rds
use env_forge.Steps.Ec2
use env_forge.Steps.S3
use env_forge.Steps.Identity
use env_forge.Steps.Identity.Verify.{verify-Keeps}
use env_forge.Steps.Config
use env_forge.Steps.Health
use env_forge.Steps.Registry

-- what IsAlreadyDone reads off an environment of a dry run
abbrev pub is_done : Kind → Environment → Bool
is_done vpc e = not (is_empty e.vpc_id)
is_done rds e = not (is_empty e.rds_instance_id)
is_done ec2 e = not (is_empty e.ec2_instance_id)
is_done s3 e = not (is_empty e.s3_bucket_name)
is_done identity e = not (is_empty e.svid_exchange_policy_name)
is_done config e = not (is_empty e.local_env_path)
is_done health e = false
is_done registry e = text_eq e.status status_ready

pub is_done-unstamped :
    (k : Kind) (e e' : Environment) → unstamped e' ≡ unstamped e → is_done k e' ≡ is_done k e
is_done-unstamped vpc e e' h = ap (is_done vpc) h
is_done-unstamped k e e' h = ap (is_done k) h

module _ {D : Type 0} (p : Options) (o : Oracle) (c : StateClient D) where
  pub is_already_done-dry :
      (k : Kind) (s : Run D)
      → s.env.dry_run ≡ true
      → (step_of p o c k).is_already_done s ≡ (ok (is_done k s.env), s)
  unfolding step_of actions Vpc.is_already_done Rds.is_already_done Ec2.is_already_done
      S3.is_already_done Identity.is_already_done Config.is_already_done Health.is_already_done
      Registry.is_already_done
  is_already_done-dry rds s h = rw (h, choose)
  is_already_done-dry ec2 s h = rw (h, choose)
  is_already_done-dry _ s h = refl

  module _ (laws : IsStateClient c) where
    abbrev Marks : Kind → Action D (Unit {0}) → Type 0
    Marks k m = Ensures (λ _ t. is_done k t.env ≡ true) m

    put-Marks :
        (k : Kind) (f : Environment → Environment)
        → ((e : Environment) → is_done k (f e) ≡ true)
        → Marks k (do set_env f; put c)
    put-Marks k f h =
        set_put-Ensures c laws _ (λ e e' same q. is_done-unstamped k e e' same ∙ q) f h

    vpc-Marks : Marks vpc (Vpc.simulate o c)
    unfolding Vpc.simulate lit
    vpc-Marks = search (post_rules, put-Marks vpc) depth 12

    rds-Marks : Marks rds (Rds.simulate o c)
    unfolding Rds.simulate lit
    rds-Marks = search (post_rules, put-Marks rds) depth 12

    ec2-Marks : Marks ec2 (Ec2.simulate o c)
    unfolding Ec2.simulate lit
    ec2-Marks = search (post_rules, put-Marks ec2) depth 12

    s3-Marks : Marks s3 (S3.simulate p.fuel p.region o c)
    unfolding S3.simulate lit
    s3-Marks = search (post_rules, put-Marks s3) depth 12

    identity_put : Keeps (Preserves (λ e. is_done identity e ≡ true)) (put c)
    identity_put = put-Preserves laws (λ e e' same q. is_done-unstamped identity e e' same ∙ q)

    named-IsDone : (short : Text) → is_empty (lit "policy-env-" ++ short) ≡ false
    unfolding lit
    named-IsDone short = refl

    register-Marks :
        (short : Text)
        → Marks identity (Identity.register p.connected p.settings.trust_domain o c short)
    unfolding Identity.register
    register-Marks short = Ensures-then _ _ (
        set_then-Ensures (λ e. is_done identity e ≡ true) _ _ (λ e. ap not (named-IsDone short))
          (search (preserve_rules, verify-Keeps, identity_put) depth 30))

    identity_simulate : Marks identity (Identity.simulate p.connected p.settings.trust_domain o c)
    unfolding Identity.simulate lit
    identity_simulate = search (post_rules, put-Marks identity) depth 12

    identity-Marks : Marks identity (Identity.execute p.connected p.settings.trust_domain o c)
    unfolding Identity.execute
    identity-Marks = search (post_rules, identity_simulate, register-Marks) depth 12

    config-Marks : Marks config (Config.execute p.settings o c)
    unfolding Config.execute Config.write_local
    config-Marks = search (post_rules, put-Marks config, join_path_lem) depth 12

    registry-Marks : Marks registry (Registry.execute c)
    unfolding Registry.execute
    registry-Marks = put-Marks registry _ (λ e. text_eq_refl status_ready)

    -- of a test that passes, only the first branch counts
    dry :
        (k : Kind) (b : Bool) (simulate provision : Action D (Unit {0})) (s : Run D)
        → b ≡ true
        → Marks k simulate
        → (choose b simulate provision s).0 ≡ ok tt
        → is_done k (choose b simulate provision s).1.env ≡ true
    unfolding choose
    dry k true simulate provision s h m = m.at s tt
    dry k false simulate provision s h m = cc

    -- In a dry run, after an Execute without an error of any step but health, IsAlreadyDone says yes.
    pub execute-is_done :
        (k : Kind) (s : Run D)
        → k ≢ health
        → s.env.dry_run ≡ true
        → ((step_of p o c k).execute s).0 ≡ ok tt
        → is_done k ((step_of p o c k).execute s).1.env ≡ true
    unfolding step_of Vpc.execute Rds.execute Ec2.execute S3.execute ◌>>=◌ get_env
    execute-is_done vpc s n h = dry vpc s.env.dry_run _ _ s h vpc-Marks
    execute-is_done rds s n h = dry rds s.env.dry_run _ _ s h rds-Marks
    execute-is_done ec2 s n h = dry ec2 s.env.dry_run _ _ s h ec2-Marks
    execute-is_done s3 s n h = dry s3 s.env.dry_run _ _ s h s3-Marks
    execute-is_done identity s n h = identity-Marks.at s tt
    execute-is_done config s n h = config-Marks.at s tt
    execute-is_done health s n h = absurd (n refl)
    execute-is_done registry s n h = registry-Marks.at s tt
