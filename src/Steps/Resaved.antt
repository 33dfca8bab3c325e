-- ===== src/Steps/Resaved.antt =====
-- What the store holds after a compensation that succeeds.
use mathlib.Core.Path.{subst}
use env_forge.Prelude.{◌≡◌, refl, sym, Bool, true, false, ◌⊎◌, inl, inr, is_empty}
use env_forge.Go.{ok}
use env_forge.Cloud.{Oracle}
use env_forge.Action.{StateClient, IsStateClient, Run, Action, put, pure, choose, get_env, ◌>>=◌}
use env_forge.Action.Post.{Ensures, IsSaved, put-IsSaved, post_rules}
use env_forge.Steps.All.{
  Kind, vpc, rds, ec2, s3, identity, config, health, registry, Options, step_of,
}
use env_forge.Steps.Vpc
use env_forge.Steps.Rds
use env_forge.Steps.Ec2
use env_forge.Steps.S3
use env_forge.Steps.Identity
use env_forge.Steps.Config
use env_forge.Steps.Health
use env_forge.Steps.Registry

module _ {D : Type 0} (p : Options) (o : Oracle) (c : StateClient D) (laws : IsStateClient c) where
  abbrev Saves : Action D (Unit {0}) → Type 0
  Saves m = Ensures (λ _ t. IsSaved c t) m

  put-Saves : Saves (put c)
  put-Saves = put-IsSaved c laws

  ruleset saved_rules = (post_rules, put-Saves)

  -- the step saved, or there was nothing to undo
  abbrev pub Settled : Run D → Run D → Type 0
  Settled s t = IsSaved c t ⊎ (t ≡ s)

  unless_empty-Settled :
      (dry blank : Bool) (m n : Action D (Unit {0})) (s : Run D)
      → Saves m
      → Saves n
      → (choose dry m (choose blank (pure tt) n) s).0 ≡ ok tt
      → Settled s (choose dry m (choose blank (pure tt) n) s).1
  unfolding choose pure
  unless_empty-Settled true blank m n s k l h = inl (k.at s tt h)
  unless_empty-Settled false true m n s k l h = inr refl
  unless_empty-Settled false false m n s k l h = inl (l.at s tt h)

  vpc-Saves : Saves (Vpc.compensate o c)
  unfolding Vpc.compensate Vpc.tear_down
  vpc-Saves = search saved_rules depth 30

  identity-Saves : Saves (Identity.compensate p.connected p.settings.trust_domain o c)
  unfolding Identity.compensate
  identity-Saves = search saved_rules depth 30

  config-Saves : Saves (Config.compensate p.settings o c)
  unfolding Config.compensate
  config-Saves = search saved_rules depth 30

  registry-Saves : Saves (Registry.compensate c)
  unfolding Registry.compensate
  registry-Saves = search saved_rules depth 30

  -- If Compensate of a step returns without an error, then the store holds, under the environment's
  -- id, the environment that the step left in memory, up to its stamp, or the step did nothing: it
  -- left the environment, the store and the calls made as they were.
  pub compensate-Settled :
      (k : Kind) (s : Run D)
      → ((step_of p o c k).compensate s).0 ≡ ok tt
      → Settled s ((step_of p o c k).compensate s).1
  unfolding step_of Rds.compensate Rds.tear_down Ec2.compensate Ec2.tear_down S3.compensate
      S3.tear_down Health.compensate get_env ◌>>=◌ pure
  compensate-Settled vpc s h = inl (vpc-Saves.at s tt h)
  compensate-Settled rds s h =
      unless_empty-Settled s.env.dry_run (is_empty s.env.rds_instance_id) _ _ s
        (search saved_rules depth 30) (search saved_rules depth 30) h
  compensate-Settled ec2 s h =
      unless_empty-Settled s.env.dry_run (is_empty s.env.ec2_instance_id) _ _ s
        (search saved_rules depth 30) (search saved_rules depth 30) h
  compensate-Settled s3 s h =
      unless_empty-Settled s.env.dry_run (is_empty s.env.s3_bucket_name) _ _ s
        (search saved_rules depth 30) (search saved_rules depth 30) h
  compensate-Settled identity s h = inl (identity-Saves.at s tt h)
  compensate-Settled config s h = inl (config-Saves.at s tt h)
  compensate-Settled health s h = inr refl
  compensate-Settled registry s h = inl (registry-Saves.at s tt h)

  -- where the environment was stored before, what is stored afterwards is what the step left in memory,
  -- up to its stamp
  pub Settled-IsSaved :
      (s t : Run D) → Settled s t → (c.get s.env.id s.db).0 ≡ ok s.env → IsSaved c t
  Settled-IsSaved s t (inl saved) found = saved
  Settled-IsSaved s t (inr same) found = subst (IsSaved c) (sym same) (s.env, found, refl)
