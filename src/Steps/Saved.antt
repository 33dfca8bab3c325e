-- ===== src/Steps/Saved.antt =====
-- What the store holds after a step that succeeds.
use env_forge.Prelude.{◌≡◌, ◌≢◌, refl}
use env_forge.Go.{ok}
use env_forge.Cloud.{Oracle}
use env_forge.Action.{StateClient, IsStateClient, Run, Action, put}
use env_forge.Action.Post.{Ensures, IsSaved, put-IsSaved, post_rules}
use env_forge.Steps.All.{
  Kind, vpc, rds, ec2, s3, identity, config, health, registry, Options, step_of,
}
use env_forge.Steps.Vpc
use env_forge.Steps.Rds
use env_forge.Steps.Ec2
use env_forge.Steps.S3
use env_forge.Steps.Identity
use env_forge.Steps.Config
use env_forge.Steps.Registry

module _ {D : Type 0} (p : Options) (o : Oracle) (c : StateClient D) (laws : IsStateClient c) where
  abbrev Saves : Action D (Unit {0}) → Type 0
  Saves m = Ensures (λ _ t. IsSaved c t) m

  put-Saves : Saves (put c)
  put-Saves = put-IsSaved c laws

  ruleset saved_rules = (post_rules, put-Saves)

  execute-Saves : (k : Kind) → k ≢ health → Saves (step_of p o c k).execute
  unfolding step_of Vpc.execute Vpc.simulate Vpc.provision Rds.execute Rds.simulate Rds.provision
      Rds.await_endpoint Ec2.execute Ec2.simulate Ec2.provision Ec2.await_address S3.execute
      S3.simulate S3.provision Identity.execute Identity.simulate Identity.register Config.execute
      Config.write_local Registry.execute
  execute-Saves vpc n = search saved_rules depth 30
  execute-Saves rds n = search saved_rules depth 30
  execute-Saves ec2 n = search saved_rules depth 30
  execute-Saves s3 n = search saved_rules depth 30
  execute-Saves identity n = search saved_rules depth 30
  execute-Saves config n = search saved_rules depth 30
  execute-Saves health n = absurd (n refl)
  execute-Saves registry n = search saved_rules depth 30

  -- If Execute of a step other than health returns without an error, then the store holds, under the
  -- environment's id, the environment that the step left in memory, up to its stamp.
  pub execute-IsSaved :
      (k : Kind) (s : Run D)
      → k ≢ health
      → ((step_of p o c k).execute s).0 ≡ ok tt
      → IsSaved c ((step_of p o c k).execute s).1
  execute-IsSaved k s n h = (execute-Saves k n).at s tt h
