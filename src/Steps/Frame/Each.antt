-- ===== src/Steps/Frame/Each.antt =====
-- Each step keeps every relation that respects what it is built from: the lemmas for the eight.
use env_forge.Prelude.{◌≡◌, refl, ℕ, zero, suc, Bool, List, [], ◌∷◌, Text}
use env_forge.Environment.{Environment}
use env_forge.Cloud.{Instance, Call, Oracle}
use env_forge.Action.{StateClient, Action, Run, unstamped, set_env, put, call, invoke}
use env_forge.Action.Rules.{
  IsPreorder, keeps_rules, Keeps, Keeps-pure, Keeps-bind, Keeps-then, Keeps-choose,
}
use env_forge.Steps.Frame.{IsFrame, outside}
use env_forge.Steps.Vpc
use env_forge.Steps.Rds
use env_forge.Steps.Ec2
use env_forge.Steps.S3
use env_forge.Steps.Identity
use env_forge.Steps.Identity.Verify.{verify-Keeps}
use env_forge.Steps.Config
use env_forge.Steps.Config.{Settings}
use env_forge.Steps.Health
use env_forge.Steps.Registry

module _ {D : Type 0} (o : Oracle) (c : StateClient D)
    {R : (Environment → Environment) → Run D → Run D → Type 0} (frame : IsFrame c R) where
  abbrev Within : {A : Type 0} → (Environment → Environment) → Action D A → Type 0
  Within clear m = Keeps (R clear) m

  preorder-R :
      (clear : Environment → Environment)
      → ((e : Environment) → (clear e).id ≡ e.id)
      → IsPreorder (R clear)
  preorder-R = frame.preorder

  set-R :
      (clear f : Environment → Environment)
      → ((e : Environment) → outside clear (f e) ≡ outside clear e)
      → Within clear (set_env f)
  set-R = frame.set

  put-R :
      (clear : Environment → Environment)
      → ((e : Environment) → outside clear e ≡ outside clear (unstamped e))
      → Within clear (put c)
  put-R = frame.put

  call-R : (clear : Environment → Environment) (x : Call) → Within clear (call o x)
  call-R clear = frame.call clear o

  invoke-R : (clear : Environment → Environment) (x : Call) → Within clear (invoke o x)
  invoke-R clear = frame.invoke clear o

  ruleset frame_rules = (keeps_rules, preorder-R, set-R, put-R, call-R, invoke-R)

  pub vpc_execute : Within Vpc.clear (Vpc.execute o c)
  unfolding Vpc.execute Vpc.simulate Vpc.provision Vpc.make_vpc Vpc.make_subnet Vpc.make_group
  vpc_execute = search frame_rules depth 30

  remove_subnets-Within : (subnets : List Text) → Within Vpc.clear (Vpc.remove_subnets o c subnets)
  unfolding Vpc.remove_subnets
  remove_subnets-Within [] = search frame_rules depth 12
  remove_subnets-Within (subnet ∷ more) =
      Keeps-then (preorder-R _ (λ e. refl)) _ _ (search frame_rules depth 12)
        (remove_subnets-Within more)

  pub vpc_compensate : Within Vpc.clear (Vpc.compensate o c)
  unfolding Vpc.compensate Vpc.tear_down Vpc.remove_group Vpc.remove_vpc
  vpc_compensate = search (frame_rules, remove_subnets-Within) depth 30

  pub rds_execute : Within Rds.clear (Rds.execute o c)
  unfolding Rds.execute Rds.simulate Rds.provision Rds.create Rds.await_endpoint
      Rds.generate_password
  rds_execute = search frame_rules depth 30

  pub rds_compensate : Within Rds.clear (Rds.compensate o c)
  unfolding Rds.compensate Rds.tear_down
  rds_compensate = search frame_rules depth 30

  first_id-Within : (instances : List Instance) → Within Ec2.clear (Ec2.first_id instances)
  first_id-Within [] = search frame_rules depth 12
  first_id-Within (i ∷ more) = search frame_rules depth 12

  pub ec2_execute : Within Ec2.clear (Ec2.execute o c)
  unfolding Ec2.execute Ec2.simulate Ec2.provision Ec2.create Ec2.await_address
  ec2_execute = search (frame_rules, first_id-Within) depth 30

  pub ec2_compensate : Within Ec2.clear (Ec2.compensate o c)
  unfolding Ec2.compensate Ec2.tear_down
  ec2_compensate = search frame_rules depth 30

  module _ (fuel : ℕ) (region : Text) where
    pub s3_execute : Within S3.clear (S3.execute fuel region o c)
    unfolding S3.execute S3.simulate S3.provision
    s3_execute = search frame_rules depth 30

  delete_page-Within : (bucket : Text) → Within S3.clear (S3.delete_page o bucket)
  unfolding S3.delete_page
  delete_page-Within bucket = search frame_rules depth 12

  delete_all_versions-Within :
      (fuel : ℕ) (bucket : Text) → Within S3.clear (S3.delete_all_versions o fuel bucket)
  unfolding S3.delete_all_versions
  delete_all_versions-Within zero bucket = search frame_rules depth 12
  delete_all_versions-Within (suc fuel) bucket =
      Keeps-bind (preorder-R _ (λ e. refl)) _ _ (delete_page-Within bucket) (λ more.
        Keeps-choose (preorder-R _ (λ e. refl)) more _ _ (delete_all_versions-Within fuel bucket)
          (Keeps-pure (preorder-R _ (λ e. refl)) tt))

  pub s3_compensate : (fuel : ℕ) (region : Text) → Within S3.clear (S3.compensate fuel region o c)
  unfolding S3.compensate S3.tear_down
  s3_compensate fuel region = search (frame_rules, delete_all_versions-Within) depth 30

  module _ (connected : Bool) (trust_domain : Text) where
    pub identity_execute : Within Identity.clear (Identity.execute connected trust_domain o c)
    unfolding Identity.execute Identity.simulate Identity.register
    identity_execute = search (frame_rules, verify-Keeps) depth 30

    pub identity_compensate : Within Identity.clear (Identity.compensate connected trust_domain o c)
    unfolding Identity.compensate Identity.unregister
    identity_compensate = search frame_rules depth 30

  module _ (settings : Settings) where
    pub config_execute : Within Config.clear (Config.execute settings o c)
    unfolding Config.execute Config.upload Config.write_local
    config_execute = search frame_rules depth 30

    pub config_compensate : Within Config.clear (Config.compensate settings o c)
    unfolding Config.compensate Config.remove_local
    config_compensate = search frame_rules depth 30

  pub health_execute : Within (λ e. e) (Health.execute o)
  unfolding Health.execute Health.check_rds
  health_execute = search frame_rules depth 30

  pub health_compensate : Within (λ e. e) Health.compensate
  unfolding Health.compensate
  health_compensate = search frame_rules depth 12

  pub registry_execute : Within (λ e. record e { status = [] }) (Registry.execute c)
  unfolding Registry.execute
  registry_execute = search frame_rules depth 12

  pub registry_compensate : Within (λ e. record e { status = [] }) (Registry.compensate c)
  unfolding Registry.compensate
  registry_compensate = search frame_rules depth 12
