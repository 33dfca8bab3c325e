-- ===== src/Steps/Frame/Every.antt =====
-- The frame of every step that buildSteps builds.
use env_forge.Cloud.{Oracle}
use env_forge.Action.{StateClient, IsStateClient, Run}
use env_forge.Action.Rules.{Keeps, keeps_rules}
use env_forge.Steps.Vpc
use env_forge.Steps.Rds
use env_forge.Steps.Ec2
use env_forge.Steps.S3
use env_forge.Steps.Identity
use env_forge.Steps.Config
use env_forge.Steps.Health
use env_forge.Steps.Registry
use env_forge.Steps.All.{
  Kind, vpc, rds, ec2, s3, identity, config, health, registry, Options, step_of, without,
}
use env_forge.Environment.{Environment}
use env_forge.Steps.Frame.{IsWithin, IsFrame, IsWithin-IsFrame}
use env_forge.Steps.Frame.Each.{
  vpc_execute, vpc_compensate, rds_execute, rds_compensate, ec2_execute, ec2_compensate, s3_execute,
  s3_compensate, identity_execute, identity_compensate, config_execute, config_compensate,
  health_execute, health_compensate, registry_execute, registry_compensate,
}

module _ {D : Type 0} (p : Options) (o : Oracle) (c : StateClient D)
    {R : (Environment → Environment) → Run D → Run D → Type 0} (frame : IsFrame c R) where
  pub execute-Keeps : (k : Kind) → Keeps (R (without k)) (step_of p o c k).execute
  unfolding step_of
  execute-Keeps vpc = vpc_execute o c frame
  execute-Keeps rds = rds_execute o c frame
  execute-Keeps ec2 = ec2_execute o c frame
  execute-Keeps s3 = s3_execute o c frame p.fuel p.region
  execute-Keeps identity = identity_execute o c frame p.connected p.settings.trust_domain
  execute-Keeps config = config_execute o c frame p.settings
  execute-Keeps health = health_execute o c frame
  execute-Keeps registry = registry_execute o c frame

  pub compensate-Keeps : (k : Kind) → Keeps (R (without k)) (step_of p o c k).compensate
  unfolding step_of
  compensate-Keeps vpc = vpc_compensate o c frame
  compensate-Keeps rds = rds_compensate o c frame
  compensate-Keeps ec2 = ec2_compensate o c frame
  compensate-Keeps s3 = s3_compensate o c frame p.fuel p.region
  compensate-Keeps identity = identity_compensate o c frame p.connected p.settings.trust_domain
  compensate-Keeps config = config_compensate o c frame p.settings
  compensate-Keeps health = health_compensate o c frame
  compensate-Keeps registry = registry_compensate o c frame

  pub already_done-Keeps : (k : Kind) → Keeps (R (without k)) (step_of p o c k).is_already_done
  unfolding step_of Vpc.is_already_done Rds.is_already_done Rds.is_available Ec2.is_already_done
      Ec2.is_running S3.is_already_done Identity.is_already_done Config.is_already_done
      Health.is_already_done Registry.is_already_done
  already_done-Keeps vpc = search (keeps_rules, frame.preorder) depth 20
  already_done-Keeps rds = search (keeps_rules, frame.preorder, frame.call) depth 20
  already_done-Keeps ec2 = search (keeps_rules, frame.preorder, frame.call) depth 20
  already_done-Keeps s3 = search (keeps_rules, frame.preorder) depth 20
  already_done-Keeps identity = search (keeps_rules, frame.preorder) depth 20
  already_done-Keeps config = search (keeps_rules, frame.preorder) depth 20
  already_done-Keeps health = search (keeps_rules, frame.preorder) depth 20
  already_done-Keeps registry = search (keeps_rules, frame.preorder) depth 20

module _ {D : Type 0} (p : Options) (o : Oracle) (c : StateClient D) (laws : IsStateClient c) where
  -- Whatever the services answer and however the step ends, Execute and Compensate of a step change
  -- at most the environment's fields that are this step's own, and its stamp; they leave what is
  -- stored for every other environment as it reads; and they only add calls to those made before.
  pub step-IsWithin :
      (k : Kind) (s : Run D)
      → IsWithin c (without k) s ((step_of p o c k).execute s).1
        × IsWithin c (without k) s ((step_of p o c k).compensate s).1
  step-IsWithin k s = (
    (execute-Keeps p o c (IsWithin-IsFrame laws) k).at s,
    (compensate-Keeps p o c (IsWithin-IsFrame laws) k).at s,
  )
