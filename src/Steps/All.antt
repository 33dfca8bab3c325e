-- ===== src/Steps/All.antt =====
-- buildSteps of cmd/forge-worker/main.go: the eight steps in their order, and the parts of an
-- environment that each of them fills in.
use env_forge.Prelude.{ℕ, Bool, List, [], ◌∷◌, Text, lit, map}
use env_forge.Environment.{Environment}
use env_forge.Cloud.{Oracle}
use env_forge.Action.{StateClient}
use env_forge.Steps.{Step}
use env_forge.Steps.Vpc
use env_forge.Steps.Rds
use env_forge.Steps.Ec2
use env_forge.Steps.S3
use env_forge.Steps.Identity
use env_forge.Steps.Config
use env_forge.Steps.Config.{Settings}
use env_forge.Steps.Health
use env_forge.Steps.Registry

pub data Kind : Type 0 where
  vpc rds ec2 s3 identity config health registry : Kind

-- how the worker was started, and how many pages of object versions the model follows
pub record Options : Type 0 where
  pub fuel : ℕ
  pub region : Text
  pub connected : Bool
  pub settings : Settings

-- Name()
unfoldable pub name_of : Kind → Text
name_of vpc = lit "vpc"
name_of rds = lit "rds"
name_of ec2 = lit "ec2"
name_of s3 = lit "s3"
name_of identity = lit "identity"
name_of config = lit "config"
name_of health = lit "health"
name_of registry = lit "registry"

module _ {D : Type 0} (p : Options) (o : Oracle) (c : StateClient D) where
  unfoldable pub step_of : Kind → Step D
  step_of vpc = record {
    name = name_of vpc;
    execute = Vpc.execute o c;
    compensate = Vpc.compensate o c;
    is_already_done = Vpc.is_already_done;
  }
  step_of rds = record {
    name = name_of rds;
    execute = Rds.execute o c;
    compensate = Rds.compensate o c;
    is_already_done = Rds.is_already_done o;
  }
  step_of ec2 = record {
    name = name_of ec2;
    execute = Ec2.execute o c;
    compensate = Ec2.compensate o c;
    is_already_done = Ec2.is_already_done o;
  }
  step_of s3 = record {
    name = name_of s3;
    execute = S3.execute p.fuel p.region o c;
    compensate = S3.compensate p.fuel p.region o c;
    is_already_done = S3.is_already_done;
  }
  step_of identity = record {
    name = name_of identity;
    execute = Identity.execute p.connected p.settings.trust_domain o c;
    compensate = Identity.compensate p.connected p.settings.trust_domain o c;
    is_already_done = Identity.is_already_done;
  }
  step_of config = record {
    name = name_of config;
    execute = Config.execute p.settings o c;
    compensate = Config.compensate p.settings o c;
    is_already_done = Config.is_already_done;
  }
  step_of health = record {
    name = name_of health;
    execute = Health.execute o;
    compensate = Health.compensate;
    is_already_done = Health.is_already_done;
  }
  step_of registry = record {
    name = name_of registry;
    execute = Registry.execute c;
    compensate = Registry.compensate c;
    is_already_done = Registry.is_already_done;
  }

abbrev pub all_kinds : List Kind
all_kinds = vpc ∷ rds ∷ ec2 ∷ s3 ∷ identity ∷ config ∷ health ∷ registry ∷ []

unfoldable pub build_steps : {D : Type 0} → Options → Oracle → StateClient D → List (Step D)
build_steps p o c = map (step_of p o c) all_kinds

-- the environment without what the step of the kind fills in
abbrev pub without : Kind → Environment → Environment
without vpc = Vpc.clear
without rds = Rds.clear
without ec2 = Ec2.clear
without s3 = S3.clear
without identity = Identity.clear
without config = Config.clear
without health = λ e. e
without registry = λ e. record e { status = [] }
