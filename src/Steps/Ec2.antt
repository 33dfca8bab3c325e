-- ===== src/Steps/Ec2.antt =====
-- internal/steps/ec2.go: the instance of an environment. The script that the instance runs at its
-- start and its fixed type are left out of the call.
use env_forge.Prelude.{
  Bool, not, false, List, [], ◌∷◌, ◌++◌, Option, none, some, Text, lit, is_empty, text_eq,
}
use env_forge.Environment.{Environment}
use env_forge.Go.{other}
use env_forge.Cloud.{
  Instance, Oracle, run_instances, wait_instance_running, describe_instances, terminate_instances,
  wait_instance_terminated,
}
use env_forge.Action.{
  StateClient, Action, ◌>>=◌, ◌>>◌, pure, fail, context, to_string, get_env, set_env, short_id, put,
  call, choose, invoke,
}

abbrev pub amazon_linux_2023_ami : Text
amazon_linux_2023_ami = lit "ami-0c101f26f147fa7fd"

abbrev pub clear : Environment → Environment
clear e = record e { ec2_instance_id = []; ec2_public_ip = [] }

-- out.Reservations[0].Instances[0], if both are there
abbrev pub first_instance : List (List Instance) → Option Instance
first_instance [] = none
first_instance ([] ∷ more) = none
first_instance ((i ∷ others) ∷ more) = some i

abbrev pub state_is_running : Option Text → Bool
state_is_running none = false
state_is_running (some name) = text_eq name (lit "running")

abbrev pub first_id : {D : Type 0} → List Instance → Action D Text
first_id [] = fail (other (lit "run instances returned empty instance list"))
first_id (i ∷ more) = pure (to_string i.instance_id)

module _ {D : Type 0} (o : Oracle) where
  -- IsAlreadyDone, when not env.DryRun and there is an id
  unfoldable pub is_running : Text → Action D Bool
  is_running instance_id = do
    out ← context (lit "describe instances") (call o (describe_instances instance_id))
    pure (elim (first_instance out) [ none ↦ false | some i ↦ state_is_running i.state ])

  unfoldable pub is_already_done : Action D Bool
  is_already_done = do
    env ← get_env
    choose env.dry_run (pure (not (is_empty env.ec2_instance_id)))
        (choose (is_empty env.ec2_instance_id) (pure false) (is_running env.ec2_instance_id))

module _ {D : Type 0} (o : Oracle) (c : StateClient D) where
  -- Execute, when env.DryRun
  unfoldable pub simulate : Action D (Unit {0})
  simulate = do
    short ← short_id
    set_env (λ e. record e {
      ec2_instance_id = lit "i-dryrun-" ++ short;
      ec2_public_ip = lit "1.2.3.4";
    })
    put c

  -- Execute, when not env.DryRun: up to the save before polling
  unfoldable pub create : Action D Text
  create = do
    short ← short_id
    env ← get_env
    instances ← context (lit "run instances") (
        call o (
          run_instances amazon_linux_2023_ami env.public_subnet_id env.security_group_id env.id
            (lit "env-forge-" ++ short)))
    instance_id ← first_id instances
    set_env (λ e. record e { ec2_instance_id = instance_id })
    put c
    pure instance_id

  -- Execute, when not env.DryRun: the polling, and the public address
  unfoldable pub await_address : Text → Action D (Unit {0})
  await_address instance_id = do
    env ← get_env
    context (lit "wait for instance running") (invoke o (wait_instance_running env.ec2_instance_id))
    out ← context (lit "describe instances") (call o (describe_instances env.ec2_instance_id))
    set_env (λ e. record e {
      ec2_public_ip = elim (first_instance out) [
        | none ↦ e.ec2_public_ip
        | some i ↦ to_string i.public_ip
      ];
    })
    put c

  unfoldable pub provision : Action D (Unit {0})
  provision = create >>= await_address

  unfoldable pub execute : Action D (Unit {0})
  execute = do env ← get_env; choose env.dry_run simulate provision

  -- Compensate, when not env.DryRun and there is an id
  unfoldable pub tear_down : Text → Action D (Unit {0})
  tear_down instance_id = do
    context (lit "terminate instances") (invoke o (terminate_instances instance_id))
    context (lit "wait for instance terminated") (invoke o (wait_instance_terminated instance_id))
    set_env clear
    put c

  unfoldable pub compensate : Action D (Unit {0})
  compensate = do
    env ← get_env
    choose env.dry_run (do set_env clear; put c)
        (choose (is_empty env.ec2_instance_id) (pure tt) (tear_down env.ec2_instance_id))
