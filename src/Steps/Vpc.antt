-- ===== src/Steps/Vpc.antt =====
-- internal/steps/vpc.go: the network of an environment.
use env_forge.Prelude.{Bool, not, List, [], ◌∷◌, ◌++◌, Text, lit, is_empty}
use env_forge.Environment.{Environment}
use env_forge.Cloud.{
  Oracle, create_vpc, enable_dns_hostnames, wait_vpc_available, create_subnet,
  create_security_group, authorize_ingress, delete_security_group, delete_subnet, delete_vpc,
}
use env_forge.Action.{
  StateClient, Action, ◌>>=◌, ◌>>◌, pure, context, deref, to_string, get_env, set_env, short_id,
  put, call, when, choose, invoke,
}

abbrev pub clear : Environment → Environment
clear e = record e {
  security_group_id = [];
  public_subnet_id = [];
  private_subnet_id = [];
  vpc_id = [];
}

unfoldable pub is_already_done : {D : Type 0} → Action D Bool
is_already_done = do env ← get_env; pure (not (is_empty env.vpc_id))

module _ {D : Type 0} (o : Oracle) (c : StateClient D) where
  -- Execute, when env.DryRun
  unfoldable pub simulate : Action D (Unit {0})
  simulate = do
    short ← short_id
    set_env (λ e. record e {
      vpc_id = lit "vpc-dryrun-" ++ short;
      public_subnet_id = lit "subnet-pub-" ++ short;
      private_subnet_id = lit "subnet-prv-" ++ short;
      security_group_id = lit "sg-" ++ short;
    })
    put c

  -- Execute: the VPC
  unfoldable pub make_vpc : Text → Action D (Unit {0})
  make_vpc name = do
    env ← get_env
    vpc ← context (lit "create vpc") (call o (create_vpc (lit "10.0.0.0/16") env.id name))
    vpc_id ← deref vpc
    set_env (λ e. record e { vpc_id = to_string vpc_id })
    context (lit "enable dns hostnames") (invoke o (enable_dns_hostnames vpc_id))
    context (lit "wait for vpc available") (invoke o (wait_vpc_available (to_string vpc_id)))

  -- Execute: a subnet, and its id
  unfoldable pub make_subnet : Text → Text → Text → Action D Text
  make_subnet what cidr name = do
    env ← get_env
    subnet ← context what (call o (create_subnet env.vpc_id cidr env.id name))
    subnet_id ← deref subnet
    pure (to_string subnet_id)

  -- Execute: the security group
  unfoldable pub make_group : Text → Action D (Unit {0})
  make_group name = do
    env ← get_env
    group ← context (lit "create security group") (
        call o
          (create_security_group name (lit "env-forge environment " ++ env.id) env.vpc_id env.id))
    set_env (λ e. record e { security_group_id = to_string group })
    context (lit "authorize postgres ingress")
        (invoke o (authorize_ingress (to_string group) (lit "tcp") 5432 5432 (lit "10.0.0.0/16")))

  -- Execute, when not env.DryRun
  unfoldable pub provision : Action D (Unit {0})
  provision = do
    short ← short_id
    let name = lit "env-forge-" ++ short
    make_vpc name
    public ← make_subnet (lit "create public subnet") (lit "10.0.1.0/24") name
    set_env (λ e. record e { public_subnet_id = public })
    private ← make_subnet (lit "create private subnet") (lit "10.0.2.0/24") name
    set_env (λ e. record e { private_subnet_id = private })
    make_group name
    put c

  unfoldable pub execute : Action D (Unit {0})
  execute = do env ← get_env; choose env.dry_run simulate provision

  unfoldable pub remove_group : Text → Action D (Unit {0})
  remove_group group =
      when (not (is_empty group))
        (context (lit "delete security group") (invoke o (delete_security_group group)))

  -- the loop over the two subnets
  unfoldable pub remove_subnets : List Text → Action D (Unit {0})
  remove_subnets [] = pure tt
  remove_subnets (subnet ∷ more) = do
    when (not (is_empty subnet))
        (context (lit "delete subnet " ++ subnet) (invoke o (delete_subnet subnet)))
    remove_subnets more

  unfoldable pub remove_vpc : Text → Action D (Unit {0})
  remove_vpc vpc =
      when (not (is_empty vpc)) (context (lit "delete vpc") (invoke o (delete_vpc vpc)))

  -- Compensate, when not env.DryRun: in reverse order of dependency
  unfoldable pub tear_down : Action D (Unit {0})
  tear_down = do
    env ← get_env
    remove_group env.security_group_id
    remove_subnets (env.public_subnet_id ∷ env.private_subnet_id ∷ [])
    remove_vpc env.vpc_id
    set_env clear
    put c

  unfoldable pub compensate : Action D (Unit {0})
  compensate = do env ← get_env; choose env.dry_run (do set_env clear; put c) tear_down
