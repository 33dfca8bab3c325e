-- ===== src/Steps/Teardown.antt =====
-- The order in which the compensations of the steps for the network, the database and the instance
-- delete what the steps have made.
use mathlib.Core.List.{append-nil, append_assoc}
use mathlib.Core.Path.{subst}
use env_forge.Prelude.{
  ◌≡◌, refl, Bool, true, false, if◌then◌else◌, is_empty, List, [], ◌∷◌, ◌++◌, Text,
}
use env_forge.Environment.{Environment}
use env_forge.Cloud.{
  Call, Oracle, delete_security_group, delete_subnet, delete_vpc, delete_db_instance,
  wait_db_deleted, terminate_instances, wait_instance_terminated,
}
use env_forge.Action.{StateClient, Run, Action, ◌>>=◌, ◌>>◌, get_env, set_env, put, choose}
use env_forge.Steps.Vpc
use env_forge.Steps.Rds
use env_forge.Steps.Ec2
use env_forge.Action.Follows.{
  Followed, Follows, unless_empty, Follows-pure, Follows-set_env, Follows-put, Follows-invoke,
  Follows-context, Follows-when, Follows-then, Follows-choose, Follows-pair,
}

-- what the compensations are to do, by the environment that they find
abbrev pub vpc_plan : Environment → List Call
vpc_plan e =
    if e.dry_run
    then []
    else unless_empty e.security_group_id (delete_security_group e.security_group_id)
      ++ (unless_empty e.public_subnet_id (delete_subnet e.public_subnet_id)
          ++ (unless_empty e.private_subnet_id (delete_subnet e.private_subnet_id)
              ++ unless_empty e.vpc_id (delete_vpc e.vpc_id)))

abbrev pub rds_plan : Environment → List Call
rds_plan e =
    if e.dry_run
    then []
    else if is_empty e.rds_instance_id
    then []
    else delete_db_instance e.rds_instance_id ∷ wait_db_deleted e.rds_instance_id ∷ []

abbrev pub ec2_plan : Environment → List Call
ec2_plan e =
    if e.dry_run
    then []
    else if is_empty e.ec2_instance_id
    then []
    else terminate_instances e.ec2_instance_id ∷ wait_instance_terminated e.ec2_instance_id ∷ []

module _ {D : Type 0} (o : Oracle) (c : StateClient D) where
  saved-Follows : (clear : Environment → Environment) → Follows [] (set_env clear >> put c)
  saved-Follows clear = Follows-then [] [] _ _ (Follows-set_env clear) (Follows-put c)

  subnets-Follows :
      (a b : Text)
      → Follows
          (unless_empty a (delete_subnet a) ++ (unless_empty b (delete_subnet b) ++ []))
          (Vpc.remove_subnets o c (a ∷ b ∷ []))
  unfolding Vpc.remove_subnets
  subnets-Follows a b =
      Follows-then _ _ _ _ (Follows-when a _ _ (Follows-context _ _ _ (Follows-invoke o _))) (
        Follows-then _ _ _ _ (Follows-when b _ _ (Follows-context _ _ _ (Follows-invoke o _)))
          Follows-pure)

  choose-Followed :
      (p q : List Call) (b : Bool) (m n : Action D (Unit {0})) (s : Run D)
      → Followed p s (m s).1 (m s).0
      → Followed q s (n s).1 (n s).0
      → Followed (if b then p else q) s (choose b m n s).1 (choose b m n s).0
  unfolding choose
  choose-Followed p q true m n s k l = k
  choose-Followed p q false m n s k l = l

  tear_down-Followed :
      (s : Run D)
      → Followed
          (unless_empty s.env.security_group_id (delete_security_group s.env.security_group_id)
            ++ ((unless_empty s.env.public_subnet_id (delete_subnet s.env.public_subnet_id)
                  ++ (unless_empty s.env.private_subnet_id (delete_subnet s.env.private_subnet_id)
                      ++ []))
                ++ (unless_empty s.env.vpc_id (delete_vpc s.env.vpc_id) ++ [])))
          s
          (Vpc.tear_down o c s).1
          (Vpc.tear_down o c s).0
  unfolding Vpc.tear_down Vpc.remove_group Vpc.remove_vpc get_env ◌>>=◌
  tear_down-Followed s =
      (Follows-then _ _ _ _ (Follows-when _ _ _ (Follows-context _ _ _ (Follows-invoke o _))) (
          Follows-then _ _ _ _ (subnets-Follows _ _) (
            Follows-then _ [] _ _ (Follows-when _ _ _ (Follows-context _ _ _ (Follows-invoke o _)))
              (saved-Follows Vpc.clear)))).at
        s

  regrouped :
      (g a b v : List Call) → (g ++ ((a ++ (b ++ [])) ++ (v ++ []))) ≡ (g ++ (a ++ (b ++ v)))
  regrouped g a b v = rw (append-nil b, append-nil v, append_assoc a b v) refl

  vpc-Followed :
      (s : Run D) → Followed (vpc_plan s.env) s (Vpc.compensate o c s).1 (Vpc.compensate o c s).0
  unfolding Vpc.compensate get_env ◌>>=◌
  vpc-Followed s = choose-Followed [] _ s.env.dry_run _ _ s ((saved-Follows Vpc.clear).at s) (
      subst (λ (p : List Call). Followed p s (Vpc.tear_down o c s).1 (Vpc.tear_down o c s).0)
        (regrouped _ _ _ _) (tear_down-Followed s))

  rds-Followed :
      (s : Run D) → Followed (rds_plan s.env) s (Rds.compensate o c s).1 (Rds.compensate o c s).0
  unfolding Rds.compensate Rds.tear_down get_env ◌>>=◌
  rds-Followed s =
      (Follows-choose _ _ s.env.dry_run _ _ (saved-Follows Rds.clear) (
          Follows-choose _ _ (is_empty s.env.rds_instance_id) _ _ Follows-pure
            (Follows-pair o c _ _ _ _ Rds.clear))).at
        s

  ec2-Followed :
      (s : Run D) → Followed (ec2_plan s.env) s (Ec2.compensate o c s).1 (Ec2.compensate o c s).0
  unfolding Ec2.compensate Ec2.tear_down get_env ◌>>=◌
  ec2-Followed s =
      (Follows-choose _ _ s.env.dry_run _ _ (saved-Follows Ec2.clear) (
          Follows-choose _ _ (is_empty s.env.ec2_instance_id) _ _ Follows-pure
            (Follows-pair o c _ _ _ _ Ec2.clear))).at
        s

  -- However the services answer, the calls that Compensate of the VPC, the RDS and the EC2 step makes
  -- are a start of a fixed sequence, in its order, and the whole of it if Compensate returns without
  -- an error: none in a dry run; for the VPC step the deletion of the security group, of the public
  -- and of the private subnet, and of the VPC, each if the environment has its id; for the other two,
  -- if there is an id, the deletion of the database or the instance and then the wait for it.
  pub compensate-Followed :
      (s : Run D)
      → Followed (vpc_plan s.env) s (Vpc.compensate o c s).1 (Vpc.compensate o c s).0
        × Followed (rds_plan s.env) s (Rds.compensate o c s).1 (Rds.compensate o c s).0
        × Followed (ec2_plan s.env) s (Ec2.compensate o c s).1 (Ec2.compensate o c s).0
  compensate-Followed s = (vpc-Followed s, rds-Followed s, ec2-Followed s)
