-- ===== src/Environment.antt =====
-- internal/environment/types.go: the record that the saga steps fill in. A time is a number of
-- nanoseconds, and a list that is nil in Go is [].
pub mod Json
pub mod Origin
pub mod Store
use env_forge.Prelude.{ℕ, Bool, List, Text, lit}

abbrev pub status_provisioning : Text
status_provisioning = lit "provisioning"

abbrev pub status_ready : Text
status_ready = lit "ready"

abbrev pub status_failed : Text
status_failed = lit "failed"

abbrev pub status_destroyed : Text
status_destroyed = lit "destroyed"

pub record Environment : Type 0 where
  pub id : Text
  pub owner : Text
  pub status : Text
  pub saga_id : Text
  pub dry_run : Bool
  pub created_at : ℕ
  pub updated_at : ℕ
  pub vpc_id : Text
  pub public_subnet_id : Text
  pub private_subnet_id : Text
  pub security_group_id : Text
  pub rds_instance_id : Text
  pub rds_endpoint : Text
  pub rds_password : Text
  pub ec2_instance_id : Text
  pub ec2_public_ip : Text
  pub s3_bucket_name : Text
  pub spire_entry_ids : List Text
  pub svid_exchange_policy_name : Text
  pub local_env_path : Text
  pub fail_at_health : Bool
