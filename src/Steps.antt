-- ===== src/Steps.antt =====
-- internal/steps: the eight saga steps and the interface that they implement (step.go). Sleeps,
-- which only simulate delays in a dry run, are left out.
pub mod Vpc
pub mod Rds
pub mod Ec2
pub mod S3
pub mod Identity
pub mod Config
pub mod Health
pub mod Registry
pub mod All
pub mod Frame
pub mod Saved
pub mod Done
pub mod Dry
pub mod Undone
pub mod Teardown
pub mod Resaved
pub mod Reverted
pub mod Live
use env_forge.Prelude.{Bool, Text}
use env_forge.Action.{Action}

pub record Step (D : Type 0) : Type 0 where
  pub name : Text
  pub execute : Action D (Unit {0})
  pub compensate : Action D (Unit {0})
  pub is_already_done : Action D Bool
