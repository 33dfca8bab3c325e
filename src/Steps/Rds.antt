-- ===== src/Steps/Rds.antt =====
-- internal/steps/rds.go: the database of an environment.
pub mod Recovery
use Prim.Native.Nat.{◌/◌, ◌%◌}
use env_forge.Prelude.{
  ℕ, ltb, ◌+◌, ◌-◌, if◌then◌else◌, Bool, not, false, List, [], ◌∷◌, ◌++◌, none, some, Text, lit,
  is_empty, text_eq,
}
use env_forge.Environment.{Environment}
use env_forge.Go.{wrap, is_db_not_found}
use env_forge.Cloud.{
  DbInstance, Oracle, create_db_instance, wait_db_available, describe_db_instances,
  delete_db_instance, wait_db_deleted, rand_read,
}
use env_forge.Action.{
  StateClient, Action, ◌>>=◌, ◌>>◌, pure, fail, catch, context, to_string, get_env, set_env,
  short_id, put, call, choose, invoke,
}

abbrev pub clear : Environment → Environment
clear e = record e { rds_instance_id = []; rds_endpoint = []; rds_password = [] }

abbrev hex_digit : ℕ → ℕ
hex_digit d = if ltb d 10 then b'0' + d else b'a' + (d - 10)

-- hex.EncodeToString
unfoldable pub hex_encode : Text → Text
hex_encode [] = []
hex_encode (b ∷ bytes) = hex_digit (b / 16) ∷ hex_digit (b % 16) ∷ hex_encode bytes

-- the status of the first instance is "available"
abbrev pub first_available : List DbInstance → Bool
first_available [] = false
first_available (db ∷ more) = text_eq (to_string db.status) (lit "available")

-- the endpoint that Execute reads back, if there is one
abbrev pub endpoint_of : Text → List DbInstance → Text
endpoint_of old [] = old
endpoint_of old (db ∷ more) = elim db.endpoint [
  | none ↦ old
  | some (address, port) ↦ to_string address ++ lit ":" ++ port
]

module _ {D : Type 0} (o : Oracle) where
  unfoldable pub generate_password : Action D Text
  generate_password = do bytes ← call o (rand_read 16); pure (hex_encode bytes)

  -- IsAlreadyDone, when not env.DryRun and there is an id
  unfoldable pub is_available : Text → Action D Bool
  is_available instance_id =
      catch (do out ← call o (describe_db_instances instance_id); pure (first_available out))
        (λ e. choose (is_db_not_found e) (pure false) (fail (wrap (lit "describe db instances") e)))

  unfoldable pub is_already_done : Action D Bool
  is_already_done = do
    env ← get_env
    choose env.dry_run (pure (not (is_empty env.rds_instance_id)))
        (choose (is_empty env.rds_instance_id) (pure false) (is_available env.rds_instance_id))

module _ {D : Type 0} (o : Oracle) (c : StateClient D) where
  -- Execute, when env.DryRun
  unfoldable pub simulate : Action D (Unit {0})
  simulate = do
    short ← short_id
    set_env (λ e. record e {
      rds_instance_id = lit "db-dryrun-" ++ short;
      rds_endpoint = lit "db-dryrun-" ++ short ++ lit ".us-east-1.rds.amazonaws.com:5432";
      rds_password = lit "dryrunpassword";
    })
    put c

  -- Execute, when not env.DryRun: up to the save before polling
  unfoldable pub create : Action D Text
  create = do
    short ← short_id
    let db_id = lit "env-forge-" ++ short
    password ← context (lit "generate rds password") (generate_password o)
    set_env (λ e. record e { rds_password = password; rds_instance_id = db_id })
    env ← get_env
    context (lit "create db instance")
        (invoke o (create_db_instance db_id password db_id env.security_group_id env.id))
    put c
    pure db_id

  -- Execute, when not env.DryRun: the polling, and the endpoint
  unfoldable pub await_endpoint : Text → Action D (Unit {0})
  await_endpoint db_id = do
    context (lit "wait for rds available") (invoke o (wait_db_available db_id))
    out ← context (lit "describe db instance") (call o (describe_db_instances db_id))
    set_env (λ e. record e { rds_endpoint = endpoint_of e.rds_endpoint out })
    put c

  unfoldable pub provision : Action D (Unit {0})
  provision = create >>= await_endpoint

  unfoldable pub execute : Action D (Unit {0})
  execute = do env ← get_env; choose env.dry_run simulate provision

  -- Compensate, when not env.DryRun and there is an id
  unfoldable pub tear_down : Text → Action D (Unit {0})
  tear_down instance_id = do
    context (lit "delete db instance") (invoke o (delete_db_instance instance_id))
    context (lit "wait for rds deleted") (invoke o (wait_db_deleted instance_id))
    set_env clear
    put c

  unfoldable pub compensate : Action D (Unit {0})
  compensate = do
    env ← get_env
    choose env.dry_run (do set_env clear; put c)
        (choose (is_empty env.rds_instance_id) (pure tt) (tear_down env.rds_instance_id))
