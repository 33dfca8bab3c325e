-- ===== src/Steps/Health.antt =====
-- internal/steps/health.go: the read-only check of the database.
use env_forge.Prelude.{Bool, false, ◌++◌, Text, lit}
use env_forge.Go.{other}
use env_forge.Cloud.{Oracle, sql_open, sql_ping, sql_select_1, sql_close}
use env_forge.Action.{Action, ◌>>=◌, ◌>>◌, pure, fail, context, finally, get_env, choose, invoke}

unfoldable pub is_already_done : {D : Type 0} → Action D Bool
is_already_done = pure false

unfoldable pub compensate : {D : Type 0} → Action D (Unit {0})
compensate = pure tt

module _ {D : Type 0} (o : Oracle) where
  unfoldable pub check_rds : Text → Text → Action D (Unit {0})
  check_rds endpoint password = do
    context (lit "open db") (
        invoke o (
          sql_open (
            lit "postgres://forgeadmin:"
            ++ password
            ++ lit "@"
            ++ endpoint
            ++ lit "/postgres?sslmode=require&connect_timeout=10")))
    finally
        (do
          context (lit "ping") (invoke o sql_ping)
          context (lit "select 1") (invoke o sql_select_1))
        (invoke o sql_close)

  unfoldable pub execute : Action D (Unit {0})
  execute = do
    env ← get_env
    choose env.fail_at_health
        (fail (other (lit "injected health failure for demo (--fail-at-health)")))
        (choose env.dry_run (pure tt)
          (context (lit "rds health check failed") (check_rds env.rds_endpoint env.rds_password)))
