-- ===== src/Cli/Main.antt =====
-- The commands that main of cmd/forge/main.go adds to the root command, and what each of them sends.
pub mod Sent
use env_forge.Prelude.{ℕ, ℤ, Text}
use env_forge.Api.{CreateRequest}
use env_forge.Cli.{Net, Reader, Printer, Command}
use env_forge.Cli.Envs
use env_forge.Cli.Sagas
use env_forge.Cli.Sagas.{ListFlags}
use env_forge.Cli.Admin

-- a command with its arguments and flags; the number is a bound on the polls of create
pub data Invocation : Type 0 where
  create : ℕ → CreateRequest → Invocation
  destroy : Text → Invocation
  list : Text → Invocation
  status : Text → Invocation
  sagas_list : ListFlags → Invocation
  sagas_abort : Text → Invocation
  policies_list : Invocation
  policies_reload : Invocation
  tokens_revoke : Text → ℤ → Invocation
  tokens_revoked : Invocation

module _ {R : Type 0} (net : Net R) (reader : Reader R) (p : Printer)
    (forge_url worker_url : Text) where
  -- root.Execute
  unfoldable pub execute : Invocation → Command (Unit {0})
  execute (create fuel f) = Envs.create net reader p forge_url fuel f
  execute (destroy arg) = Envs.destroy net reader p forge_url arg
  execute (list only) = Envs.list net reader p forge_url only
  execute (status arg) = Envs.status net reader p forge_url arg
  execute (sagas_list f) = Sagas.list net reader p forge_url f
  execute (sagas_abort arg) = Sagas.abort net reader p forge_url arg
  execute policies_list = Admin.list_policies net reader p worker_url
  execute policies_reload = Admin.reload_policies net reader p worker_url
  execute (tokens_revoke id expires_at) = Admin.revoke_token net reader p worker_url id expires_at
  execute tokens_revoked = Admin.list_revoked net reader p worker_url
