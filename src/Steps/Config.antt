-- ===== src/Steps/Config.antt =====
-- internal/steps/config.go: the configuration of an environment, in its bucket and in a local file.
-- json.MarshalIndent cannot fail on a record of strings, so that return is left out.
use env_forge.Prelude.{Bool, not, ◌&&◌, [], ◌++◌, Text, lit, is_empty}
use env_forge.Environment.{Environment}
use env_forge.Go.{wrap, is_not_exist}
use env_forge.Go.FilePath.{join_path}
use env_forge.Cloud.{
  EnvConfig, config, Oracle, put_object, delete_object, mkdir_all, write_file, remove_file,
}
use env_forge.Action.{
  StateClient, Action, ◌>>=◌, ◌>>◌, pure, fail, catch, context, get_env, set_env, short_id, put,
  when, choose, invoke,
}

abbrev pub clear : Environment → Environment
clear e = record e { local_env_path = [] }

unfoldable pub is_already_done : {D : Type 0} → Action D Bool
is_already_done = do env ← get_env; pure (not (is_empty env.local_env_path))

-- the fields of ConfigStep that are not a client
pub record Settings : Type 0 where
  pub svid_exchange_addr : Text
  pub trust_domain : Text
  pub local_env_dir : Text

unfoldable pub config_of : Settings → Environment → EnvConfig
config_of s e = record {
  env_id = e.id;
  rds_endpoint = e.rds_endpoint;
  rds_password = e.rds_password;
  s3_bucket_name = e.s3_bucket_name;
  spiffe_socket_path = lit "/run/spire/sockets/agent.sock";
  svid_exchange_addr = s.svid_exchange_addr;
  jwks_endpoint = lit "http://" ++ s.svid_exchange_addr ++ lit "/jwks";
  trust_domain = s.trust_domain;
}

unfoldable pub env_content : EnvConfig → Text
env_content cfg =
    lit "ENV_ID="
    ++ cfg.env_id
    ++ lit "\nRDS_ENDPOINT="
    ++ cfg.rds_endpoint
    ++ lit "\nRDS_PASSWORD="
    ++ cfg.rds_password
    ++ lit "\nS3_BUCKET="
    ++ cfg.s3_bucket_name
    ++ lit "\nSPIFFE_SOCKET="
    ++ cfg.spiffe_socket_path
    ++ lit "\nSVID_EXCHANGE_ADDR="
    ++ cfg.svid_exchange_addr
    ++ lit "\nJWKS_URL="
    ++ cfg.jwks_endpoint
    ++ lit "\n"

module _ {D : Type 0} (settings : Settings) (o : Oracle) (c : StateClient D) where
  -- Execute: the upload
  unfoldable pub upload : EnvConfig → Action D (Unit {0})
  upload cfg =
      context (lit "upload config.json to s3")
        (invoke o (put_object cfg.s3_bucket_name (lit "config.json") (config cfg)))

  -- Execute: the local file
  unfoldable pub write_local : EnvConfig → Action D (Unit {0})
  write_local cfg = do
    context (lit "create local env dir") (invoke o (mkdir_all settings.local_env_dir))
    short ← short_id
    let env_path = join_path settings.local_env_dir (lit "env-" ++ short ++ lit ".env")
    context (lit "write .env file") (invoke o (write_file env_path (env_content cfg)))
    set_env (λ e. record e { local_env_path = env_path })
    put c

  unfoldable pub execute : Action D (Unit {0})
  execute = do
    env ← get_env
    let cfg = config_of settings env
    when (not env.dry_run) (upload cfg)
    write_local cfg

  -- Compensate: the local file
  unfoldable pub remove_local : Text → Action D (Unit {0})
  remove_local path = do
    catch (invoke o (remove_file path))
        (λ e. choose (is_not_exist e) (pure tt) (fail (wrap (lit "remove .env file") e)))
    set_env clear

  unfoldable pub compensate : Action D (Unit {0})
  compensate = do
    env ← get_env
    when (not env.dry_run && not (is_empty env.s3_bucket_name)) (
        context (lit "delete config.json from s3")
          (invoke o (delete_object env.s3_bucket_name (lit "config.json"))))
    when (not (is_empty env.local_env_path)) (remove_local env.local_env_path)
    put c
