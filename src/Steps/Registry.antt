-- ===== src/Steps/Registry.antt =====
-- internal/steps/registry.go: the status of an environment.
use env_forge.Prelude.{Bool, text_eq}
use env_forge.Environment.{status_ready, status_destroyed}
use env_forge.Action.{StateClient, Action, ◌>>=◌, ◌>>◌, pure, get_env, set_env, put}

unfoldable pub is_already_done : {D : Type 0} → Action D Bool
is_already_done = do env ← get_env; pure (text_eq env.status status_ready)

module _ {D : Type 0} (c : StateClient D) where
  unfoldable pub execute : Action D (Unit {0})
  execute = do set_env (λ e. record e { status = status_ready }); put c

  unfoldable pub compensate : Action D (Unit {0})
  compensate = do set_env (λ e. record e { status = status_destroyed }); put c
