-- ===== src/Environment/Origin.antt =====
-- What is fixed of an environment when it is created.
use env_forge.Environment.{Environment}
use env_forge.Environment.Json.{zero_env}

-- the environment with the id, the owner, the time of its creation and the two flags of the request
-- that created it, and nothing else
abbrev pub origin : Environment → Environment
origin e = record zero_env {
  id = e.id;
  owner = e.owner;
  dry_run = e.dry_run;
  created_at = e.created_at;
  fail_at_health = e.fail_at_health;
}
