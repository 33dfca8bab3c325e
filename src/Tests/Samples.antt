-- ===== src/Tests/Samples.antt =====
-- Small inputs: a clock, environments, a store, and services that answer.
use env_forge.Prelude.{
  ◌≡◌, refl, ℕ, Bool, true, false, [], ◌∷◌, Option, none, some, Text, lit, text_eq,
}
use env_forge.Environment.{Environment, status_provisioning}
use env_forge.Environment.Json.{TimeText, zero_env}
use env_forge.Environment.Store
use env_forge.Environment.Store.{Store, client}
use env_forge.Environment.Store.Laws.{client-IsStateClient}
use env_forge.Go.{ok, err, other}
use env_forge.Cloud.{
  Oracle, create_vpc, enable_dns_hostnames, wait_vpc_available, create_subnet,
  create_security_group, authorize_ingress, describe_db_instances, rand_read,
}
use env_forge.Action.{StateClient, IsStateClient, Run}
use env_forge.Steps.All.{Options}
use env_forge.Api.Internal.{Verifier}
use env_forge.Api.{reply, text}
use env_forge.Conductor.{SagaStatus, Stub}
use env_forge.Tests.Memory.{Memory, memory, memory-IsBucket}

-- a time as a text of one byte
abbrev first_of : Text → Option ℕ
first_of [] = none
first_of (n ∷ _) = some n

pub parse-format :
    (n : ℕ) (s : Text) → ◌≡◌ {A = Option Text} (some (n ∷ [])) (some s) → first_of s ≡ some n
parse-format n s h = let same : n ∷ [] ≡ s = cc h in rw (← same) refl

unfoldable pub clock : TimeText
clock = record { format = λ n. some (n ∷ []); parse = first_of; parse-format = parse-format }

abbrev pub planned : Environment
planned = record zero_env {
  id = lit "0a1b2c3d-77";
  owner = lit "spiffe://test/dev";
  status = status_provisioning;
  created_at = 3;
}

abbrev pub rehearsed : Environment
rehearsed = record planned { id = lit "0a1b9999-78"; dry_run = true; created_at = 4 }

abbrev pub empty_store : Store Memory
empty_store = record { db = []; now = 5 }

unfoldable pub one_stored : Store Memory
one_stored = (Store.put memory clock planned empty_store).2

unfoldable pub two_stored : Store Memory
unfolding one_stored
two_stored = (Store.put memory clock rehearsed one_stored).2

unfoldable pub local : StateClient (Store Memory)
local = client memory clock

pub local-IsStateClient : IsStateClient local
unfolding local
local-IsStateClient = client-IsStateClient memory clock memory-IsBucket

-- services that make networks, have a database in the making, and refuse the rest
unfoldable pub services : Oracle
services before (create_vpc cidr env_id name) = ok (some (some (lit "vpc-1")))
services before (enable_dns_hostnames vpc) = ok tt
services before (wait_vpc_available vpc) = ok tt
services before (create_subnet vpc cidr env_id name) = ok (some (some cidr))
services before (create_security_group name description vpc env_id) = ok (some (lit "sg-1"))
services before (authorize_ingress group protocol from_port to_port cidr) = ok tt
services before (describe_db_instances id) =
    ok (record { status = some (lit "creating"); endpoint = none } ∷ [])
services before (rand_read bytes) = ok (lit "0123456789abcdef")
services before _ = err (other (lit "unavailable"))

abbrev pub options : Options
options = record {
  fuel = 2;
  region = lit "us-east-1";
  connected = false;
  settings = record {
    svid_exchange_addr = lit "localhost:8080";
    trust_domain = lit "test";
    local_env_dir = lit "envs";
  };
}

abbrev pub run_planned : Run (Store Memory)
run_planned = record { env = planned; db = two_stored; calls = [] }

abbrev pub run_rehearsed : Run (Store Memory)
run_rehearsed = record { env = rehearsed; db = two_stored; calls = [] }

-- a verifier whose claims are the header itself, and which grants what the header says
abbrev pub grants_write : Text → Bool
grants_write header = text_eq header (lit "Bearer rw")

unfoldable pub verifier : Verifier Text
verifier = record {
  claims = λ header. header;
  has_scope = λ k scope. true;
  has_all_scopes = λ k scopes. grants_write k;
  denied = reply 401 (text (lit "unauthorized"));
}

-- a conductor that ends each saga in the given way
abbrev pub conductor : SagaStatus → Stub ℕ
conductor status = record {
  create_saga = λ request n. (ok (lit "saga-1"), n);
  start_saga = λ id n. (
    ok (
        some (record {
          id = id;
          status = status;
          failed_step = lit "health";
          created_at = none;
          steps = [];
        })),
    n,
  );
  get_saga = λ id n. (
    ok (record { id = id; status = status; failed_step = []; created_at = none; steps = [] }),
    n,
  );
  list_sagas = λ req n. (ok ([], []), n);
  abort_saga = λ id n. (
    ok (record { id = id; status = status; failed_step = []; created_at = none; steps = [] }),
    n,
  );
}
