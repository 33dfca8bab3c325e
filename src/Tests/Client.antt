-- ===== src/Tests/Client.antt =====
-- The theorems on the command line client, at concrete inputs.
use env_forge.Prelude.{
  ◌≡◌, ◌≢◌, refl, ℕ, ◌≤◌, length, map, true, false, pos, Bool, Option, none, some, List, [], ◌∷◌,
  Text, lit, arith,
}
use env_forge.Environment.{Environment, status_ready, status_provisioning}
use env_forge.Go.{ok, err, other, Result}
use env_forge.Conductor.{StepExecution}
use env_forge.Cli.{get, Net, Reader, Printer, Request, Run}
use env_forge.Cli.Cells.{shorten_spiffe, error_cell}
use env_forge.Cli.Cells.Bounds.{IsShortOf, shorten_spiffe-IsShortOf, cell_width, error_cell-width}
use env_forge.Cli.Envs.{watch, list_url, env_row}
use env_forge.Cli.Envs.Stored.{envs_of, got}
use env_forge.Cli.Envs.Poll.{Answers, Ends, settles, poll_request, repeated}
use env_forge.Cli.Envs.Watch.{watch-Ends}
use env_forge.Cli.Requests.{Sends}
use env_forge.Cli.Main.{destroy, execute}
use env_forge.Cli.Main.Sent.{posts_of, execute-Sends}
use env_forge.Environment.Json.{Json}
use env_forge.Environment.Store.{of_json}
use env_forge.Api.{Body, json, handle_list_envs}
use env_forge.Tests.Memory.{memory}
use env_forge.Tests.Samples.{clock, planned, rehearsed, two_stored}

abbrev pub unread : {A : Type 0} → Result A
unread = err (other (lit "unexpected end of JSON input"))

-- a reader of bodies that are no JSON
unfoldable pub idle_reader : {R : Type 0} → Reader R
idle_reader = record {
  read_all = λ r. ok (lit "refused");
  env_id = λ r. unread;
  env = λ r. unread;
  envs = λ r. unread;
  saga = λ r. unread;
  sagas = λ r. unread;
  policies = λ r. unread;
  tokens = λ r. unread;
}

unfoldable pub plain : Printer
plain = record {
  rfc3339 = λ n. lit "time";
  unix_rfc3339 = λ n. lit "time";
  unix_clock = λ n. lit "time";
  now_clock = λ before. lit "now";
  saga_status = λ status. lit "status";
  trim_space = λ s. s;
  write = λ rows row. none;
  flush = λ rows. ok tt;
}

-- a body is an environment
unfoldable env_reader : Reader Environment
unfolding idle_reader
env_reader = record idle_reader { env = λ e. ok e; envs = λ e. ok (some e ∷ []) }

abbrev state_after : List Request → Environment
state_after [] = planned
state_after (req ∷ more) = record planned { status = status_ready }

-- forge-api says once that the environment is provisioning, and then that it is ready
unfoldable once : Net Environment
once = record {
  new_request = λ method url. ok tt;
  send = λ before req. ok (record { status_code = 200; body = state_after before });
  is_done = λ before. false;
}

abbrev fresh : Run
fresh = record { sent = []; out = [] }

once-Answers : Answers once env_reader
unfolding once env_reader
once-Answers = record {
  new_request = λ m url h. cc h;
  send = λ before req h. cc h;
  env = λ body h. cc h;
}

settled :
    settles once env_reader plain
      (lit "http://api")
      planned.id
      (repeated 1 (poll_request once env_reader plain (lit "http://api") planned.id))
    ≡ true
unfolding once env_reader env_forge.Prelude.text_eq lit
settled = refl

watch-Ends_example :
    Ends once env_reader plain
      (lit "http://api")
      planned.id
      2
      []
      (watch once env_reader plain (lit "http://api") 5 planned.id fresh)
watch-Ends_example =
    watch-Ends once env_reader plain (lit "http://api") planned.id once-Answers 5 1 fresh settled
      (omega arith)

execute-Sends_example :
    Sends (posts_of (lit "http://api") (lit "http://worker") (destroy (lit "0a1b"))) (
      execute once env_reader plain (lit "http://api") (lit "http://worker") (destroy (lit "0a1b")))
execute-Sends_example =
    execute-Sends once env_reader plain (lit "http://api") (lit "http://worker")
      (destroy (lit "0a1b"))

abbrev account : Text
account = lit "spiffe://cluster.local/ns/default/sa/a-service-with-a-long-name"

shorten_spiffe-IsShortOf_example :
    (t : Text) × (shorten_spiffe account ≡ some t) × IsShortOf account t
shorten_spiffe-IsShortOf_example = shorten_spiffe-IsShortOf account

abbrev failed_step : StepExecution
failed_step = record {
  name = lit "rds";
  status = lit "FAILED";
  started_at = none;
  completed_at = none;
  error = lit "step failed";
  error_detail = some (pos 500, lit "execute rds: create db instance: quota of instances exceeded");
}

error_cell-width_example :
    (t : Text) × (error_cell failed_step ≡ some t)
    × (length t ≤ cell_width failed_step.error_detail)
error_cell-width_example = error_cell-width failed_step

-- forge-api answers out of its store
unfoldable serving : Net Body
serving = record {
  new_request = λ method url. ok tt;
  send = λ before req. ok (got (handle_list_envs memory clock status_provisioning two_stored));
  is_done = λ before. false;
}

abbrev list_of : Body → Result (List (Option Environment))
list_of (json v) = of_json (envs_of clock v)
list_of _ = unread

-- bodies are read as encoding/json reads them
unfoldable json_reader : Reader Body
unfolding idle_reader
json_reader = record idle_reader { envs = list_of }

abbrev row_of : Environment → Text → Text
row_of = env_row serving json_reader plain (lit "http://api")

abbrev two_rows : List Text
two_rows =
    row_of (record rehearsed { updated_at = 5 }) (lit "0a1b9999")
    ∷ row_of (record planned { updated_at = 5 }) (lit "0a1b2c3d")
    ∷ []

abbrev listing : Request
listing = record {
  method = get;
  url = list_url serving json_reader plain (lit "http://api") status_provisioning;
  body = none;
}
