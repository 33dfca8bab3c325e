-- ===== src/Cli/Envs.antt =====
-- The commands create, destroy, list and status of cmd/forge/main.go. The flags of create are what it
-- asks the API for.
pub mod Poll
pub mod Watch
pub mod Listed
pub mod Stored
use env_forge.Prelude.{
  ℕ, zero, suc, Bool, true, false, not, List, [], ◌∷◌, ◌++◌, Option, none, some, Text, lit,
  is_empty, text_eq, slice_to, ◌==◌,
}
use env_forge.Environment.{Environment, status_provisioning}
use env_forge.Go.{Result, ok, err, panic, hung, other, message}
use env_forge.Go.Format.{quote}
use env_forge.Conductor.{SagaExecution}
use env_forge.Api.{CreateRequest}
use env_forge.Cli.{
  creation, dash, Net, Reader, Printer, Reply, Command, ◌>>=◌, ◌>>◌, lift, context, examine, now,
  or_panic, choose, fail, print, do_get, do_post, refused,
}
use env_forge.Cli.Table.{Table, new_table, row, flush}
use env_forge.Cli.Sagas.{print_saga_steps}

-- fmt's %v of a bool
abbrev pub bool_text : Bool → Text
bool_text true = lit "true"
bool_text false = lit "false"

-- a slice that may be out of range, and what is made of it
abbrev pub with_slice : {A : Type 0} → Option Text → (Text → Result A) → Result A
with_slice none f = panic
with_slice (some t) f = f t

abbrev pub env_header : Text
env_header = lit "ID\tOWNER\tSTATUS\tDRY-RUN\tCREATED\n"

abbrev pub hinted : {R : Type 0} → Text → Result (Reply R) → Result (Reply R)
hinted forge_url (err e) = err (
    other (
      lit "POST /envs/create: "
      ++ message e
      ++ lit " (is forge-api running at "
      ++ forge_url
      ++ lit "?)"))
hinted forge_url r = r

module _ {R : Type 0} (net : Net R) (reader : Reader R) (p : Printer) (forge_url : Text) where
  -- the line of a round after which the loop goes on
  unfoldable pub tick : Command (Unit {0})
  tick = now (λ s. print (lit "  [" ++ p.now_clock s.sent ++ lit "] still provisioning...\r"))

  -- a round of the polls of create, and what comes after it if the loop goes on
  unfoldable pub poll : Text → Command (Unit {0}) → Command (Unit {0})
  poll env_id again = now (λ s. choose (net.is_done s.sent) (fail (lit "context canceled")) (do
    r ← context (lit "poll status") (do_get net (forge_url ++ lit "/envs/" ++ env_id))
    env ← context (lit "decode env") (lift (reader.env r.body))
    choose (not (text_eq env.status status_provisioning))
        (do
          short ← lift (or_panic (slice_to env.id 8))
          print (
              lit "\nEnvironment "
              ++ short
              ++ lit " "
              ++ dash
              ++ lit " status: "
              ++ env.status
              ++ lit "\n"))
        (tick >> again)))

  -- the polls of create, at most so many
  unfoldable pub watch : ℕ → Text → Command (Unit {0})
  watch zero env_id = lift hung
  watch (suc fuel) env_id = poll env_id (watch fuel env_id)

  -- create, its request and the lines before the polls
  unfoldable pub request_env : CreateRequest → Command Text
  request_env f = do
    resp ←
        examine (do_post net (forge_url ++ lit "/envs/create") (some (creation f)))
          (λ r. lift (hinted forge_url r))
    choose (not (resp.status_code == 202)) (refused reader p (lit "create") resp) (do
      env_id ← context (lit "decode response") (lift (reader.env_id resp.body))
      short ← lift (or_panic (slice_to env_id 8))
      print (
          lit "Provisioning environment "
          ++ short
          ++ lit " (owner: "
          ++ f.owner
          ++ lit ", dry-run: "
          ++ bool_text f.dry_run
          ++ lit ")\n")
      print (lit "Watching for completion...\n\n")
      lift (ok env_id))

  unfoldable pub create : ℕ → CreateRequest → Command (Unit {0})
  create fuel f = request_env f >>= watch fuel

  -- destroy
  unfoldable pub destroy : Text → Command (Unit {0})
  destroy arg = do
    r ← context (lit "get environment") (do_get net (forge_url ++ lit "/envs/" ++ arg))
    env ← context (lit "decode env") (lift (reader.env r.body))
    choose (r.status_code == 404) (fail (lit "environment " ++ quote arg ++ lit " not found")) (do
      short ← lift (or_panic (slice_to env.id 8))
      choose (is_empty env.saga_id)
          (fail (lit "environment " ++ short ++ lit " has no associated saga"))
          (do
            print (
                lit "Destroying environment "
                ++ short
                ++ lit " "
                ++ dash
                ++ lit " saga "
                ++ env.saga_id
                ++ lit " will be aborted.\n")
            print (lit "(Use `forge status <env-id>` to monitor compensation progress.)\n")))

  abbrev pub env_row : Environment → Text → Text
  env_row e short =
      short
      ++ lit "\t"
      ++ e.owner
      ++ lit "\t"
      ++ e.status
      ++ lit "\t"
      ++ bool_text e.dry_run
      ++ lit "\t"
      ++ p.rfc3339 e.created_at
      ++ lit "\n"

  -- the loop of list
  unfoldable pub env_rows : List (Option Environment) → Table → Result Table
  env_rows [] t = ok t
  env_rows (none ∷ envs) t = panic
  env_rows (some e ∷ envs) t =
      with_slice (slice_to e.id 8) (λ short. env_rows envs (row p (env_row e short) t))

  -- list; `status` is empty if the flag is not given
  abbrev pub list_url : Text → Text
  list_url status = elim (is_empty status) [
    | true ↦ forge_url ++ lit "/envs"
    | false ↦ forge_url ++ lit "/envs" ++ lit "?status=" ++ status
  ]

  unfoldable pub list : Text → Command (Unit {0})
  list status = do
    resp ← context (lit "list environments") (do_get net (list_url status))
    envs ← context (lit "decode response") (lift (reader.envs resp.body))
    t ← lift (env_rows envs (row p env_header new_table))
    flush p t

  -- the lines of status about the environment
  abbrev pub print_env : Environment → Command (Unit {0})
  print_env env = do
    print (lit "Environment: " ++ env.id ++ lit "\n")
    print (lit "  Owner:      " ++ env.owner ++ lit "\n")
    print (lit "  Status:     " ++ env.status ++ lit "\n")
    print (lit "  DryRun:     " ++ bool_text env.dry_run ++ lit "\n")
    print (lit "  Created:    " ++ p.rfc3339 env.created_at ++ lit "\n")
    print (lit "  SagaID:     " ++ env.saga_id ++ lit "\n")
    print (lit "  VPC:        " ++ env.vpc_id ++ lit "\n")
    print (lit "  RDS:        " ++ env.rds_endpoint ++ lit "\n")
    print
        (lit "  EC2:        " ++ env.ec2_instance_id ++ lit " (" ++ env.ec2_public_ip ++ lit ")\n")
    print (lit "  S3 Bucket:  " ++ env.s3_bucket_name ++ lit "\n")
    print (lit "  Policy:     " ++ env.svid_exchange_policy_name ++ lit "\n")

  abbrev pub print_saga : SagaExecution → Command (Unit {0})
  print_saga exec = do
    short ← lift (or_panic (slice_to exec.id 8))
    print (lit "\nSaga " ++ short ++ lit " " ++ dash ++ lit " " ++ p.saga_status exec.status)
    choose (is_empty exec.failed_step) (lift (ok tt))
        (print (lit "  (failed at: " ++ exec.failed_step ++ lit ")"))
    print (lit "\n")
    print_saga_steps p exec

  abbrev pub show_decoded : Result SagaExecution → Command (Unit {0})
  show_decoded (ok exec) = print_saga exec
  show_decoded (err e) = lift (ok tt)
  show_decoded panic = lift panic
  show_decoded hung = lift hung

  -- the errors of fetching the saga are dropped
  abbrev pub show_saga : Result (Reply R) → Command (Unit {0})
  show_saga (ok sr) =
      choose (sr.status_code == 200) (show_decoded (reader.saga sr.body)) (lift (ok tt))
  show_saga (err e) = lift (ok tt)
  show_saga panic = lift panic
  show_saga hung = lift hung

  -- status
  unfoldable pub status : Text → Command (Unit {0})
  status arg = do
    r ← context (lit "get environment") (do_get net (forge_url ++ lit "/envs/" ++ arg))
    env ← context (lit "decode env") (lift (reader.env r.body))
    print_env env
    choose (is_empty env.saga_id) (lift (ok tt))
        (examine (do_get net (forge_url ++ lit "/envs/" ++ arg ++ lit "/saga")) show_saga)
