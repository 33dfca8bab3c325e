-- ===== src/Cli/Main/Sent.antt =====
-- What each command of the client sends.
use env_forge.Prelude.{ℕ, zero, suc, List, [], ◌∷◌, ◌++◌, Option, none, some, Text, lit}
use env_forge.Go.{Result, ok, err, panic, hung}
use env_forge.Cloud.{RevokedToken}
use env_forge.Conductor.{SagaExecution}
use env_forge.Api.{CreateRequest}
use env_forge.Cli.{
  Net, Reader, Printer, Reply, post, Payload, creation, revocation, Request, Command,
}
use env_forge.Cli.Requests.{
  Sends, Sends-lift, Sends-now, Sends-now_print, Sends-bind, Sends-choose, Sends-then, Sends-print,
  Sends-flush, sends_rules,
}
use env_forge.Cli.Sagas
use env_forge.Cli.Sagas.{ListFlags, print_saga_steps}
use env_forge.Cli.Envs
use env_forge.Cli.Admin
use env_forge.Cli.Main.{
  Invocation, create, destroy, list, status, sagas_list, sagas_abort, policies_list,
  policies_reload, tokens_revoke, tokens_revoked, execute,
}

abbrev pub posting : Text → Option Payload → List Request
posting url body = record { method = post; url = url; body = body } ∷ []

-- the one POST of a command, if it has one
abbrev pub posts_of : Text → Text → Invocation → List Request
posts_of forge_url worker_url (create fuel f) =
    posting (forge_url ++ lit "/envs/create") (some (creation f))
posts_of forge_url worker_url (sagas_abort arg) =
    posting (forge_url ++ lit "/envs/" ++ arg ++ lit "/abort") none
posts_of forge_url worker_url policies_reload =
    posting (worker_url ++ lit "/admin/policies/reload") none
posts_of forge_url worker_url (tokens_revoke id expires_at) =
    posting (worker_url ++ lit "/admin/tokens/revoke")
      (some (revocation (record { token_id = id; expires_at = expires_at })))
posts_of forge_url worker_url _ = []

module _ {R : Type 0} (net : Net R) (reader : Reader R) (p : Printer) (forge_url : Text) where
  tick-Sends : Sends [] (Envs.tick net reader p forge_url)
  unfolding Envs.tick
  tick-Sends = Sends-now_print _

  poll-Sends :
      (env_id : Text) (again : Command (Unit {0}))
      → Sends [] again
      → Sends [] (Envs.poll net reader p forge_url env_id again)
  unfolding Envs.poll
  poll-Sends env_id again k = Sends-now _ (λ s. Sends-choose _ _ _ (search sends_rules) (
      Sends-bind _ _ (search sends_rules) (λ r.
        Sends-bind _ _ (search sends_rules)
          (λ env. Sends-choose _ _ _ (search sends_rules) (Sends-then _ _ tick-Sends k)))))

  watch-Sends :
      (fuel : ℕ) (env_id : Text) → Sends [] (Envs.watch net reader p forge_url fuel env_id)
  unfolding Envs.watch
  watch-Sends zero env_id = Sends-lift hung
  watch-Sends (suc fuel) env_id = poll-Sends env_id _ (watch-Sends fuel env_id)

  request_env-Sends :
      (f : CreateRequest)
      → Sends
          (posting (forge_url ++ lit "/envs/create") (some (creation f)))
          (Envs.request_env net reader p forge_url f)
  unfolding Envs.request_env
  request_env-Sends f = search sends_rules depth 40

  print_saga-Sends : (exec : SagaExecution) → Sends [] (Envs.print_saga net reader p forge_url exec)
  unfolding print_saga_steps
  print_saga-Sends exec = search sends_rules depth 40

  show_decoded-Sends :
      (r : Result SagaExecution) → Sends [] (Envs.show_decoded net reader p forge_url r)
  show_decoded-Sends (ok exec) = print_saga-Sends exec
  show_decoded-Sends (err e) = Sends-lift _
  show_decoded-Sends panic = Sends-lift _
  show_decoded-Sends hung = Sends-lift _

  show_saga-Sends : (r : Result (Reply R)) → Sends [] (Envs.show_saga net reader p forge_url r)
  show_saga-Sends (ok resp) = Sends-choose _ _ _ (show_decoded-Sends _) (Sends-lift _)
  show_saga-Sends (err e) = Sends-lift _
  show_saga-Sends panic = Sends-lift _
  show_saga-Sends hung = Sends-lift _

  print_tokens-Sends : (tokens : List RevokedToken) → Sends [] (Admin.print_tokens p tokens)
  print_tokens-Sends [] = Sends-print _
  print_tokens-Sends (tok ∷ tokens) = Sends-flush p _

  -- A command sends at most one POST, and sends it first: create, sagas abort, policies reload and
  -- tokens revoke the one of their route, with the arguments of the command, and every other command
  -- none. All other requests are GETs.
  pub execute-Sends :
      (worker_url : Text) (i : Invocation)
      → Sends (posts_of forge_url worker_url i) (execute net reader p forge_url worker_url i)
  unfolding execute Envs.create Envs.destroy Envs.list Envs.status Sagas.list Sagas.abort
      Admin.list_policies Admin.reload_policies Admin.revoke_token Admin.list_revoked
      Admin.expect_ok
  execute-Sends worker_url (create fuel f) = Sends-bind _ _ (request_env-Sends f) (watch-Sends fuel)
  execute-Sends worker_url (destroy arg) = search sends_rules depth 30
  execute-Sends worker_url (list only) = search sends_rules depth 30
  execute-Sends worker_url (status arg) = search (sends_rules, show_saga-Sends) depth 60
  execute-Sends worker_url (sagas_list f) = search sends_rules depth 30
  execute-Sends worker_url (sagas_abort arg) = search sends_rules depth 30
  execute-Sends worker_url policies_list = search sends_rules depth 30
  execute-Sends worker_url policies_reload = search sends_rules depth 30
  execute-Sends worker_url (tokens_revoke id expires_at) = search sends_rules depth 30
  execute-Sends worker_url tokens_revoked = search (sends_rules, print_tokens-Sends) depth 30
