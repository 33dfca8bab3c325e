-- ===== src/Cli/Admin.antt =====
-- The commands of cmd/forge/main.go that forge-worker's admin routes serve: policies list, policies
-- reload, tokens revoke and tokens revoked.
pub mod Revoked
use env_forge.Prelude.{◌==◌, ℤ, not, List, [], ◌∷◌, ◌++◌, Option, none, some, Text, lit}
use env_forge.Go.{Result, ok, panic}
use env_forge.Go.Format.{decimal, signed, join}
use env_forge.Cloud.{PolicyRule, PolicyEntry, RevokedToken}
use env_forge.Cli.{
  Net, Reader, Printer, Reply, Command, ◌>>=◌, ◌>>◌, lift, context, choose, fail, print, do_get,
  do_post, revocation,
}
use env_forge.Cli.Cells.{shorten_spiffe}
use env_forge.Cli.Table.{Table, new_table, row, flush}

module _ (p : Printer) where
  abbrev pub policy_row : PolicyRule → Text → Text → Text → Text
  policy_row rule source subj tgt =
      rule.name
      ++ lit "\t"
      ++ source
      ++ lit "\t"
      ++ subj
      ++ lit "\t"
      ++ tgt
      ++ lit "\t"
      ++ join rule.allowed_scopes (lit ",")
      ++ lit "\t"
      ++ signed rule.max_ttl
      ++ lit "s\n"

  abbrev pub add_rule : PolicyRule → Text → Option Text → Option Text → Table → Option Table
  add_rule rule source (some subj) (some tgt) t = some (row p (policy_row rule source subj tgt) t)
  add_rule rule source none tgt t = none
  add_rule rule source (some subj) none t = none

  abbrev pub add_entry : Option PolicyRule → Text → Table → Option Table
  add_entry none source t = some t
  add_entry (some rule) source t =
      add_rule rule source (shorten_spiffe rule.subject) (shorten_spiffe rule.target) t

  -- the loop of policies list
  unfoldable pub policy_rows : List PolicyEntry → Table → Result Table
  policy_rows [] t = ok t
  policy_rows (e ∷ policies) t = elim (add_entry e.rule e.source t) [
    | none ↦ panic
    | some t' ↦ policy_rows policies t'
  ]

  -- the loop of tokens revoked
  unfoldable pub token_rows : List RevokedToken → Table → Table
  token_rows [] t = t
  token_rows (tok ∷ tokens) t =
      token_rows tokens
        (row p (tok.token_id ++ lit "\t" ++ p.unix_rfc3339 tok.expires_at ++ lit "\n") t)

  abbrev pub print_tokens : List RevokedToken → Command (Unit {0})
  print_tokens [] = print (lit "No revoked tokens.\n")
  print_tokens (tok ∷ tokens) =
      flush p (token_rows (tok ∷ tokens) (row p (lit "TOKEN ID\tEXPIRES AT\n") new_table))

-- the two tests of a reply that the four commands have in common
unfoldable pub expect_ok : {R : Type 0} → Text → Reply R → Command (Unit {0})
expect_ok what resp =
    choose (resp.status_code == 503)
      (fail (lit "forge-worker has no admin connection (set SVIDEXCHANGE_ADMIN_ADDR)"))
      (choose (not (resp.status_code == 200))
        (fail (what ++ lit ": status " ++ decimal resp.status_code)) (lift (ok tt)))

module _ {R : Type 0} (net : Net R) (reader : Reader R) (p : Printer) (worker_url : Text) where
  -- policies list
  unfoldable pub list_policies : Command (Unit {0})
  list_policies = do
    resp ← context (lit "list policies") (do_get net (worker_url ++ lit "/admin/policies"))
    expect_ok (lit "list policies") resp
    policies ← context (lit "decode policies") (lift (reader.policies resp.body))
    t ← lift (
        policy_rows p policies
          (row p (lit "NAME\tSOURCE\tSUBJECT\tTARGET\tSCOPES\tMAX TTL\n") new_table))
    flush p t

  -- policies reload
  unfoldable pub reload_policies : Command (Unit {0})
  reload_policies = do
    resp ←
        context (lit "reload policies")
          (do_post net (worker_url ++ lit "/admin/policies/reload") none)
    expect_ok (lit "reload policies") resp
    print (lit "Policies reloaded successfully.\n")

  -- tokens revoke
  unfoldable pub revoke_token : Text → ℤ → Command (Unit {0})
  revoke_token token_id expires_at = do
    resp ← context (lit "revoke token") (
        do_post net (worker_url ++ lit "/admin/tokens/revoke")
          (some (revocation (record { token_id = token_id; expires_at = expires_at }))))
    expect_ok (lit "revoke token") resp
    print (lit "Token " ++ token_id ++ lit " revoked successfully.\n")

  -- tokens revoked
  unfoldable pub list_revoked : Command (Unit {0})
  list_revoked = do
    resp ←
        context (lit "list revoked tokens") (do_get net (worker_url ++ lit "/admin/tokens/revoked"))
    expect_ok (lit "list revoked tokens") resp
    tokens ← context (lit "decode revoked tokens") (lift (reader.tokens resp.body))
    print_tokens p tokens
