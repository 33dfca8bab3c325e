-- ===== src/Steps/Identity.antt =====
-- internal/steps/identity.go: the svid-exchange policy of an environment. `connected` says that
-- svidConn is not nil.
pub mod Verify
pub mod Granted
use env_forge.Prelude.{
  ℤ, pos, int_eq, Bool, not, ◌&&◌, List, [], ◌∷◌, ◌++◌, Option, none, some, Text, lit, is_empty,
  text_eq,
}
use env_forge.Environment.{Environment}
use env_forge.Go.{Error, other}
use env_forge.Go.Format.{quote, signed, join}
use env_forge.Cloud.{
  PolicyRule, PolicyEntry, Oracle, create_policy, list_policies, reload_policy, delete_policy,
}
use env_forge.Action.{
  StateClient, Action, ◌>>=◌, ◌>>◌, pure, fail, context, get_env, set_env, short_id, put, call,
  when, choose, invoke,
}

abbrev pub clear : Environment → Environment
clear e = record e { spire_entry_ids = []; svid_exchange_policy_name = [] }

unfoldable pub is_already_done : {D : Type 0} → Action D Bool
is_already_done = do env ← get_env; pure (not (is_empty env.svid_exchange_policy_name))

abbrev pub not_configured : Error
not_configured = other (lit "svid-exchange connection not configured (set SVIDEXCHANGE_ADDR)")

abbrev pub want_scopes : List Text
want_scopes = lit "read" ∷ lit "write" ∷ []

abbrev pub want_max_ttl : ℤ
want_max_ttl = pos 3600

unfoldable pub spiffe_id : Text → Text → Text → Text
spiffe_id trust_domain short role =
    lit "spiffe://" ++ trust_domain ++ lit "/env-" ++ short ++ lit "/" ++ role

-- the policy that Execute creates
unfoldable pub rule_of : Text → Text → PolicyRule
unfolding spiffe_id
rule_of trust_domain short = record {
  name = lit "policy-env-" ++ short;
  subject = spiffe_id trust_domain short (lit "app");
  target = spiffe_id trust_domain short (lit "db-proxy");
  allowed_scopes = want_scopes;
  max_ttl = want_max_ttl;
}

abbrev pub bad_scopes : Text → Text → Error
bad_scopes name got = other (
    lit "policy "
    ++ quote name
    ++ lit " has unexpected scopes "
    ++ quote got
    ++ lit " (want "
    ++ quote (join want_scopes (lit ","))
    ++ lit ")")

abbrev pub bad_max_ttl : Text → ℤ → Error
bad_max_ttl name got = other (
    lit "policy "
    ++ quote name
    ++ lit " has unexpected max_ttl "
    ++ signed got
    ++ lit " (want "
    ++ signed want_max_ttl
    ++ lit ")")

-- the body of the loop for the entry with the name
unfoldable pub check_rule : {D : Type 0} → Text → PolicyRule → Action D (Unit {0})
check_rule name rule =
    choose (not (text_eq (join rule.allowed_scopes (lit ",")) (join want_scopes (lit ","))))
      (fail (bad_scopes name (join rule.allowed_scopes (lit ","))))
      (choose (not (int_eq rule.max_ttl want_max_ttl)) (fail (bad_max_ttl name rule.max_ttl))
        (pure tt))

-- one round of that loop; `rest` is what `continue` goes on to
abbrev pub check_entry :
    {D : Type 0} → Text → Option PolicyRule → Action D (Unit {0}) → Action D (Unit {0})
check_entry name none rest = rest
check_entry name (some rule) rest = choose (text_eq rule.name name) (check_rule name rule) rest

-- the loop that verifies the policy, over what ListPolicies returned
unfoldable pub verify : {D : Type 0} → Text → List PolicyEntry → Action D (Unit {0})
verify name [] = fail (other (lit "policy " ++ quote name ++ lit " not found after creation"))
verify name (entry ∷ entries) = check_entry name entry.rule (verify name entries)

module _ {D : Type 0} (connected : Bool) (trust_domain : Text) (o : Oracle)
    (c : StateClient D) where
  -- Execute, when env.DryRun and there is no connection
  unfoldable pub simulate : Action D (Unit {0})
  simulate = do
    short ← short_id
    set_env (λ e. record e {
      spire_entry_ids = (lit "entry-app-dryrun-" ++ short) ∷ (lit "entry-db-dryrun-" ++ short) ∷ [];
      svid_exchange_policy_name = lit "policy-env-" ++ short;
    })
    put c

  -- Execute, with a connection
  unfoldable pub register : Text → Action D (Unit {0})
  register short = do
    let name = lit "policy-env-" ++ short
    context (lit "create svid-exchange policy")
        (invoke o (create_policy (rule_of trust_domain short)))
    set_env (λ e. record e { svid_exchange_policy_name = name })
    policies ← context (lit "list policies (verify)") (call o list_policies)
    verify name policies
    context (lit "reload policies") (invoke o reload_policy)
    set_env (λ e. record e {
      spire_entry_ids =
          spiffe_id trust_domain short (lit "app")
          ∷ spiffe_id trust_domain short (lit "db-proxy")
          ∷ [];
    })
    put c

  unfoldable pub execute : Action D (Unit {0})
  execute = do
    env ← get_env
    choose (env.dry_run && not connected) simulate
        (do short ← short_id; choose connected (register short) (fail not_configured))

  -- Compensate: the deletion of the policy
  unfoldable pub unregister : Text → Action D (Unit {0})
  unregister name =
      choose connected
        (do
          context (lit "delete svid-exchange policy") (invoke o (delete_policy name))
          set_env (λ e. record e { svid_exchange_policy_name = [] })
          context (lit "reload policies after deletion") (invoke o reload_policy))
        (fail not_configured)

  unfoldable pub compensate : Action D (Unit {0})
  compensate = do
    env ← get_env
    choose (env.dry_run && not connected) (do set_env clear; put c)
        (do
          when (not (is_empty env.svid_exchange_policy_name))
              (unregister env.svid_exchange_policy_name)
          set_env (λ e. record e { spire_entry_ids = [] })
          put c)
