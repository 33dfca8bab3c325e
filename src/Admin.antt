-- ===== src/Admin.antt =====
-- internal/adminclient/client.go: the client of svid-exchange's PolicyAdmin service. A call takes
-- the calls made so far and gives them back with its own.
pub mod Policy
use env_forge.Prelude.{
  if◌then◌else◌, Bool, true, false, List, [], ◌∷◌, ◌++◌, Option, none, some, Text, lit, text_eq, ℤ,
}
use env_forge.Go.{Error, other, wrap, Result, ok, err, panic, hung, wrapped}
use env_forge.Go.Format.{quote}
use env_forge.Cloud.{PolicyRule, PolicyEntry, RevokedToken, Call, Oracle}
use env_forge.Action.{drop_answer}

-- Client: a gRPC connection, and whether New made it
pub record Client (G : Type 0) : Type 0 where
  pub conn : G
  pub own_conn : Bool

abbrev owned : {G : Type 0} → Text → Result G → Result (Client G)
owned addr (ok conn) = ok (record { conn = conn; own_conn = true })
owned addr (err e) = err (wrap (lit "dial svid-exchange admin " ++ addr) e)
owned addr panic = panic
owned addr hung = hung

-- New; `dial` is grpc.NewClient
unfoldable pub new : {G : Type 0} → (Text → Result G) → Text → Result (Client G)
new dial addr = owned addr (dial addr)

-- NewFromConn
unfoldable pub new_from_conn : {G : Type 0} → G → Client G
new_from_conn conn = record { conn = conn; own_conn = false }

-- Close; `N` is the state of the connections, and `close_conn` is (*grpc.ClientConn).Close
unfoldable pub close :
    {G N : Type 0} → (G → N → Result (Unit {0}) × N) → Client G → N → Result (Unit {0}) × N
close close_conn c n = elim c.own_conn [ true ↦ close_conn c.conn n | false ↦ (ok tt, n) ]

-- the test of the loop of GetPolicy
abbrev pub has_name : Text → Option PolicyRule → Bool
has_name name none = false
has_name name (some rule) = text_eq rule.name name

-- the loop of GetPolicy
unfoldable pub find_policy : Text → List PolicyEntry → Option PolicyEntry
find_policy name [] = none
find_policy name (p ∷ more) = if has_name name p.rule then some p else find_policy name more

abbrev found_or : Text → Option PolicyEntry → Result PolicyEntry
found_or name none = err (other (lit "policy " ++ quote name ++ lit " not found"))
found_or name (some p) = ok p

abbrev search_in : Text → Result (List PolicyEntry) → Result PolicyEntry
search_in name (ok policies) = found_or name (find_policy name policies)
search_in name (err e) = err e
search_in name panic = panic
search_in name hung = hung

module _ (o : Oracle) where
  abbrev ask : {A : Type 0} → Text → Call → Result A → List Call → Result A × List Call
  ask what x r before = (wrapped what r, before ++ x ∷ [])

  -- ListPolicies
  unfoldable pub list_policies : List Call → Result (List PolicyEntry) × List Call
  list_policies before =
      ask (lit "list policies") Call.list_policies (o before Call.list_policies) before

  -- GetPolicy
  unfoldable pub get_policy : Text → List Call → Result PolicyEntry × List Call
  get_policy name before = let (r, after) = list_policies before in (search_in name r, after)

  -- ReloadPolicy
  unfoldable pub reload_policy : List Call → Result (Unit {0}) × List Call
  reload_policy before =
      ask (lit "reload policies") Call.reload_policy (drop_answer (o before Call.reload_policy))
        before

  -- RevokeToken
  unfoldable pub revoke_token : Text → ℤ → List Call → Result (Unit {0}) × List Call
  revoke_token token_id expires_at before =
      let x = Call.revoke_token token_id expires_at in
      ask (lit "revoke token") x (drop_answer (o before x)) before

  -- ListRevokedTokens
  unfoldable pub list_revoked_tokens : List Call → Result (List RevokedToken) × List Call
  list_revoked_tokens before =
      ask (lit "list revoked tokens") Call.list_revoked_tokens (o before Call.list_revoked_tokens)
        before
