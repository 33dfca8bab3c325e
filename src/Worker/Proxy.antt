-- ===== src/Worker/Proxy.antt =====
-- The admin routes of internal/server/server.go, which pass a request on to svid-exchange. `configured`
-- says that the server has an admin client. A reply of `none` is a connection that is closed
-- without one; the error of writing a reply to the connection is only logged by the code, and left
-- out. The limit of ten seconds is the service's business: it ends a call with an error.
pub mod Revoke
use env_forge.Prelude.{
  if◌then◌else◌, Bool, true, false, ◌&&◌, ℕ, List, ◌++◌, Option, none, some, Text, lit, is_empty, ℤ,
}
use env_forge.Go.{Result, ok, err, panic, hung, message}
use env_forge.Cloud.{PolicyEntry, RevokedToken, Call, Oracle}
use env_forge.Admin.{list_policies, reload_policy, revoke_token, list_revoked_tokens}

pub data Body : Type 0 where
  empty : Body
  text : Text → Body
  -- {"policies": ...} and {"tokens": ...}
  policies : List PolicyEntry → Body
  tokens : List RevokedToken → Body

pub record Response : Type 0 where
  pub code : ℕ
  pub body : Body

abbrev pub reply : ℕ → Body → Option Response
reply code body = some (record { code = code; body = body })

abbrev pub admin_unavailable : Option Response
admin_unavailable =
    reply 503 (text (lit "svid-exchange admin not configured (set SVIDEXCHANGE_ADMIN_ADDR)"))

-- the reply to what the client came back with
abbrev pub answer : {A : Type 0} → Text → (A → Body) → Result A → Option Response
answer what body (ok a) = reply 200 (body a)
answer what body (err e) = reply 500 (text (what ++ lit ": " ++ message e))
answer what body panic = none
answer what body hung = none

-- the body of POST /admin/tokens/revoke
pub record RevokeRequest : Type 0 where
  pub token_id : Text
  pub expires_at : ℤ

module _ (configured : Bool) (o : Oracle) where
  abbrev pub guarded :
      (List Call → Option Response × List Call) → List Call → Option Response × List Call
  guarded handler before = elim configured [
    | true ↦ handler before
    | false ↦ (admin_unavailable, before)
  ]

  -- GET /admin/policies
  unfoldable pub handle_list_policies : List Call → Option Response × List Call
  handle_list_policies = guarded (λ before.
      let (r, after) = list_policies o before in (answer (lit "list policies") policies r, after))

  -- POST /admin/policies/reload
  unfoldable pub handle_reload_policies : List Call → Option Response × List Call
  handle_reload_policies = guarded (λ before.
      let (r, after) = reload_policy o before in
      (answer (lit "reload policies") (λ _. empty) r, after))

  abbrev pub revoke : Option RevokeRequest → List Call → Option Response × List Call
  revoke none before = (reply 400 (text (lit "invalid JSON")), before)
  revoke (some req) before =
      if is_empty req.token_id
      then (reply 400 (text (lit "token_id is required")), before)
      else let (r, after) = revoke_token o req.token_id req.expires_at before in
        (answer (lit "revoke token") (λ _. empty) r, after)

  -- POST /admin/tokens/revoke
  unfoldable pub handle_revoke_token :
      Option RevokeRequest → List Call → Option Response × List Call
  handle_revoke_token body = guarded (revoke body)

  -- GET /admin/tokens/revoked
  unfoldable pub handle_list_revoked_tokens : List Call → Option Response × List Call
  handle_list_revoked_tokens = guarded (λ before.
      let (r, after) = list_revoked_tokens o before in
      (answer (lit "list revoked tokens") tokens r, after))
