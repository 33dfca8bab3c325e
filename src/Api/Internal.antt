-- ===== src/Api/Internal.antt =====
-- The internal routes of forge-api, which forge-worker calls (handleInternalGetEnv,
-- handleInternalPutEnv, authMiddleware). svid-exchange's verifier is a parameter: `claims` is what
-- its middleware makes of the Authorization header, `none` where it denies the request itself.
pub mod Scopes
use env_forge.Prelude.{
  ◌≡◌, ℕ, if◌then◌else◌, Bool, true, false, List, [], ◌∷◌, ◌++◌, Option, none, some, Text, lit,
}
use env_forge.Environment.{Environment}
use env_forge.Environment.Json.{TimeText, marshal}
use env_forge.Environment.Store
use env_forge.Environment.Store.{Bucket, Store}
use env_forge.Go.{Result, ok, err, panic, hung, is_not_found}
use env_forge.Api.{Response, Body, text, empty, reply, internal_error, reply_json}

-- *svidclient.Verifier, its middleware, and the tests of its claims
pub record Verifier (K : Type 0) : Type 0 where
  pub claims : Option Text → Option K
  pub has_scope : K → Text → Bool
  pub has_all_scopes : K → List Text → Bool
  pub denied : Response

abbrev pub env_read : Text
env_read = lit "env:read"

abbrev pub env_write : Text
env_write = lit "env:write"

abbrev pub forbidden : Text → Response
forbidden scope = reply 403 (text (lit "forbidden: missing " ++ scope ++ lit " scope"))

-- what stands before a handler's own work: the middleware, then the handler's test of the claims
unfoldable pub authorize :
    {K : Type 0}
    → Option (Verifier K)
    → (Verifier K → K → Bool)
    → Text
    → Option Text
    → Option Response
authorize none test scope header = none
authorize (some v) test scope header = elim (v.claims header) [
  | none ↦ some v.denied
  | some k ↦ if test v k then none else some (forbidden scope)
]

abbrev pub may_read : {K : Type 0} → Verifier K → K → Bool
may_read v k = v.has_scope k env_read

abbrev pub may_write : {K : Type 0} → Verifier K → K → Bool
may_write v k = v.has_all_scopes k (env_read ∷ env_write ∷ [])

module _ {B K : Type 0} (b : Bucket B) (t : TimeText) (v : Option (Verifier K)) where
  abbrev pub get_reply : Text → Result Environment → Response
  get_reply id (ok env) = reply_json (marshal t env)
  get_reply id (err e) =
      if is_not_found e
      then reply 404 (text (lit "environment " ++ id ++ lit " not found"))
      else internal_error
  get_reply id _ = internal_error

  abbrev pub guarded_get : Text → Option Response → Store B → Response
  guarded_get id (some refusal) s = refusal
  guarded_get id none s = get_reply id (Store.get b t id s).0

  -- GET /internal/envs/{id}
  unfoldable pub handle_internal_get : Option Text → Text → Store B → Response
  handle_internal_get header id s = guarded_get id (authorize v may_read env_read header) s

  abbrev pub put_reply : Result (Unit {0}) → Response
  put_reply (ok _) = reply 200 empty
  put_reply _ = internal_error

  abbrev pub guarded_put : Option Environment → Option Response → Store B → Response × Store B
  guarded_put body (some refusal) s = (refusal, s)
  guarded_put none none s = (reply 400 (text (lit "invalid JSON")), s)
  guarded_put (some env) none s = let (r, env', s') = Store.put b t env s in (put_reply r, s')

  -- PUT /internal/envs/{id}: the path's id is not looked at
  unfoldable pub handle_internal_put :
      Option Text → Option Environment → Store B → Response × Store B
  handle_internal_put header body s = guarded_put body (authorize v may_write env_write header) s
