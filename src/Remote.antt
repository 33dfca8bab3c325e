-- ===== src/Remote.antt =====
-- remoteStateClient of cmd/forge-worker/main.go: the worker's state client, over HTTP. A transport,
-- with a state `N`, carries a request to forge-api and the reply back. An id is one segment of the
-- path, so that http.NewRequest accepts the URL.
pub mod Refines
pub mod Stored
use env_forge.Prelude.{
  ℕ, ◌==◌, if◌then◌else◌, Bool, true, false, ◌++◌, Option, none, some, Text, lit,
}
use env_forge.Environment.{Environment}
use env_forge.Environment.Json.{Json, TimeText, marshal, unmarshal}
use env_forge.Environment.Store.{json_error}
use env_forge.Go.{Error, not_found, other, wrap, Result, ok, err, panic, hung, wrapped}
use env_forge.Go.Format.{decimal}
use env_forge.Action.{StateClient}

pub data Request : Type 0 where
  get_env : (id : Text) → Request
  put_env : (id : Text) (body : Json) → Request

-- a status code, and the body's JSON value if it is one
pub record HttpReply : Type 0 where
  pub code : ℕ
  pub body : Option Json

pub record Transport (N : Type 0) : Type 0 where
  pub round_trip : Option Text → Request → N → Result HttpReply × N
  -- c.getToken: `none` is dev mode
  pub token : Option (Result Text)

-- addAuth: the Authorization header
abbrev pub bearer : Result Text → Result (Option Text)
bearer (ok token) = ok (some (lit "Bearer " ++ token))
bearer (err e) = err (wrap (lit "get JWT") e)
bearer panic = panic
bearer hung = hung

abbrev pub auth_header : Option (Result Text) → Result (Option Text)
auth_header none = ok none
auth_header (some token) = bearer token

-- fmt.Errorf("...: status %d", ...)
abbrev pub bad_status : Text → ℕ → Error
bad_status what code = other (what ++ lit ": status " ++ decimal code)

module _ (t : TimeText) where
  abbrev pub decoded : Option Json → Result Environment
  decoded none = err (wrap (lit "decode env") json_error)
  decoded (some v) = elim (unmarshal t v) [
    | none ↦ err (wrap (lit "decode env") json_error)
    | some env ↦ ok env
  ]

  -- Get, on the reply
  unfoldable pub read_reply : Text → Result HttpReply → Result Environment
  read_reply what (ok r) =
      if r.code == 404
      then err not_found
      else if r.code == 200
      then decoded r.body
      else err (bad_status what r.code)
  read_reply what (err e) = err (wrap what e)
  read_reply what panic = panic
  read_reply what hung = hung

-- Put, on the reply
unfoldable pub write_reply : Text → Result HttpReply → Result (Unit {0})
write_reply what (ok r) = if r.code == 200 then ok tt else err (bad_status what r.code)
write_reply what (err e) = err (wrap what e)
write_reply what panic = panic
write_reply what hung = hung

module _ {N : Type 0} (t : TimeText) (net : Transport N) where
  abbrev pub get_with : Text → Result (Option Text) → N → Result Environment × N
  get_with id (ok header) n =
      let (r, n') = net.round_trip header (get_env id) n in
      (read_reply t (lit "GET /internal/envs/" ++ id) r, n')
  get_with id (err e) n = (err e, n)
  get_with id panic n = (panic, n)
  get_with id hung n = (hung, n)

  unfoldable pub get : Text → N → Result Environment × N
  get id n = get_with id (auth_header net.token) n

  abbrev pub put_with : Environment → Json → Result (Option Text) → N → Result (Unit {0}) × N
  put_with env v (ok header) n =
      let (r, n') = net.round_trip header (put_env env.id v) n in
      (write_reply (lit "PUT /internal/envs/" ++ env.id) r, n')
  put_with env v (err e) n = (err e, n)
  put_with env v panic n = (panic, n)
  put_with env v hung n = (hung, n)

  abbrev pub put_json : Environment → Option Json → N → Result (Unit {0}) × N
  put_json env none n = (err (wrap (lit "marshal env") json_error), n)
  put_json env (some v) n = put_with env v (auth_header net.token) n

  -- Put; the caller's environment stays as it is
  unfoldable pub put : Environment → N → Result (Unit {0}) × Environment × N
  put env n = let (r, n') = put_json env (marshal t env) n in (r, env, n')

  unfoldable pub client : StateClient N
  client = record { get = get; put = put }
