-- ===== src/Api.antt =====
-- internal/apiserver/server.go: the HTTP API of forge-api, over its store. A request's body stands
-- for what decoding it gives, `none` where it is no such JSON. The error of writing a reply to the
-- connection is only logged by the code, and left out.
pub mod Prefix
pub mod Internal
pub mod Provision
pub mod Sagas
pub mod Lifecycle
pub mod Routes
use env_forge.Prelude.{
  ℕ, ◌-◌, ◌≤◌, leb, length, if◌then◌else◌, Bool, true, false, ◌&&◌, ◌||◌, not, List, [], ◌∷◌, ◌++◌,
  Option, none, some, Text, lit, is_empty, text_eq, slice_to,
}
use env_forge.Environment.{Environment, status_provisioning}
use env_forge.Environment.Json.{
  Json, TimeText, null, arr, cons, nil, Items, obj, member, end, str, marshal, zero_env,
}
use env_forge.Environment.Store
use env_forge.Environment.Store.{Bucket, Store}
use env_forge.Go.{Result, ok, err, panic, hung, Error, not_found, message, is_not_found}
use env_forge.Go.Format.{quote}
use env_forge.Conductor.{SagaExecution, Stub}

pub data Body : Type 0 where
  empty : Body
  text : Text → Body
  json : Json → Body
  saga : SagaExecution → Body
  -- {"sagas": ..., "next_page_token": ...}
  sagas : List SagaExecution → Text → Body

pub record Response : Type 0 where
  pub code : ℕ
  pub body : Body

abbrev pub reply : ℕ → Body → Response
reply code body = record { code = code; body = body }

abbrev pub internal_error : Response
internal_error = reply 500 (text (lit "internal error"))

-- data, err := json.Marshal(v), and the reply that carries the data
abbrev pub reply_json : Option Json → Response
reply_json none = internal_error
reply_json (some v) = reply 200 (json v)

-- len(id) >= len(prefix) && id[:len(prefix)] == prefix
abbrev pub opt_eq : Option Text → Text → Bool
opt_eq none t = false
opt_eq (some s) t = text_eq s t

unfoldable pub has_prefix : Text → Text → Bool
has_prefix id prefix =
    leb (length prefix) (length id) && opt_eq (slice_to id (length prefix)) prefix

-- the loop of findByPrefix
unfoldable pub first_with_prefix : Text → List Environment → Result Environment
first_with_prefix prefix [] = err not_found
first_with_prefix prefix (e ∷ envs) =
    if has_prefix e.id prefix then ok e else first_with_prefix prefix envs

abbrev search_in : Text → Result (List Environment) → Result Environment
search_in prefix (ok envs) = first_with_prefix prefix envs
search_in prefix (err e) = err e
search_in prefix panic = panic
search_in prefix hung = hung

-- "environment %q not found"
abbrev pub prefix_not_found : Text → Response
prefix_not_found prefix = reply 404 (text (lit "environment " ++ quote prefix ++ lit " not found"))

-- a marshalled slice; a nil slice is null
abbrev pub marshal_items : TimeText → List Environment → Option Items
marshal_items t [] = some nil
marshal_items t (e ∷ envs) = elim (marshal t e) [
  | none ↦ none
  | some v ↦ elim (marshal_items t envs) [ none ↦ none | some vs ↦ some (cons v vs) ]
]

abbrev pub marshal_list : TimeText → List Environment → Option Json
marshal_list t [] = some null
marshal_list t (e ∷ envs) = elim (marshal_items t (e ∷ envs)) [
  | none ↦ none
  | some vs ↦ some (arr vs)
]

-- the body of POST /envs/create
pub record CreateRequest : Type 0 where
  pub owner : Text
  pub dry_run : Bool
  pub fail_at_health : Bool

abbrev pub new_env : CreateRequest → Text → ℕ → Environment
new_env req id now = record zero_env {
  id = id;
  owner = req.owner;
  status = status_provisioning;
  dry_run = req.dry_run;
  created_at = now;
  fail_at_health = req.fail_at_health;
}

module _ {B : Type 0} (b : Bucket B) (t : TimeText) where
  unfoldable pub find_by_prefix : Text → Store B → Result Environment
  find_by_prefix prefix s = search_in prefix (Store.list b t [] s)

  abbrev ready_of : Result (List Environment) → Response
  ready_of (ok envs) = reply 200 empty
  ready_of _ = reply 503 (text (lit "store not ready"))

  -- GET /health/ready
  unfoldable pub handle_ready : Store B → Response
  handle_ready s = ready_of (Store.list b t [] s)

  abbrev list_reply : Result (List Environment) → Response
  list_reply (ok envs) = reply_json (marshal_list t envs)
  list_reply _ = internal_error

  -- GET /envs
  unfoldable pub handle_list_envs : Text → Store B → Response
  handle_list_envs status s = list_reply (Store.list b t status s)

  abbrev env_reply : Text → Result Environment → Response
  env_reply prefix (ok env) = reply_json (marshal t env)
  env_reply prefix (err e) = if is_not_found e then prefix_not_found prefix else internal_error
  env_reply prefix _ = internal_error

  -- GET /envs/{id}
  unfoldable pub handle_get_env : Text → Store B → Response
  handle_get_env prefix s = env_reply prefix (find_by_prefix prefix s)

  -- What POST /envs/create leaves: the reply, the store, and the environment that the provision
  -- goroutine was started with.
  pub record Created : Type 0 where
    pub response : Response
    pub store : Store B
    pub spawned : Option Environment

  abbrev pub created_json : Text → Json
  created_json id = obj (member (lit "env_id") (str id) end)

  abbrev pub created : Result (Unit {0}) → Environment → Store B → Created
  created (ok _) env s = record {
    response = reply 202 (json (created_json env.id));
    store = s;
    spawned = some env;
  }
  created _ env s = record { response = internal_error; store = s; spawned = none }

  abbrev refused : Text → Store B → Created
  refused why s = record { response = reply 400 (text why); store = s; spawned = none }

  -- POST /envs/create; `id` is the new UUID
  unfoldable pub handle_create_env : Option CreateRequest → Text → Store B → Created
  handle_create_env none id s = refused (lit "invalid JSON") s
  handle_create_env (some req) id s =
      if is_empty req.owner
      then refused (lit "owner is required") s
      else let (r, env, s') = Store.put b t (new_env req id s.now) s in created r env s'
