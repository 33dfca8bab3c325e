-- ===== src/Api/Routes.antt =====
-- New and authMiddleware of internal/apiserver/server.go: the routes of forge-api. http.ServeMux is a
-- parameter: it says whether a pattern matches a method and the segments of a path.
pub mod Apart
use env_forge.Prelude.{
  ◌≡◌, Bool, true, false, ◌⊎◌, List, [], ◌∷◌, Option, none, some, Text, lit, is_empty,
}
use env_forge.Api.Internal.{Verifier}

-- a segment of a pattern: a text, or {id}
pub data Part : Type 0 where
  fixed : Text → Part
  wildcard : Part

-- the method values that New registers
pub data Target : Type 0 where
  create_env list_envs get_env abort_env get_env_saga list_sagas internal_get internal_put : Target
  live ready metrics : Target

-- `guarded` says whether authMiddleware stands before the handler
pub record Route : Type 0 where
  pub method : Text
  pub parts : List Part
  pub guarded : Bool
  pub target : Target

abbrev public : Text → List Part → Target → Route
public method parts target = record {
  method = method;
  parts = parts;
  guarded = false;
  target = target;
}

abbrev internal : Text → List Part → Target → Route
internal method parts target = record {
  method = method;
  parts = parts;
  guarded = true;
  target = target;
}

abbrev get : Text
get = lit "GET"

-- New
unfoldable pub routes : List Route
routes =
    public (lit "POST") (fixed (lit "envs") ∷ fixed (lit "create") ∷ []) create_env
    ∷ public get (fixed (lit "envs") ∷ []) list_envs
    ∷ public get (fixed (lit "envs") ∷ wildcard ∷ []) get_env
    ∷ public (lit "POST") (fixed (lit "envs") ∷ wildcard ∷ fixed (lit "abort") ∷ []) abort_env
    ∷ public get (fixed (lit "envs") ∷ wildcard ∷ fixed (lit "saga") ∷ []) get_env_saga
    ∷ public get (fixed (lit "sagas") ∷ []) list_sagas
    ∷ internal get (fixed (lit "internal") ∷ fixed (lit "envs") ∷ wildcard ∷ []) internal_get
    ∷ internal (lit "PUT") (fixed (lit "internal") ∷ fixed (lit "envs") ∷ wildcard ∷ [])
        internal_put
    ∷ public get (fixed (lit "health") ∷ fixed (lit "live") ∷ []) live
    ∷ public get (fixed (lit "health") ∷ fixed (lit "ready") ∷ []) ready
    ∷ public get (fixed (lit "metrics") ∷ []) metrics
    ∷ []

-- whether a route matches a request
abbrev pub Mux : Type 0
Mux = Route → Text → List Text → Bool

-- What net/http documents: a segment of a pattern that is a text stands for itself, {id} for one
-- segment, and a pattern for GET also matches HEAD.
abbrev pub Fits : List Part → List Text → Type 0
Fits [] [] = Unit
Fits (fixed s ∷ parts) (x ∷ path) = (s ≡ x) × Fits parts path
Fits (wildcard ∷ parts) (x ∷ path) = Fits parts path
Fits _ _ = ⊥

abbrev pub Accepts : Text → Text → Type 0
Accepts method m = (method ≡ m) ⊎ ((method ≡ get) × (m ≡ lit "HEAD"))

pub record IsMux (mux : Mux) : Type 0 where
  pub method : (r : Route) (m : Text) (path : List Text) → mux r m path ≡ true → Accepts r.method m
  pub path : (r : Route) (m : Text) (path : List Text) → mux r m path ≡ true → Fits r.parts path
