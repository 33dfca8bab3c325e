-- ===== src/System/Requests.antt =====
-- A request to a step endpoint of forge-worker, whose client talks to forge-api's internal routes
-- while everything else goes on: before each of its transactions others may change the system, and
-- the network may lose the request or its reply.
use mathlib.Core.List.{Memᴰ}
use env_forge.Prelude.{ℕ, suc, ◌∷◌, Option, Text}
use env_forge.Environment.{Environment}
use env_forge.Environment.Json.{TimeText, unmarshal}
use env_forge.Environment.Store
use env_forge.Environment.Store.{Bucket, Store}
use env_forge.Go.{Error, Result, ok, err}
use env_forge.Conductor.{Stub}
use env_forge.Api.{Response}
use env_forge.Api.Internal.{Verifier, handle_internal_get, handle_internal_put}
use env_forge.Remote.{Request, get_env, put_env, HttpReply, Transport}
use env_forge.Remote.Refines.{received}
use env_forge.System.{System, Reach}

-- what the network does to a request: carry it and the reply, lose the reply, or lose the request
pub data Fate : Type 0 where
  carried : Fate
  reply_lost request_lost : Error → Fate

-- the system, and how many transactions the request has made
abbrev pub Busy : Type 0 → Type 0 → Type 0
Busy B C = ℕ × System B C

abbrev pub fetched : {B C : Type 0} → Result Environment → System B C → System B C
fetched (ok env) s = record s { read = env ∷ s.read }
fetched _ s = s

abbrev pub delivered : Fate → Response → Result HttpReply
delivered carried r = ok (received r)
delivered (reply_lost e) r = err e
delivered (request_lost e) r = err e

module _ {B C K : Type 0} (b : Bucket B) (t : TimeText) (v : Option (Verifier K))
    (between : ℕ → System B C → System B C) (fate : ℕ → Fate) where
  -- forge-api's work on a request, unless it was lost
  abbrev pub served : Fate → Option Text → Request → System B C → Result HttpReply × System B C
  served (request_lost e) header req s = (err e, s)
  served f header (get_env id) s = (
    delivered f (handle_internal_get b t v header id s.store),
    fetched (Store.get b t id s.store).0 s,
  )
  served f header (put_env id body) s =
      let (r, st) = handle_internal_put b t v header (unmarshal t body) s.store in
      (delivered f r, record s { store = st })

  abbrev pub amid : Option Text → Request → Busy B C → Result HttpReply × Busy B C
  amid header req (n, s) = let (r, u) = served (fate n) header req (between n s) in (r, (suc n, u))

  unfoldable pub busy_net : Option (Result Text) → Transport (Busy B C)
  busy_net token = record { round_trip = amid; token = token }

module _ {B C K : Type 0} (b : Bucket B) (t : TimeText) (stub : Stub C) (self_url : Text)
    (v : Option (Verifier K)) where
  -- What others do meanwhile is a course of steps, in which what requests have read is not forgotten.
  pub record IsMeanwhile (between : ℕ → System B C → System B C) : Type 0 where
    pub others : (n : ℕ) (s : System B C) → Reach b t stub self_url v s (between n s)
    pub kept :
        (n : ℕ) (s : System B C) (x : Environment) → Memᴰ x s.read → Memᴰ x (between n s).read
