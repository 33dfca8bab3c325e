-- ===== src/System/Served.antt =====
-- The requests to forge-worker's step endpoints are steps of the system.
use mathlib.Core.List.{Memᴰ}
use env_forge.Prelude.{◌≡◌, ◌≢◌, refl, ℕ, Option-cases, inl, inr, Option, some, Text}
use env_forge.Environment.{Environment}
use env_forge.Environment.Origin.{origin}
use env_forge.Environment.Json.{Json, TimeText, marshal, unmarshal}
use env_forge.Environment.Json.RoundTrip.{unmarshal-marshal}
use env_forge.Environment.Store
use env_forge.Environment.Store.{Bucket, Store}
use env_forge.Go.{Result, ok, err, panic, hung}
use env_forge.Api.Internal.{Verifier}
use env_forge.Action.{StateClient}
use env_forge.Conductor.{Stub}
use env_forge.Remote
use env_forge.Remote.{
  Request, get_env, put_env, HttpReply, read_reply, decoded, auth_header, get_with, put_with,
  client,
}
use env_forge.Remote.Stored.{read-stored}
use env_forge.System.{System, fetch, save, Reach, here, next}
use env_forge.System.Requests.{
  Fate, carried, reply_lost, request_lost, Busy, fetched, served, busy_net, IsMeanwhile,
}

module _ {B C K : Type 0} (b : Bucket B) (t : TimeText) (stub : Stub C) (self_url : Text)
    (v : Option (Verifier K)) (between : ℕ → System B C → System B C) (fate : ℕ → Fate)
    (meanwhile : IsMeanwhile b t stub self_url v between)
    (denies : (k : Verifier K) → v ≡ some k → k.denied.code ≢ 200)
    (token : Option (Result Text)) where
  abbrev Course : System B C → System B C → Type 0
  Course s u = Reach b t stub self_url v s u

  pub Course-trans : {s u w : System B C} → Course s u → Course u w → Course s w
  Course-trans r here = r
  Course-trans r (next more step) = next (Course-trans r more) step

  abbrev pub remote : StateClient (Busy B C)
  remote = client t (busy_net b t v between fate token)

  -- the system goes on, and what was read is not forgotten
  abbrev pub Passes : System B C → System B C → Type 0
  Passes s u = Course s u × ((x : Environment) → Memᴰ x s.read → Memᴰ x u.read)

  fetched-Passes :
      (id : Text) (r : Result Environment) (s : System B C)
      → (Store.get b t id s.store).0 ≡ r
      → Passes s (fetched r s)
  fetched-Passes id (ok e) s h = (next here (fetch id e h), λ x m. Memᴰ.tail m)
  fetched-Passes id (err e) s h = (here, λ x m. m)
  fetched-Passes id panic s h = (here, λ x m. m)
  fetched-Passes id hung s h = (here, λ x m. m)

  -- the rest of a transaction, after what others did before it
  after_others : (n : ℕ) (s u : System B C) → Passes (between n s) u → Passes s u
  after_others n s u (r, k) =
      (Course-trans (meanwhile.others n s) r, λ x m. k x (meanwhile.kept n s x m))

  abbrev got : (f : Fate) → Option Text → Text → System B C → Result HttpReply × System B C
  got f header id s = served b t v between fate f header (get_env id) s

  got-Passes :
      (f : Fate) (header : Option Text) (id : Text) (s : System B C)
      → Passes s (got f header id s).1
  got-Passes carried header id s = fetched-Passes id (Store.get b t id s.store).0 s refl
  got-Passes (reply_lost e) header id s = fetched-Passes id (Store.get b t id s.store).0 s refl
  got-Passes (request_lost e) header id s = (here, λ x m. m)

  got-read :
      (f : Fate) (what id : Text) (header : Option Text) (s : System B C) (e : Environment)
      → read_reply t what (got f header id s).0 ≡ ok e
      → Memᴰ e (got f header id s).1.read
  unfolding read_reply
  got-read carried what id header s e h =
      rw (read-stored b t v denies what id header s.store e h) (Memᴰ.head refl)
  got-read (reply_lost x) what id header s e h = cc
  got-read (request_lost x) what id header s e h = cc

  abbrev sent : (f : Fate) → Option Text → Text → Json → System B C → Result HttpReply × System B C
  sent f header id body s = served b t v between fate f header (put_env id body) s

  sent-Passes :
      (f : Fate) (header : Option Text) (id : Text) (j : Json) (e x : Environment) (s : System B C)
      → unmarshal t j ≡ some x
      → Memᴰ e s.read
      → origin x ≡ origin e
      → Passes s (sent f header id j s).1
  sent-Passes carried header id j e x s h m q = rw h (next here (save header e x m q), λ y n. n)
  sent-Passes (reply_lost z) header id j e x s h m q =
      rw h (next here (save header e x m q), λ y n. n)
  sent-Passes (request_lost z) header id j e x s h m q = (here, λ y n. n)

  module _ (n : ℕ) (s : System B C) where
    get_with-Passes :
        (id : Text) (r : Result (Option Text))
        → Passes s (get_with t (busy_net b t v between fate token) id r (n, s)).1.1
    unfolding busy_net
    get_with-Passes id (ok header) =
        after_others n s _ (got-Passes (fate n) header id (between n s))
    get_with-Passes id (err e) = (here, λ x m. m)
    get_with-Passes id panic = (here, λ x m. m)
    get_with-Passes id hung = (here, λ x m. m)

    get_with-read :
        (id : Text) (r : Result (Option Text)) (e : Environment)
        → (get_with t (busy_net b t v between fate token) id r (n, s)).0 ≡ ok e
        → Memᴰ e (get_with t (busy_net b t v between fate token) id r (n, s)).1.1.read
    unfolding busy_net
    get_with-read id (ok header) e h = got-read (fate n) _ id header (between n s) e h
    get_with-read id (err x) e h = cc
    get_with-read id panic e h = cc
    get_with-read id hung e h = cc

    pub get-Passes : (id : Text) → Passes s (remote.get id (n, s)).1.1
    unfolding client Remote.get busy_net
    get-Passes id = get_with-Passes id (auth_header token)

    pub get-read :
        (id : Text) (e : Environment)
        → (remote.get id (n, s)).0 ≡ ok e
        → Memᴰ e (remote.get id (n, s)).1.1.read
    unfolding client Remote.get busy_net
    get-read id e h = get_with-read id (auth_header token) e h

    put_with-Passes :
        (e x : Environment) (j : Json) (r : Result (Option Text))
        → unmarshal t j ≡ some x
        → Memᴰ e s.read
        → origin x ≡ origin e
        → Passes s (put_with t (busy_net b t v between fate token) x j r (n, s)).1.1
    unfolding busy_net
    put_with-Passes e x j (ok header) h m q =
        after_others n s _
          (sent-Passes (fate n) header x.id j e x (between n s) h (meanwhile.kept n s e m) q)
    put_with-Passes e x j (err z) h m q = (here, λ y k. k)
    put_with-Passes e x j panic h m q = (here, λ y k. k)
    put_with-Passes e x j hung h m q = (here, λ y k. k)

    pub put-Passes :
        (e x : Environment)
        → Memᴰ e s.read
        → origin x ≡ origin e
        → Passes s (remote.put x (n, s)).2.1
    unfolding client Remote.put busy_net
    put-Passes e x m q = elim (Option-cases (marshal t x)) [
      | inl failed ↦ rw failed (here, λ y k. k)
      | inr (j, h) ↦
          rw h (put_with-Passes e x j (auth_header token) (unmarshal-marshal t x j h) m q)
    ]
