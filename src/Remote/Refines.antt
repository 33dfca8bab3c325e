-- ===== src/Remote/Refines.antt =====
-- The worker's state client, with forge-api's internal routes behind it.
use env_forge.Prelude.{
  ◌≡◌, ◌≢◌, refl, sym, ap, ◌∙◌, ℕ, ◌++◌, lit, Option, none, some, Text, text_eq_refl, Bool-cases,
  inl, inr,
}
use env_forge.Environment.{Environment}
use env_forge.Environment.Json.{Json, TimeText, unmarshal}
use env_forge.Environment.Json.RoundTrip.{unmarshal-marshal}
use env_forge.Environment.Store
use env_forge.Environment.Store.{Bucket, IsBucket, Store}
use env_forge.Environment.Store.Fits.{marshal_total, put-returns}
use env_forge.Environment.Store.Laws.{get-put_ne, get-put, put_err}
use env_forge.Go.{Result, ok, err, panic, hung, is_not_found}
use env_forge.Action.{StateClient, IsStateClient}
use env_forge.Api.{Response, Body, json}
use env_forge.Api.Internal.{
  Verifier, env_read, env_write, authorize, may_read, may_write, get_reply, put_reply,
  handle_internal_get, handle_internal_put,
}
use env_forge.Remote
use env_forge.Remote.{
  Request, get_env, put_env, HttpReply, Transport, auth_header, client, read_reply, write_reply,
  decoded,
}

abbrev body_json : Body → Option Json
body_json (json v) = some v
body_json _ = none

abbrev pub received : Response → HttpReply
received r = record { code = r.code; body = body_json r.body }

module _ {B K : Type 0} (b : Bucket B) (t : TimeText) (v : Option (Verifier K)) where
  -- a transport that loses nothing, in front of forge-api's internal routes
  unfoldable pub serve : Option Text → Request → Store B → Result HttpReply × Store B
  serve header (get_env id) s = (ok (received (handle_internal_get b t v header id s)), s)
  serve header (put_env id body) s =
      let (r, s') = handle_internal_put b t v header (unmarshal t body) s in (ok (received r), s')

  unfoldable pub direct : Option (Result Text) → Transport (Store B)
  unfolding serve
  direct token = record { round_trip = serve; token = token }

  module _ (token : Option (Result Text)) (header : Option Text)
      (sent : auth_header token ≡ ok header) (reads : authorize v may_read env_read header ≡ none)
      (writes : authorize v may_write env_write header ≡ none)
      (formats : (n : ℕ) → (s : Text) × (t.format n ≡ some s)) where
    abbrev pub remote : StateClient (Store B)
    remote = client t (direct token)

    abbrev passed_on : Text → Result Environment → Result Environment
    passed_on k r =
        read_reply t (lit "GET /internal/envs/" ++ k) (ok (received (get_reply b t v k r)))

    get-eq : (k : Text) (s : Store B) → remote.get k s ≡ (passed_on k (Store.get b t k s).0, s)
    unfolding client Remote.get direct handle_internal_get serve
    get-eq k s = rw (sent, reads)

    abbrev answered : Environment → Result (Unit {0}) → Result (Unit {0})
    answered e r =
        write_reply (lit "PUT /internal/envs/" ++ e.id) (ok (received (put_reply b t v r)))

    put-eq :
        (e : Environment) (s : Store B)
        → remote.put e s ≡ (answered e (Store.put b t e s).0, e, (Store.put b t e s).2)
    unfolding client Remote.put direct handle_internal_put serve
    put-eq e s =
        let (j, m) = marshal_total t formats e in rw (m, sent, writes, unmarshal-marshal t e j m)

    decoded_ok : (j : Json) (e : Environment) → unmarshal t j ≡ some e → decoded t (some j) ≡ ok e
    decoded_ok j e h = rw (decoded, h)

    passed_on_ok : (k : Text) (e : Environment) → passed_on k (ok e) ≡ ok e
    unfolding read_reply
    passed_on_ok k e =
        let (j, m) = marshal_total t formats e in rw m (decoded_ok j e (unmarshal-marshal t e j m))

    answered_ok : (e : Environment) (r : Result (Unit {0})) → answered e r ≡ ok tt → r ≡ ok tt
    unfolding write_reply
    answered_ok e (ok tt) h = refl
    answered_ok e (err x) h = cc
    answered_ok e panic h = cc
    answered_ok e hung h = cc

    passed_on-eq-ok :
        (k : Text) (r : Result Environment) (e : Environment) → passed_on k r ≡ ok e → r ≡ ok e
    unfolding read_reply
    passed_on-eq-ok k (ok x) e h = sym (passed_on_ok k x) ∙ h
    passed_on-eq-ok k (err x) e h = elim (Bool-cases (is_not_found x)) [
      | inl missing ↦ cc (rw missing at h)
      | inr other ↦ cc (rw other at h)
    ]
    passed_on-eq-ok k panic e h = cc
    passed_on-eq-ok k hung e h = cc

    -- what is read over HTTP is what the store holds
    pub get-remote :
        (k : Text) (s : Store B) (e : Environment)
        → (remote.get k s).0 ≡ ok e
        → (Store.get b t k s).0 ≡ ok e
    get-remote k s e h =
        passed_on-eq-ok k (Store.get b t k s).0 e (sym (ap (λ x. x.0) (get-eq k s)) ∙ h)

    pub remote-get :
        (k : Text) (s : Store B) (e : Environment)
        → (Store.get b t k s).0 ≡ ok e
        → (remote.get k s).0 ≡ ok e
    remote-get k s e h = rw (get-eq k s, h) (passed_on_ok k e)

    pub remote-put :
        ((db : B) (k : Text) (j : Json) → (db' : B) × (b.put db k j ≡ ok db'))
        → (e : Environment) (s : Store B) → (remote.put e s).0 ≡ ok tt
    unfolding write_reply
    remote-put fits e s = rw (put-eq e s, put-returns b t formats fits e s)

    stored_as :
        IsBucket b
        → (e : Environment) (s : Store B) → (remote.put e s).0 ≡ ok tt
        → (remote.get e.id (remote.put e s).2).0 ≡ ok (record e { updated_at = s.now })
    stored_as laws e s h =
        let done = answered_ok e (Store.put b t e s).0 (sym (ap (λ x. x.0) (put-eq e s)) ∙ h) in
        rw (put-eq e s, get-eq, get-put b t laws e s e.id done, text_eq_refl)
          (passed_on_ok e.id (record e { updated_at = s.now }))

    answered_err :
        (e : Environment) (s : Store B) → (remote.put e s).0 ≢ ok tt → (Store.put b t e s).0 ≢ ok tt
    unfolding write_reply
    answered_err e s h done = h (rw (put-eq e s, done) refl)

    -- The worker's state client over HTTP, with forge-api's internal routes behind it, no loss
    -- between them, a header that is let through and a clock that formats, is a state client: a put
    -- changes nothing of its argument, a read gives what was last put, a put changes no other key,
    -- a put that fails changes nothing, and reads write nothing.
    pub remote-IsStateClient : IsBucket b → IsStateClient (client t (direct token))
    remote-IsStateClient laws = record {
      stamps = λ e s. rw (put-eq e s);
      get-put = λ e s h. (record e { updated_at = s.now }, stored_as laws e s h, refl);
      get-put_ne = λ e s k n. rw (put-eq e s, get-eq, get-eq, get-put_ne b t laws e s k n);
      get-put_err =
          λ e s k h. rw (put-eq e s, get-eq, get-eq, put_err b t e s (answered_err e s h));
      get_keeps = λ k s. rw (get-eq k s);
    }
