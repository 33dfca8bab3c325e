-- ===== src/System/Ready.antt =====
-- A whole creation of a dry run: forge-api's request and goroutine, forge-conductor's requests to
-- forge-worker, and those of forge-worker to forge-api's internal routes.
use env_forge.Prelude.{
  List, ◌≡◌, ◌≢◌, refl, ℕ, true, false, Option, none, some, Text, is_empty, slice_to, text_eq_refl,
}
use env_forge.Environment.{Environment, status_ready}
use env_forge.Environment.Json.{Json, TimeText}
use env_forge.Environment.Origin.{origin}
use env_forge.Environment.Store
use env_forge.Environment.Store.{Bucket, IsBucket, Store, stamp}
use env_forge.Environment.Store.Fits.{put-returns}
use env_forge.Environment.Store.Laws.{get-put}
use env_forge.Environment.Store.Origins.{put-env}
use env_forge.Go.{Result, ok}
use env_forge.Cloud.{Call, Oracle}
use env_forge.Action.{drop_answer}
use env_forge.Steps.All.{Kind, health, Options, all_kinds}
use env_forge.Steps.Done.{is_done}
use env_forge.Steps.Dry.{is_local}
use env_forge.Worker.{Worker}
use env_forge.Worker.Pipeline.{send_all, send_all-ready}
use env_forge.Remote.{auth_header, client}
use env_forge.Remote.Refines.{direct, remote-IsStateClient, remote-put, remote-get, get-remote}
use env_forge.Conductor.{failed, SagaExecution, Stub, create_env_saga, start_env_saga}
use env_forge.Api.{CreateRequest, new_env, handle_create_env}
use env_forge.Api.Internal.{Verifier, env_read, env_write, authorize, may_read, may_write}
use env_forge.Api.Provision.{success, begin, provision}
use env_forge.Api.Provision.Ending.{unfailed_provision_counts_success}

module _ {B : Type 0} (b : Bucket B) (t : TimeText) where
  -- the environment that the request to create puts
  abbrev pub fresh : CreateRequest → Text → Store B → Environment
  fresh req id s = stamp b t (new_env req id s.now) s

  -- An environment that is ready, as one that was asked for.
  abbrev pub IsReadyFor : Environment → Store B → Type 0
  IsReadyFor env s =
      (final : Environment) × ((Store.get b t env.id s).0 ≡ ok final)
      × (origin final ≡ origin env)
      × (final.status ≡ status_ready)
      × ((k : Kind) → k ≢ health → is_done k final ≡ true)

module _ {B K : Type 0} (b : Bucket B) (t : TimeText) (v : Option (Verifier K)) (p : Options)
    (o : Oracle) where
  -- what forge-worker's requests leave of the store, when forge-conductor has sent it the forward
  -- requests of the saga in their order
  abbrev pub worked : Option (Result Text) → Text → Worker (Store B) → Store B → Store B
  worked token id w s =
      (send_all p o (client t (direct b t v token)) all_kinds id (record w { db = s })).1.db

module _ {B C K : Type 0} (b : Bucket B) (t : TimeText) (laws : IsBucket b)
    (v : Option (Verifier K)) (p : Options) (o : Oracle) (stub : Stub C) (self_url : Text) where
  module _ (formats : (n : ℕ) → (s : Text) × (t.format n ≡ some s))
      (fits : (db : B) (k : Text) (j : Json) → (db' : B) × (b.put db k j ≡ ok db')) where
    pub put_ok : (e : Environment) (s : Store B) → (Store.put b t e s).0 ≡ ok tt
    put_ok = put-returns b t formats fits

    pub get-put_ok :
        (e : Environment) (s : Store B)
        → (Store.get b t e.id (Store.put b t e s).2).0 ≡ ok (stamp b t e s)
    get-put_ok e s = rw (get-put b t laws e s e.id (put_ok e s), text_eq_refl)

    pub accepted :
        (req : CreateRequest) (id : Text) (s : Store B)
        → is_empty req.owner ≡ false
        → ((handle_create_env b t (some req) id s).response.code ≡ 202)
          × ((handle_create_env b t (some req) id s).spawned ≡ some (fresh b t req id s))
          × ((handle_create_env b t (some req) id s).store
              ≡ (Store.put b t (new_env req id s.now) s).2)
    unfolding handle_create_env
    accepted req id s owned =
        rw (owned, put_ok (new_env req id s.now) s, put-env b t (new_env req id s.now) s)
          (refl, refl, refl)

    pub begun :
        (env : Environment) (s : Store B) (c : C) (saga_id : Text)
        → (create_env_saga stub self_url env c).0 ≡ ok saga_id
        → ((begin b t stub self_url env s c).result ≡ ok saga_id)
          × ((begin b t stub self_url env s c).store
              ≡ (Store.put b t (record env { saga_id = saga_id }) s).2)
          × ((begin b t stub self_url env s c).conductor ≡ (create_env_saga stub self_url env c).1)
    unfolding begin
    begun env s c saga_id made =
        rw (made, put_ok (record env { saga_id = saga_id }) s) (refl, refl, refl)

    module _ (token : Option (Result Text)) (header : Option Text)
        (sent : auth_header token ≡ ok header) (reads : authorize v may_read env_read header ≡ none)
        (writes : authorize v may_write env_write header ≡ none)
        (files : (before : List Call) (x : Call)
          → is_local x ≡ true
          → drop_answer (o before x) ≡ ok tt)
        (alone : p.connected ≡ false) where
      worked-ready :
          (env : Environment) (s : Store B) (w : Worker (Store B)) (short : Text)
          → (Store.get b t env.id s).0 ≡ ok env
          → slice_to env.id 8 ≡ some short
          → env.dry_run ≡ true
          → env.fail_at_health ≡ false
          → IsReadyFor b t env (worked b t v p o token env.id w s)
      worked-ready env s w short found cut dry healthy =
          let remote = client t (direct b t v token) in
          let (replies, (final, stored, same, ready, marks)) =
            send_all-ready p o remote
              (remote-IsStateClient b t v token header sent reads writes formats laws)
              (remote-put b t v token header sent reads writes formats fits) files alone env.id env
              (record w { db = s })
              (remote-get b t v token header sent reads writes formats env.id s env found) refl
              (short, cut) dry healthy in
          (
            final,
            get-remote b t v token header sent reads writes formats env.id _ final stored,
            same,
            ready,
            marks,
          )

      -- Where forge-api's bucket takes every write, its clock formats, and its internal routes let the
      -- worker's header through, and where the worker can write its local files and has no connection
      -- to svid-exchange: a request to create an environment of a dry run, with an owner, without the
      -- flag that fails the health step, and under an id of eight bytes or more, is answered 202; and
      -- if forge-conductor creates the saga, sends the worker the eight forward requests in their
      -- order while StartSaga blocks, and ends it unfailed, then the goroutine counts a success, and
      -- forge-api's store holds under the id an environment that is ready, with the owner, the time of
      -- creation and the flags of the request, and with every step but health done.
      pub create-ready :
          (req : CreateRequest) (id short : Text) (s : Store B) (c : C) (w : Worker (Store B))
          (saga_id : Text) (exec : Option SagaExecution)
          → is_empty req.owner ≡ false
          → req.dry_run ≡ true
          → req.fail_at_health ≡ false
          → slice_to id 8 ≡ some short
          → (create_env_saga stub self_url (fresh b t req id s) c).0 ≡ ok saga_id
          → (start_env_saga stub self_url saga_id
              (create_env_saga stub self_url (fresh b t req id s) c).1).0
            ≡ ok exec
          → ((x : SagaExecution) → exec ≡ some x → x.status ≢ failed)
          → ((handle_create_env b t (some req) id s).response.code ≡ 202)
            × ((handle_create_env b t (some req) id s).spawned ≡ some (fresh b t req id s))
            × (let ended =
                  provision b t stub self_url
                    (worked b t v p o token id w)
                    (fresh b t req id s)
                    (handle_create_env b t (some req) id s).store
                    c in
                (ended.1 ≡ some success) × IsReadyFor b t (new_env req id s.now) ended.0)
      create-ready req id short s c w saga_id exec owned dry healthy cut made ended unfailed =
          let (code, spawned, store) = accepted req id s owned in
          let env = fresh b t req id s in
          let s1 : Store B = (Store.put b t (new_env req id s.now) s).2 in
          let env2 : Environment = record env { saga_id = saga_id } in
          let (started, s2, c2) = begun env s1 c saga_id made in
          let counted =
            unfailed_provision_counts_success b t stub self_url (worked b t v p o token id w) env s1
              c saga_id exec started (rw c2 ended) unfailed in
          (
            code,
            spawned,
            rw (store, counted, s2)
                (
                  refl,
                  worked-ready (stamp b t env2 s1) (Store.put b t env2 s1).2 w short
                      (get-put_ok env2 s1) cut dry healthy,
                ),
          )
