-- ===== src/System/RolledBack.antt =====
-- A whole creation of a dry run that fails at the health step: forge-api's request and goroutine, and the
-- forward and compensation requests that forge-worker gets in between.
use env_forge.Prelude.{
  List, ◌≡◌, refl, ap, ℕ, true, false, Option, none, some, Text, is_empty, slice_to,
}
use env_forge.Environment.{Environment, status_failed}
use env_forge.Environment.Json.{Json, TimeText}
use env_forge.Environment.Origin.{origin}
use env_forge.Environment.Store
use env_forge.Environment.Store.{Bucket, IsBucket, Store, stamp}
use env_forge.Go.{Error, Result, ok, err}
use env_forge.Cloud.{Call, Oracle}
use env_forge.Action.{drop_answer}
use env_forge.Steps.All.{Options}
use env_forge.Steps.Dry.{is_local}
use env_forge.Worker.{Response, Worker}
use env_forge.Worker.Cascade.{cascade, expected, IsUndone, cascade-IsUndone}
use env_forge.Remote.{auth_header, client}
use env_forge.Remote.Refines.{direct, remote-IsStateClient, remote-put, remote-get, get-remote}
use env_forge.Conductor.{Stub, create_env_saga, start_env_saga}
use env_forge.Api.{CreateRequest, handle_create_env}
use env_forge.Api.Internal.{Verifier, env_read, env_write, authorize, may_read, may_write}
use env_forge.Api.Provision.{failure, begin, provision_result, provision}
use env_forge.Api.Provision.Ending.{provision_failed, failed_provision_overwrites}
use env_forge.System.Ready.{fresh, put_ok, get-put_ok, accepted, begun}

module _ {B K : Type 0} (b : Bucket B) (t : TimeText) (v : Option (Verifier K)) (p : Options)
    (o : Oracle) where
  -- the failing saga's requests to forge-worker, over a store of forge-api: their replies and the worker
  abbrev pub cascaded :
      Option (Result Text)
      → Text
      → Worker (Store B)
      → Store B
      → (List (Option Response) × Option Response × List (Option Response)) × Worker (Store B)
  cascaded token id w s = cascade p o (client t (direct b t v token)) id (record w { db = s })

module _ {B C K : Type 0} (b : Bucket B) (t : TimeText) (laws : IsBucket b)
    (v : Option (Verifier K)) (p : Options) (o : Oracle) (stub : Stub C) (self_url : Text) where
  module _ (formats : (n : ℕ) → (s : Text) × (t.format n ≡ some s))
      (fits : (db : B) (k : Text) (j : Json) → (db' : B) × (b.put db k j ≡ ok db')) where
    module _ (token : Option (Result Text)) (header : Option Text)
        (sent : auth_header token ≡ ok header) (reads : authorize v may_read env_read header ≡ none)
        (writes : authorize v may_write env_write header ≡ none)
        (files : (before : List Call) (x : Call)
          → is_local x ≡ true
          → drop_answer (o before x) ≡ ok tt)
        (alone : p.connected ≡ false) where
      cascaded-IsUndone :
          (env : Environment) (s : Store B) (w : Worker (Store B)) (short : Text)
          → (Store.get b t env.id s).0 ≡ ok env
          → slice_to env.id 8 ≡ some short
          → env.dry_run ≡ true
          → env.fail_at_health ≡ true
          → ((cascaded b t v p o token env.id w s).0 ≡ expected)
            × ((final : Environment) × ((Store.get b t env.id
                    (cascaded b t v p o token env.id w s).1.db).0
                  ≡ ok final)
                × (origin final ≡ origin env)
                × IsUndone final)
      cascaded-IsUndone env s w short found cut dry asked =
          let (replies, (final, stored, same, undone)) =
            cascade-IsUndone p o (client t (direct b t v token))
              (remote-IsStateClient b t v token header sent reads writes formats laws)
              (remote-put b t v token header sent reads writes formats fits) files alone env.id env
              (record w { db = s })
              (remote-get b t v token header sent reads writes formats env.id s env found) refl
              (short, cut) dry asked in
          (
            replies,
            (
              final,
              get-remote b t v token header sent reads writes formats env.id _ final stored,
              same,
              undone,
            ),
          )

      -- Where forge-api's bucket takes every write, its clock formats, and its internal routes let the
      -- worker's header through, and where the worker can write and remove its local files and has no
      -- connection to svid-exchange: a request to create an environment of a dry run, with an owner, with
      -- the flag that fails the health step, and under an id of eight bytes or more, is answered 202; and
      -- if forge-conductor creates the saga, sends the worker, while StartSaga blocks, the forward
      -- requests of the first six steps and of the health step and then the compensation requests of the
      -- six backwards, and Provision then comes back with an error, then the six are answered 200, the
      -- health step 500 with the message of the injected failure, and the compensations 200; before the
      -- goroutine goes on, forge-api's store holds under the id an environment with the owner, the time
      -- of creation and the flags of the request, of which no step but possibly registry is done; and
      -- the goroutine counts a failure, and leaves under the id the environment of the request with the
      -- saga's id and the status failed.
      pub create-rolled_back :
          (req : CreateRequest) (id short : Text) (s : Store B) (c : C) (w : Worker (Store B))
          (saga_id : Text) (e : Error)
          → is_empty req.owner ≡ false
          → req.dry_run ≡ true
          → req.fail_at_health ≡ true
          → slice_to id 8 ≡ some short
          → (create_env_saga stub self_url (fresh b t req id s) c).0 ≡ ok saga_id
          → provision_result
              (start_env_saga stub self_url saga_id
                (create_env_saga stub self_url (fresh b t req id s) c).1).0
            ≡ err e
          → (let r = handle_create_env b t (some req) id s in
              let env = fresh b t req id s in
              let asked = (begin b t stub self_url env r.store c).store in
              let over = cascaded b t v p o token id w asked in
              let ended =
                provision b t stub self_url
                  (λ u. (cascaded b t v p o token id w u).1.db)
                  env
                  r.store
                  c in
              (r.response.code ≡ 202)
              × (r.spawned ≡ some env)
              × (over.0 ≡ expected)
              × ((undone : Environment) × ((Store.get b t id over.1.db).0 ≡ ok undone)
                  × (origin undone ≡ origin env)
                  × IsUndone undone)
              × (ended.1 ≡ some failure)
              × ((Store.get b t id ended.0).0
                  ≡ ok (record env {
                    saga_id = saga_id;
                    status = status_failed;
                    updated_at = over.1.db.now;
                  })))
      create-rolled_back req id short s c w saga_id e owned dry asked cut made failed =
          let (code, spawned, _) =
            accepted b t laws v p o stub self_url formats fits req id s owned in
          let env = fresh b t req id s in
          let s1 : Store B = (handle_create_env b t (some req) id s).store in
          let env2 : Environment = record env { saga_id = saga_id } in
          let between : Store B → Store B = λ u. (cascaded b t v p o token id w u).1.db in
          let (started, s2, c2) =
            begun b t laws v p o stub self_url formats fits env s1 c saga_id made in
          let over : provision_result
                (start_env_saga stub self_url saga_id
                  (begin b t stub self_url env s1 c).conductor).0
              ≡ err e =
            rw c2 failed in
          let (replies, undone) =
            cascaded-IsUndone (stamp b t env2 s1) (begin b t stub self_url env s1 c).store w short
              (rw s2 (get-put_ok b t laws v p o stub self_url formats fits env2 s1)) cut dry
              asked in
          (
            code,
            spawned,
            replies,
            undone,
            ap (λ x. x.1)
                (provision_failed b t stub self_url between env s1 c saga_id e started over),
            failed_provision_overwrites b t stub self_url laws between env s1 c saga_id e started
                over (put_ok b t laws v p o stub self_url formats fits _ _),
          )
