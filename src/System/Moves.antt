-- ===== src/System/Moves.antt =====
-- What each part of forge-api that writes leaves of the environments that are stored.
use env_forge.Prelude.{
  ◌≡◌, refl, Bool-cases, inl, inr, List, Option, none, some, Text, is_empty, All, All-weaken,
}
use env_forge.Environment.{Environment}
use env_forge.Environment.Json.{TimeText}
use env_forge.Environment.Origin.{origin}
use env_forge.Environment.Store
use env_forge.Environment.Store.{Bucket, IsBucket, Store}
use env_forge.Environment.Store.Origins.{
  Backed, IsOwned, Extends, Advances, Advances-refl, Backed-extends, Backed-origin, put-Backed,
  put-Advances, put_new-Advances,
}
use env_forge.Go.{Result, ok, err, panic, hung, not_found}
use env_forge.Conductor.{Stub, create_env_saga}
use env_forge.Api
use env_forge.Api.{CreateRequest, new_env, handle_create_env}
use env_forge.Api.Internal.{
  Verifier, env_write, authorize, may_write, guarded_put, handle_internal_put,
}
use env_forge.Api.{Response}
use env_forge.Api.Provision.{begin, persist, conclude, give_up}
use env_forge.System.{Task, env_of, task_of}

module _ {B : Type 0} (b : Bucket B) (t : TimeText) (laws : IsBucket b) where
  abbrev pub Running : Store B → List Task → Type 0
  Running s tasks = All (λ task. Backed b t s (env_of task)) tasks

  pub Running-extends :
      (s s' : Store B) (tasks : List Task) → Extends b t s s' → Running s tasks → Running s' tasks
  Running-extends s s' tasks f = All-weaken tasks (λ task. Backed-extends b t s s' (env_of task) f)

  pub conclude-Advances :
      (r : Result (Unit {0})) (env : Environment) (s : Store B)
      → Backed b t s env
      → IsOwned b t s
      → Advances b t s (conclude b t r env s).0
  unfolding conclude
  conclude-Advances (ok done) env s h owned = Advances-refl b t s owned
  conclude-Advances (err e) env s h owned =
      put-Advances b t laws (give_up env) s (Backed-origin b t s env (give_up env) refl h) owned
  conclude-Advances panic env s h owned = Advances-refl b t s owned
  conclude-Advances hung env s h owned = Advances-refl b t s owned

  guarded_put-Advances :
      {K : Type 0} (v : Option (Verifier K)) (x : Environment) (refusal : Option Response)
      (s : Store B)
      → Backed b t s x
      → IsOwned b t s
      → Advances b t s (guarded_put b t v (some x) refusal s).1
  guarded_put-Advances v x (some r) s h owned = Advances-refl b t s owned
  guarded_put-Advances v x none s h owned = put-Advances b t laws x s h owned

  pub handle_internal_put-Advances :
      {K : Type 0} (v : Option (Verifier K)) (header : Option Text) (x : Environment) (s : Store B)
      → Backed b t s x
      → IsOwned b t s
      → Advances b t s (handle_internal_put b t v header (some x) s).1
  unfolding handle_internal_put
  handle_internal_put-Advances v header x s =
      guarded_put-Advances v x (authorize v may_write env_write header) s

  created-Running :
      (x : Environment) (s : Store B) (r : Result (Unit {0}))
      → (Store.put b t x s).0 ≡ r
      → Running
          (Store.put b t x s).2
          (task_of (Api.created b t r (Store.put b t x s).1 (Store.put b t x s).2).spawned)
  created-Running x s (ok done) h = (put-Backed b t laws x s h, tt)
  created-Running x s (err e) h = tt
  created-Running x s panic h = tt
  created-Running x s hung h = tt

  created-store :
      (r : Result (Unit {0})) (x : Environment) (s : Store B) → (Api.created b t r x s).store ≡ s
  created-store (ok done) x s = refl
  created-store (err e) x s = refl
  created-store panic x s = refl
  created-store hung x s = refl

  pub handle_create_env-Advances :
      (body : Option CreateRequest) (id : Text) (s : Store B)
      → (Store.get b t id s).0 ≡ err not_found
      → IsOwned b t s
      → Advances b t s (handle_create_env b t body id s).store
        × Running
            (handle_create_env b t body id s).store
            (task_of (handle_create_env b t body id s).spawned)
  unfolding handle_create_env
  handle_create_env-Advances none id s free owned = (Advances-refl b t s owned, tt)
  handle_create_env-Advances (some req) id s free owned = elim (Bool-cases (is_empty req.owner)) [
    | inl h ↦ rw h (Advances-refl b t s owned, tt)
    | inr h ↦
        let x = new_env req id s.now in
        rw (h, created-store (Store.put b t x s).0 (Store.put b t x s).1 (Store.put b t x s).2)
          (
            put_new-Advances b t laws x s free h owned,
            created-Running x s (Store.put b t x s).0 refl,
          )
  ]

module _ {B C : Type 0} (b : Bucket B) (t : TimeText) (laws : IsBucket b) (stub : Stub C)
    (self_url : Text) where
  persist-Advances :
      (r : Result Text) (env : Environment) (s : Store B) (c : C)
      → Backed b t s env
      → IsOwned b t s
      → Advances b t s (persist b t stub self_url r env s c).store
        × (origin (persist b t stub self_url r env s c).env ≡ origin env)
  persist-Advances (ok saga_id) env s c h owned =
      let x = record env { saga_id = saga_id } in
      (put-Advances b t laws x s (Backed-origin b t s env x refl h) owned, unfold Store.put in refl)
  persist-Advances (err e) env s c h owned = (Advances-refl b t s owned, refl)
  persist-Advances panic env s c h owned = (Advances-refl b t s owned, refl)
  persist-Advances hung env s c h owned = (Advances-refl b t s owned, refl)

  pub begin-Advances :
      (env : Environment) (s : Store B) (c : C)
      → Backed b t s env
      → IsOwned b t s
      → Advances b t s (begin b t stub self_url env s c).store
        × (origin (begin b t stub self_url env s c).env ≡ origin env)
  unfolding begin
  begin-Advances env s c h owned =
      persist-Advances (create_env_saga stub self_url env c).0 env s
        (create_env_saga stub self_url env c).1 h owned
