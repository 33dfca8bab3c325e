-- ===== src/Api/Provision/Ending.antt =====
-- What is left in the store when a provision goroutine ends.
use env_forge.Prelude.{◌≡◌, ◌≢◌, refl, sym, ap, ◌∙◌, Option, none, some, Text, text_eq_refl, arith}
use env_forge.Environment.{Environment, status_failed}
use env_forge.Environment.Json.{TimeText}
use env_forge.Environment.Store
use env_forge.Environment.Store.{Bucket, IsBucket, Store}
use env_forge.Environment.Store.Laws.{get-put}
use env_forge.Go.{Error, ok, err}
use env_forge.Conductor.{SagaStatus, unspecified, failed, SagaExecution, Stub, start_env_saga}
use env_forge.Api.Provision.{
  success, failure, is_failed, give_up, provision_result, conclude, begin, provision,
}

is_failed_of_ne : (s : SagaStatus) → s ≢ failed → is_failed s ≡ env_forge.Prelude.false
is_failed_of_ne failed n = absurd (n refl)
is_failed_of_ne unspecified n = refl
is_failed_of_ne _ n = refl

provision_result_unfailed :
    (exec : Option SagaExecution)
    → ((x : SagaExecution) → exec ≡ some x → x.status ≢ failed)
    → provision_result (ok exec) ≡ ok tt
unfolding provision_result
provision_result_unfailed none h = refl
provision_result_unfailed (some exec) h =
    rw (is_failed_of_ne exec.status (h exec refl), provision_result) refl

module _ {B C : Type 0} (b : Bucket B) (t : TimeText) (stub : Stub C) (self_url : Text) where
  begin-env :
      (env : Environment) (s : Store B) (c : C) (saga_id : Text)
      → (begin b t stub self_url env s c).result ≡ ok saga_id
      → (begin b t stub self_url env s c).env ≡ Store.stamp b t (record env { saga_id = saga_id }) s
  unfolding begin Store.put
  begin-env env s c saga_id h = ground arith

  pub provision_failed :
      (between : Store B → Store B) (env : Environment) (s : Store B) (c : C) (saga_id : Text)
      (e : Error)
      → (begin b t stub self_url env s c).result ≡ ok saga_id
      → provision_result
          (start_env_saga stub self_url saga_id (begin b t stub self_url env s c).conductor).0
        ≡ err e
      → provision b t stub self_url between env s c ≡ (
        (Store.put b t
            (give_up (begin b t stub self_url env s c).env)
            (between (begin b t stub self_url env s c).store)).2,
        some failure,
      )
  unfolding provision conclude
  provision_failed between env s c saga_id e begun ended = rw (begun, ended) refl

  get-give_up :
      IsBucket b
      → (env : Environment) (s s' : Store B)
      → (Store.put b t (give_up (Store.stamp b t env s)) s').0 ≡ ok tt
      → (Store.get b t env.id (Store.put b t (give_up (Store.stamp b t env s)) s').2).0
        ≡ ok (record env { status = status_failed; updated_at = s'.now })
  get-give_up laws env s s' saved = rw (get-put b t laws _ s' env.id saved, text_eq_refl) refl

  -- If StartSaga fails, or the saga ends as FAILED, and the last Put succeeds, then the store holds for
  -- the environment what the goroutine had in memory since before the saga: the environment as it was
  -- created, with the saga's id and the status failed. This does not depend on what the steps of the
  -- saga saved in between.
  pub failed_provision_overwrites :
      IsBucket b
      → (between : Store B → Store B) (env : Environment) (s : Store B) (c : C) (saga_id : Text)
        (e : Error)
      → (begin b t stub self_url env s c).result ≡ ok saga_id
      → provision_result
          (start_env_saga stub self_url saga_id (begin b t stub self_url env s c).conductor).0
        ≡ err e
      → (Store.put b t
          (give_up (begin b t stub self_url env s c).env)
          (between (begin b t stub self_url env s c).store)).0
        ≡ ok tt
      → (Store.get b t env.id (provision b t stub self_url between env s c).0).0
        ≡ ok (record env {
          saga_id = saga_id;
          status = status_failed;
          updated_at = (between (begin b t stub self_url env s c).store).now;
        })
  failed_provision_overwrites laws between env s c saga_id e begun ended saved =
      rw (provision_failed between env s c saga_id e begun ended, begin-env env s c saga_id begun)
        (get-give_up laws (record env { saga_id = saga_id }) s _
          (rw (begin-env env s c saga_id begun) at saved))

  -- If the saga ends in any state but FAILED, or StartSaga returns no execution, then the goroutine
  -- writes nothing more to the store and counts a success.
  pub unfailed_provision_counts_success :
      (between : Store B → Store B) (env : Environment) (s : Store B) (c : C) (saga_id : Text)
      (exec : Option SagaExecution)
      → (begin b t stub self_url env s c).result ≡ ok saga_id
      → (start_env_saga stub self_url saga_id (begin b t stub self_url env s c).conductor).0
        ≡ ok exec
      → ((x : SagaExecution) → exec ≡ some x → x.status ≢ failed)
      → provision b t stub self_url between env s c
        ≡ (between (begin b t stub self_url env s c).store, some success)
  unfolding provision conclude
  unfailed_provision_counts_success between env s c saga_id exec begun ended h =
      rw (begun, ended, provision_result_unfailed exec h) refl
