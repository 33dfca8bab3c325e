-- ===== src/Tests/Served.antt =====
-- The theorems on forge-api and the worker's client at concrete inputs.
use mathlib.Core.Option
use mathlib.Core.List.{List, [], ◌∷◌}
use env_forge.Prelude.{
  ◌≡◌, ◌≢◌, refl, ℕ, true, ◌⊎◌, Option, Text, lit, text_eq, slice_to, some, none,
}
use env_forge.Environment.{Environment, status_failed}
use env_forge.Environment.Json.{marshal, unmarshal, decode_members, assign_key, field_of}
use env_forge.Environment.Store
use env_forge.Environment.Store.{Store}
use env_forge.Go.{Error, Result, ok, err, other, not_found}
use env_forge.Action.{IsStateClient}
use env_forge.Conductor.{
  SagaExecution, failed, compensation_failed, create_env_saga, start_env_saga,
}
use env_forge.Api.{find_by_prefix}
use env_forge.Api.Prefix.{Continues, find_by_prefix_lem}
use env_forge.Api.Internal.{
  authorize, may_read, may_write, env_read, env_write, handle_internal_put,
}
use env_forge.Api.Internal.Scopes.{handle_internal_put-changes}
use env_forge.Api.Provision.{success, give_up, provision_result, begin, provision}
use env_forge.Api.Provision.Ending.{failed_provision_overwrites, unfailed_provision_counts_success}
use env_forge.Remote.{auth_header, client}
use env_forge.Remote.Refines.{direct, remote-IsStateClient}
use env_forge.Tests.Memory.{Memory, memory, memory-IsBucket}
use env_forge.Tests.Samples.{
  clock, planned, rehearsed, empty_store, one_stored, two_stored, verifier, conductor,
}

abbrev both : List Environment
both = record rehearsed { updated_at = 5 } ∷ record planned { updated_at = 5 } ∷ []

both-listed : Store.list memory clock [] two_stored ≡ ok both
unfolding Store.list Store.collect unmarshal decode_members assign_key field_of two_stored
    one_stored Store.put marshal Option.bind clock memory lit text_eq env_forge.Environment.Json.tag
    env_forge.Environment.Json.assign
both-listed = refl

find_by_prefix_lem_example :
    ((e : Environment) × (find_by_prefix memory clock (lit "0a1b2") two_stored ≡ ok e)
      × Continues (lit "0a1b2") e.id
      × ((k : Text) × ((Store.get memory clock k two_stored).0 ≡ ok e)))
    ⊎ ((find_by_prefix memory clock (lit "0a1b2") two_stored ≡ err not_found)
        × ((k : Text) (e : Environment)
            → (Store.get memory clock k two_stored).0 ≡ ok e
            → ¬ Continues (lit "0a1b2") e.id))
find_by_prefix_lem_example =
    find_by_prefix_lem memory clock memory-IsBucket (lit "0a1b2") two_stored both both-listed

changes :
    (handle_internal_put memory clock
      (some verifier)
      (some (lit "Bearer rw"))
      (some rehearsed)
      one_stored).1
    ≢ one_stored
unfolding handle_internal_put authorize verifier lit text_eq Store.put marshal Option.bind clock
    memory one_stored
changes h = cc h

handle_internal_put-changes_example :
    ((k : Text) × (verifier.claims (some (lit "Bearer rw")) ≡ some k)
      × (verifier.has_all_scopes k (lit "env:read" ∷ lit "env:write" ∷ []) ≡ true))
    × ((x : Environment) × (◌≡◌ {A = Option Environment} (some rehearsed) (some x))
        × ((handle_internal_put memory clock
              (some verifier)
              (some (lit "Bearer rw"))
              (some rehearsed)
              one_stored).1
            ≡ (Store.put memory clock x one_stored).2))
handle_internal_put-changes_example =
    handle_internal_put-changes memory clock verifier (some (lit "Bearer rw")) (some rehearsed)
      one_stored changes

-- while the saga runs, the vpc step saves the id of a network
unfoldable saved_meanwhile : Store Memory → Store Memory
saved_meanwhile s = record (Store.put memory clock (record planned { vpc_id = lit "vpc-1" }) s).2 {
  now = 9;
}

begun :
    (begin memory clock (conductor failed) (lit "http://worker") planned empty_store 0).result
    ≡ ok (lit "saga-1")
unfolding begin create_env_saga slice_to lit Store.put marshal Option.bind clock memory
begun = refl

abbrev reason : Error
reason = other (lit "saga failed: step \"health\" failed, compensation complete")

ended :
    provision_result
      (start_env_saga
        (conductor failed)
        (lit "http://worker")
        (lit "saga-1")
        (begin memory clock
          (conductor failed)
          (lit "http://worker")
          planned
          empty_store
          0).conductor).0
    ≡ err reason
unfolding provision_result start_env_saga lit env_forge.Go.Format.quote
ended = refl

overwritten :
    (Store.put memory clock
      (give_up
        (begin memory clock (conductor failed) (lit "http://worker") planned empty_store 0).env)
      (saved_meanwhile
        (begin memory clock
          (conductor failed)
          (lit "http://worker")
          planned
          empty_store
          0).store)).0
    ≡ ok tt
unfolding Store.put marshal Option.bind clock memory
overwritten = refl

failed_provision_overwrites_example :
    (Store.get memory clock planned.id
      (provision memory clock
        (conductor failed)
        (lit "http://worker")
        saved_meanwhile
        planned
        empty_store
        0).0).0
    ≡ ok (record planned {
      saga_id = lit "saga-1";
      status = status_failed;
      updated_at =
          (saved_meanwhile
            (begin memory clock
              (conductor failed)
              (lit "http://worker")
              planned
              empty_store
              0).store).now;
    })
failed_provision_overwrites_example =
    failed_provision_overwrites memory clock (conductor failed) (lit "http://worker")
      memory-IsBucket saved_meanwhile planned empty_store 0 (lit "saga-1") reason begun ended
      overwritten

abbrev half_undone : SagaExecution
half_undone = record {
  id = lit "saga-1";
  status = compensation_failed;
  failed_step = lit "health";
  created_at = none;
  steps = [];
}

begun_also :
    (begin memory clock
      (conductor compensation_failed)
      (lit "http://worker")
      planned
      empty_store
      0).result
    ≡ ok (lit "saga-1")
unfolding begin create_env_saga slice_to lit Store.put marshal Option.bind clock memory
begun_also = refl

ended_half_undone :
    (start_env_saga
      (conductor compensation_failed)
      (lit "http://worker")
      (lit "saga-1")
      (begin memory clock
        (conductor compensation_failed)
        (lit "http://worker")
        planned
        empty_store
        0).conductor).0
    ≡ ok (some half_undone)
unfolding start_env_saga
ended_half_undone = refl

not_failed :
    (x : SagaExecution)
    → ◌≡◌ {A = Option SagaExecution} (some half_undone) (some x)
    → x.status ≢ failed
not_failed x h same = cc (h, same)

unfailed_provision_counts_success_example :
    provision memory clock
      (conductor compensation_failed)
      (lit "http://worker")
      saved_meanwhile
      planned
      empty_store
      0
    ≡ (
      saved_meanwhile
          (begin memory clock
            (conductor compensation_failed)
            (lit "http://worker")
            planned
            empty_store
            0).store,
      some success,
    )
unfailed_provision_counts_success_example =
    unfailed_provision_counts_success memory clock (conductor compensation_failed)
      (lit "http://worker") saved_meanwhile planned empty_store 0 (lit "saga-1") (some half_undone)
      begun_also ended_half_undone not_failed

pub reads : authorize (some verifier) may_read env_read (some (lit "Bearer rw")) ≡ none
unfolding authorize verifier
reads = refl

pub writes : authorize (some verifier) may_write env_write (some (lit "Bearer rw")) ≡ none
unfolding authorize verifier text_eq lit
writes = refl

pub sent : auth_header (some (ok (lit "rw"))) ≡ ok (some (lit "Bearer rw"))
unfolding lit
sent = refl

pub formats : (n : ℕ) → (s : Text) × (clock.format n ≡ some s)
unfolding clock
formats n = (n ∷ [], refl)

remote-IsStateClient_example :
    IsStateClient (client clock (direct memory clock (some verifier) (some (ok (lit "rw")))))
remote-IsStateClient_example =
    remote-IsStateClient memory clock (some verifier) (some (ok (lit "rw")))
      (some (lit "Bearer rw")) sent reads writes formats memory-IsBucket
