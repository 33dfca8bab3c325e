-- ===== src/Tests/Interleaved.antt =====
-- The theorems on forge-api and forge-worker together, at concrete inputs.
use mathlib.Core.Option
use env_forge.Prelude.{
  ◌≡◌, ◌≢◌, refl, ap, ◌==◌, if◌then◌else◌, arith, ℕ, ◌+◌, ◌≤◌, true, false, List, [], ◌∷◌, ◌++◌,
  Option, none, some, Text, lit, text_eq, slice_to, is_empty, All,
}
use env_forge.Environment.{Environment, status_failed}
use env_forge.Environment.Json.{Json, marshal, unmarshal, decode_members, assign_key, field_of}
use env_forge.Environment.Origin.{origin}
use env_forge.Environment.Store
use env_forge.Environment.Store.{Store, stamp}
use env_forge.Environment.Store.Origins.{IsOwned}
use env_forge.Go.{Error, ok, err, not_found, other}
use env_forge.Go.Format.{quote}
use env_forge.Action.{StateClient}
use env_forge.Steps.All.{vpc, build_steps, name_of}
use env_forge.Steps.Frame.Recorded.{Recording, recorded, Stamps}
use env_forge.Worker.{Response, Worker, handle}
use env_forge.Worker.Cascade.{expected, IsUndone}
use env_forge.System.RolledBack.{cascaded, create-rolled_back}
use env_forge.Worker.Recorded.{handle-Puts}
use env_forge.Conductor.{SagaExecution, completed, failed, create_env_saga, start_env_saga}
use env_forge.Api.{CreateRequest, new_env, handle_create_env}
use env_forge.Api.Provision.{success, failure, provision_result, begin, provision}
use env_forge.Api.Internal.{Verifier}
use env_forge.System.{wait, System, spawned, opened, after_create, begun, create, start, Reach}
use env_forge.Api.Lifecycle.{
  Lifecycle, draining, returned, listening, accept, cancel, shut, drain, spawn, Runs, here, next,
}
use env_forge.Api.Lifecycle.Drained.{Passes, Runs-drained, Runs-late}
use env_forge.System.Requests.{Fate, carried, reply_lost, Busy, IsMeanwhile}
use env_forge.System.Handled.{over_http, handle-Reach}
use env_forge.System.Reached.{Reach-stored}
use env_forge.System.Ready.{worked, fresh, IsReadyFor, create-ready}
use env_forge.Tests.Memory.{Memory, memory, memory-IsBucket}
use env_forge.Tests.Samples.{
  clock, empty_store, two_stored, local, local-IsStateClient, options, verifier, conductor,
}
use env_forge.Tests.Pipeline.{disk, files}
use env_forge.Tests.Served.{reads, writes, sent, formats}

abbrev busy : Worker (Recording (Store Memory))
busy = record { db = (two_stored, []); calls = []; observed = [] }

stamps : Stamps local
stamps = local-IsStateClient.stamps

handle-Puts_example :
    (added : List Environment) × ((handle
        (recorded local)
        (build_steps options disk (recorded local))
        (name_of vpc)
        false
        (some (lit "0a1b9999-78"))
        busy).1.db.1
      ≡ [] ++ added)
    × All
        (λ x.
          (env_id : Text) × (read : Environment) × (◌≡◌ {A = Option Text}
            (some (lit "0a1b9999-78"))
            (some env_id))
          × ((local.get env_id two_stored).0 ≡ ok read)
          × (origin x ≡ origin read))
        added
handle-Puts_example =
    handle-Puts options disk local stamps vpc false (some (lit "0a1b9999-78")) busy

abbrev asked : CreateRequest
asked = record { owner = lit "spiffe://test/dev"; dry_run = true; fail_at_health = false }

abbrev new_id : Text
new_id = lit "0a1b9999-78"

abbrev before : System Memory ℕ
before = opened empty_store 0

free : (Store.get memory clock new_id empty_store).0 ≡ err not_found
unfolding Store.get memory
free = refl

abbrev requested : System Memory ℕ
requested =
    after_create memory clock (conductor completed) (lit "http://worker")
      (handle_create_env memory clock (some asked) new_id empty_store) before

abbrev asked_for : Environment
asked_for = fresh memory clock asked new_id empty_store

abbrev started : System Memory ℕ
started =
    begun memory clock (conductor completed) (lit "http://worker")
      (begin memory clock (conductor completed) (lit "http://worker") asked_for requested.store
        requested.conductor).result
      (begin memory clock (conductor completed) (lit "http://worker") asked_for requested.store
        requested.conductor)
      [] [] requested

waiting : requested.tasks ≡ [] ++ (spawned asked_for ∷ [])
unfolding handle_create_env Store.put marshal Option.bind clock memory lit
waiting = refl

none_stored : IsOwned memory clock empty_store
unfolding Store.get memory
none_stored k e h = cc

asked-stored : (Store.get memory clock new_id requested.store).0 ≡ ok asked_for
unfolding handle_create_env Store.put Store.get marshal Option.bind clock memory lit unmarshal
    decode_members assign_key field_of text_eq env_forge.Environment.Json.tag
    env_forge.Environment.Json.assign
asked-stored = refl

Reach-stored_example :
    (asked_for.id ≡ new_id)
    × (is_empty asked_for.owner ≡ false)
    × ((later : Environment) × ((Store.get memory clock new_id started.store).0 ≡ ok later)
        × (origin later ≡ origin asked_for))
Reach-stored_example =
    Reach-stored memory clock memory-IsBucket (conductor completed) (lit "http://worker")
      (some verifier) empty_store 0 requested started none_stored
      (Reach.next Reach.here (create (some asked) new_id free))
      (Reach.next Reach.here (start [] [] asked_for waiting)) new_id asked_for asked-stored

fits : (db : Memory) (k : Text) (j : Json) → (db' : Memory) × (memory.put db k j ≡ ok db')
unfolding memory
fits db k j = ((k, j) ∷ db, refl)

abbrev ended_well : SagaExecution
ended_well = record {
  id = lit "saga-1";
  status = completed;
  failed_step = lit "health";
  created_at = none;
  steps = [];
}

made :
    (create_env_saga (conductor completed) (lit "http://worker") asked_for 0).0 ≡ ok (lit "saga-1")
unfolding create_env_saga slice_to lit
made = refl

came_back :
    (start_env_saga
      (conductor completed)
      (lit "http://worker")
      (lit "saga-1")
      (create_env_saga (conductor completed) (lit "http://worker") asked_for 0).1).0
    ≡ ok (some ended_well)
unfolding start_env_saga
came_back = refl

not_failed :
    (x : SagaExecution)
    → ◌≡◌ {A = Option SagaExecution} (some ended_well) (some x)
    → x.status ≢ failed
not_failed x h same = cc (h, same)

abbrev at_work : Worker (Store Memory)
at_work = record { db = empty_store; calls = []; observed = [] }

cut : slice_to new_id 8 ≡ some (lit "0a1b9999")
unfolding slice_to lit
cut = refl

full : is_empty asked.owner ≡ false
unfolding lit
full = refl

create-ready_example :
    ((handle_create_env memory clock (some asked) new_id empty_store).response.code ≡ 202)
    × ((handle_create_env memory clock (some asked) new_id empty_store).spawned ≡ some asked_for)
    × (let ended =
          provision memory clock
            (conductor completed)
            (lit "http://worker")
            (worked memory clock (some verifier) options disk (some (ok (lit "rw"))) new_id at_work)
            asked_for
            (handle_create_env memory clock (some asked) new_id empty_store).store
            0 in
        (ended.1 ≡ some success)
        × IsReadyFor memory clock (new_env asked new_id empty_store.now) ended.0)
create-ready_example =
    create-ready memory clock memory-IsBucket (some verifier) options disk (conductor completed)
      (lit "http://worker") formats fits (some (ok (lit "rw"))) (some (lit "Bearer rw")) sent reads
      writes files refl asked new_id (lit "0a1b9999") empty_store 0 at_work (lit "saga-1")
      (some ended_well) full refl refl cut made came_back not_failed

-- the same request with the flag that fails the health step
abbrev to_fail : CreateRequest
to_fail = record asked { fail_at_health = true }

abbrev doomed : Environment
doomed = fresh memory clock to_fail new_id empty_store

made_too : (create_env_saga (conductor failed) (lit "http://worker") doomed 0).0 ≡ ok (lit "saga-1")
unfolding create_env_saga slice_to lit
made_too = refl

abbrev saga_error : Error
saga_error =
    other (lit "saga failed: step " ++ quote (lit "health") ++ lit " failed, compensation complete")

came_back_failed :
    provision_result
      (start_env_saga
        (conductor failed)
        (lit "http://worker")
        (lit "saga-1")
        (create_env_saga (conductor failed) (lit "http://worker") doomed 0).1).0
    ≡ err saga_error
unfolding start_env_saga provision_result
came_back_failed = refl

abbrev cascaded_from :
    Store Memory
    → (List (Option Response) × Option Response × List (Option Response)) × Worker (Store Memory)
cascaded_from =
    cascaded memory clock (some verifier) options disk (some (ok (lit "rw"))) new_id at_work

create-rolled_back_example :
    (let r = handle_create_env memory clock (some to_fail) new_id empty_store in
      let over =
        cascaded_from
          (begin memory clock (conductor failed) (lit "http://worker") doomed r.store 0).store in
      let ended =
        provision memory clock
          (conductor failed)
          (lit "http://worker")
          (λ u. (cascaded_from u).1.db)
          doomed
          r.store
          0 in
      (r.response.code ≡ 202)
      × (r.spawned ≡ some doomed)
      × (over.0 ≡ expected)
      × ((undone : Environment) × ((Store.get memory clock new_id over.1.db).0 ≡ ok undone)
          × (origin undone ≡ origin doomed)
          × IsUndone undone)
      × (ended.1 ≡ some failure)
      × ((Store.get memory clock new_id ended.0).0
          ≡ ok (record doomed {
            saga_id = lit "saga-1";
            status = status_failed;
            updated_at = over.1.db.now;
          })))
create-rolled_back_example =
    create-rolled_back memory clock memory-IsBucket (some verifier) options disk (conductor failed)
      (lit "http://worker") formats fits (some (ok (lit "rw"))) (some (lit "Bearer rw")) sent reads
      writes files refl to_fail new_id (lit "0a1b9999") empty_store 0 at_work (lit "saga-1")
      saga_error full refl refl cut made_too came_back_failed

-- a request comes in while forge-api serves, and its goroutine starts after ListenAndServe is back
abbrev stopped : ℕ → ℕ → Lifecycle
stopped handled running = record {
  phase = returned (ok tt);
  cancelled = true;
  handled = handled;
  running = running;
}

course : Runs listening (stopped 0 1)
course =
    next
      (next (next (next (next here (accept refl refl)) (cancel refl)) (shut refl refl refl))
        (drain refl refl refl))
      (spawn 0 refl refl)

Runs-drained_example :
    (at : Lifecycle) × Passes course at (record at { phase = returned (ok tt) })
    × (at.phase ≡ draining)
    × (at.cancelled ≡ true)
    × (at.running ≡ 0)
    × (1 + 0 ≤ at.handled)
Runs-drained_example = Runs-drained (stopped 0 1) course refl

Runs-late_example :
    (u : Lifecycle) × Runs listening u × (u.phase ≡ returned (ok tt)) × (u.running ≡ 3)
Runs-late_example = Runs-late 3

-- meanwhile the clock goes on
abbrev ticking : ℕ → System Memory ℕ → System Memory ℕ
ticking n s = record s { store = record s.store { now = n + 9 } }

meanwhile :
    IsMeanwhile memory clock (conductor completed) (lit "http://worker") (some verifier) ticking
meanwhile = record { others = λ n s. Reach.next Reach.here (wait (n + 9)); kept = λ n s x m. m }

-- the reply to the first put is lost
abbrev fates : ℕ → Fate
fates n = if n == 1 then reply_lost (other (lit "EOF")) else carried

is_verifier :
    (k : Verifier Text) → ◌≡◌ {A = Option (Verifier Text)} (some verifier) (some k) → verifier ≡ k
is_verifier k h = cc

denied_code : verifier.denied.code ≡ 401
unfolding verifier
denied_code = refl

denies :
    (k : Verifier Text)
    → ◌≡◌ {A = Option (Verifier Text)} (some verifier) (some k)
    → k.denied.code ≢ 200
denies k h same =
    let e = ap (λ (z : Verifier Text). z.denied.code) (is_verifier k h) in
    omega (arith, denied_code, e, same)

abbrev over : StateClient (Busy Memory ℕ)
over =
    over_http memory clock (conductor completed) (lit "http://worker") (some verifier) ticking fates
      meanwhile denies (some (ok (lit "rw")))

abbrev in_service : Worker (Busy Memory ℕ)
in_service = record { db = (0, started); calls = []; observed = [] }

handle-Reach_example :
    Reach memory clock
      (conductor completed)
      (lit "http://worker")
      (some verifier)
      started
      (handle over
        (build_steps options disk over)
        (name_of vpc)
        false
        (some new_id)
        in_service).1.db.1
handle-Reach_example =
    handle-Reach memory clock (conductor completed) (lit "http://worker") (some verifier) ticking
      fates meanwhile denies (some (ok (lit "rw"))) options disk vpc false (some new_id) in_service
