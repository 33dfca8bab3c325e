-- ===== src/Tests/Pipeline.antt =====
-- The theorems on whole sagas of a dry run, at concrete inputs.
use mathlib.Core.Option
use mathlib.Core.List.{Memᴰ}
use env_forge.Prelude.{
  ◌≡◌, ◌≢◌, refl, true, false, List, [], ◌∷◌, some, lit, map, slice_to, text_eq, is_empty,
}
use env_forge.Environment.{Environment, status_ready}
use env_forge.Environment.Origin.{origin}
use env_forge.Environment.Json.{marshal, unmarshal, decode_members, assign_key, field_of}
use env_forge.Environment.Store
use env_forge.Environment.Store.{Store, client}
use env_forge.Go.{ok, err, other}
use env_forge.Cloud.{Call, Oracle, mkdir_all, write_file, remove_file}
use env_forge.Action.{drop_answer, actions}
use env_forge.Steps.All.{Kind, vpc, rds, ec2, health, name_of, step_of, build_steps, all_kinds}
use env_forge.Steps.Done.{is_done}
use env_forge.Steps.Dry.{is_local}
use env_forge.Steps.Live.{HasShort}
use env_forge.Steps.Resaved.{Settled, compensate-Settled}
use env_forge.Worker.{Worker, find_step, run, dispatch, with_env, handle}
use env_forge.Worker.Renewed.{executing, compensate-executing}
use env_forge.Worker.Idempotence.{done}
use env_forge.Worker.Rollback.{undo_all, undo_all-undone}
use env_forge.Worker.Pipeline.{send_all, send_all-ready}
use env_forge.Tests.Memory.{Memory, memory}
use env_forge.Tests.Samples.{
  local, local-IsStateClient, options, rehearsed, one_stored, two_stored, clock, run_rehearsed,
}

-- services of which only the machine's own files answer
unfoldable pub disk : Oracle
disk before (mkdir_all dir) = ok tt
disk before (write_file path content) = ok tt
disk before (remove_file path) = ok tt
disk before _ = err (other (lit "unavailable"))

pub files :
    (before : List Call) (x : Call) → is_local x ≡ true → drop_answer (disk before x) ≡ ok tt
unfolding disk
files before (mkdir_all dir) h = refl
files before (write_file path content) h = refl
files before (remove_file path) h = refl
files before _ h = absurd (cc h)

stores : (e : Environment) (d : Store Memory) → (local.put e d).0 ≡ ok tt
unfolding local client Store.put marshal Option.bind clock memory
stores e d = refl

short_rehearsed : HasShort rehearsed
unfolding slice_to lit
short_rehearsed = (lit "0a1b9999", refl)

undone : ((step_of options disk local vpc).compensate run_rehearsed).0 ≡ ok tt
unfolding step_of env_forge.Steps.Vpc.compensate actions local client Store.put marshal Option.bind
    clock memory
undone = refl

compensate-Settled_example :
    Settled options disk local local-IsStateClient run_rehearsed
      ((step_of options disk local vpc).compensate run_rehearsed).1
compensate-Settled_example =
    compensate-Settled options disk local local-IsStateClient vpc run_rehearsed undone

abbrev idle : Worker (Store Memory)
idle = record { db = two_stored; calls = []; observed = [] }

found : (local.get (lit "0a1b9999-78") two_stored).0 ≡ ok (record rehearsed { updated_at = 5 })
unfolding local client Store.get unmarshal decode_members assign_key two_stored one_stored Store.put
    marshal Option.bind clock memory lit text_eq field_of env_forge.Environment.Json.tag
    env_forge.Environment.Json.assign
found = refl

send_all-ready_example :
    ((send_all options disk local all_kinds (lit "0a1b9999-78") idle).0
      ≡ map (λ _. some done) all_kinds)
    × ((final : Environment) × ((local.get
            (lit "0a1b9999-78")
            (send_all options disk local all_kinds (lit "0a1b9999-78") idle).1.db).0
          ≡ ok final)
        × (origin final ≡ origin (record rehearsed { updated_at = 5 }))
        × (final.status ≡ status_ready)
        × ((k : Kind) → k ≢ health → is_done k final ≡ true))
send_all-ready_example =
    send_all-ready options disk local local-IsStateClient stores files refl (lit "0a1b9999-78")
      (record rehearsed { updated_at = 5 }) idle found refl short_rehearsed refl refl

-- a dry run whose first three steps are done
abbrev halfway : Environment
halfway = record rehearsed {
  vpc_id = lit "vpc-dryrun";
  rds_instance_id = lit "db-dryrun";
  ec2_instance_id = lit "i-dryrun";
}

unfoldable half_stored : Store Memory
half_stored = (Store.put memory clock halfway two_stored).2

abbrev failing : Worker (Store Memory)
failing = record { db = half_stored; calls = []; observed = [] }

half_found : (local.get (lit "0a1b9999-78") half_stored).0 ≡ ok (record halfway { updated_at = 5 })
unfolding local client Store.get unmarshal decode_members assign_key half_stored two_stored
    one_stored Store.put marshal Option.bind clock memory lit text_eq field_of
    env_forge.Environment.Json.tag env_forge.Environment.Json.assign
half_found = refl

undo_all-undone_example :
    ((undo_all options disk local (ec2 ∷ rds ∷ vpc ∷ []) (lit "0a1b9999-78") failing).0
      ≡ map (λ _. some done) (ec2 ∷ rds ∷ vpc ∷ []))
    × ((final : Environment) × ((local.get
            (lit "0a1b9999-78")
            (undo_all options disk local (ec2 ∷ rds ∷ vpc ∷ []) (lit "0a1b9999-78") failing).1.db).0
          ≡ ok final)
        × (origin final ≡ origin (record halfway { updated_at = 5 }))
        × ((k : Kind) → Memᴰ k (ec2 ∷ rds ∷ vpc ∷ []) → is_done k final ≡ false))
undo_all-undone_example =
    undo_all-undone options disk local local-IsStateClient stores files refl (ec2 ∷ rds ∷ vpc ∷ [])
      (lit "0a1b9999-78") (record halfway { updated_at = 5 }) failing half_found refl
      short_rehearsed refl

torn_down :
    (handle local
      (build_steps options disk local)
      (name_of vpc)
      true
      (some (lit "0a1b9999-78"))
      failing).0
    ≡ some done
unfolding handle with_env find_step build_steps name_of dispatch run step_of
    env_forge.Steps.Vpc.compensate actions local client Store.put Store.get marshal Option.bind
    clock memory unmarshal decode_members assign_key half_stored two_stored one_stored lit text_eq
    field_of env_forge.Environment.Json.tag env_forge.Environment.Json.assign
torn_down = refl

full_id : is_empty (lit "0a1b9999-78") ≡ false
unfolding lit
full_id = refl

abbrev after_undo : Worker (Store Memory)
after_undo =
    (handle local (build_steps options disk local) (name_of vpc) true (some (lit "0a1b9999-78"))
      failing).1

compensate-executing_example :
    (stored : Environment) × ((local.get (lit "0a1b9999-78") after_undo.db).0 ≡ ok stored)
    × (origin stored ≡ origin (record halfway { updated_at = 5 }))
    × (handle local
          (build_steps options disk local)
          (name_of vpc)
          false
          (some (lit "0a1b9999-78"))
          after_undo
        ≡ executing options disk local vpc stored after_undo)
compensate-executing_example =
    compensate-executing options disk local local-IsStateClient vpc (lit "0a1b9999-78")
      (record halfway { updated_at = 5 }) failing full_id half_found refl torn_down
