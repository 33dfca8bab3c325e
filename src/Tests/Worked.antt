-- ===== src/Tests/Worked.antt =====
-- The theorems on the steps, the worker and the saga's definition at concrete inputs.
use mathlib.Core.Option
use env_forge.Prelude.{text_eq, slice_to, is_empty, ◌≡◌, ◌≢◌, refl, false, [], some, none, lit, map}
use env_forge.Go.{ok}
use env_forge.Action.Post.{IsSaved}
use env_forge.Steps.All.{vpc, health, step_of, all_kinds, build_steps, without, name_of}
use env_forge.Steps.Frame.{IsWithin}
use env_forge.Steps.Frame.Every.{step-IsWithin}
use env_forge.Steps.Dry.{IsDry, step-IsDry}
use mathlib.Core.List.{List, ◌∷◌}
use env_forge.Cloud.{DbInstance, describe_db_instances, rand_read}
use env_forge.Steps.Rds
use env_forge.Steps.Rds.{first_available}
use env_forge.Steps.Rds.Recovery.{IsGrown, polled, asked, pending-creates}
use env_forge.Steps.Saved.{execute-IsSaved}
use env_forge.Worker.{Worker, handle, with_env, dispatch, forward, run, routes, find_step}
use env_forge.Worker.Idempotence.{done, forward_idempotent}
use env_forge.Conductor.{build_step_defs}
use env_forge.Conductor.Routes.{requests, served, build_step_defs-routes}
use env_forge.Tests.Memory.{Memory, memory}
use env_forge.Environment.Json.{marshal, unmarshal, decode_members, assign_key, field_of}
use env_forge.Action.{actions, Run}
use env_forge.Steps.Vpc
use env_forge.Environment.Store
use env_forge.Environment.Store.{Store, client}
use env_forge.Tests.Samples.{
  planned, local, local-IsStateClient, services, options, rehearsed, one_stored, two_stored, clock,
  run_planned, run_rehearsed,
}

step-IsWithin_example :
    IsWithin local
      (without vpc)
      run_planned
      ((step_of options services local vpc).execute run_planned).1
    × IsWithin local
        (without vpc)
        run_planned
        ((step_of options services local vpc).compensate run_planned).1
step-IsWithin_example = step-IsWithin options services local local-IsStateClient vpc run_planned

vpc-ne : vpc ≢ health
vpc-ne h = cc h

vpc_made : ((step_of options services local vpc).execute run_planned).0 ≡ ok tt
unfolding step_of name_of actions Vpc.execute Vpc.provision Vpc.simulate Vpc.make_vpc
    Vpc.make_subnet Vpc.make_group local client Store.put marshal Option.bind clock memory services
    slice_to lit
vpc_made = refl

execute-IsSaved_example : IsSaved local ((step_of options services local vpc).execute run_planned).1
execute-IsSaved_example =
    execute-IsSaved options services local local-IsStateClient vpc run_planned vpc-ne vpc_made

abbrev worker : Worker (Store Memory)
worker = record { db = two_stored; calls = []; observed = [] }

abbrev at_rest : Worker (Store Memory)
at_rest =
    (handle local (build_steps options services local) (name_of vpc) false
      (some (lit "0a1b9999-78")) worker).1

found : (local.get (lit "0a1b9999-78") two_stored).0 ≡ ok (record rehearsed { updated_at = 5 })
unfolding local client Store.get unmarshal decode_members assign_key two_stored one_stored Store.put
    marshal Option.bind clock memory lit text_eq field_of env_forge.Environment.Json.tag
    env_forge.Environment.Json.assign
found = refl

answered :
    (handle local
      (build_steps options services local)
      (name_of vpc)
      false
      (some (lit "0a1b9999-78"))
      worker).0
    ≡ some done
unfolding step_of name_of actions Vpc.execute Vpc.provision Vpc.simulate Vpc.make_vpc
    Vpc.make_subnet Vpc.make_group local client Store.put marshal Option.bind clock memory services
    slice_to lit handle with_env find_step build_steps dispatch forward run Vpc.is_already_done
    Store.get unmarshal decode_members assign_key text_eq field_of two_stored one_stored
    env_forge.Environment.Json.tag env_forge.Environment.Json.assign
answered = refl

forward_idempotent_example :
    handle local
      (build_steps options services local)
      (name_of vpc)
      false
      (some (lit "0a1b9999-78"))
      at_rest
    ≡ (some done, at_rest)
forward_idempotent_example =
    forward_idempotent options services local local-IsStateClient vpc (lit "0a1b9999-78")
      (record rehearsed { updated_at = 5 }) worker vpc-ne found refl refl answered

build_step_defs-routes_example :
    (requests (build_step_defs (lit "http://worker"))
      ≡ map (served (lit "http://worker")) (routes (build_steps options services local)))
    × (map
          (λ d. find_step d.name (build_steps options services local))
          (build_step_defs (lit "http://worker"))
        ≡ map (λ k. some (step_of options services local k)) all_kinds)
build_step_defs-routes_example = build_step_defs-routes options services local (lit "http://worker")

step-IsDry_example :
    IsDry run_rehearsed ((step_of options services local vpc).execute run_rehearsed).1
    × IsDry run_rehearsed ((step_of options services local vpc).compensate run_rehearsed).1
step-IsDry_example = step-IsDry options services local refl vpc run_rehearsed refl

abbrev interrupted : Run (Store Memory)
interrupted = record run_planned {
  env = record planned { rds_instance_id = lit "env-forge-0a1b2c3d" };
}

abbrev in_the_making : List DbInstance
in_the_making = record { status = some (lit "creating"); endpoint = none } ∷ []

named : is_empty interrupted.env.rds_instance_id ≡ false
unfolding lit
named = refl

described :
    services interrupted.calls (describe_db_instances interrupted.env.rds_instance_id)
    ≡ ok in_the_making
unfolding services
described = refl

pending : first_available in_the_making ≡ false
unfolding text_eq lit
pending = refl

sliced : slice_to interrupted.env.id 8 ≡ some (lit "0a1b2c3d")
unfolding slice_to lit
sliced = refl

random :
    services (polled services local interrupted).calls (rand_read 16) ≡ ok (lit "0123456789abcdef")
unfolding services
random = refl

pending-creates_example :
    (Rds.is_already_done services interrupted ≡ (ok false, polled services local interrupted))
    × IsGrown
        (asked services local
          (polled services local interrupted)
          (lit "0a1b2c3d")
          (lit "0123456789abcdef"))
        (Rds.execute services local (polled services local interrupted)).1
pending-creates_example =
    pending-creates services local interrupted in_the_making (lit "0a1b2c3d")
      (lit "0123456789abcdef") refl named described pending sliced random
