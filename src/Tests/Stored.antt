-- ===== src/Tests/Stored.antt =====
-- The theorems on the store at concrete inputs.
use mathlib.Core.Option
use mathlib.Core.List.{Memᴰ}
use env_forge.Prelude.{◌≡◌, refl, ◌↔◌, ◌⊎◌, List, [], ◌∷◌, Text, lit, text_eq, none, some}
use env_forge.Environment.{Environment, status_provisioning}
use env_forge.Environment.Json.{TimeText, Json, null, marshal, unmarshal}
use env_forge.Environment.Json.RoundTrip.{unmarshal-marshal}
use env_forge.Environment.Store
use env_forge.Environment.Store.{Bucket, IsBucket, Store}
use env_forge.Environment.Store.History.{
  Op, put, get, delete, wait, view, replay, run, run-eq-replay,
}
use env_forge.Environment.Store.Listing.{mem-list_iff}
use env_forge.Go.{ok}
use env_forge.Tests.Memory.{memory, memory-IsBucket}
use env_forge.Tests.Samples.{clock, planned, rehearsed, one_stored, two_stored}

abbrev planned_json : Json
unfolding marshal clock
planned_json = elim (marshal clock planned) [ none ↦ null | some j ↦ j ]

planned-marshal : marshal clock planned ≡ some planned_json
unfolding marshal mathlib.Core.Option.bind clock
planned-marshal = refl

unmarshal-marshal_example : unmarshal clock planned_json ≡ some planned
unmarshal-marshal_example = unmarshal-marshal clock planned planned_json planned-marshal

-- an environment is put, time goes on, it is read and put again, and another one is deleted
abbrev calls : List Op
calls =
    put rehearsed
    ∷ wait 9
    ∷ get (lit "0a1b9999-78")
    ∷ put (record rehearsed { vpc_id = lit "vpc-1" })
    ∷ delete (lit "0a1b2c3d-77")
    ∷ []

run-eq-replay_example :
    view memory clock (run memory clock calls one_stored).1
    ≡ replay calls
        (run memory clock calls one_stored).0
        one_stored.now
        (view memory clock one_stored)
run-eq-replay_example = run-eq-replay memory clock memory-IsBucket calls one_stored

abbrev pub both : List Environment
both = record rehearsed { updated_at = 5 } ∷ record planned { updated_at = 5 } ∷ []

pub both-listed : Store.list memory clock status_provisioning two_stored ≡ ok both
unfolding Store.list Store.collect memory two_stored Store.put marshal mathlib.Core.Option.bind
    clock unmarshal env_forge.Environment.Json.decode_members env_forge.Environment.Json.assign_key
    env_forge.Environment.Json.field_of text_eq env_forge.Environment.Json.tag lit
    env_forge.Environment.Json.assign
both-listed = refl

mem-list_iff_example : Memᴰ (record planned { updated_at = 5 }) both ↔ (
    (k : Text) × ((Store.get memory clock k two_stored).0 ≡ ok (record planned { updated_at = 5 }))
    × ((status_provisioning ≡ [])
        ⊎ ((record planned { updated_at = 5 }).status ≡ status_provisioning)))
mem-list_iff_example =
    mem-list_iff memory clock memory-IsBucket status_provisioning two_stored both
      (record planned { updated_at = 5 }) both-listed
