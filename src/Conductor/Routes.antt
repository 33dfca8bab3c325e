-- ===== src/Conductor/Routes.antt =====
-- The saga that conductor/client.go defines, against the routes and the steps of forge-worker.
use env_forge.Prelude.{
  ◌≡◌, refl, ◌++◌, List, [], ◌∷◌, Bool, true, false, some, Text, lit, text_eq, map,
}
use env_forge.Cloud.{Oracle}
use env_forge.Action.{StateClient}
use env_forge.Conductor.{StepDefinition, specs, build_step_defs}
use env_forge.Steps.All.{Options, name_of, step_of, all_kinds, build_steps}
use env_forge.Worker.{Route, routes, find_step}

-- the requests that saga-conductor sends for the steps of a saga: a URL, and what it is to run there
abbrev pub requests : List StepDefinition → List (Text × Text × Bool)
requests [] = []
requests (d ∷ ds) = (d.forward_url, d.name, false) ∷ (d.compensate_url, d.name, true) ∷ requests ds

abbrev pub served : Text → Route → Text × Text × Bool
served self_url r = (self_url ++ r.path, r.step, r.compensate)

module _ {D : Type 0} (p : Options) (o : Oracle) (c : StateClient D) where
  -- The URLs that the saga's definition names are those that the worker serves, step by step in the
  -- order of buildSteps: each runs there the step of that name, in that direction, and the worker
  -- finds under the names of the definition the steps of buildSteps.
  pub build_step_defs-routes :
      (self_url : Text)
      → (requests (build_step_defs self_url) ≡ map (served self_url) (routes (build_steps p o c)))
        × (map (λ d. find_step d.name (build_steps p o c)) (build_step_defs self_url)
            ≡ map (λ k. some (step_of p o c k)) all_kinds)
  unfolding build_step_defs specs find_step build_steps routes lit step_of name_of text_eq
  build_step_defs-routes self_url = (refl, refl)
