-- ===== src/Cli/Envs/Stored.antt =====
-- list, against GET /envs of forge-api.
use mathlib.Core.Option
use env_forge.Prelude.{◌≡◌, refl, sym, ap, ◌∙◌, ℕ, List, [], ◌∷◌, map, Option, none, some, Text}
use env_forge.Environment.{Environment}
use env_forge.Environment.Json.{Json, null, arr, Items, nil, cons, TimeText, marshal, unmarshal}
use env_forge.Environment.Json.RoundTrip.{marshal_texts, unmarshal-marshal}
use env_forge.Environment.Store
use env_forge.Environment.Store.{Store}
use env_forge.Environment.Store.Fits.{marshal_total}
use env_forge.Api.{Body, Response, marshal_items, marshal_list}
use env_forge.Cli.{Reply}

module _ (t : TimeText) where
  -- decoding an element of a list of pointers: a null is a nil pointer
  abbrev pub pointer_of : Json → Option (Option Environment)
  pointer_of null = some none
  pointer_of v = Option.map some (unmarshal t v)

  abbrev pub pointers_of : Items → Option (List (Option Environment))
  pointers_of nil = some []
  pointers_of (cons v vs) =
      Option.bind (pointer_of v) (λ e. Option.map (λ l. e ∷ l) (pointers_of vs))

  -- json.NewDecoder(resp.Body).Decode(&envs), of a JSON value
  unfoldable pub envs_of : Json → Option (List (Option Environment))
  envs_of null = some []
  envs_of (arr vs) = pointers_of vs
  envs_of _ = none

  module _ (formats : (n : ℕ) → (s : Text) × (t.format n ≡ some s)) where
    pointer_of-marshal :
        (e : Environment) (v : Json) → marshal t e ≡ some v → pointer_of v ≡ some (some e)
    pointer_of-marshal e v h =
        let (created, updated, p, q, same) = marshal_texts t e v h in
        rw same (ap (Option.map some) (ap (unmarshal t) (sym same) ∙ unmarshal-marshal t e v h))

    marshal_items-pointers_of :
        (envs : List Environment)
        → (vs : Items) × (marshal_items t envs ≡ some vs) × (pointers_of vs ≡ some (map some envs))
    unfolding Option.bind
    marshal_items-pointers_of [] = (nil, refl, refl)
    marshal_items-pointers_of (e ∷ envs) =
        let (v, p) = marshal_total t formats e in
        let (vs, q, r) = marshal_items-pointers_of envs in
        (cons v vs, rw (p, marshal_items, q) refl, rw (pointer_of-marshal e v p, r))

    -- the JSON of a list of environments is decoded to that list
    pub marshal_list-envs_of :
        (envs : List Environment)
        → (v : Json) × (marshal_list t envs ≡ some v) × (envs_of v ≡ some (map some envs))
    unfolding envs_of
    marshal_list-envs_of [] = (null, refl, refl)
    marshal_list-envs_of (e ∷ envs) =
        let (vs, p, q) = marshal_items-pointers_of (e ∷ envs) in
        (arr vs, rw (p, marshal_list) refl, q)

-- a reply of forge-api, as the client gets it
abbrev pub got : Response → Reply Body
got r = record { status_code = r.code; body = r.body }
