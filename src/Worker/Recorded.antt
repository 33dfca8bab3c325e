-- ===== src/Worker/Recorded.antt =====
-- What a request to a step endpoint puts, whatever else happens to the store meanwhile.
use mathlib.Core.List.{append-nil}
use env_forge.Prelude.{
  ◌≡◌, refl, sym, ap, ◌∙◌, Bool, Bool-cases, inl, inr, List, [], ◌++◌, Option, none, some, Text,
  is_empty, All, All-weaken,
}
use env_forge.Environment.{Environment}
use env_forge.Environment.Origin.{origin}
use env_forge.Go.{Result, ok}
use env_forge.Cloud.{Oracle}
use env_forge.Action.{StateClient}
use env_forge.Steps.All.{Kind, Options, name_of, build_steps}
use env_forge.Steps.Frame.Recorded.{Recording, recorded, Recorded-IsFrame, Stamps, without-origin}
use env_forge.Worker.{Worker, start, with_env, handle}
use env_forge.Worker.Framed.{Leaves, with_env-Leaves}

module _ {D : Type 0} (p : Options) (o : Oracle) (c : StateClient D) (stamps : Stamps c) (k : Kind)
    (compensate : Bool) where
  -- what the request adds to the record has the origin of an environment that fulfils `P`
  abbrev Puts : (Environment → Type 0) → Worker (Recording D) → Recording D → Type 0
  Puts P w d =
      (added : List Environment) × (d.1 ≡ w.db.1 ++ added)
      × All (λ x. (read : Environment) × P read × (origin x ≡ origin read)) added

  Leaves-Puts :
      (P : Environment → Type 0) (env : Environment) (w w' : Worker (Recording D)) (d : Recording D)
      → P env
      → w'.db.1 ≡ w.db.1
      → Leaves p o (recorded c) (Recorded-IsFrame c stamps) k (start env w') d
      → Puts P w d
  Leaves-Puts P env w w' d is_read same (t, r, h) = (
    r.added,
    ap (λ d. d.1) h ∙ r.log ∙ ap (λ l. l ++ r.added) same,
    All-weaken r.added (λ x q. (env, is_read, without-origin k env x q)) r.each,
  )

  with_env-Puts :
      (env_id : Text) (w w' : Worker (Recording D)) (r : Result Environment)
      → (c.get env_id w.db.0).0 ≡ r
      → w'.db.1 ≡ w.db.1
      → Puts
          (λ read. (c.get env_id w.db.0).0 ≡ ok read)
          w
          (with_env
            (recorded c)
            (build_steps p o (recorded c))
            env_id
            (name_of k)
            compensate
            r
            w').1.db
  with_env-Puts env_id w w' r read same =
      elim (with_env-Leaves p o (recorded c) (Recorded-IsFrame c stamps) k env_id compensate r w') [
        | inl (env, found, leaves) ↦ Leaves-Puts _ env w w' _ (read ∙ found) same leaves
        | inr still ↦ ([], ap (λ d. d.1) still ∙ same ∙ sym (append-nil _), tt)
      ]

  -- A request to a step endpoint, forward or backward, whatever its body is, whatever the services
  -- answer, and however the store answers its puts, puts only environments with the origin of the one
  -- that it read under its env_id: the same id, owner, time of creation and flags. If it read none, it
  -- puts nothing.
  pub handle-Puts :
      (body : Option Text) (w : Worker (Recording D))
      → (added : List Environment) × ((handle
            (recorded c)
            (build_steps p o (recorded c))
            (name_of k)
            compensate
            body
            w).1.db.1
          ≡ w.db.1 ++ added)
        × All
            (λ x.
              (env_id : Text) × (read : Environment) × (body ≡ some env_id)
              × ((c.get env_id w.db.0).0 ≡ ok read)
              × (origin x ≡ origin read))
            added
  unfolding handle recorded
  handle-Puts none w = ([], sym (append-nil _), tt)
  handle-Puts (some env_id) w = elim (Bool-cases (is_empty env_id)) [
    | inl h ↦ rw h ([], sym (append-nil _), tt)
    | inr h ↦ rw h (
        let (added, log, each) = with_env-Puts env_id w _ (c.get env_id w.db.0).0 refl refl in
        (added, log, All-weaken added (λ x (e, r, q). (env_id, e, refl, r, q)) each))
  ]
