-- ===== src/Worker/Pipeline.antt =====
-- The forward requests of a whole saga, one after another.
use mathlib.Core.List.{Memᴰ}
use mathlib.Core.List.Memᴰ
use env_forge.Prelude.{
  ◌≡◌, ◌≢◌, refl, sym, ◌∙◌, true, false, ◌⊎◌, inl, inr, List, [], ◌∷◌, Option, some, Text,
  text_eq_iff, map,
}
use env_forge.Environment.{Environment, status_ready}
use env_forge.Environment.Origin.{origin}
use env_forge.Go.{ok}
use env_forge.Cloud.{Call, Oracle}
use env_forge.Action.{StateClient, IsStateClient, drop_answer}
use env_forge.Steps.All.{
  Kind, vpc, rds, ec2, s3, identity, config, health, registry, Options, name_of, build_steps,
  all_kinds,
}
use env_forge.Steps.Done.{is_done}
use env_forge.Steps.Dry.{is_local}
use env_forge.Steps.Live.{HasShort}
use env_forge.Worker.{Response, Worker, handle}
use env_forge.Worker.Progress.{Progress, Then, Progress-weaken, advance}
use env_forge.Worker.Idempotence.{done, send}

registry-ne : registry ≢ health
registry-ne h = cc h

pub Mem-all_kinds : (k : Kind) → Memᴰ k all_kinds
Mem-all_kinds vpc = Memᴰ.head refl
Mem-all_kinds rds = search (Memᴰ.head, Memᴰ.tail) depth 12
Mem-all_kinds ec2 = search (Memᴰ.head, Memᴰ.tail) depth 12
Mem-all_kinds s3 = search (Memᴰ.head, Memᴰ.tail) depth 12
Mem-all_kinds identity = search (Memᴰ.head, Memᴰ.tail) depth 12
Mem-all_kinds config = search (Memᴰ.head, Memᴰ.tail) depth 12
Mem-all_kinds health = search (Memᴰ.head, Memᴰ.tail) depth 12
Mem-all_kinds registry = search (Memᴰ.head, Memᴰ.tail) depth 12

later :
    (P : Kind → Type 0) (k : Kind) (ks : List Kind) (j : Kind)
    → P j ⊎ (Memᴰ j (k ∷ ks) × (j ≢ health))
    → (P j ⊎ ((j ≡ k) × (k ≢ health))) ⊎ (Memᴰ j ks × (j ≢ health))
later P k ks j (inl before) = inl (inl before)
later P k ks j (inr (m, n)) = elim (Memᴰ.cases_cons m) [
  | inl e ↦ inl (inr (e, λ h. n (e ∙ h)))
  | inr m' ↦ inr (m', n)
]

module _ {D : Type 0} (p : Options) (o : Oracle) (c : StateClient D) where
  -- the requests in turn, and their replies
  abbrev pub send_all : List Kind → Text → Worker D → List (Option Response) × Worker D
  send_all [] env_id w = ([], w)
  send_all (k ∷ ks) env_id w =
      let (r, w') = handle c (build_steps p o c) (name_of k) false (some env_id) w in
      let (rs, w'') = send_all ks env_id w' in (r ∷ rs, w'')

  module _ (laws : IsStateClient c) (stores : (e : Environment) (d : D) → (c.put e d).0 ≡ ok tt)
      (files : (before : List Call) (x : Call)
        → is_local x ≡ true
        → drop_answer (o before x) ≡ ok tt)
      (alone : p.connected ≡ false) where
    pub sent_all :
        (ks : List Kind) (env_id : Text) (born : Environment) (P : Kind → Type 0) (w : Worker D)
        → (Memᴰ health ks → born.fail_at_health ≡ false)
        → Progress p o c env_id born P w
        → ((send_all ks env_id w).0 ≡ map (λ _. some done) ks)
          × Progress p o c env_id born
              (λ j. P j ⊎ (Memᴰ j ks × (j ≢ health)))
              (send_all ks env_id w).1
    sent_all [] env_id born P w healthy g = (
      refl,
      Progress-weaken p o c
          (λ j q. elim q [ inl before ↦ before | inr (m, _) ↦ absurd (Memᴰ.not-nil m) ]) g,
    )
    sent_all (k ∷ ks) env_id born P w healthy g =
        let (first, g') =
          advance p o c laws stores files alone k env_id born P w (λ e. healthy (Memᴰ.head (sym e)))
            g in
        let (rest, g'') =
          sent_all ks env_id born (Then p o c P k) (send p o c laws k env_id w).1
            (λ m. healthy (Memᴰ.tail m)) g' in
        (rw (first, rest) refl, Progress-weaken p o c (later P k ks) g'')

    -- In a dry run, on a worker without a connection to svid-exchange, where the store takes every Put
    -- and the local files can be written: if the forward requests of all eight steps are sent one
    -- after another for an environment that is stored under its id, whose id has eight bytes and for
    -- which no failure of the health step is asked, then each is answered 200, and afterwards the
    -- store holds, under the id, an environment that is ready, with the id, the owner, the time of
    -- creation and the flags that it had, and with every step but health done.
    pub send_all-ready :
        (env_id : Text) (env : Environment) (w : Worker D)
        → (c.get env_id w.db).0 ≡ ok env
        → env.id ≡ env_id
        → HasShort env
        → env.dry_run ≡ true
        → env.fail_at_health ≡ false
        → ((send_all all_kinds env_id w).0 ≡ map (λ _. some done) all_kinds)
          × ((final : Environment) × ((c.get env_id (send_all all_kinds env_id w).1.db).0
                ≡ ok final)
              × (origin final ≡ origin env)
              × (final.status ≡ status_ready)
              × ((k : Kind) → k ≢ health → is_done k final ≡ true))
    send_all-ready env_id env w found same_id short dry healthy =
        let (replies, g) =
          sent_all all_kinds env_id env (λ j. ⊥) w (λ m. healthy)
            (record {
              env = env;
              found = found;
              same_id = same_id;
              same = refl;
              short = short;
              dry = dry;
              marks = λ j q. absurd q;
            }) in
        let marks : (k : Kind) → k ≢ health → is_done k g.env ≡ true =
          λ k n. g.marks k (inr (Mem-all_kinds k, n)) in
        (
          replies,
          (
            g.env,
            g.found,
            g.same,
            (text_eq_iff _ _).0 (marks registry (λ e. registry-ne e)),
            marks,
          ),
        )
