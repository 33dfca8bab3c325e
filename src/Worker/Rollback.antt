-- ===== src/Worker/Rollback.antt =====
-- The compensation requests of a whole saga, one after another.
use mathlib.Core.Path.{subst}
use mathlib.Core.List.{Memᴰ}
use mathlib.Core.List.Memᴰ
use env_forge.Prelude.{
  ◌≡◌, refl, sym, ap, ◌∙◌, true, false, ◌⊎◌, inl, inr, List, [], ◌∷◌, Option, some, Text, lit,
  is_empty, slice_to, map,
}
use env_forge.Environment.{Environment}
use env_forge.Environment.Origin.{origin}
use env_forge.Steps.Frame.Recorded.{without-origin}
use env_forge.Go.{ok}
use env_forge.Cloud.{Call, Oracle}
use env_forge.Action.{StateClient, IsStateClient, Run, drop_answer}
use env_forge.Steps.All.{Kind, Options, name_of, step_of, build_steps}
use env_forge.Steps.Done.{is_done, is_done-unstamped}
use env_forge.Steps.Dry.{is_local}
use env_forge.Steps.Frame.Every.{step-IsWithin}
use env_forge.Steps.Live.{HasShort}
use env_forge.Steps.Undone.{compensate-is_done}
use env_forge.Steps.Resaved.{Settled-IsSaved, compensate-Settled}
use env_forge.Steps.Reverted.{compensate-returns}
use env_forge.Worker.{Response, Worker, after, start, run, dispatch, handle}
use env_forge.Worker.Handle.{handle-eq-dispatch}
use env_forge.Worker.Idempotence.{done, finish-db}
use env_forge.Worker.Progress.{Kind-discrete, short-full, other-is_done}

module _ {D : Type 0} (p : Options) (o : Oracle) (c : StateClient D) where
  -- the requests in turn, and their replies
  abbrev pub undo_all : List Kind → Text → Worker D → List (Option Response) × Worker D
  undo_all [] env_id w = ([], w)
  undo_all (k ∷ ks) env_id w =
      let (r, w') = handle c (build_steps p o c) (name_of k) true (some env_id) w in
      let (rs, w'') = undo_all ks env_id w' in (r ∷ rs, w'')

  -- The environment that is stored under the id, in the course of the compensation of a dry run, with
  -- the origin of `born`; the steps of which `P` holds are undone.
  record Regress (env_id : Text) (born : Environment) (P : Kind → Type 0) (w : Worker D)
      : Type 0 where
    env : Environment
    found : (c.get env_id w.db).0 ≡ ok env
    same_id : env.id ≡ env_id
    same : origin env ≡ origin born
    short : HasShort env
    dry : env.dry_run ≡ true
    marks : (j : Kind) → P j → is_done j env ≡ false

  module _ (laws : IsStateClient c) (stores : (e : Environment) (d : D) → (c.put e d).0 ≡ ok tt)
      (files : (before : List Call) (x : Call)
        → is_local x ≡ true
        → drop_answer (o before x) ≡ ok tt)
      (alone : p.connected ≡ false) where
    abbrev undone : Kind → Environment → Worker D → Run D
    undone k env w = ((step_of p o c k).compensate (start env w)).1

    reverted :
        (k : Kind) (env_id : Text) (born : Environment) (P : Kind → Type 0) (w : Worker D)
        (g : Regress env_id born P w)
        → Regress env_id born (λ j. P j ⊎ (j ≡ k)) (after (undone k g.env w) w)
    reverted k env_id born P w g =
        let s : Run D = start g.env w in
        let s' : Run D = undone k g.env w in
        let ended = compensate-returns p o c laws stores files alone k s g.short g.dry in
        let held = subst (λ i. (c.get i w.db).0 ≡ ok g.env) (sym g.same_id) g.found in
        let (stored, found, same) =
          Settled-IsSaved p o c laws s s' (compensate-Settled p o c laws k s ended) held in
        let kept = (step-IsWithin p o c laws k s).1.env in
        let same_origin : origin stored ≡ origin g.env =
          ap origin same ∙ without-origin k g.env s'.env kept in
        let same_id : s'.env.id ≡ g.env.id = ap (λ e. e.id) (without-origin k g.env s'.env kept) in
        record {
          env = stored;
          found = subst (λ i. (c.get i s'.db).0 ≡ ok stored) (same_id ∙ g.same_id) found;
          same_id = ap (λ e. e.id) same_origin ∙ g.same_id;
          same = same_origin ∙ g.same;
          short = (g.short.0, ap (λ e. slice_to e.id 8) same_origin ∙ g.short.1);
          dry = ap (λ e. e.dry_run) same_origin ∙ g.dry;
          marks = λ j q. elim (Kind-discrete j k) [
            | yes e ↦
                subst (λ i. is_done i stored ≡ false) (sym e)
                  (is_done-unstamped k s'.env stored same ∙ compensate-is_done p o c laws k s ended)
            | no ne ↦ elim q [
              | inl before ↦
                  is_done-unstamped j s'.env stored same
                  ∙ sym (other-is_done k j s'.env ne)
                  ∙ ap (is_done j) kept
                  ∙ other-is_done k j g.env ne
                  ∙ g.marks j before
              | inr e ↦ absurd (ne e)
            ]
          ];
        }

    Regress-db :
        {env_id : Text} {born : Environment} {P : Kind → Type 0} (w w' : Worker D)
        → w'.db ≡ w.db
        → Regress env_id born P w
        → Regress env_id born P w'
    Regress-db {env_id} w w' same g = record {
      env = g.env;
      found = subst (λ d. (c.get env_id d).0 ≡ ok g.env) (sym same) g.found;
      same_id = g.same_id;
      same = g.same;
      short = g.short;
      dry = g.dry;
      marks = g.marks;
    }

    Regress-weaken :
        {env_id : Text} {born : Environment} {P Q : Kind → Type 0} {w : Worker D}
        → ((j : Kind) → Q j → P j)
        → Regress env_id born P w
        → Regress env_id born Q w
    Regress-weaken f g = record {
      env = g.env;
      found = g.found;
      same_id = g.same_id;
      same = g.same;
      short = g.short;
      dry = g.dry;
      marks = λ j q. g.marks j (f j q);
    }

    dispatched :
        (k : Kind) (env_id : Text) (born : Environment) (P : Kind → Type 0) (w : Worker D)
        (g : Regress env_id born P w)
        → ((dispatch (step_of p o c k) (name_of k) true g.env w).0 ≡ some done)
          × Regress env_id born
              (λ j. P j ⊎ (j ≡ k))
              (dispatch (step_of p o c k) (name_of k) true g.env w).1
    unfolding dispatch run
    dispatched k env_id born P w g =
        let ended =
          compensate-returns p o c laws stores files alone k (start g.env w) g.short g.dry in
        (
          rw ended refl,
          Regress-db _ _
              (finish-db p o c laws (name_of k) (lit "compensate")
                ((step_of p o c k).compensate (start g.env w)).0 (after (undone k g.env w) w))
              (reverted k env_id born P w g),
        )

    retreat :
        (k : Kind) (env_id : Text) (born : Environment) (P : Kind → Type 0) (w : Worker D)
        → Regress env_id born P w
        → ((handle c (build_steps p o c) (name_of k) true (some env_id) w).0 ≡ some done)
          × Regress env_id born
              (λ j. P j ⊎ (j ≡ k))
              (handle c (build_steps p o c) (name_of k) true (some env_id) w).1
    retreat k env_id born P w g =
        let full = ap is_empty (sym g.same_id) ∙ short-full g.env.id g.short.0 g.short.1 in
        rw (handle-eq-dispatch p o c laws k env_id true g.env w full g.found)
          (dispatched k env_id born P w g)

    retreated :
        (ks : List Kind) (env_id : Text) (born : Environment) (P : Kind → Type 0) (w : Worker D)
        → Regress env_id born P w
        → ((undo_all ks env_id w).0 ≡ map (λ _. some done) ks)
          × Regress env_id born (λ j. P j ⊎ Memᴰ j ks) (undo_all ks env_id w).1
    retreated [] env_id born P w g = (
      refl,
      Regress-weaken (λ j q. elim q [ inl before ↦ before | inr m ↦ absurd (Memᴰ.not-nil m) ]) g,
    )
    retreated (k ∷ ks) env_id born P w g =
        let (first, g') = retreat k env_id born P w g in
        let (rest, g'') = retreated ks env_id born (λ j. P j ⊎ (j ≡ k)) _ g' in
        (
          rw (first, rest) refl,
          Regress-weaken
              (λ j q. elim q [
                | inl before ↦ inl (inl before)
                | inr m ↦ elim (Memᴰ.cases_cons m) [ inl e ↦ inl (inr e) | inr m' ↦ inr m' ]
              ])
              g'',
        )

    -- In a dry run, on a worker without a connection to svid-exchange, where the store takes every Put
    -- and the local files can be removed: if compensation requests of some steps, in any order, are
    -- sent one after another for an environment that is stored under its id, and whose id has eight
    -- bytes, then each is answered 200, and afterwards the store holds, under the id, an environment
    -- with the id, the owner, the time of creation and the flags that it had, of which none of these
    -- steps is done.
    pub undo_all-undone :
        (ks : List Kind) (env_id : Text) (env : Environment) (w : Worker D)
        → (c.get env_id w.db).0 ≡ ok env
        → env.id ≡ env_id
        → HasShort env
        → env.dry_run ≡ true
        → ((undo_all ks env_id w).0 ≡ map (λ _. some done) ks)
          × ((final : Environment) × ((c.get env_id (undo_all ks env_id w).1.db).0 ≡ ok final)
              × (origin final ≡ origin env)
              × ((k : Kind) → Memᴰ k ks → is_done k final ≡ false))
    undo_all-undone ks env_id env w found same_id short dry =
        let (replies, g) =
          retreated ks env_id env (λ j. ⊥) w
            (record {
              env = env;
              found = found;
              same_id = same_id;
              same = refl;
              short = short;
              dry = dry;
              marks = λ j q. absurd q;
            }) in
        (replies, (g.env, g.found, g.same, λ k m. g.marks k (inr m)))
