-- ===== src/Worker/Progress.antt =====
-- One forward request in the course of a dry run, and what is then done.
use mathlib.Core.Path.{subst}
use env_forge.Prelude.{
  ◌≡◌, ◌≢◌, refl, sym, ap, ◌∙◌, Bool, true, false, ◌⊎◌, inl, inr, List, [], ◌∷◌, some, Text, lit,
  is_empty, slice_to,
}
use env_forge.Environment.{Environment}
use env_forge.Environment.Origin.{origin}
use env_forge.Steps.Frame.Recorded.{without-origin}
use env_forge.Go.{ok}
use env_forge.Cloud.{Call, Oracle}
use env_forge.Steps.Health
use env_forge.Action.{get_env, ◌>>=◌, StateClient, IsStateClient, Run, drop_answer}
use env_forge.Steps.All.{
  Kind, vpc, rds, ec2, s3, identity, config, health, registry, Options, name_of, step_of, without,
}
use env_forge.Steps.Done.{is_done, is_done-unstamped, execute-is_done}
use env_forge.Steps.Dry.{is_local}
use env_forge.Steps.Frame.{outside}
use env_forge.Steps.Frame.Every.{step-IsWithin}
use env_forge.Steps.Saved.{execute-IsSaved}
use env_forge.Steps.Live.{HasShort, execute-returns, health-Returns}
use env_forge.Worker.{Worker, after, start, run, forward}
use env_forge.Worker.Idempotence.{done, send, send-eq-forward, finish-db}

pub Kind-discrete : Discrete Kind
Kind-discrete = hlevel

pub short-full : (i short : Text) → slice_to i 8 ≡ some short → is_empty i ≡ false
unfolding slice_to
short-full [] short h = cc h
short-full (c ∷ i) short h = refl

-- what marks a step as done is not a part of another step
pub other-is_done :
    (k j : Kind) (e : Environment) → j ≢ k → is_done j (outside (without k) e) ≡ is_done j e
other-is_done vpc vpc e n = absurd (n refl)
other-is_done vpc _ e n = refl
other-is_done rds rds e n = absurd (n refl)
other-is_done rds _ e n = refl
other-is_done ec2 ec2 e n = absurd (n refl)
other-is_done ec2 _ e n = refl
other-is_done s3 s3 e n = absurd (n refl)
other-is_done s3 _ e n = refl
other-is_done identity identity e n = absurd (n refl)
other-is_done identity _ e n = refl
other-is_done config config e n = absurd (n refl)
other-is_done config _ e n = refl
other-is_done health health e n = refl
other-is_done health _ e n = refl
other-is_done registry registry e n = absurd (n refl)
other-is_done registry _ e n = refl

module _ {D : Type 0} (p : Options) (o : Oracle) (c : StateClient D) where
  -- The environment that is stored under the id, in the course of a dry run, with the origin of
  -- `born`; the steps of which `P` holds are done.
  pub record Progress (env_id : Text) (born : Environment) (P : Kind → Type 0) (w : Worker D)
      : Type 0 where
    pub env : Environment
    pub found : (c.get env_id w.db).0 ≡ ok env
    pub same_id : env.id ≡ env_id
    pub same : origin env ≡ origin born
    pub short : HasShort env
    pub dry : env.dry_run ≡ true
    pub marks : (j : Kind) → P j → is_done j env ≡ true

  pub Progress-weaken :
      {env_id : Text} {born : Environment} {P Q : Kind → Type 0} {w : Worker D}
      → ((j : Kind) → Q j → P j)
      → Progress env_id born P w
      → Progress env_id born Q w
  Progress-weaken f g = record {
    env = g.env;
    found = g.found;
    same_id = g.same_id;
    same = g.same;
    short = g.short;
    dry = g.dry;
    marks = λ j q. g.marks j (f j q);
  }

  -- the health step can only be sent where no failure of it is asked for
  abbrev pub Spared : Kind → Environment → Type 0
  Spared k born = k ≡ health → born.fail_at_health ≡ false

  asked :
      {env_id : Text} {born : Environment} {P : Kind → Type 0} {w : Worker D}
      (g : Progress env_id born P w)
      → g.env.fail_at_health ≡ born.fail_at_health
  asked g = ap (λ e. e.fail_at_health) g.same

  abbrev pub Then : (Kind → Type 0) → Kind → Kind → Type 0
  Then P k j = P j ⊎ ((j ≡ k) × (k ≢ health))

  module _ (laws : IsStateClient c) (stores : (e : Environment) (d : D) → (c.put e d).0 ≡ ok tt)
      (files : (before : List Call) (x : Call)
        → is_local x ≡ true
        → drop_answer (o before x) ≡ ok tt)
      (alone : p.connected ≡ false) where
    abbrev executed : Kind → Environment → Worker D → Run D
    executed k env w = ((step_of p o c k).execute (start env w)).1

    -- what is stored after a step that saves
    saved :
        (k : Kind) (env_id : Text) (born : Environment) (P : Kind → Type 0) (w : Worker D)
        → k ≢ health
        → (g : Progress env_id born P w)
        → Progress env_id born (Then P k) (after (executed k g.env w) w)
    saved k env_id born P w n g =
        let s : Run D = start g.env w in
        let s' : Run D = executed k g.env w in
        let ended =
          execute-returns p o c laws stores files alone k s g.short g.dry (λ e. absurd (n e)) in
        let (stored, found, same) = execute-IsSaved p o c laws k s n ended in
        let kept = (step-IsWithin p o c laws k s).0.env in
        let same_origin : origin stored ≡ origin g.env =
          ap origin same ∙ without-origin k g.env s'.env kept in
        let same_id : s'.env.id ≡ g.env.id = ap (λ e. e.id) (without-origin k g.env s'.env kept) in
        let now_done : is_done k stored ≡ true =
          is_done-unstamped k s'.env stored same ∙ execute-is_done p o c laws k s n g.dry ended in
        record {
          env = stored;
          found = subst (λ i. (c.get i s'.db).0 ≡ ok stored) (same_id ∙ g.same_id) found;
          same_id = ap (λ e. e.id) same_origin ∙ g.same_id;
          same = same_origin ∙ g.same;
          short = (g.short.0, ap (λ e. slice_to e.id 8) same_origin ∙ g.short.1);
          dry = ap (λ e. e.dry_run) same_origin ∙ g.dry;
          marks = λ j q. elim (Kind-discrete j k) [
            | yes e ↦ subst (λ i. is_done i stored ≡ true) (sym e) now_done
            | no ne ↦ elim q [
              | inl before ↦
                  is_done-unstamped j s'.env stored same
                  ∙ sym (other-is_done k j s'.env ne)
                  ∙ ap (is_done j) kept
                  ∙ other-is_done k j g.env ne
                  ∙ g.marks j before
              | inr (e, _) ↦ absurd (ne e)
            ]
          ];
        }

    still :
        (env : Environment) (w : Worker D)
        → env.fail_at_health ≡ false
        → env.dry_run ≡ true
        → executed health env w ≡ start env w
    unfolding step_of Health.execute ◌>>=◌ get_env
    still env w healthy dry =
        ap (λ x. x.1)
          (health-Returns p o c laws stores files env.fail_at_health env.dry_run _ _ (start env w)
            healthy dry)

    Progress-db :
        {env_id : Text} {born : Environment} {P : Kind → Type 0} (w w' : Worker D)
        → w'.db ≡ w.db
        → Progress env_id born P w
        → Progress env_id born P w'
    Progress-db {env_id} w w' same g = record {
      env = g.env;
      found = subst (λ d. (c.get env_id d).0 ≡ ok g.env) (sym same) g.found;
      same_id = g.same_id;
      same = g.same;
      short = g.short;
      dry = g.dry;
      marks = g.marks;
    }

    -- the health step changes nothing
    passed :
        (env_id : Text) (born : Environment) (P : Kind → Type 0) (w : Worker D)
        (g : Progress env_id born P w)
        → born.fail_at_health ≡ false
        → Progress env_id born (Then P health) (after (executed health g.env w) w)
    passed env_id born P w g healthy =
        Progress-db w _ (ap (λ s. s.db) (still g.env w (asked g ∙ healthy) g.dry))
          (Progress-weaken (λ j q. elim q [ inl before ↦ before | inr (_, n) ↦ absurd (n refl) ]) g)

    ran :
        (k : Kind) (env_id : Text) (born : Environment) (P : Kind → Type 0) (w : Worker D)
        (g : Progress env_id born P w)
        → Spared k born
        → Progress env_id born (Then P k) (after (executed k g.env w) w)
    ran k env_id born P w g healthy = elim (Kind-discrete k health) [
      | yes e ↦
          subst (λ i. Progress env_id born (Then P i) (after (executed i g.env w) w)) (sym e)
            (passed env_id born P w g (healthy e))
      | no n ↦ saved k env_id born P w n g
    ]

    forwarded :
        (k : Kind) (env_id : Text) (born : Environment) (P : Kind → Type 0) (w : Worker D)
        (g : Progress env_id born P w) (m : Bool)
        → Spared k born
        → is_done k g.env ≡ m
        → ((forward (step_of p o c k) (name_of k) (ok m) (start g.env w) w).0 ≡ some done)
          × Progress env_id born
              (Then P k)
              (forward (step_of p o c k) (name_of k) (ok m) (start g.env w) w).1
    unfolding forward run
    forwarded k env_id born P w g true healthy marked = (
      refl,
      record {
        env = g.env;
        found = g.found;
        same_id = g.same_id;
        same = g.same;
        short = g.short;
        dry = g.dry;
        marks = λ j q. elim q [
          | inl before ↦ g.marks j before
          | inr (e, _) ↦ subst (λ i. is_done i g.env ≡ true) (sym e) marked
        ];
      },
    )
    forwarded k env_id born P w g false healthy marked =
        let ended =
          execute-returns p o c laws stores files alone k (start g.env w) g.short g.dry
            (λ e. asked g ∙ healthy e) in
        (
          rw ended refl,
          Progress-db _ _
              (finish-db p o c laws (name_of k) (lit "execute")
                ((step_of p o c k).execute (start g.env w)).0 (after (executed k g.env w) w))
              (ran k env_id born P w g healthy),
        )

    pub advance :
        (k : Kind) (env_id : Text) (born : Environment) (P : Kind → Type 0) (w : Worker D)
        → Spared k born
        → Progress env_id born P w
        → ((send p o c laws k env_id w).0 ≡ some done)
          × Progress env_id born (Then P k) (send p o c laws k env_id w).1
    advance k env_id born P w healthy g =
        let full = ap is_empty (sym g.same_id) ∙ short-full g.env.id g.short.0 g.short.1 in
        rw (send-eq-forward p o c laws k env_id g.env w full g.found g.dry)
          (forwarded k env_id born P w g (is_done k g.env) healthy refl)
