-- ===== src/Steps/Undone.antt =====
-- IsAlreadyDone after Compensate.
use env_forge.Prelude.{
  ◌≡◌, refl, ap, ◌∙◌, Bool, true, false, not, Text, lit, is_empty, text_eq, ◌&&◌, [],
}
use env_forge.Environment.{Environment, status_ready, status_destroyed}
use env_forge.Go.{Result, ok, err, panic, hung}
use env_forge.Cloud.{Oracle}
use env_forge.Action.{
  StateClient, IsStateClient, Run, Action, continue, choose, when, pure, get_env, ◌>>=◌, ◌>>◌,
  set_env, put,
}
use env_forge.Action.Rules.{IsPreorder, Keeps, Keeps-then, Keeps-when, Keeps-pure}
use env_forge.Action.Post.{
  Preserves-preorder, Preserves, put-Preserves, preserve_rules, Ensures, Ensures-then, post_rules,
}
use env_forge.Steps.All.{
  Kind, vpc, rds, ec2, s3, identity, config, health, registry, Options, step_of,
}
use env_forge.Steps.Done.{is_done, is_done-unstamped}
use env_forge.Steps.Vpc
use env_forge.Steps.Rds
use env_forge.Steps.Ec2
use env_forge.Steps.S3
use env_forge.Steps.Identity
use env_forge.Steps.Config
use env_forge.Steps.Health
use env_forge.Steps.Registry

abbrev Undone : Kind → Environment → Type 0
Undone k e = is_done k e ≡ false

module _ {D : Type 0} where
  abbrev Clears : Kind → Action D (Unit {0}) → Type 0
  Clears k m = Ensures (λ _ t. Undone k t.env) m

  set-Clears :
      (k : Kind) (f : Environment → Environment)
      → ((e : Environment) → Undone k (f e))
      → Clears k (set_env f)
  unfolding set_env
  set-Clears k f h = record { at = λ s a q. h s.env }

  -- what the first action makes true, the second does not lose
  continue-Clears :
      (k : Kind) (n : Action D (Unit {0}))
      → Keeps (Preserves (Undone k)) n
      → (r : Result (Unit {0})) (s : Run D) → ((a : Unit {0}) → r ≡ ok a → Undone k s.env)
      → (continue r (λ _. n) s).0 ≡ ok tt
      → Undone k (continue r (λ _. n) s).1.env
  continue-Clears k n keep (ok a) s h q = (keep.at s).kept (h a refl)
  continue-Clears k n keep (err e) s h q = cc q
  continue-Clears k n keep panic s h q = cc q
  continue-Clears k n keep hung s h q = cc q

  then-Clears :
      (k : Kind) (m n : Action D (Unit {0}))
      → Clears k m
      → Keeps (Preserves (Undone k)) n
      → Clears k (m >> n)
  unfolding ◌>>◌ ◌>>=◌
  then-Clears k m n clears keep = record {
    at = λ s a q. continue-Clears k n keep (m s).0 (m s).1 (λ b r. clears.at s b r) q;
  }

  -- a step that has nothing to undo returns at once
  choose-Clears :
      (k : Kind) (dry nothing : Bool) (m n : Action D (Unit {0})) (s : Run D)
      → Clears k m
      → (nothing ≡ true → Undone k s.env)
      → Clears k n
      → (choose dry m (choose nothing (pure tt) n) s).0 ≡ ok tt
      → Undone k (choose dry m (choose nothing (pure tt) n) s).1.env
  unfolding choose pure
  choose-Clears k true nothing m n s cm none cn q = cm.at s tt q
  choose-Clears k false true m n s cm none cn q = none refl
  choose-Clears k false false m n s cm none cn q = cn.at s tt q

  either-Clears :
      (k : Kind) (dry : Bool) (m n : Action D (Unit {0})) (s : Run D)
      → Clears k m
      → ((n s).0 ≡ ok tt → Undone k (n s).1.env)
      → (choose dry m n s).0 ≡ ok tt
      → Undone k (choose dry m n s).1.env
  unfolding choose
  either-Clears k true m n s cm cn q = cm.at s tt q
  either-Clears k false m n s cm cn q = cn q

  -- what a test guards runs unless there is nothing to undo
  when-Clears :
      (k : Kind) (b : Bool) (m n : Action D (Unit {0})) (s : Run D)
      → (b ≡ false → Undone k s.env)
      → Clears k m
      → Keeps (Preserves (Undone k)) n
      → ((when b m >> n) s).0 ≡ ok tt
      → Undone k ((when b m >> n) s).1.env
  unfolding when ◌>>◌ ◌>>=◌ pure
  when-Clears k true m n s none cm keep q = (then-Clears k m n cm keep).at s tt q
  when-Clears k false m n s none cm keep q = (keep.at s).kept (none refl)

destroyed-ne : text_eq status_destroyed status_ready ≡ false
unfolding text_eq lit
destroyed-ne = refl

module _ {D : Type 0} (p : Options) (o : Oracle) (c : StateClient D) (laws : IsStateClient c) where
  put-Kept : (k : Kind) → Keeps (Preserves (Undone k)) (put c)
  put-Kept k = put-Preserves laws (λ e e' same q. is_done-unstamped k e e' same ∙ q)

  put-Clears :
      (k : Kind) (f : Environment → Environment)
      → ((e : Environment) → Undone k (f e))
      → Clears k (do set_env f; put c)
  put-Clears k f h = then-Clears k (set_env f) (put c) (set-Clears k f h) (put-Kept k)

  vpc-Clears : Clears vpc (Vpc.compensate o c)
  unfolding Vpc.compensate Vpc.tear_down
  vpc-Clears = search (post_rules, put-Clears vpc) depth 20

  rds-Clears : (id : Text) → Clears rds (Rds.tear_down o c id)
  unfolding Rds.tear_down
  rds-Clears id = search (post_rules, put-Clears rds) depth 20

  ec2-Clears : (id : Text) → Clears ec2 (Ec2.tear_down o c id)
  unfolding Ec2.tear_down
  ec2-Clears id = search (post_rules, put-Clears ec2) depth 20

  s3-Clears : (bucket : Text) → Clears s3 (S3.tear_down p.fuel p.region o c bucket)
  unfolding S3.tear_down
  s3-Clears bucket = search (post_rules, put-Clears s3) depth 20

  identity-Clears :
      (name : Text)
      → Clears identity (Identity.unregister p.connected p.settings.trust_domain o c name)
  unfolding Identity.unregister
  identity-Clears name =
      search (post_rules, then-Clears identity, set-Clears identity, preserve_rules) depth 20

  identity_rest :
      Keeps
        (Preserves (Undone identity))
        (do set_env (λ e. record e { spire_entry_ids = [] }); put c)
  identity_rest = search (preserve_rules, put-Kept) depth 12

  config-Clears : (path : Text) → Clears config (Config.remove_local p.settings o c path)
  unfolding Config.remove_local
  config-Clears path = search (post_rules, set-Clears config) depth 12

  config_kept :
      (b : Bool) (m : Action D (Unit {0}))
      → Keeps (Preserves (Undone config)) m
      → Keeps (Preserves (Undone config)) (when b m >> (pure tt >> put c))
  config_kept b m keep =
      let kept : IsPreorder (Preserves {D = D} (Undone config)) = Preserves-preorder in
      Keeps-then kept _ _ (Keeps-when kept b m keep)
        (Keeps-then kept _ _ (Keeps-pure kept tt) (put-Kept config))

  config_rest :
      (b f : Bool) (m r : Action D (Unit {0})) (s : Run D)
      → Keeps (Preserves (Undone config)) m
      → Clears config r
      → (f ≡ false → Undone config s.env)
      → ((when b m >> (when f r >> put c)) s).0 ≡ ok tt
      → Undone config ((when b m >> (when f r >> put c)) s).1.env
  unfolding when
  config_rest b true m r s keep cr none q =
      (Ensures-then (when b m) _ (then-Clears config r (put c) cr (put-Kept config))).at s tt q
  config_rest b false m r s keep cr none q = ((config_kept b m keep).at s).kept (none refl)

  -- After a Compensate without an error, of any step and whatever the services answer, nothing marks
  -- the environment as one of which the step is done.
  pub compensate-is_done :
      (k : Kind) (s : Run D)
      → ((step_of p o c k).compensate s).0 ≡ ok tt
      → is_done k ((step_of p o c k).compensate s).1.env ≡ false
  unfolding step_of Vpc.compensate Rds.compensate Ec2.compensate S3.compensate Identity.compensate
      Config.compensate Health.compensate Registry.compensate ◌>>=◌ get_env
  compensate-is_done vpc s h = vpc-Clears.at s tt h
  compensate-is_done rds s h =
      choose-Clears rds s.env.dry_run (is_empty s.env.rds_instance_id) _ _ s
        (put-Clears rds _ (λ e. refl)) (λ e. ap not e) (rds-Clears _) h
  compensate-is_done ec2 s h =
      choose-Clears ec2 s.env.dry_run (is_empty s.env.ec2_instance_id) _ _ s
        (put-Clears ec2 _ (λ e. refl)) (λ e. ap not e) (ec2-Clears _) h
  compensate-is_done s3 s h =
      choose-Clears s3 s.env.dry_run (is_empty s.env.s3_bucket_name) _ _ s
        (put-Clears s3 _ (λ e. refl)) (λ e. ap not e) (s3-Clears _) h
  compensate-is_done identity s h =
      either-Clears identity (s.env.dry_run && not p.connected) _ _ s
        (put-Clears identity _ (λ e. refl))
        (when-Clears identity (not (is_empty s.env.svid_exchange_policy_name)) _ _ s (λ e. e)
          (identity-Clears _) identity_rest)
        h
  compensate-is_done config s h =
      config_rest (not s.env.dry_run && not (is_empty s.env.s3_bucket_name))
        (not (is_empty s.env.local_env_path)) _ _ s (search preserve_rules depth 8)
        (config-Clears _) (λ e. e) h
  compensate-is_done health s h = refl
  compensate-is_done registry s h = (put-Clears registry _ (λ e. destroyed-ne)).at s tt h
