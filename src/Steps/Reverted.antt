-- ===== src/Steps/Reverted.antt =====
-- Compensate of a dry run, where the store and the local files do not fail.
use env_forge.Prelude.{◌≡◌, refl, Bool, true, false, not, ◌&&◌, is_empty, Text, List}
use env_forge.Go.{Error, Result, ok}
use env_forge.Environment.{Environment}
use env_forge.Cloud.{Call, Oracle, remove_file}
use env_forge.Action.{
  StateClient, IsStateClient, Run, Action, recover, drop_answer, catch, when, pure, set_env, put,
  get_env, ◌>>=◌, ◌>>◌,
}
use env_forge.Steps.Dry.{is_local}
use env_forge.Steps.Live.{
  HasShort, Returns, Returns-pure, Returns-set_env, Returns-then, put-Returns, file-Returns,
  dry-Returns, not_dry-Returns,
}
use env_forge.Steps.All.{
  Kind, vpc, rds, ec2, s3, identity, config, health, registry, Options, step_of,
}
use env_forge.Steps.Vpc
use env_forge.Steps.Rds
use env_forge.Steps.Ec2
use env_forge.Steps.S3
use env_forge.Steps.Identity
use env_forge.Steps.Config
use env_forge.Steps.Health
use env_forge.Steps.Registry

module _ {D : Type 0} where
  recover-Returns :
      {A : Type 0} (f : Error → Action D A) (r : Result A) (s : Run D) (a : A)
      → r ≡ ok a
      → HasShort s.env
      → (b : A) × ((recover r f s).0 ≡ ok b) × HasShort (recover r f s).1.env
  recover-Returns f r s a e h = rw e (a, refl, h)

  Returns-catch :
      {A : Type 0} (m : Action D A) (f : Error → Action D A) → Returns m → Returns (catch m f)
  unfolding catch
  Returns-catch m f k = record {
    at = λ s h. let (a, e, h') = k.at s h in recover-Returns f (m s).0 (m s).1 a e h';
  }

  Returns-when : (b : Bool) (m : Action D (Unit {0})) → Returns m → Returns (when b m)
  unfolding when
  Returns-when true m k = k
  Returns-when false m k = Returns-pure tt

module _ {D : Type 0} (p : Options) (o : Oracle) (c : StateClient D) (laws : IsStateClient c)
    (stores : (e : Environment) (d : D) → (c.put e d).0 ≡ ok tt)
    (files : (before : List Call) (x : Call)
      → is_local x ≡ true
      → drop_answer (o before x) ≡ ok tt) where
  cleared-Returns :
      (f : Environment → Environment)
      → ((e : Environment) → (f e).id ≡ e.id)
      → Returns (set_env f >> put c)
  cleared-Returns f same =
      Returns-then _ _ (Returns-set_env f same) (put-Returns p o c laws stores files)

  remove_local-Returns : (path : Text) → Returns (Config.remove_local p.settings o c path)
  unfolding Config.remove_local
  remove_local-Returns path =
      Returns-then _ _
        (Returns-catch _ _ (file-Returns p o c laws stores files (remove_file path) refl))
        (Returns-set_env Config.clear (λ e. refl))

  -- In a dry run, on a worker without a connection to svid-exchange, where the store takes every Put
  -- and the local files can be removed, Compensate of every step returns without an error, if the id
  -- has eight bytes.
  pub compensate-returns :
      p.connected ≡ false
      → (k : Kind) (s : Run D) → HasShort s.env
      → s.env.dry_run ≡ true
      → ((step_of p o c k).compensate s).0 ≡ ok tt
  unfolding step_of Vpc.compensate Rds.compensate Ec2.compensate S3.compensate Identity.compensate
      Config.compensate Health.compensate Registry.compensate ◌>>=◌ get_env pure
  compensate-returns alone vpc s short h =
      dry-Returns p o c laws stores files s.env.dry_run _ _ s h short
        (cleared-Returns Vpc.clear (λ e. refl))
  compensate-returns alone rds s short h =
      dry-Returns p o c laws stores files s.env.dry_run _ _ s h short
        (cleared-Returns Rds.clear (λ e. refl))
  compensate-returns alone ec2 s short h =
      dry-Returns p o c laws stores files s.env.dry_run _ _ s h short
        (cleared-Returns Ec2.clear (λ e. refl))
  compensate-returns alone s3 s short h =
      dry-Returns p o c laws stores files s.env.dry_run _ _ s h short
        (cleared-Returns S3.clear (λ e. refl))
  compensate-returns alone identity s short h =
      dry-Returns p o c laws stores files (s.env.dry_run && not p.connected) _ _ s
        (rw (h, alone) refl) short (cleared-Returns Identity.clear (λ e. refl))
  compensate-returns alone config s short h =
      not_dry-Returns p o c laws stores files
        (not s.env.dry_run && not (is_empty s.env.s3_bucket_name)) _ _ s (rw h refl) short
        (Returns-then _ _ (Returns-when _ _ (remove_local-Returns _))
          (put-Returns p o c laws stores files))
  compensate-returns alone health s short h = refl
  compensate-returns alone registry s short h = ((cleared-Returns _ (λ e. refl)).at s short).1
