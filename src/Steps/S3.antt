-- ===== src/Steps/S3.antt =====
-- internal/steps/s3.go: the bucket of an environment. The paginator is followed for at most `fuel`
-- pages; past that the action is `hung`.
pub mod Pages
use env_forge.Prelude.{
  ℕ, zero, suc, if◌then◌else◌, Bool, not, true, false, List, [], ◌∷◌, ◌++◌, Option, none, some,
  Text, lit, is_empty, text_eq,
}
use env_forge.Environment.{Environment}
use env_forge.Cloud.{
  ObjectId, VersionPage, placeholder, Oracle, create_bucket, enable_versioning, put_object,
  next_version_page, delete_objects, delete_bucket,
}
use env_forge.Action.{
  StateClient, Action, ◌>>=◌, ◌>>◌, pure, hang, context, get_env, set_env, short_id, put, call,
  when, choose, invoke,
}

abbrev pub clear : Environment → Environment
clear e = record e { s3_bucket_name = [] }

-- CreateBucketConfiguration: every region but us-east-1 is named
unfoldable pub location_of : Text → Option Text
location_of region = if text_eq region (lit "us-east-1") then none else some region

unfoldable pub is_already_done : {D : Type 0} → Action D Bool
is_already_done = do env ← get_env; pure (not (is_empty env.s3_bucket_name))

-- len(toDelete) == 0
abbrev is_nil : List ObjectId → Bool
is_nil [] = true
is_nil (object ∷ objects) = false

abbrev pub to_delete : VersionPage → List ObjectId
to_delete page = page.versions ++ page.delete_markers

module _ {D : Type 0} (o : Oracle) where
  -- one round of the loop of deleteAllVersions, and whether there is another page
  unfoldable pub delete_page : Text → Action D Bool
  delete_page bucket = do
    page ← context (lit "list object versions") (call o (next_version_page bucket))
    when (not (is_nil (to_delete page)))
        (context (lit "delete objects") (invoke o (delete_objects bucket (to_delete page))))
    pure page.more

  unfoldable pub delete_all_versions : ℕ → Text → Action D (Unit {0})
  delete_all_versions zero bucket = hang
  delete_all_versions (suc fuel) bucket = do
    more ← delete_page bucket
    choose more (delete_all_versions fuel bucket) (pure tt)

module _ {D : Type 0} (fuel : ℕ) (region : Text) (o : Oracle) (c : StateClient D) where
  -- Execute, when env.DryRun
  unfoldable pub simulate : Action D (Unit {0})
  simulate = do
    short ← short_id
    set_env (λ e. record e { s3_bucket_name = lit "env-forge-dryrun-" ++ short })
    put c

  -- Execute, when not env.DryRun
  unfoldable pub provision : Action D (Unit {0})
  provision = do
    short ← short_id
    let bucket = lit "env-forge-" ++ short
    set_env (λ e. record e { s3_bucket_name = bucket })
    context (lit "create bucket") (invoke o (create_bucket bucket (location_of region)))
    context (lit "enable versioning") (invoke o (enable_versioning bucket))
    context (lit "put placeholder config")
        (invoke o (put_object bucket (lit "config.json") placeholder))
    put c

  unfoldable pub execute : Action D (Unit {0})
  execute = do env ← get_env; choose env.dry_run simulate provision

  -- Compensate, when not env.DryRun and there is a bucket
  unfoldable pub tear_down : Text → Action D (Unit {0})
  tear_down bucket = do
    delete_all_versions o fuel bucket
    context (lit "delete bucket") (invoke o (delete_bucket bucket))
    set_env clear
    put c

  unfoldable pub compensate : Action D (Unit {0})
  compensate = do
    env ← get_env
    choose env.dry_run (do set_env clear; put c)
        (choose (is_empty env.s3_bucket_name) (pure tt) (tear_down env.s3_bucket_name))
