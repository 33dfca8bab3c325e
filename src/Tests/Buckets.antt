-- ===== src/Tests/Buckets.antt =====
-- The theorems on tear-downs: that of a bucket whose listing has two pages, and those of a network, a
-- database and an instance.
use mathlib.Core.Option
use env_forge.Prelude.{
  ◌≡◌, ◌≢◌, ap, ◌∙◌, ℕ, if◌then◌else◌, Bool, true, false, not, ◌||◌, List, [], ◌∷◌, ◌++◌, none,
  some, lit, arith,
}
use env_forge.Environment.{Environment}
use env_forge.Environment.Json.{marshal}
use env_forge.Environment.Store
use env_forge.Environment.Store.{Store, client}
use env_forge.Go.{Result, ok, err, other, hung}
use env_forge.Cloud.{
  Call, Oracle, VersionPage, ObjectId, next_version_page, delete_objects, delete_bucket,
}
use env_forge.Action.{Run}
use env_forge.Steps.S3
use env_forge.Steps.Vpc
use env_forge.Steps.Rds
use env_forge.Steps.Ec2
use env_forge.Action.Follows.{Followed}
use env_forge.Steps.Teardown.{vpc_plan, rds_plan, ec2_plan, compensate-Followed}
use env_forge.Steps.S3.Pages.{IsPaged, compensate-ne_hung}
use env_forge.Tests.Memory.{Memory, memory}
use env_forge.Tests.Samples.{planned, local, services, two_stored, clock}

abbrev is_page : Call → Bool
is_page (next_version_page bucket) = true
is_page _ = false

abbrev has_page : List Call → Bool
has_page [] = false
has_page (x ∷ xs) = is_page x || has_page xs

abbrev object : ObjectId
object = record { key = some (lit "config.json"); version = none }

-- the first page has another after it
unfoldable two_pages : Oracle
two_pages before (next_version_page bucket) =
    ok (record { versions = object ∷ []; delete_markers = []; more = not (has_page before) })
two_pages before (delete_objects bucket objects) = ok tt
two_pages before (delete_bucket bucket) = ok tt
two_pages before _ = err (other (lit "unavailable"))

abbrev left : List Call → ℕ
left before = if has_page before then 0 else 1

has_page-append : (xs : List Call) (x : Call) → has_page (xs ++ x ∷ []) ≡ (has_page xs || is_page x)
has_page-append [] x = ground arith
has_page-append (y ∷ xs) x = let e = has_page-append xs x in ground arith

abbrev bucket_made : Run (Store Memory)
bucket_made = record {
  env = record planned { s3_bucket_name = lit "env-forge-0a1b2c3d" };
  db = two_stored;
  calls = [];
}

two_pages-ne : (before : List Call) (x : Call) → two_pages before x ≢ hung
unfolding two_pages
two_pages-ne before (next_version_page bucket) h = cc h
two_pages-ne before (delete_objects bucket objects) h = cc h
two_pages-ne before (delete_bucket bucket) h = cc h
two_pages-ne before _ h = cc h

abbrev more_of : Result VersionPage → Bool
more_of (ok page) = page.more
more_of _ = false

two_pages-IsPaged : IsPaged two_pages bucket_made.env.s3_bucket_name left
unfolding two_pages
two_pages-IsPaged = record {
  answers = two_pages-ne;
  falls = λ before page h more.
      let e = has_page-append before (next_version_page bucket_made.env.s3_bucket_name) in
      let first : not (has_page before) ≡ true = ap more_of h ∙ more in ground arith;
  keeps = λ before objects.
      let e = has_page-append before (delete_objects bucket_made.env.s3_bucket_name objects) in
      ground arith;
}

stored : (e : Environment) (d : Store Memory) → (local.put e d).0 ≢ hung
unfolding local client Store.put marshal Option.bind clock memory
stored e d h = cc h

compensate-ne_hung_example :
    (S3.compensate 3 (lit "us-east-1") two_pages local bucket_made).0 ≢ hung
compensate-ne_hung_example =
    compensate-ne_hung 3 (lit "us-east-1") two_pages local left bucket_made two_pages-IsPaged stored
      (omega arith)

abbrev all_made : Run (Store Memory)
all_made = record {
  env = record planned {
    vpc_id = lit "vpc-1";
    public_subnet_id = lit "subnet-1";
    rds_instance_id = lit "db-1";
    ec2_instance_id = lit "i-1";
  };
  db = two_stored;
  calls = [];
}

compensate-Followed_example :
    Followed
      (vpc_plan all_made.env)
      all_made
      (Vpc.compensate services local all_made).1
      (Vpc.compensate services local all_made).0
    × Followed
        (rds_plan all_made.env)
        all_made
        (Rds.compensate services local all_made).1
        (Rds.compensate services local all_made).0
    × Followed
        (ec2_plan all_made.env)
        all_made
        (Ec2.compensate services local all_made).1
        (Ec2.compensate services local all_made).0
compensate-Followed_example = compensate-Followed services local all_made
