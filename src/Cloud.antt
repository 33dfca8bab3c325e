-- ===== src/Cloud.antt =====
-- The services that the code calls and that are not part of it: AWS, svid-exchange, the operating
-- system, the database driver. A call is recorded with its inputs, and an `Oracle` answers it from
-- all the calls made before, so that it stands for any behaviour of those services. Tags that are
-- the same in every call are left out of the inputs, and a nil pointer in an answer is `none`.
use env_forge.Prelude.{ℕ, Bool, List, Option, Text, ℤ}
use env_forge.Go.{Result}

-- *adminv1.PolicyRule
pub record PolicyRule : Type 0 where
  pub name : Text
  pub subject : Text
  pub target : Text
  pub allowed_scopes : List Text
  pub max_ttl : ℤ

-- *adminv1.PolicyEntry
pub record PolicyEntry : Type 0 where
  pub rule : Option PolicyRule
  pub source : Text

-- *adminv1.RevokedToken; the expiry is a Unix time
pub record RevokedToken : Type 0 where
  pub token_id : Text
  pub expires_at : ℤ

-- rdstypes.DBInstance: its status, and the endpoint's address with what `%d` prints of its port
pub record DbInstance : Type 0 where
  pub status : Option Text
  pub endpoint : Option (Option Text × Text)

-- ec2types.Instance: its id, its public address, and the name in its state
pub record Instance : Type 0 where
  pub instance_id : Option Text
  pub public_ip : Option Text
  pub state : Option Text

-- s3types.ObjectIdentifier
pub record ObjectId : Type 0 where
  pub key : Option Text
  pub version : Option Text

-- A page of ListObjectVersions, and whether the paginator has another.
pub record VersionPage : Type 0 where
  pub versions : List ObjectId
  pub delete_markers : List ObjectId
  pub more : Bool

-- envConfig of internal/steps/config.go
pub record EnvConfig : Type 0 where
  pub env_id : Text
  pub rds_endpoint : Text
  pub rds_password : Text
  pub s3_bucket_name : Text
  pub spiffe_socket_path : Text
  pub svid_exchange_addr : Text
  pub jwks_endpoint : Text
  pub trust_domain : Text

-- What is uploaded: `{}`, or the text that json.MarshalIndent makes of a configuration.
pub data Upload : Type 0 where
  placeholder : Upload
  config : EnvConfig → Upload

pub data Call : Type 0 where
  -- EC2: networking
  create_vpc : (cidr env_id name : Text) → Call
  enable_dns_hostnames : (vpc : Option Text) → Call
  wait_vpc_available : (vpc : Text) → Call
  create_subnet : (vpc cidr env_id name : Text) → Call
  create_security_group : (name description vpc env_id : Text) → Call
  authorize_ingress : (group protocol : Text) (from_port to_port : ℕ) (cidr : Text) → Call
  delete_security_group : (group : Text) → Call
  delete_subnet : (subnet : Text) → Call
  delete_vpc : (vpc : Text) → Call
  -- RDS
  create_db_instance : (id password subnet_group security_group env_id : Text) → Call
  wait_db_available : (id : Text) → Call
  describe_db_instances : (id : Text) → Call
  delete_db_instance : (id : Text) → Call
  wait_db_deleted : (id : Text) → Call
  -- EC2: instances
  run_instances : (image subnet security_group env_id name : Text) → Call
  wait_instance_running : (id : Text) → Call
  describe_instances : (id : Text) → Call
  terminate_instances : (id : Text) → Call
  wait_instance_terminated : (id : Text) → Call
  -- S3
  create_bucket : (bucket : Text) (location : Option Text) → Call
  enable_versioning : (bucket : Text) → Call
  put_object : (bucket key : Text) (body : Upload) → Call
  delete_object : (bucket key : Text) → Call
  next_version_page : (bucket : Text) → Call
  delete_objects : (bucket : Text) (objects : List ObjectId) → Call
  delete_bucket : (bucket : Text) → Call
  -- svid-exchange PolicyAdmin
  create_policy : PolicyRule → Call
  list_policies : Call
  reload_policy : Call
  delete_policy : (name : Text) → Call
  revoke_token : (token_id : Text) (expires_at : ℤ) → Call
  list_revoked_tokens : Call
  -- the operating system
  rand_read : (bytes : ℕ) → Call
  mkdir_all : (dir : Text) → Call
  write_file : (path content : Text) → Call
  remove_file : (path : Text) → Call
  -- database/sql
  sql_open : (dsn : Text) → Call
  sql_ping : Call
  sql_select_1 : Call
  sql_close : Call

-- What a call that succeeds gives back.
abbrev pub Reply : Call → Type 0
Reply (create_vpc cidr env_id name) = Option (Option Text)
Reply (create_subnet vpc cidr env_id name) = Option (Option Text)
Reply (create_security_group name description vpc env_id) = Option Text
Reply (describe_db_instances id) = List DbInstance
Reply (run_instances image subnet group env_id name) = List Instance
Reply (describe_instances id) = List (List Instance)
Reply (next_version_page bucket) = VersionPage
Reply list_policies = List PolicyEntry
Reply list_revoked_tokens = List RevokedToken
Reply (rand_read bytes) = Text
Reply _ = Unit

-- The calls so far, oldest first, and the call to answer.
abbrev pub Oracle : Type 0
Oracle = (before : List Call) (c : Call) → Result (Reply c)
