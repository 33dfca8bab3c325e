-- ===== src/Environment/Json.antt =====
-- encoding/json as internal/environment/store.go uses it, at the level of JSON values: the text
-- between a value and its bytes is left out. A key is matched as Go matches it, without regard to
-- the case of ASCII letters, and of two members for one field the later one stays.
pub mod RoundTrip
use mathlib.Core.Option
use env_forge.Prelude.{
  ℕ, ◌+◌, leb, if◌then◌else◌, Bool, false, ◌&&◌, List, [], ◌∷◌, Option, none, some, Text, lit,
  text_eq, map, ◌≡◌,
}
use env_forge.Environment.{Environment}

mutual
  pub data Json : Type 0 where
    null : Json
    bool : Bool → Json
    num : ℕ → Json
    str : Text → Json
    arr : Items → Json
    obj : Members → Json

  pub data Items : Type 0 where
    nil : Items
    cons : Json → Items → Items

  pub data Members : Type 0 where
    end : Members
    member : Text → Json → Members → Members

-- time.Time as JSON text. `format` fails for a year past 9999.
pub record TimeText : Type 0 where
  pub format : ℕ → Option Text
  pub parse : Text → Option ℕ
  pub parse-format : (t : ℕ) (s : Text) → format t ≡ some s → parse s ≡ some t

pub data Field : Type 0 where
  id owner status saga_id dry_run created_at updated_at vpc_id public_subnet_id : Field
  private_subnet_id security_group_id rds_instance_id rds_endpoint rds_password : Field
  ec2_instance_id ec2_public_ip s3_bucket_name spire_entry_ids : Field
  svid_exchange_policy_name local_env_path fail_at_health : Field

abbrev all_fields : List Field
all_fields =
    id ∷ owner ∷ status ∷ saga_id ∷ dry_run ∷ created_at ∷ updated_at ∷ vpc_id ∷ public_subnet_id
    ∷ private_subnet_id ∷ security_group_id ∷ rds_instance_id ∷ rds_endpoint ∷ rds_password
    ∷ ec2_instance_id ∷ ec2_public_ip ∷ s3_bucket_name ∷ spire_entry_ids ∷ svid_exchange_policy_name
    ∷ local_env_path ∷ fail_at_health ∷ []

-- the `json:"..."` tags
unfoldable pub tag : Field → Text
tag id = lit "id"
tag owner = lit "owner"
tag status = lit "status"
tag saga_id = lit "saga_id"
tag dry_run = lit "dry_run"
tag created_at = lit "created_at"
tag updated_at = lit "updated_at"
tag vpc_id = lit "vpc_id"
tag public_subnet_id = lit "public_subnet_id"
tag private_subnet_id = lit "private_subnet_id"
tag security_group_id = lit "security_group_id"
tag rds_instance_id = lit "rds_instance_id"
tag rds_endpoint = lit "rds_endpoint"
tag rds_password = lit "rds_password"
tag ec2_instance_id = lit "ec2_instance_id"
tag ec2_public_ip = lit "ec2_public_ip"
tag s3_bucket_name = lit "s3_bucket_name"
tag spire_entry_ids = lit "spire_entry_ids"
tag svid_exchange_policy_name = lit "svid_exchange_policy_name"
tag local_env_path = lit "local_env_path"
tag fail_at_health = lit "fail_at_health"

abbrev lower : ℕ → ℕ
lower c = if leb b'A' c && leb c b'Z' then c + 32 else c

find_field : Text → List Field → Option Field
find_field key [] = none
find_field key (f ∷ fs) = if text_eq (map lower key) (tag f) then some f else find_field key fs

-- the field that a member's key names
unfoldable pub field_of : Text → Option Field
unfolding find_field
field_of key = find_field key all_fields

abbrev pub zero_env : Environment
zero_env = record {
  id = [];
  owner = [];
  status = [];
  saga_id = [];
  dry_run = false;
  created_at = 0;
  updated_at = 0;
  vpc_id = [];
  public_subnet_id = [];
  private_subnet_id = [];
  security_group_id = [];
  rds_instance_id = [];
  rds_endpoint = [];
  rds_password = [];
  ec2_instance_id = [];
  ec2_public_ip = [];
  s3_bucket_name = [];
  spire_entry_ids = [];
  svid_exchange_policy_name = [];
  local_env_path = [];
  fail_at_health = false;
}

-- A null leaves a text or a Boolean as it is, and makes a slice nil.
abbrev pub text_value : Text → Json → Option Text
text_value old null = some old
text_value old (str s) = some s
text_value old _ = none

abbrev pub bool_value : Bool → Json → Option Bool
bool_value old null = some old
bool_value old (bool b) = some b
bool_value old _ = none

abbrev pub text_items : Items → Option (List Text)
text_items nil = some []
text_items (cons v vs) =
    Option.bind (text_value [] v) (λ s. Option.map (λ l. s ∷ l) (text_items vs))

abbrev pub list_value : Json → Option (List Text)
list_value null = some []
list_value (arr vs) = text_items vs
list_value _ = none

abbrev pub encode_items : List Text → Items
encode_items [] = nil
encode_items (s ∷ l) = cons (str s) (encode_items l)

-- a nil slice is null
abbrev pub encode_list : List Text → Json
encode_list [] = null
encode_list (s ∷ l) = arr (encode_items (s ∷ l))

module _ (t : TimeText) where
  abbrev pub time_value : ℕ → Json → Option ℕ
  time_value old null = some old
  time_value old (str s) = t.parse s
  time_value old _ = none

  unfoldable pub assign : Field → Json → Environment → Option Environment
  assign id v e = Option.map (λ x. record e { id = x }) (text_value e.id v)
  assign owner v e = Option.map (λ x. record e { owner = x }) (text_value e.owner v)
  assign status v e = Option.map (λ x. record e { status = x }) (text_value e.status v)
  assign saga_id v e = Option.map (λ x. record e { saga_id = x }) (text_value e.saga_id v)
  assign dry_run v e = Option.map (λ x. record e { dry_run = x }) (bool_value e.dry_run v)
  assign created_at v e = Option.map (λ x. record e { created_at = x }) (time_value e.created_at v)
  assign updated_at v e = Option.map (λ x. record e { updated_at = x }) (time_value e.updated_at v)
  assign vpc_id v e = Option.map (λ x. record e { vpc_id = x }) (text_value e.vpc_id v)
  assign public_subnet_id v e =
      Option.map (λ x. record e { public_subnet_id = x }) (text_value e.public_subnet_id v)
  assign private_subnet_id v e =
      Option.map (λ x. record e { private_subnet_id = x }) (text_value e.private_subnet_id v)
  assign security_group_id v e =
      Option.map (λ x. record e { security_group_id = x }) (text_value e.security_group_id v)
  assign rds_instance_id v e =
      Option.map (λ x. record e { rds_instance_id = x }) (text_value e.rds_instance_id v)
  assign rds_endpoint v e =
      Option.map (λ x. record e { rds_endpoint = x }) (text_value e.rds_endpoint v)
  assign rds_password v e =
      Option.map (λ x. record e { rds_password = x }) (text_value e.rds_password v)
  assign ec2_instance_id v e =
      Option.map (λ x. record e { ec2_instance_id = x }) (text_value e.ec2_instance_id v)
  assign ec2_public_ip v e =
      Option.map (λ x. record e { ec2_public_ip = x }) (text_value e.ec2_public_ip v)
  assign s3_bucket_name v e =
      Option.map (λ x. record e { s3_bucket_name = x }) (text_value e.s3_bucket_name v)
  assign spire_entry_ids v e = Option.map (λ x. record e { spire_entry_ids = x }) (list_value v)
  assign svid_exchange_policy_name v e =
      Option.map (λ x. record e { svid_exchange_policy_name = x })
        (text_value e.svid_exchange_policy_name v)
  assign local_env_path v e =
      Option.map (λ x. record e { local_env_path = x }) (text_value e.local_env_path v)
  assign fail_at_health v e =
      Option.map (λ x. record e { fail_at_health = x }) (bool_value e.fail_at_health v)

  -- one member, whose key is skipped if it names no field
  unfoldable pub assign_key : Option Field → Json → Environment → Option Environment
  assign_key none v e = some e
  assign_key (some f) v e = assign f v e

  unfoldable pub decode_members : Members → Environment → Option Environment
  decode_members end e = some e
  decode_members (member k v ms) e = Option.bind (assign_key (field_of k) v e) (decode_members ms)

  -- json.Unmarshal(data, &env), for a fresh `env`; `none` is its error
  unfoldable pub unmarshal : Json → Option Environment
  unmarshal null = some zero_env
  unmarshal (obj ms) = decode_members ms zero_env
  unmarshal _ = none

-- a struct's members, in the order of its fields
abbrev pub members : List (Field × Json) → Members
members [] = end
members ((f, v) ∷ rest) = member (tag f) v (members rest)

-- an environment's fields, given the texts of its two times
abbrev pub fields_of : Text → Text → Environment → List (Field × Json)
fields_of created updated e =
    (id, str e.id)
    ∷ (owner, str e.owner)
    ∷ (status, str e.status)
    ∷ (saga_id, str e.saga_id)
    ∷ (dry_run, bool e.dry_run)
    ∷ (created_at, str created)
    ∷ (updated_at, str updated)
    ∷ (vpc_id, str e.vpc_id)
    ∷ (public_subnet_id, str e.public_subnet_id)
    ∷ (private_subnet_id, str e.private_subnet_id)
    ∷ (security_group_id, str e.security_group_id)
    ∷ (rds_instance_id, str e.rds_instance_id)
    ∷ (rds_endpoint, str e.rds_endpoint)
    ∷ (rds_password, str e.rds_password)
    ∷ (ec2_instance_id, str e.ec2_instance_id)
    ∷ (ec2_public_ip, str e.ec2_public_ip)
    ∷ (s3_bucket_name, str e.s3_bucket_name)
    ∷ (spire_entry_ids, encode_list e.spire_entry_ids)
    ∷ (svid_exchange_policy_name, str e.svid_exchange_policy_name)
    ∷ (local_env_path, str e.local_env_path)
    ∷ (fail_at_health, bool e.fail_at_health)
    ∷ []

-- json.Marshal(env); `none` is its error
unfoldable pub marshal : TimeText → Environment → Option Json
marshal t e = Option.bind (t.format e.created_at) (λ created.
    Option.map (λ updated. obj (members (fields_of created updated e))) (t.format e.updated_at))
