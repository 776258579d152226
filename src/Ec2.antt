-- ===== src/Ec2.antt =====
-- backend/aws/ec2_service.py: the instances of an account. The client of boto3 is the parameter
-- `Client`, one for each region; a call of it returns or raises. The operations are in the child
-- modules.
pub mod States
pub mod Instances
pub mod StateFilter
pub mod Listed
pub mod Counted
use Prim.Native.String
use aiops_aws.Prelude.{
  String, Bool, true, false, Option, none, some, List, [], ◌∷◌, ◌++◌, str_eq, if◌then◌else◌,
}
use aiops_aws.Outcome.{Result, ok, err, Error, http_exception}

pub record Tag : Type 0 where
  pub key : Option String
  pub tag_value : Option String

-- a `datetime`: what `isoformat()` gives, and whether it has a zone
pub record Moment : Type 0 where
  pub isoformat : String
  pub has_zone : Bool

-- The keys of an instance's dictionary that the code reads. AWS documents the first three as
-- always present.
pub record Instance : Type 0 where
  pub instance_id : String
  pub state_name : String
  pub instance_type : String
  pub tags : Option (List Tag)
  pub placement : Option (Option String)
  pub private_ip_address : Option String
  pub public_ip_address : Option String
  pub launch_time : Option Moment

-- A reservation with its instances, and a page with its reservations, where the keys are there.
abbrev pub Reservation : Type 0
Reservation = Option (List Instance)

abbrev pub Page : Type 0
Page = Option (List Reservation)

pub data AwsError : Type 0 where
  client_error : String → String → AwsError
  boto_core_error : String → AwsError

pub data Reply (A : Type 0) : Type 0 where
  returned : A → Reply A
  failed : AwsError → Reply A

-- `describe_instances`, by its pages under a filter on states, and for one id.
pub record Client : Type 0 where
  pub paginate : Option (List String) → Reply (List Page)
  pub describe_instance : String → Reply Page

pub record Ec2InstanceSummary : Type 0 where
  pub instance_id : String
  pub name : Option String
  pub state : String
  pub instance_type : String
  pub availability_zone : Option String
  pub private_ip : Option String
  pub public_ip : Option String
  pub launch_time : Option String

abbrev matches_key : Option String → String → Bool
matches_key none key = false
matches_key (some k) key = str_eq k key

abbrev pub find_tag : List Tag → String → Option String
find_tag [] key = none
find_tag (tag ∷ tags) key =
    let rest = find_tag tags key in if matches_key tag.key key then tag.tag_value else rest

-- `_tag_value`
abbrev pub tag_value_of : Option (List Tag) → String → Option String
tag_value_of none key = none
tag_value_of (some tags) key = find_tag tags key

-- `_format_launch_time`
abbrev pub format_launch_time : Option Moment → Option String
format_launch_time none = none
format_launch_time (some t) = some (if t.has_zone then t.isoformat else String.◌++◌ t.isoformat "Z")

abbrev zone_of : Option (Option String) → Option String
zone_of none = none
zone_of (some zone) = zone

-- `_to_summary`
abbrev pub to_summary : Instance → Ec2InstanceSummary
to_summary i = record {
  instance_id = i.instance_id;
  name = tag_value_of i.tags "Name";
  state = i.state_name;
  instance_type = i.instance_type;
  availability_zone = zone_of i.placement;
  private_ip = i.private_ip_address;
  public_ip = i.public_ip_address;
  launch_time = format_launch_time i.launch_time;
}

abbrev pub reservation_instances : List Reservation → List Instance
reservation_instances [] = []
reservation_instances (none ∷ rs) = reservation_instances rs
reservation_instances (some is ∷ rs) = is ++ reservation_instances rs

abbrev pub page_instances : Page → List Instance
page_instances none = []
page_instances (some rs) = reservation_instances rs

abbrev pub all_instances : List Page → List Instance
all_instances [] = []
all_instances (page ∷ pages) = page_instances page ++ all_instances pages

-- `str(exc)`, which holds the text of the error
abbrev pub message : AwsError → String
message (client_error code text) = text
message (boto_core_error text) = text

abbrev pub bad_gateway : String → AwsError → Error
bad_gateway what e = http_exception 502 (String.◌++◌ what (message e))

abbrev fetched : Reply (List Page) → Result (List Instance)
fetched (returned pages) = ok (all_instances pages)
fetched (failed e) = err (bad_gateway "Failed to fetch EC2 instances from AWS: " e)

-- `_fetch_instances`
abbrev pub fetch_instances : Client → Option (List String) → Result (List Instance)
fetch_instances client states = fetched (client.paginate states)

-- `region or AWS_REGION`
abbrev pub resolved_region : String → Option String → String
resolved_region aws_region none = aws_region
resolved_region aws_region (some region) = if str_eq region "" then aws_region else region
