-- ===== src/Ec2/Instances.antt =====
-- backend/aws/ec2_service.py: the instances listed, looked up and counted by state.
use aiops_aws.Prelude.{
  ℕ, suc, String, Bool, ◌||◌, Option, none, List, [], ◌∷◌, map, length, str_eq, sorted,
  if◌then◌else◌,
}
use aiops_aws.Outcome.{Result, ok, err, http_exception}
use aiops_aws.Ec2.{
  Instance, Page, client_error, boto_core_error, Reply, returned, failed, Client,
  Ec2InstanceSummary, to_summary, page_instances, bad_gateway, fetch_instances, resolved_region,
}
use aiops_aws.Ec2.States.{normalize_states}

pub record Ec2InstanceListResponse : Type 0 where
  pub region : String
  pub total : ℕ
  pub items : List Ec2InstanceSummary

abbrev pub by_id : List Ec2InstanceSummary → List Ec2InstanceSummary
by_id = sorted (λ (i : Ec2InstanceSummary). i.instance_id)

abbrev pub listed : String → Result (List Instance) → Result Ec2InstanceListResponse
listed region (err e) = err e
listed region (ok raw) =
    let items = by_id (map to_summary raw) in
    ok (record { region = region; total = length items; items = items })

abbrev list_normalized :
    Client → String → Result (Option (List String)) → Result Ec2InstanceListResponse
list_normalized client region (err e) = err e
list_normalized client region (ok states) = listed region (fetch_instances client states)

module _ (ec2_client : String → Client) (aws_region : String) where
  unfoldable pub list_instances :
      Option String → Option (List String) → Result Ec2InstanceListResponse
  list_instances region states =
      let r = resolved_region aws_region region in
      list_normalized (ec2_client r) r (normalize_states states)

abbrev pub is_missing : String → Bool
is_missing code =
    str_eq code "InvalidInstanceID.NotFound" || str_eq code "InvalidInstanceID.Malformed"

abbrev first_summary : List Instance → Result Ec2InstanceSummary
first_summary [] = err (http_exception 404 "Instance not found")
first_summary (i ∷ is) = ok (to_summary i)

abbrev described : Reply Page → Result Ec2InstanceSummary
described (returned page) = first_summary (page_instances page)
described (failed (client_error code text)) = err (
    if is_missing code
    then http_exception 404 "Instance not found"
    else bad_gateway "Failed to fetch EC2 instance from AWS: " (client_error code text))
described (failed (boto_core_error text)) =
    err (bad_gateway "Failed to fetch EC2 instance from AWS: " (boto_core_error text))

module _ (ec2_client : String → Client) (aws_region : String) where
  unfoldable pub get_instance : String → Option String → Result Ec2InstanceSummary
  get_instance instance_id region =
      described ((ec2_client (resolved_region aws_region region)).describe_instance instance_id)

pub record Ec2StateCount : Type 0 where
  pub state : String
  pub count : ℕ

-- `Counter`, one more of a state: new keys go to the end
abbrev pub count_one : String → List Ec2StateCount → List Ec2StateCount
count_one state [] = record { state = state; count = 1 } ∷ []
count_one state (c ∷ counts) =
    let rest = count_one state counts in
    if str_eq c.state state then record c { count = suc c.count } ∷ counts else c ∷ rest

abbrev pub count_from : List Ec2StateCount → List Instance → List Ec2StateCount
count_from counts [] = counts
count_from counts (i ∷ is) = count_from (count_one i.state_name counts) is

pub record Ec2InstanceSummaryResponse : Type 0 where
  pub region : String
  pub total : ℕ
  pub by_state : List Ec2StateCount

abbrev pub by_state_name : List Ec2StateCount → List Ec2StateCount
by_state_name = sorted (λ (c : Ec2StateCount). c.state)

abbrev pub summarized : String → Result (List Instance) → Result Ec2InstanceSummaryResponse
summarized region (err e) = err e
summarized region (ok raw) =
    ok
      (record { region = region; total = length raw; by_state = by_state_name (count_from [] raw) })

module _ (ec2_client : String → Client) (aws_region : String) where
  unfoldable pub summarize_instances : Option String → Result Ec2InstanceSummaryResponse
  summarize_instances region =
      let r = resolved_region aws_region region in
      summarized r (fetch_instances (ec2_client r) none)
