-- ===== src/Tests/Ec2.antt =====
-- The theorems on the EC2 service at concrete inputs.
use aiops_aws.Prelude.{
  contains, occurrences, String, ◌≡◌, ◌≤◌, ◌⊎◌, refl, Bool, true, false, Option, none, some, List,
  [], ◌∷◌, map, length, filter, any, IsAscending,
}
use aiops_aws.Outcome.{ok, err}
use aiops_aws.Ec2.{Instance, Client, returned, Ec2InstanceSummary, to_summary}
use aiops_aws.Ec2.States.{is_refused, normalize_states, invalid_state}
use aiops_aws.Ec2.Instances.{
  Ec2InstanceListResponse, Ec2InstanceSummaryResponse, Ec2StateCount, list_instances,
  summarize_instances,
}
use aiops_aws.Ec2.StateFilter.{asks_for, wanted, normalize_states-filter}
use aiops_aws.Ec2.Listed.{list_instances_complete}
use aiops_aws.Ec2.Counted.{amount, entries, in_state, summarize_instances-counts}

abbrev web : Instance
web = record {
  instance_id = "i-2";
  state_name = "running";
  instance_type = "t3.micro";
  tags = some (record { key = some "Name"; tag_value = some "web" } ∷ []);
  placement = some (some "us-east-1a");
  private_ip_address = some "10.0.0.10";
  public_ip_address = none;
  launch_time = some (record { isoformat = "2026-01-01T00:00:00"; has_zone = false });
}

abbrev job : Instance
job = record web { instance_id = "i-1"; state_name = "stopped"; tags = none }

abbrev raw : List Instance
raw = web ∷ job ∷ record web { instance_id = "i-3" } ∷ []

abbrev client : Client
client = record {
  paginate = λ filters. returned (
      some (some (web ∷ job ∷ []) ∷ none ∷ [])
      ∷ none
      ∷ some (some (record web { instance_id = "i-3" } ∷ []) ∷ [])
      ∷ []);
  describe_instance = λ id. returned (some (some (web ∷ []) ∷ []));
}

abbrev ec2_client : String → Client
ec2_client region = client

list_instances_complete_example :
    (answer : Ec2InstanceListResponse) × (list_instances ec2_client "eu-west-1" none none
      ≡ ok answer)
    × IsAscending (λ (i : Ec2InstanceSummary). i.instance_id) answer.items
    × ((p : Ec2InstanceSummary → Bool)
        → length (filter p answer.items) ≡ length (filter p (map to_summary raw)))
    × (answer.total ≡ 3)
list_instances_complete_example =
    list_instances_complete ec2_client "eu-west-1" none none none raw refl refl

summarize_instances-counts_example :
    (summary : Ec2InstanceSummaryResponse) × (summarize_instances ec2_client "eu-west-1"
        (some "us-east-1")
      ≡ ok summary)
    × (summary.total ≡ 3)
    × ((state : String) → amount state summary.by_state ≡ in_state state raw)
    × ((state : String) → entries state summary.by_state ≤ 1)
    × IsAscending (λ (c : Ec2StateCount). c.state) summary.by_state
summarize_instances-counts_example =
    summarize_instances-counts ec2_client "eu-west-1" (some "us-east-1") raw refl

abbrev asked : List String
asked = " Running" ∷ "" ∷ "stopped" ∷ "running" ∷ []

normalize_states-filter_example :
    ((any is_refused asked ≡ true)
      × (state : String) × (contains state asked ≡ true)
      × (is_refused state ≡ true)
      × (normalize_states (some asked) ≡ err (invalid_state state)))
    ⊎ ((any is_refused asked ≡ false)
        × (l : Option (List String)) × (normalize_states (some asked) ≡ ok l)
        × ((x : String)
            → (contains x (wanted l) ≡ any (asks_for x) asked) × (occurrences x (wanted l) ≤ 1)))
normalize_states-filter_example = normalize_states-filter asked
