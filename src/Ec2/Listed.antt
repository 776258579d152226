-- ===== src/Ec2/Listed.antt =====
-- backend/aws/ec2_service.py: the answer of `list_instances`.
use aiops_aws.Prelude.{
  String, ◌≡◌, refl, Bool, Option, List, map, length, filter, IsAscending, sorted-IsAscending,
  length-filter-sorted, length-sorted, length-map, ◌∙◌,
}
use aiops_aws.Outcome.{ok}
use aiops_aws.Ec2.{
  Instance, Client, Ec2InstanceSummary, to_summary, fetch_instances, resolved_region,
}
use aiops_aws.Ec2.States.{normalize_states}
use aiops_aws.Ec2.Instances.{Ec2InstanceListResponse, list_instances, by_id}

-- Where the states are accepted and AWS answers, the list of instances succeeds; its items are in
-- the order of their ids, and hold the summaries of the instances of the answer, each as
-- often as the answer has it; the total is the number of instances.
pub list_instances_complete :
    (ec2_client : String → Client) (aws_region : String) (region : Option String)
    (states normalized : Option (List String)) (raw : List Instance)
    → normalize_states states ≡ ok normalized
    → fetch_instances (ec2_client (resolved_region aws_region region)) normalized ≡ ok raw
    → (answer : Ec2InstanceListResponse) × (list_instances ec2_client aws_region region states
        ≡ ok answer)
      × IsAscending (λ (i : Ec2InstanceSummary). i.instance_id) answer.items
      × ((p : Ec2InstanceSummary → Bool)
          → length (filter p answer.items) ≡ length (filter p (map to_summary raw)))
      × (answer.total ≡ length raw)
unfolding list_instances
list_instances_complete ec2_client aws_region region states normalized raw e f = (
  record {
    region = resolved_region aws_region region;
    total = length (by_id (map to_summary raw));
    items = by_id (map to_summary raw);
  },
  rw (e, f) refl,
  sorted-IsAscending (λ (i : Ec2InstanceSummary). i.instance_id) (map to_summary raw),
  (λ p. length-filter-sorted (λ (i : Ec2InstanceSummary). i.instance_id) p (map to_summary raw)),
  length-sorted (λ (i : Ec2InstanceSummary). i.instance_id) (map to_summary raw)
      ∙ length-map to_summary raw,
)
