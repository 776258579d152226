-- ===== src/Api/Instances.antt =====
-- backend/api/instances.py: the EC2 service for callers who are signed in.
use aiops_aws.Prelude.{String, Option, none, List}
use aiops_aws.Outcome.{Result, ◌>>◌}
use aiops_aws.Security.{Env}
use aiops_aws.Ec2.{Client, Ec2InstanceSummary}
use aiops_aws.Ec2.Instances.{
  Ec2InstanceListResponse, Ec2InstanceSummaryResponse, list_instances, get_instance,
  summarize_instances,
}
use aiops_aws.Api.{Handler, in_session}
use aiops_aws.Api.Dependencies.{get_current_user}

-- a call that works on no state
abbrev pub stateless : {A : Type 0} → Result A → Handler A
stateless r q = (r, q)

module _ (env : Env) (ec2_client : String → Client) (aws_region : String) where
  unfoldable pub get_instances :
      Option String → Option (List String) → Handler Ec2InstanceListResponse
  unfolding in_session
  get_instances credentials state = do
    in_session (get_current_user env credentials)
    stateless (list_instances ec2_client aws_region none state)

  unfoldable pub get_instance_summary : Option String → Handler Ec2InstanceSummaryResponse
  unfolding in_session
  get_instance_summary credentials = do
    in_session (get_current_user env credentials)
    stateless (summarize_instances ec2_client aws_region none)

  unfoldable pub get_instance_by_id : Option String → String → Handler Ec2InstanceSummary
  unfolding in_session
  get_instance_by_id credentials instance_id = do
    in_session (get_current_user env credentials)
    stateless (get_instance ec2_client aws_region instance_id none)
