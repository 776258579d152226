-- ===== src/Tests/Aws.antt =====
-- A concrete account for the tests of the CloudWatch collector and of the pipelines.
use aiops_aws.Prelude.{
  map, ℕ, ◌+◌, ◌*◌, ◌≤◌, String, Option, none, some, List, [], ◌∷◌, arith, str_eq, if◌then◌else◌,
}
use aiops_aws.Ec2.{Reply, returned, failed, boto_core_error}
use aiops_aws.CloudWatch.{Aws, MetricEntry, DevicePage, MetricDataResult, MetricQuery, Dimension}

-- a minute between the steps
abbrev pub test_clock : ℕ → ℕ
test_clock n = 1000000000 + n * 60000000

pub test_clock_mono : (n m : ℕ) → n ≤ m → test_clock n ≤ test_clock m
test_clock_mono n m le = omega (arith, le)

abbrev memory_dimensions : String → List Dimension
memory_dimensions i = record { dimension_name = "InstanceId"; dimension_value = i } ∷ []

abbrev pub test_metrics : String → String → Reply (Option (List MetricEntry))
test_metrics name i =
    if str_eq name "mem_used_percent"
    then returned (some (record { entry_dimensions = some (memory_dimensions i) } ∷ []))
    else returned (some [])

abbrev pub test_devices : DevicePage
test_devices = some (
    some (
      some (
        record { ebs = some (some "vol-1") }
        ∷ record { ebs = none }
        ∷ record { ebs = some (some "vol-2") }
        ∷ [])
      ∷ [])
    ∷ [])

-- three values, the newest in the middle
abbrev pub result_of : MetricQuery → MetricDataResult ℕ
result_of q = record {
  result_id = some q.query_id;
  values = some (70 ∷ 90 ∷ 10 ∷ []);
  timestamps = some (300 ∷ 600 ∷ 0 ∷ []);
}

abbrev pub test_aws : Aws ℕ
test_aws = record {
  clock = test_clock;
  list_metrics = λ n name i. test_metrics name i;
  describe_instances = λ n i. returned test_devices;
  get_metric_data = λ n queries start end_time. returned (some (map result_of queries));
  get_metric_statistics = λ n request. failed (boto_core_error "EndpointConnectionError");
}

-- the same account while CloudWatch has no data
abbrev pub dark_aws : Aws ℕ
dark_aws = record test_aws {
  get_metric_data = λ n queries start end_time. failed (boto_core_error "EndpointConnectionError");
}
