-- ===== src/CloudWatch.antt =====
-- backend/aws/cloudwatch_collector.py: the metrics of an instance. What AWS answers is the
-- parameter `Aws`: the n-th call gets the n-th answer, which is a response or an exception, and
-- the clock is read like that too. `V` is the type of the values, Python's `float`. Times are
-- microseconds. The module's globals are the record `Collector`.
pub mod Caches
pub mod Queries
pub mod Results
pub mod Fetch
pub mod Lookups
pub mod Freshness
pub mod Staleness
pub mod Hits
pub mod Latest
pub mod Parsed
pub mod QueryIds
pub mod VolumeIds
pub mod Answered
use aiops_aws.Prelude.{ℕ, ◌*◌, String, Bool, Option, List, Dict}
use aiops_aws.Ec2.{Reply}

pub record Dimension : Type 0 where
  pub dimension_name : String
  pub dimension_value : String

pub record MetricQuery : Type 0 where
  pub query_id : String
  pub namespace : String
  pub metric_name : String
  pub dimensions : List Dimension
  pub period : ℕ
  pub stat : String
  pub return_data : Bool

-- an entry of `Metrics`, with its `Dimensions` where the key is there
pub record MetricEntry : Type 0 where
  pub entry_dimensions : Option (List Dimension)

-- a block device, with its `Ebs` and the `VolumeId` in it, where the keys are there
pub record Mapping : Type 0 where
  pub ebs : Option (Option String)

abbrev pub Devices : Type 0
Devices = Option (List Mapping)

abbrev pub DeviceReservation : Type 0
DeviceReservation = Option (List Devices)

abbrev pub DevicePage : Type 0
DevicePage = Option (List DeviceReservation)

pub record MetricDataResult (V : Type 0) : Type 0 where
  pub result_id : Option String
  pub values : Option (List V)
  pub timestamps : Option (List ℕ)

pub record Datapoint (V : Type 0) : Type 0 where
  pub timestamp : ℕ
  pub statistics : Dict V

-- the arguments of `get_metric_statistics`
pub record StatisticsRequest : Type 0 where
  pub namespace : String
  pub metric_name : String
  pub dimensions : List Dimension
  pub start_time : ℕ
  pub end_time : ℕ
  pub period : ℕ
  pub stat : String

pub record Aws (V : Type 0) : Type 0 where
  pub clock : ℕ → ℕ
  -- `list_metrics` in the namespace CWAgent, for a metric's name and an instance
  pub list_metrics : ℕ → String → String → Reply (Option (List MetricEntry))
  pub describe_instances : ℕ → String → Reply DevicePage
  -- for queries, a start and an end
  pub get_metric_data : ℕ → List MetricQuery → ℕ → ℕ → Reply (Option (List (MetricDataResult V)))
  pub get_metric_statistics : ℕ → StatisticsRequest → Reply (Option (List (Datapoint V)))

pub record Collector : Type 0 where
  pub cwagent_dimensions_cache : Dict (Dict (List Dimension))
  pub volume_ids_cache : Dict (List String)
  pub cache_last_refresh : ℕ
  -- how often the clock or AWS was asked
  pub step : ℕ

abbrev pub cache_ttl : ℕ
cache_ttl = 15 * 60000000
