-- ===== src/CloudWatch/Queries.antt =====
-- backend/aws/cloudwatch_collector.py: the queries of a batch.
use Prim.Native.String
use aiops_aws.Prelude.{
  String, true, Option, none, some, List, [], ◌∷◌, ◌++◌, map, Dict, lookup, lower, replace_char,
}
use aiops_aws.CloudWatch.{Dimension, MetricQuery}
use aiops_aws.CloudWatch.Caches.{all_cwagent_metrics}

abbrev pub ec2_metrics : Dict String
ec2_metrics =
    ("CPUUtilization", "Average")
    ∷ ("NetworkIn", "Sum")
    ∷ ("NetworkOut", "Sum")
    ∷ ("NetworkPacketsIn", "Sum")
    ∷ ("NetworkPacketsOut", "Sum")
    ∷ ("DiskReadOps", "Sum")
    ∷ ("DiskWriteOps", "Sum")
    ∷ ("DiskReadBytes", "Sum")
    ∷ ("DiskWriteBytes", "Sum")
    ∷ []

abbrev pub ebs_metrics : Dict String
ebs_metrics =
    ("VolumeReadBytes", "Sum")
    ∷ ("VolumeWriteBytes", "Sum")
    ∷ ("VolumeReadOps", "Sum")
    ∷ ("VolumeWriteOps", "Sum")
    ∷ []

-- the dictionary that is appended for a metric
abbrev pub query : String → String → List Dimension → String × String → MetricQuery
query id namespace dimensions (metric_name, stat) = record {
  query_id = id;
  namespace = namespace;
  metric_name = metric_name;
  dimensions = dimensions;
  period = 300;
  stat = stat;
  return_data = true;
}

abbrev pub instance_dimensions : String → List Dimension
instance_dimensions instance_id =
    record { dimension_name = "InstanceId"; dimension_value = instance_id } ∷ []

unfoldable pub ec2_queries : String → List MetricQuery
unfolding lower
ec2_queries instance_id =
    map (λ m. query (lower m.0) "AWS/EC2" (instance_dimensions instance_id) m) ec2_metrics

-- no query where the metric was not discovered, or with no dimensions
abbrev pub cwagent_query : Option (List Dimension) → String × String → List MetricQuery
cwagent_query none m = []
cwagent_query (some []) m = []
cwagent_query (some (d ∷ ds)) m = query (lower m.0) "CWAgent" (d ∷ ds) m ∷ []

abbrev pub cwagent_each : Dict (List Dimension) → Dict String → List MetricQuery
cwagent_each discovered [] = []
cwagent_each discovered (m ∷ ms) =
    cwagent_query (lookup m.0 discovered) m ++ cwagent_each discovered ms

unfoldable pub cwagent_queries : Dict (List Dimension) → List MetricQuery
unfolding lower
cwagent_queries discovered = cwagent_each discovered all_cwagent_metrics

-- `vol_id.replace("-", "_")`
abbrev pub safe_vol_id : String → String
safe_vol_id = replace_char b'-' "_"

-- f"{metric_name.lower()}_{safe_vol_id}"
abbrev pub volume_query_id : String → String → String
volume_query_id metric_name vol_id =
    String.◌++◌ (lower metric_name) (String.◌++◌ "_" (safe_vol_id vol_id))

abbrev pub volume_dimensions : String → List Dimension
volume_dimensions vol_id = record { dimension_name = "VolumeId"; dimension_value = vol_id } ∷ []

abbrev pub volume_queries : String → List MetricQuery
volume_queries vol_id =
    map (λ m. query (volume_query_id m.0 vol_id) "AWS/EBS" (volume_dimensions vol_id) m) ebs_metrics

abbrev pub ebs_queries : List String → List MetricQuery
ebs_queries [] = []
ebs_queries (vol_id ∷ ids) = volume_queries vol_id ++ ebs_queries ids

unfoldable pub metric_queries : String → Dict (List Dimension) → List String → List MetricQuery
unfolding ec2_queries cwagent_queries lower
metric_queries instance_id discovered volume_ids =
    ec2_queries instance_id ++ (cwagent_queries discovered ++ ebs_queries volume_ids)
