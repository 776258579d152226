-- ===== src/Monitoring/Volumes.antt =====
-- backend/aws/collector_service.py: the sums over the volumes of an instance.
use Prim.Native.String
use aiops_aws.Prelude.{
  ℕ, String, ◌≡◌, refl, ap, ◌∙◌, false, Option, List, [], ◌∷◌, ◌++◌, map, any, Dict, arith, lower,
  is_prefix, is_prefix-append, is_prefix-differs, if◌then◌else◌,
}
use aiops_aws.CloudWatch.{Dimension, MetricQuery}
use aiops_aws.CloudWatch.Queries.{
  metric_queries, ec2_queries, cwagent_queries, query, volume_queries, volume_query_id, ebs_queries,
  safe_vol_id, volume_dimensions,
}
use aiops_aws.CloudWatch.Caches.{all_cwagent_metrics}
use aiops_aws.CloudWatch.QueryIds.{any-cwagent_each}
use aiops_aws.Monitoring.{Floats, Metrics}
use aiops_aws.Monitoring.CollectorService.{sum_from, sum_ebs, add_value, metrics_of}

-- the query for a metric of a volume
abbrev pub volume_query : String × String → String → MetricQuery
volume_query m vol_id = query (volume_query_id m.0 vol_id) "AWS/EBS" (volume_dimensions vol_id) m

module _ {V : Type 0} (floats : Floats V) (answer : MetricQuery → Option V) where
  -- the dictionary with an answer to each query
  abbrev pub answers : List MetricQuery → Dict (Option V)
  answers queries = map (λ q. (q.query_id, answer q)) queries

  -- the sum of a metric over volumes, going on from a total
  abbrev pub total_from : V → String × String → List String → V
  total_from total m [] = total
  total_from total m (vol_id ∷ ids) =
      total_from (add_value floats (answer (volume_query m vol_id)) total) m ids

  abbrev pub volume_sum : String → List String → V
  volume_sum name ids = total_from (floats.of_int 0) (name, "Sum") ids

  abbrev pub SumsVolumes : Metrics V → List String → Type 0
  SumsVolumes m ids =
      (m.volume_read_bytes ≡ volume_sum "VolumeReadBytes" ids)
      × (m.volume_write_bytes ≡ volume_sum "VolumeWriteBytes" ids)
      × (m.volume_read_ops ≡ volume_sum "VolumeReadOps" ids)
      × (m.volume_write_ops ≡ volume_sum "VolumeWriteOps" ids)

  sum_from-append :
      (total : V) (p : String) (l m : List MetricQuery)
      → sum_from floats total p (answers (l ++ m))
        ≡ sum_from floats (sum_from floats total p (answers l)) p (answers m)
  sum_from-append total p [] m = refl
  sum_from-append total p (q ∷ l) m =
      sum_from-append (if is_prefix p q.query_id then add_value floats (answer q) total else total)
        p l m

  sum_from-others :
      (total : V) (p : String) (l : List MetricQuery)
      → any (λ q. is_prefix p q.query_id) l ≡ false
      → sum_from floats total p (answers l) ≡ total
  sum_from-others total p [] h = refl
  sum_from-others total p (q ∷ l) h =
      let other : is_prefix p q.query_id ≡ false = ground (arith, h) in
      rw (sum_from, other) (sum_from-others total p l (ground (arith, h)))

  -- a sum that takes one of the four queries for each volume
  ebs_queries-total :
      (p : String) (m : String × String)
      → ((total : V) (vol_id : String)
          → sum_from floats total p (answers (volume_queries vol_id))
            ≡ add_value floats (answer (volume_query m vol_id)) total)
      → (total : V) (ids : List String)
      → sum_from floats total p (answers (ebs_queries ids)) ≡ total_from total m ids
  ebs_queries-total p m h total [] = refl
  ebs_queries-total p m h total (vol_id ∷ ids) =
      sum_from-append total p (volume_queries vol_id) (ebs_queries ids)
      ∙ ap (λ t. sum_from floats t p (answers (ebs_queries ids))) (h total vol_id)
      ∙ ebs_queries-total p m h (add_value floats (answer (volume_query m vol_id)) total) ids

  read_bytes :
      (total : V) (v : String)
      → sum_from floats total "volumereadbytes" (answers (volume_queries v))
        ≡ add_value floats (answer (volume_query ("VolumeReadBytes", "Sum") v)) total
  unfolding lower
  read_bytes total v =
      let s : String = String.◌++◌ "_" (safe_vol_id v) in
      rw
        (
          sum_from,
          is_prefix-append "volumereadbytes" s,
          is_prefix-differs "volumereadbytes" "volumewritebytes" s refl,
          is_prefix-differs "volumereadbytes" "volumereadops" s refl,
          is_prefix-differs "volumereadbytes" "volumewriteops" s refl,
        )
        refl

  write_bytes :
      (total : V) (v : String)
      → sum_from floats total "volumewritebytes" (answers (volume_queries v))
        ≡ add_value floats (answer (volume_query ("VolumeWriteBytes", "Sum") v)) total
  unfolding lower
  write_bytes total v =
      let s : String = String.◌++◌ "_" (safe_vol_id v) in
      rw
        (
          sum_from,
          is_prefix-differs "volumewritebytes" "volumereadbytes" s refl,
          is_prefix-append "volumewritebytes" s,
          is_prefix-differs "volumewritebytes" "volumereadops" s refl,
          is_prefix-differs "volumewritebytes" "volumewriteops" s refl,
        )
        refl

  read_ops :
      (total : V) (v : String)
      → sum_from floats total "volumereadops" (answers (volume_queries v))
        ≡ add_value floats (answer (volume_query ("VolumeReadOps", "Sum") v)) total
  unfolding lower
  read_ops total v =
      let s : String = String.◌++◌ "_" (safe_vol_id v) in
      rw
        (
          sum_from,
          is_prefix-differs "volumereadops" "volumereadbytes" s refl,
          is_prefix-differs "volumereadops" "volumewritebytes" s refl,
          is_prefix-append "volumereadops" s,
          is_prefix-differs "volumereadops" "volumewriteops" s refl,
        )
        refl

  write_ops :
      (total : V) (v : String)
      → sum_from floats total "volumewriteops" (answers (volume_queries v))
        ≡ add_value floats (answer (volume_query ("VolumeWriteOps", "Sum") v)) total
  unfolding lower
  write_ops total v =
      let s : String = String.◌++◌ "_" (safe_vol_id v) in
      rw
        (
          sum_from,
          is_prefix-differs "volumewriteops" "volumereadbytes" s refl,
          is_prefix-differs "volumewriteops" "volumewritebytes" s refl,
          is_prefix-differs "volumewriteops" "volumereadops" s refl,
          is_prefix-append "volumewriteops" s,
        )
        refl

  -- A prefix that no other query has, and one query of each volume.
  metric_queries-total :
      (p : String) (m : String × String) (i : String) (discovered : Dict (List Dimension))
      (ids : List String)
      → any (λ q. is_prefix p q.query_id) (ec2_queries i) ≡ false
      → any (λ c. is_prefix p (lower c.0)) all_cwagent_metrics ≡ false
      → ((total : V) (vol_id : String)
          → sum_from floats total p (answers (volume_queries vol_id))
            ≡ add_value floats (answer (volume_query m vol_id)) total)
      → (total : V)
      → sum_from floats total p (answers (metric_queries i discovered ids)) ≡ total_from total m ids
  unfolding metric_queries cwagent_queries
  metric_queries-total p m i discovered ids no_ec2 no_cwagent h total =
      let e = ec2_queries i in
      let k = cwagent_queries discovered in
      let b = ebs_queries ids in
      sum_from-append total p e (k ++ b)
      ∙ ap (λ t. sum_from floats t p (answers (k ++ b))) (sum_from-others total p e no_ec2)
      ∙ sum_from-append total p k b
      ∙ ap (λ t. sum_from floats t p (answers b))
          (sum_from-others total p k
            (any-cwagent_each (is_prefix p) discovered all_cwagent_metrics no_cwagent))
      ∙ ebs_queries-total p m h total ids

  -- the sums, from a dictionary with an answer to each query
  pub metrics_of-SumsVolumes :
      (i : String) (discovered : Dict (List Dimension)) (ids : List String) (now : ℕ)
      → SumsVolumes (metrics_of floats i now (answers (metric_queries i discovered ids))) ids
  unfolding metrics_of sum_ebs ec2_queries lower
  metrics_of-SumsVolumes i discovered ids now =
      let start = floats.of_int 0 in
      (
        metric_queries-total "volumereadbytes" ("VolumeReadBytes", "Sum") i discovered ids refl refl
            read_bytes start,
        metric_queries-total "volumewritebytes" ("VolumeWriteBytes", "Sum") i discovered ids refl
            refl write_bytes start,
        metric_queries-total "volumereadops" ("VolumeReadOps", "Sum") i discovered ids refl refl
            read_ops start,
        metric_queries-total "volumewriteops" ("VolumeWriteOps", "Sum") i discovered ids refl refl
            write_ops start,
      )
