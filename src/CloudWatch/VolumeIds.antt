-- ===== src/CloudWatch/VolumeIds.antt =====
-- backend/aws/cloudwatch_collector.py: the ids of the queries for volumes, and of a whole batch.
use Prim.Native.String
use aiops_aws.Prelude.{
  String, ◌≡◌, refl, ◌∙◌, Bool, true, false, ◌||◌, List, [], ◌∷◌, ◌++◌, any, all, any-append, Dict,
  arith, str_eq, lower, is_prefix, is_prefix-append, append-differs, append-same,
}
use aiops_aws.CloudWatch.{Dimension, MetricQuery}
use aiops_aws.CloudWatch.Caches.{all_cwagent_metrics}
use aiops_aws.CloudWatch.Queries.{
  metric_queries, ec2_queries, cwagent_queries, volume_queries, ebs_queries, safe_vol_id,
}
use aiops_aws.CloudWatch.QueryIds.{
  has_query_id, any_other, HasDistinctIds, AreApart, append-HasDistinctIds, AreApart-test,
  any-cwagent_each, cwagent_each-HasDistinctIds, AreApart-cwagent_each,
}

-- Volumes with different names in ids.
abbrev pub HasDistinctVolumes : List String → Type 0
HasDistinctVolumes [] = Unit
HasDistinctVolumes (v ∷ ids) =
    (any (λ w. str_eq (safe_vol_id w) (safe_vol_id v)) ids ≡ false) × HasDistinctVolumes ids

volume_queries-AreApart :
    (v w : String)
    → str_eq (safe_vol_id w) (safe_vol_id v) ≡ false
    → AreApart (volume_queries v) (volume_queries w)
unfolding lower
volume_queries-AreApart v w other =
    let s : String = String.◌++◌ "_" (safe_vol_id v) in
    let t : String = String.◌++◌ "_" (safe_vol_id w) in
    (
      rw
          (
            append-same "volumereadbytes" t s,
            append-differs "volumewritebytes" "volumereadbytes" t s refl,
            append-differs "volumereadops" "volumereadbytes" t s refl,
            append-differs "volumewriteops" "volumereadbytes" t s refl,
            append-same "_" (safe_vol_id w) (safe_vol_id v),
            other,
          )
          refl,
      (
        rw
            (
              append-differs "volumereadbytes" "volumewritebytes" t s refl,
              append-same "volumewritebytes" t s,
              append-differs "volumereadops" "volumewritebytes" t s refl,
              append-differs "volumewriteops" "volumewritebytes" t s refl,
              append-same "_" (safe_vol_id w) (safe_vol_id v),
              other,
            )
            refl,
        (
          rw
              (
                append-differs "volumereadbytes" "volumereadops" t s refl,
                append-differs "volumewritebytes" "volumereadops" t s refl,
                append-same "volumereadops" t s,
                append-differs "volumewriteops" "volumereadops" t s refl,
                append-same "_" (safe_vol_id w) (safe_vol_id v),
                other,
              )
              refl,
          (
            rw
                (
                  append-differs "volumereadbytes" "volumewriteops" t s refl,
                  append-differs "volumewritebytes" "volumewriteops" t s refl,
                  append-differs "volumereadops" "volumewriteops" t s refl,
                  append-same "volumewriteops" t s,
                  append-same "_" (safe_vol_id w) (safe_vol_id v),
                  other,
                )
                refl,
            tt,
          ),
        ),
      ),
    )

volume_queries-HasDistinctIds : (v : String) → HasDistinctIds (volume_queries v)
unfolding lower
volume_queries-HasDistinctIds v =
    let s : String = String.◌++◌ "_" (safe_vol_id v) in
    (
      rw
          (
            append-differs "volumewritebytes" "volumereadbytes" s s refl,
            append-differs "volumereadops" "volumereadbytes" s s refl,
            append-differs "volumewriteops" "volumereadbytes" s s refl,
          )
          refl,
      (
        rw
            (
              append-differs "volumereadops" "volumewritebytes" s s refl,
              append-differs "volumewriteops" "volumewritebytes" s s refl,
            )
            refl,
        (rw (append-differs "volumewriteops" "volumereadops" s s refl) refl, (refl, tt)),
      ),
    )

AreApart-append : (l m n : List MetricQuery) → AreApart l m → AreApart l n → AreApart l (m ++ n)
AreApart-append [] m n h k = tt
AreApart-append (q ∷ l) m n h k = (
  any-append (has_query_id q.query_id) m n ∙ ground (arith, h.0, k.0),
  AreApart-append l m n h.1 k.1,
)

AreApart-nil : (l : List MetricQuery) → AreApart l []
AreApart-nil [] = tt
AreApart-nil (q ∷ l) = (refl, AreApart-nil l)

volume_queries-ebs_queries :
    (v : String) (ids : List String)
    → any (λ w. str_eq (safe_vol_id w) (safe_vol_id v)) ids ≡ false
    → AreApart (volume_queries v) (ebs_queries ids)
volume_queries-ebs_queries v [] h = AreApart-nil (volume_queries v)
volume_queries-ebs_queries v (w ∷ ids) h =
    AreApart-append (volume_queries v) (volume_queries w) (ebs_queries ids)
      (volume_queries-AreApart v w (ground (arith, h)))
      (volume_queries-ebs_queries v ids (ground (arith, h)))

ebs_queries-HasDistinctIds :
    (ids : List String) → HasDistinctVolumes ids → HasDistinctIds (ebs_queries ids)
ebs_queries-HasDistinctIds [] h = tt
ebs_queries-HasDistinctIds (v ∷ ids) h =
    append-HasDistinctIds (volume_queries v) (ebs_queries ids) (volume_queries-HasDistinctIds v)
      (ebs_queries-HasDistinctIds ids h.1) (volume_queries-ebs_queries v ids h.0)

-- the ids of volumes
abbrev is_volume_id : String → Bool
is_volume_id id =
    is_prefix "volumereadbytes" id
    || is_prefix "volumewritebytes" id
    || is_prefix "volumereadops" id
    || is_prefix "volumewriteops" id

volume_queries_prefixed :
    (v : String) (m : List MetricQuery)
    → all (λ q. is_volume_id q.query_id) m ≡ true
    → all (λ q. is_volume_id q.query_id) (volume_queries v ++ m) ≡ true
unfolding lower
volume_queries_prefixed v m h =
    let s : String = String.◌++◌ "_" (safe_vol_id v) in
    ground (
      arith,
      h,
      is_prefix-append "volumereadbytes" s,
      is_prefix-append "volumewritebytes" s,
      is_prefix-append "volumereadops" s,
      is_prefix-append "volumewriteops" s,
    )

pub ebs_queries_prefixed :
    (ids : List String) → all (λ q. is_volume_id q.query_id) (ebs_queries ids) ≡ true
ebs_queries_prefixed [] = refl
ebs_queries_prefixed (v ∷ ids) =
    volume_queries_prefixed v (ebs_queries ids) (ebs_queries_prefixed ids)

-- Where no two volumes have the same name in ids: no two queries of a batch have the same id,
-- whatever metrics of the agent were discovered.
pub metric_queries-HasDistinctIds :
    (i : String) (discovered : Dict (List Dimension)) (ids : List String)
    → HasDistinctVolumes ids
    → HasDistinctIds (metric_queries i discovered ids)
unfolding metric_queries ec2_queries cwagent_queries lower
metric_queries-HasDistinctIds i discovered ids h =
    let e = ec2_queries i in
    let k = cwagent_queries discovered in
    let b = ebs_queries ids in
    let k_distinct =
      cwagent_each-HasDistinctIds discovered all_cwagent_metrics
        (refl, (refl, (refl, (refl, tt)))) in
    let no_volume_id = any-cwagent_each is_volume_id discovered all_cwagent_metrics refl in
    append-HasDistinctIds e (k ++ b)
      (refl, (refl, (refl, (refl, (refl, (refl, (refl, (refl, (refl, tt)))))))))
      (append-HasDistinctIds k b k_distinct (ebs_queries-HasDistinctIds ids h)
        (AreApart-test is_volume_id k b no_volume_id (ebs_queries_prefixed ids)))
      (AreApart-append e k b (AreApart-cwagent_each e discovered all_cwagent_metrics refl)
        (AreApart-test is_volume_id e b refl (ebs_queries_prefixed ids)))

-- No query of a batch has the empty id.
pub metric_queries_named :
    (i : String) (discovered : Dict (List Dimension)) (ids : List String)
    → any (has_query_id "") (metric_queries i discovered ids) ≡ false
unfolding metric_queries ec2_queries cwagent_queries lower
metric_queries_named i discovered ids =
    let k = cwagent_queries discovered in
    any-append (has_query_id "") k (ebs_queries ids)
    ∙ ground (
      arith,
      any-cwagent_each (λ id. str_eq id "") discovered all_cwagent_metrics refl,
      any_other is_volume_id "" (ebs_queries ids) refl (ebs_queries_prefixed ids),
    )
