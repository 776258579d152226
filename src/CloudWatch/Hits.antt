-- ===== src/CloudWatch/Hits.antt =====
-- backend/aws/cloudwatch_collector.py: a batch fetch whose lookups are in the caches.
use aiops_aws.Prelude.{
  ℕ, ◌+◌, ◌-◌, ◌<◌, String, ◌≡◌, refl, ap, ◌∙◌, inl, inr, some, Option-cases, List, Dict, lookup,
  assign, lookup-assign, eq_refl, arith, false, leb,
}
use aiops_aws.Ec2.{returned}
use aiops_aws.CloudWatch.{Aws, Collector, Dimension, DevicePage, cache_ttl}
use aiops_aws.CloudWatch.Caches.{
  page_volumes, discovered_from, refresh_caches_if_needed, resolve_volume_ids,
  discover_cwagent_metrics,
}
use aiops_aws.CloudWatch.Queries.{metric_queries}
use aiops_aws.CloudWatch.Fetch.{build_queries}

lookup-assign_same {ℓ} :
    {V : Type ℓ} (k : String) (v : V) (d : Dict V) → lookup k (assign k v d) ≡ some v
lookup-assign_same k v d = ground (arith, lookup-assign k k v d, eq_refl k)

module _ {V : Type 0} (aws : Aws V) where
  -- the answers of EC2 for an instance are pages
  abbrev pub AlwaysDescribes : String → Type 0
  AlwaysDescribes i = (n : ℕ) → (page : DevicePage) × (aws.describe_instances n i ≡ returned page)

  resolve_volume_ids-kept :
      (i : String) (c : Collector)
      → AlwaysDescribes i
      → lookup i (resolve_volume_ids aws i c).1.volume_ids_cache
        ≡ some (resolve_volume_ids aws i c).0
  unfolding resolve_volume_ids
  resolve_volume_ids-kept i c always = elim (Option-cases (lookup i c.volume_ids_cache)) [
    | inl missing ↦
        let (page, answered) = always c.step in
        rw (missing, answered) (lookup-assign_same i (page_volumes page) c.volume_ids_cache)
    | inr (ids, hit) ↦ rw hit hit
  ]

  discover_cwagent_metrics-kept :
      (i : String) (c : Collector)
      → (lookup i (discover_cwagent_metrics aws i c).1.cwagent_dimensions_cache
          ≡ some (discover_cwagent_metrics aws i c).0)
        × ((discover_cwagent_metrics aws i c).1.volume_ids_cache ≡ c.volume_ids_cache)
  unfolding discover_cwagent_metrics
  discover_cwagent_metrics-kept i c = elim (Option-cases (lookup i c.cwagent_dimensions_cache)) [
    | inl missing ↦
        rw missing
          (lookup-assign_same i (discovered_from aws i c.step) c.cwagent_dimensions_cache, refl)
    | inr (discovered, hit) ↦ rw hit (hit, refl)
  ]

  build_queries-hit :
      (i : String) (c : Collector) (ids : List String) (discovered : Dict (List Dimension))
      → lookup i c.volume_ids_cache ≡ some ids
      → lookup i c.cwagent_dimensions_cache ≡ some discovered
      → aws.clock c.step - c.cache_last_refresh < cache_ttl
      → build_queries aws i c ≡ (
        (aws.clock (c.step + 1), metric_queries i discovered ids),
        record c { step = c.step + 1 + 1 },
      )
  unfolding build_queries refresh_caches_if_needed resolve_volume_ids discover_cwagent_metrics
  build_queries-hit i c ids discovered found_ids found young =
      let not_old : leb cache_ttl (aws.clock c.step - c.cache_last_refresh) ≡ false =
        ground (arith, young) in
      rw (not_old, found_ids, found) refl

  -- Where EC2 answers with a page: when a batch fetch of an instance follows another one, only
  -- time passes between them, and it starts less than the time to live after the last refresh, it builds the same queries at its own time,
  -- and asks nothing but the clock, twice: the caches are as they were.
  pub build_queries-cached :
      (i : String) (c : Collector) (k : ℕ)
      → AlwaysDescribes i
      → (aws.clock ((build_queries aws i c).1.step + k)
            - (build_queries aws i c).1.cache_last_refresh
          < cache_ttl)
      → let c' = (build_queries aws i c).1 in
        build_queries aws i (record c' { step = c'.step + k }) ≡ (
          (aws.clock (c'.step + k + 1), (build_queries aws i c).0.1),
          record c' { step = c'.step + k + 1 + 1 },
        )
  unfolding build_queries
  build_queries-cached i c k always young =
      let c₁ = refresh_caches_if_needed aws c in
      let c₁' : Collector = record c₁ { step = c₁.step + 1 } in
      let (ids, c₂) = resolve_volume_ids aws i c₁' in
      let (discovered, c₃) = discover_cwagent_metrics aws i c₂ in
      let (found, same) = discover_cwagent_metrics-kept i c₂ in
      build_queries-hit i (record c₃ { step = c₃.step + k }) ids discovered
        (ap (lookup i) same ∙ resolve_volume_ids-kept i c₁' always) found young
