-- ===== src/CloudWatch/Freshness.antt =====
-- backend/aws/cloudwatch_collector.py: the age of what the caches hold.
use aiops_aws.Prelude.{
  ℕ, ◌+◌, ◌-◌, ◌≤◌, ◌<◌, String, ◌≡◌, refl, ap, sym, ◌∙◌, inl, inr, Bool-cases, some, List, [],
  Dict, lookup, arith, leb,
}
use aiops_aws.Ec2.{Reply, returned, failed}
use aiops_aws.CloudWatch.{Aws, Collector, Dimension, DevicePage, cache_ttl}
use aiops_aws.CloudWatch.Caches.{
  page_volumes, discovered_from, clear_metric_caches, refresh_caches_if_needed,
}

abbrev pub reply_volumes : Reply DevicePage → List String
reply_volumes (failed e) = []
reply_volumes (returned page) = page_volumes page

module _ {V : Type 0} (aws : Aws V) where
  -- the volumes of an instance that the n-th call finds, none where it fails
  abbrev pub volumes_at : String → ℕ → List String
  volumes_at instance_id n = reply_volumes (aws.describe_instances n instance_id)

  -- A value that was found by a call since a time, and before a step.
  abbrev pub FoundSince {ℓ} : {A : Type ℓ} → ℕ → ℕ → (ℕ → A) → A → Type ℓ
  FoundSince since step at a = (n : ℕ) × (since ≤ aws.clock n) × (n < step) × (a ≡ at n)

  -- Every entry of a cache was found since the last refresh.
  pub record IsFresh (c : Collector) : Type 0 where
    pub refreshed : c.cache_last_refresh ≤ aws.clock c.step
    pub dimensions :
        (i : String) (d : Dict (List Dimension))
        → lookup i c.cwagent_dimensions_cache ≡ some d
        → FoundSince c.cache_last_refresh c.step (discovered_from aws i) d
    pub volumes :
        (i : String) (ids : List String)
        → lookup i c.volume_ids_cache ≡ some ids
        → FoundSince c.cache_last_refresh c.step (volumes_at i) ids

module _ {V : Type 0} (aws : Aws V)
    (clock_mono : (n m : ℕ) → n ≤ m → aws.clock n ≤ aws.clock m) where
  -- time passes
  pub IsFresh-later :
      (c c' : Collector)
      → c'.cwagent_dimensions_cache ≡ c.cwagent_dimensions_cache
      → c'.volume_ids_cache ≡ c.volume_ids_cache
      → c'.cache_last_refresh ≡ c.cache_last_refresh
      → c.step ≤ c'.step
      → IsFresh aws c
      → IsFresh aws c'
  IsFresh-later c c' d v r le h = record {
    refreshed = omega (arith, h.refreshed, clock_mono c.step c'.step le);
    dimensions = λ i x e.
        let (n, since, before, eq) = h.dimensions i x (ap (lookup i) (sym d) ∙ e) in
        (n, omega (arith, since), omega (arith, before), eq);
    volumes = λ i x e.
        let (n, since, before, eq) = h.volumes i x (ap (lookup i) (sym v) ∙ e) in
        (n, omega (arith, since), omega (arith, before), eq);
  }

  pub clear-IsFresh : (c : Collector) → IsFresh aws (clear_metric_caches aws c)
  unfolding clear_metric_caches
  clear-IsFresh c = record {
    refreshed = clock_mono c.step (c.step + 1) (omega arith);
    dimensions = λ i x e. absurd (ground (arith, e));
    volumes = λ i x e. absurd (ground (arith, e));
  }

  -- a clock reading
  pub IsFresh-tick :
      (c : Collector) (n : ℕ) → IsFresh aws c → IsFresh aws (record c { step = c.step + n })
  IsFresh-tick c n h =
      IsFresh-later c (record c { step = c.step + n }) refl refl refl (omega arith) h

  -- After the refresh the caches were refreshed less than the time to live ago.
  pub refresh-IsFresh :
      (c : Collector)
      → IsFresh aws c
      → IsFresh aws (refresh_caches_if_needed aws c)
        × (aws.clock c.step < (refresh_caches_if_needed aws c).cache_last_refresh + cache_ttl)
        × (c.step < (refresh_caches_if_needed aws c).step)
  unfolding refresh_caches_if_needed
  refresh-IsFresh c h =
      elim (Bool-cases (leb cache_ttl (aws.clock c.step - c.cache_last_refresh))) [
        | inl old ↦
            let h' = clear-IsFresh (record c { step = c.step + 1 }) in
            rw old (h', omega (arith, clock_mono c.step (c.step + 1) (omega arith)), omega arith)
        | inr young ↦ rw young (IsFresh-tick c 1 h, ground (arith, young), omega arith)
      ]
