-- ===== src/CloudWatch/Lookups.antt =====
-- backend/aws/cloudwatch_collector.py: what the two cached lookups return and leave behind.
use aiops_aws.Prelude.{
  ℕ, ◌+◌, ◌≤◌, String, ◌≡◌, refl, ap, sym, ◌∙◌, inl, inr, Bool-cases, some, Option-cases, length,
  Dict, lookup, assign, lookup-assign, eq_iff, arith, str_eq,
}
use aiops_aws.Ec2.{Reply, returned, failed}
use aiops_aws.CloudWatch.{Aws, Collector, DevicePage}
use aiops_aws.CloudWatch.Caches.{
  page_volumes, discovered_from, resolve_volume_ids, discover_cwagent_metrics, keep_volumes,
  all_cwagent_metrics,
}
use aiops_aws.CloudWatch.Freshness.{reply_volumes, volumes_at, FoundSince, IsFresh, IsFresh-tick}

module _ {V : Type 0} (aws : Aws V)
    (clock_mono : (n m : ℕ) → n ≤ m → aws.clock n ≤ aws.clock m) where
  -- an entry that was found now joins those that were found before
  FoundSince-assign {ℓ} :
      {A : Type ℓ} (at : String → ℕ → A) (d : Dict A) (k : String) (a : A) (since step step' : ℕ)
      → step ≤ step'
      → FoundSince aws since step' (at k) a
      → ((i : String) (x : A) → lookup i d ≡ some x → FoundSince aws since step (at i) x)
      → (i : String) (x : A) → lookup i (assign k a d) ≡ some x
      → FoundSince aws since step' (at i) x
  FoundSince-assign at d k a since step step' le new old i x e = elim (Bool-cases (str_eq k i)) [
    | inl same ↦
        let (n, later, before, eq) = new in
        let k_eq : k ≡ i = ground (arith, eq_iff k i, same) in
        let a_eq : a ≡ x = ground (arith, sym (lookup-assign k i a d) ∙ e, same) in
        (n, later, before, sym a_eq ∙ eq ∙ ap (λ j. at j n) k_eq)
    | inr other ↦
        let (n, later, before, eq) =
          old i x (ground (arith, sym (lookup-assign k i a d) ∙ e, other)) in
        (n, later, omega (arith, before), eq)
  ]

  -- How a lookup answers: from fresh caches, a value that was found since the last refresh, and
  -- fresh caches again.
  abbrev pub Answers {ℓ} : {A : Type ℓ} → (ℕ → A) → Collector → A × Collector → Type ℓ
  Answers at c (a, c') =
      FoundSince aws c.cache_last_refresh c'.step at a
      × IsFresh aws c'
      × (c'.cache_last_refresh ≡ c.cache_last_refresh)
      × (c.step ≤ c'.step)

  keep_volumes-Answers :
      (i : String) (c : Collector) (reply : Reply DevicePage)
      → aws.describe_instances c.step i ≡ reply
      → IsFresh aws c
      → Answers (volumes_at aws i) c (keep_volumes aws i reply (record c { step = c.step + 1 }))
  keep_volumes-Answers i c (failed e) asked h = (
    (c.step, h.refreshed, omega arith, sym (ap reply_volumes asked)),
    IsFresh-tick aws clock_mono c 1 h,
    refl,
    omega arith,
  )
  keep_volumes-Answers i c (returned page) asked h =
      let found : FoundSince aws c.cache_last_refresh (c.step + 1) (volumes_at aws i)
          (page_volumes page) =
        (c.step, h.refreshed, omega arith, sym (ap reply_volumes asked)) in
      let h' = IsFresh-tick aws clock_mono c 1 h in
      (
        found,
        record {
          refreshed = h'.refreshed;
          dimensions = h'.dimensions;
          volumes =
              FoundSince-assign (volumes_at aws) c.volume_ids_cache i (page_volumes page)
                c.cache_last_refresh c.step (c.step + 1) (omega arith) found h.volumes;
        },
        refl,
        omega arith,
      )

  pub resolve_volume_ids-Answers :
      (i : String) (c : Collector)
      → IsFresh aws c
      → Answers (volumes_at aws i) c (resolve_volume_ids aws i c)
  unfolding resolve_volume_ids
  resolve_volume_ids-Answers i c h = elim (Option-cases (lookup i c.volume_ids_cache)) [
    | inl missing ↦ rw missing (keep_volumes-Answers i c (aws.describe_instances c.step i) refl h)
    | inr (ids, hit) ↦ rw hit (h.volumes i ids hit, h, refl, omega arith)
  ]

  pub discover_cwagent_metrics-Answers :
      (i : String) (c : Collector)
      → IsFresh aws c
      → Answers (discovered_from aws i) c (discover_cwagent_metrics aws i c)
  unfolding discover_cwagent_metrics
  discover_cwagent_metrics-Answers i c h =
      elim (Option-cases (lookup i c.cwagent_dimensions_cache)) [
        | inl missing ↦
            let discovered = discovered_from aws i c.step in
            let found : FoundSince aws c.cache_last_refresh (c.step + 4) (discovered_from aws i)
                discovered =
              (c.step, h.refreshed, omega arith, refl) in
            let h' = IsFresh-tick aws clock_mono c (length all_cwagent_metrics) h in
            rw missing (
              found,
              record {
                refreshed = h'.refreshed;
                volumes = h'.volumes;
                dimensions =
                    FoundSince-assign (discovered_from aws) c.cwagent_dimensions_cache i discovered
                      c.cache_last_refresh c.step (c.step + 4) (omega arith) found h.dimensions;
              },
              refl,
              omega arith,
            )
        | inr (discovered, hit) ↦ rw hit (h.dimensions i discovered hit, h, refl, omega arith)
      ]
