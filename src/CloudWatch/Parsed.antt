-- ===== src/CloudWatch/Parsed.antt =====
-- backend/aws/cloudwatch_collector.py: what `_parse_results` keeps for the id of a result.
use aiops_aws.Prelude.{
  ℕ, String, ◌≡◌, ◌≢◌, refl, ◌∙◌, Bool, false, Option, none, some, List, [], ◌∷◌, ◌++◌, length,
  Dict, lookup, lookup-assign, eq_refl, eq_iff, arith, any, str_eq,
}
use aiops_aws.CloudWatch.{MetricDataResult}
use aiops_aws.CloudWatch.Results.{
  latest_idx, nth, latest_value, or_empty, parse_each, parse_results, note_result,
}
use aiops_aws.CloudWatch.Latest.{IsLatest, nth_exists, nth_bound, latest_idx-IsLatest}

abbrev is_some_of : String → Option String → Bool
is_some_of id none = false
is_some_of id (some s) = str_eq s id

module _ {V : Type 0} where
  abbrev pub has_id : String → MetricDataResult V → Bool
  has_id id r = is_some_of id r.result_id

  note_result-other :
      (id : String) (found : Option String) (value : Option V) (results : Dict (Option V))
      → is_some_of id found ≡ false
      → lookup id (note_result found value results) ≡ lookup id results
  note_result-other id none value results other = refl
  note_result-other id (some s) value results other =
      ground (arith, other, lookup-assign s id value results)

  parse_each-other :
      (id : String) (rs : List (MetricDataResult V)) (results : Dict (Option V))
      → any (has_id id) rs ≡ false
      → lookup id (parse_each rs results) ≡ lookup id results
  parse_each-other id [] results other = refl
  parse_each-other id (r ∷ rs) results other =
      let value = latest_value (or_empty r.values) (or_empty r.timestamps) in
      parse_each-other id rs (note_result r.result_id value results) (ground (arith, other))
      ∙ note_result-other id r.result_id value results (ground (arith, other))

  parse_each-last :
      (id : String) (before after : List (MetricDataResult V)) (r : MetricDataResult V)
      (results : Dict (Option V))
      → id ≢ ""
      → r.result_id ≡ some id
      → any (has_id id) after ≡ false
      → lookup id (parse_each (before ++ r ∷ after) results)
        ≡ some (latest_value (or_empty r.values) (or_empty r.timestamps))
  parse_each-last id [] after r results nonempty named last_one =
      let value = latest_value (or_empty r.values) (or_empty r.timestamps) in
      parse_each-other id after (note_result r.result_id value results) last_one
      ∙ rw named
          (ground (arith, eq_iff id "", nonempty, eq_refl id, lookup-assign id id value results))
  parse_each-last id (b ∷ before) after r results nonempty named last_one =
      parse_each-last id before after r
        (note_result b.result_id (latest_value (or_empty b.values) (or_empty b.timestamps)) results)
        nonempty named last_one

  latest_value-IsLatest :
      (v : V) (vs : List V) (t : ℕ) (ts : List ℕ)
      → length vs ≡ length ts
      → (i : ℕ) × (m : ℕ) × (value : V) × IsLatest (t ∷ ts) i m
        × (nth (v ∷ vs) i ≡ some value)
        × (latest_value (v ∷ vs) (t ∷ ts) ≡ some value)
  unfolding latest_value
  latest_value-IsLatest v vs t ts same =
      let (m, latest) = latest_idx-IsLatest t ts in
      let i = latest_idx (t ∷ ts) in
      let bound = nth_bound (t ∷ ts) i m latest.0 in
      let (value, at) = nth_exists (v ∷ vs) i (ground (arith, bound, same)) in
      (i, m, value, latest, at, ground (arith, at, same))

  -- For a non-empty id that a result in the response has, and no later result: where the result
  -- has values and as many timestamps, the id is mapped to the value that stands where the
  -- timestamp is greatest, the first such place.
  pub parse_results-IsLatest :
      (id : String) (before after : List (MetricDataResult V)) (r : MetricDataResult V) (v : V)
      (vs : List V) (t : ℕ) (ts : List ℕ)
      → id ≢ ""
      → r.result_id ≡ some id
      → r.values ≡ some (v ∷ vs)
      → r.timestamps ≡ some (t ∷ ts)
      → length vs ≡ length ts
      → any (has_id id) after ≡ false
      → (i : ℕ) × (m : ℕ) × (value : V) × IsLatest (t ∷ ts) i m
        × (nth (v ∷ vs) i ≡ some value)
        × (lookup id (parse_results (some (before ++ r ∷ after))) ≡ some (some value))
  unfolding parse_results
  parse_results-IsLatest id before after r v vs t ts nonempty named has_values has_times same
        last_one =
      let (i, m, value, latest, at, eq) = latest_value-IsLatest v vs t ts same in
      (
        i,
        m,
        value,
        latest,
        at,
        parse_each-last id before after r [] nonempty named last_one
            ∙ rw (has_values, has_times, eq) refl,
      )
