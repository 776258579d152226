-- ===== src/CloudWatch/Results.antt =====
-- backend/aws/cloudwatch_collector.py: `_parse_results`, and the choice of the latest value.
use aiops_aws.Prelude.{
  ℕ, zero, suc, ◌+◌, String, ◌&&◌, Bool, true, false, Option, none, some, List, [], ◌∷◌, length,
  Dict, assign, str_eq, last, ltb, ◌==◌, if◌then◌else◌,
}
use aiops_aws.CloudWatch.{MetricDataResult, Datapoint}

-- `max(range(len(ts)), key=lambda i: ts[i])`: the first index of a greatest element, going on from
-- the best so far
abbrev pub latest_from : ℕ → ℕ → ℕ → List ℕ → ℕ
latest_from best best_time i [] = best
latest_from best best_time i (t ∷ ts) =
    latest_from (if ltb best_time t then i else best) (if ltb best_time t then t else best_time)
      (i + 1) ts

unfoldable pub latest_idx : List ℕ → ℕ
latest_idx [] = 0
latest_idx (t ∷ ts) = latest_from 0 t 1 ts

-- `l[i]`
abbrev pub nth {ℓ} : {A : Type ℓ} → List A → ℕ → Option A
nth [] i = none
nth (a ∷ l) zero = some a
nth (a ∷ l) (suc i) = nth l i

abbrev pub or_empty {ℓ} : {A : Type ℓ} → Option (List A) → List A
or_empty none = []
or_empty (some l) = l

abbrev pub is_nonempty {ℓ} : {A : Type ℓ} → List A → Bool
is_nonempty [] = false
is_nonempty (a ∷ l) = true

module _ {V : Type 0} where
  -- the value of a result: `None` where it has no values
  unfoldable pub latest_value : List V → List ℕ → Option V
  latest_value [] timestamps = none
  latest_value (v ∷ values) timestamps =
      if is_nonempty timestamps && length (v ∷ values) == length timestamps
      then nth (v ∷ values) (latest_idx timestamps)
      else last (v ∷ values)

  -- a result without an id is passed over, an empty one too
  abbrev pub note_result : Option String → Option V → Dict (Option V) → Dict (Option V)
  note_result none value results = results
  note_result (some id) value results = if str_eq id "" then results else assign id value results

  abbrev pub parse_each : List (MetricDataResult V) → Dict (Option V) → Dict (Option V)
  parse_each [] results = results
  parse_each (r ∷ rs) results =
      parse_each rs
        (note_result r.result_id (latest_value (or_empty r.values) (or_empty r.timestamps)) results)

  -- `_parse_results`
  unfoldable pub parse_results : Option (List (MetricDataResult V)) → Dict (Option V)
  parse_results response = parse_each (or_empty response) []

  -- `max(datapoints, key=lambda x: x["Timestamp"])`
  abbrev pub latest_datapoint : Datapoint V → List (Datapoint V) → Datapoint V
  latest_datapoint best [] = best
  latest_datapoint best (d ∷ ds) =
      latest_datapoint (if ltb best.timestamp d.timestamp then d else best) ds
