-- ===== src/CloudWatch/Answered.antt =====
-- backend/aws/cloudwatch_collector.py: what a batch gives when every query has a result.
use aiops_aws.Prelude.{
  String, ◌≡◌, refl, ap, sym, ◌∙◌, false, Bool-cases, inl, inr, Option, some, none, List, [], ◌∷◌,
  ◌++◌, append_assoc, append-nil, map, any, Dict, lookup, assign, lookup-assign, arith, eq_iff,
  str_eq,
}
use aiops_aws.CloudWatch.{MetricQuery, MetricDataResult}
use aiops_aws.CloudWatch.Results.{latest_value, or_empty, parse_each, parse_results, note_result}
use aiops_aws.CloudWatch.QueryIds.{has_query_id, HasDistinctIds}

assign_new {ℓ} :
    {A : Type ℓ} (k : String) (a : A) (d : Dict A)
    → lookup k d ≡ none
    → assign k a d ≡ d ++ (k, a) ∷ []
assign_new k a [] h = refl
assign_new k a ((j, b) ∷ d) h = elim (Bool-cases (str_eq j k)) [
  | inl same ↦ absurd (ground (arith, h, same))
  | inr other ↦ rw other (ap (λ r. (j, b) ∷ r) (assign_new k a d (ground (arith, h, other))))
]

-- the value that is kept for a query
abbrev pub kept : {V : Type 0} → (MetricQuery → MetricDataResult V) → MetricQuery → Option V
kept reply q = latest_value (or_empty (reply q).values) (or_empty (reply q).timestamps)

module _ {V : Type 0} (reply : MetricQuery → MetricDataResult V)
    (replies : (q : MetricQuery) → (reply q).result_id ≡ some q.query_id) where
  abbrev AreNew : List MetricQuery → Dict (Option V) → Type 0
  AreNew [] results = Unit
  AreNew (q ∷ qs) results = (lookup q.query_id results ≡ none) × AreNew qs results

  AreNew-assign :
      (id : String) (v : Option V) (qs : List MetricQuery) (results : Dict (Option V))
      → any (has_query_id id) qs ≡ false
      → AreNew qs results
      → AreNew qs (assign id v results)
  AreNew-assign id v [] results h new = tt
  AreNew-assign id v (q ∷ qs) results h new = (
    ground (
      arith,
      lookup-assign id q.query_id v results,
      h,
      new.0,
      eq_iff id q.query_id,
      eq_iff q.query_id id,
    ),
    AreNew-assign id v qs results (ground (arith, h)) new.1,
  )

  parse_each-replies :
      (qs : List MetricQuery) (results : Dict (Option V))
      → HasDistinctIds qs
      → any (has_query_id "") qs ≡ false
      → AreNew qs results
      → parse_each (map reply qs) results ≡ results ++ map (λ q. (q.query_id, kept reply q)) qs
  parse_each-replies [] results distinct named new = sym (append-nil results)
  parse_each-replies (q ∷ qs) results distinct named new =
      let id = q.query_id in
      let nonempty : str_eq id "" ≡ false = ground (arith, named) in
      let noted : note_result (reply q).result_id (kept reply q) results
          ≡ assign id (kept reply q) results =
        rw (replies q, nonempty) refl in
      let rest : Dict (Option V) = map (λ r. (r.query_id, kept reply r)) qs in
      ap (parse_each (map reply qs)) noted
      ∙ parse_each-replies qs (assign id (kept reply q) results) distinct.1 (ground (arith, named))
          (AreNew-assign id (kept reply q) qs results distinct.0 new.1)
      ∙ ap (λ r. r ++ rest) (assign_new id (kept reply q) results new.0)
      ∙ append_assoc results ((id, kept reply q) ∷ []) rest

  AreNew-nil : (qs : List MetricQuery) → AreNew qs []
  AreNew-nil [] = tt
  AreNew-nil (q ∷ qs) = (refl, AreNew-nil qs)

  pub parse_results-replies :
      (qs : List MetricQuery)
      → HasDistinctIds qs
      → any (has_query_id "") qs ≡ false
      → parse_results (some (map reply qs)) ≡ map (λ q. (q.query_id, kept reply q)) qs
  unfolding parse_results
  parse_results-replies qs distinct named = parse_each-replies qs [] distinct named (AreNew-nil qs)
