-- ===== src/CloudWatch/QueryIds.antt =====
-- backend/aws/cloudwatch_collector.py: the ids of the queries of a batch.
use aiops_aws.Prelude.{
  String, ◌≡◌, refl, ap, ◌∙◌, Bool, true, false, Bool-cases, inl, inr, Option, some, none, List, [],
  ◌∷◌, ◌++◌, any, all, any-append, Dict, lookup, arith, eq_iff, str_eq, lower,
}
use aiops_aws.CloudWatch.{Dimension, MetricQuery}
use aiops_aws.CloudWatch.Queries.{cwagent_each, cwagent_query}

-- whether a query has an id
abbrev pub has_query_id : String → MetricQuery → Bool
has_query_id id q = str_eq q.query_id id

abbrev pub HasDistinctIds : List MetricQuery → Type 0
HasDistinctIds [] = Unit
HasDistinctIds (q ∷ qs) = (any (has_query_id q.query_id) qs ≡ false) × HasDistinctIds qs

-- no id of a first list in a second one
abbrev pub AreApart : List MetricQuery → List MetricQuery → Type 0
AreApart [] m = Unit
AreApart (q ∷ l) m = (any (has_query_id q.query_id) m ≡ false) × AreApart l m

pub append-HasDistinctIds :
    (l m : List MetricQuery)
    → HasDistinctIds l
    → HasDistinctIds m
    → AreApart l m
    → HasDistinctIds (l ++ m)
append-HasDistinctIds [] m h k a = k
append-HasDistinctIds (q ∷ l) m h k a = (
  any-append (has_query_id q.query_id) l m ∙ ground (arith, h.0, a.0),
  append-HasDistinctIds l m h.1 k a.1,
)

-- A test on ids that all of one list pass, and none of the other, keeps them apart.
pub any_other :
    (p : String → Bool) (id : String) (m : List MetricQuery)
    → p id ≡ false
    → all (λ r. p r.query_id) m ≡ true
    → any (has_query_id id) m ≡ false
any_other p id [] h k = refl
any_other p id (r ∷ m) h k = elim (Bool-cases (str_eq r.query_id id)) [
  | inl same ↦ absurd (ground (arith, ap p ((eq_iff r.query_id id).0 same), h, k))
  | inr other ↦ ground (arith, other, any_other p id m h (ground (arith, k)))
]

pub AreApart-test :
    (p : String → Bool) (l m : List MetricQuery)
    → any (λ q. p q.query_id) l ≡ false
    → all (λ r. p r.query_id) m ≡ true
    → AreApart l m
AreApart-test p [] m h k = tt
AreApart-test p (q ∷ l) m h k =
    (any_other p q.query_id m (ground (arith, h)) k, AreApart-test p l m (ground (arith, h)) k)

any-cwagent_query :
    (p : String → Bool) (o : Option (List Dimension)) (m : String × String)
    → p (lower m.0) ≡ false
    → any (λ q. p q.query_id) (cwagent_query o m) ≡ false
any-cwagent_query p none m h = refl
any-cwagent_query p (some []) m h = refl
any-cwagent_query p (some (d ∷ ds)) m h = ground (arith, h)

pub any-cwagent_each :
    (p : String → Bool) (discovered : Dict (List Dimension)) (metrics : Dict String)
    → any (λ m. p (lower m.0)) metrics ≡ false
    → any (λ q. p q.query_id) (cwagent_each discovered metrics) ≡ false
any-cwagent_each p discovered [] h = refl
any-cwagent_each p discovered (m ∷ metrics) h =
    any-append (λ q. p q.query_id) (cwagent_query (lookup m.0 discovered) m)
      (cwagent_each discovered metrics)
    ∙ ground (
      arith,
      any-cwagent_query p (lookup m.0 discovered) m (ground (arith, h)),
      any-cwagent_each p discovered metrics (ground (arith, h)),
    )

abbrev HasDistinctNames : Dict String → Type 0
HasDistinctNames [] = Unit
HasDistinctNames (m ∷ l) =
    (any (λ n. str_eq (lower n.0) (lower m.0)) l ≡ false) × HasDistinctNames l

cwagent_query-append-HasDistinctIds :
    (o : Option (List Dimension)) (m : String × String) (l : List MetricQuery)
    → any (has_query_id (lower m.0)) l ≡ false
    → HasDistinctIds l
    → HasDistinctIds (cwagent_query o m ++ l)
cwagent_query-append-HasDistinctIds none m l h k = k
cwagent_query-append-HasDistinctIds (some []) m l h k = k
cwagent_query-append-HasDistinctIds (some (d ∷ ds)) m l h k = (h, k)

pub cwagent_each-HasDistinctIds :
    (discovered : Dict (List Dimension)) (metrics : Dict String)
    → HasDistinctNames metrics
    → HasDistinctIds (cwagent_each discovered metrics)
cwagent_each-HasDistinctIds discovered [] h = tt
cwagent_each-HasDistinctIds discovered (m ∷ metrics) h =
    cwagent_query-append-HasDistinctIds (lookup m.0 discovered) m (cwagent_each discovered metrics)
      (any-cwagent_each (λ id. str_eq id (lower m.0)) discovered metrics h.0)
      (cwagent_each-HasDistinctIds discovered metrics h.1)

-- names that no query of an agent has
pub AreApart-cwagent_each :
    (l : List MetricQuery) (discovered : Dict (List Dimension)) (metrics : Dict String)
    → any (λ q. any (λ m. str_eq (lower m.0) q.query_id) metrics) l ≡ false
    → AreApart l (cwagent_each discovered metrics)
AreApart-cwagent_each [] discovered metrics h = tt
AreApart-cwagent_each (q ∷ l) discovered metrics h = (
  any-cwagent_each (λ id. str_eq id q.query_id) discovered metrics (ground (arith, h)),
  AreApart-cwagent_each l discovered metrics (ground (arith, h)),
)
