-- ===== src/Monitoring/Verdict.antt =====
-- backend/pipelines/inference_pipeline.py: the result against the list of reasons for an alarm.
use aiops_aws.Prelude.{
  ℕ, ◌+◌, ◌≤◌, String, ◌≡◌, refl, ap, sym, ◌∙◌, ◌↔◌, Bool, true, false, Option, some, none, List,
  [], ◌∷◌, ◌++◌, length, map, append-nil, Dict, contains, arith, str_eq, eq_iff, zero, suc, ltb,
  leb, if◌then◌else◌,
}
use aiops_aws.Ingestion.{LogSummary}
use aiops_aws.Monitoring.{Floats, Metrics}
use aiops_aws.Monitoring.Inference.{
  detect_anomaly_rule_based, triggered_by, model_dump, feature_thresholds, with_errors,
  note_feature, severity_of, summary_of,
}

-- the names that hold
abbrev pub names_where : Dict Bool → List String
names_where [] = []
names_where ((name, b) ∷ l) = note_feature b name (names_where l)

abbrev pub count_true : Dict Bool → ℕ
count_true [] = 0
count_true ((name, b) ∷ l) = if b then count_true l + 1 else count_true l

length-names_where : (l : Dict Bool) → length (names_where l) ≡ count_true l
length-names_where [] = refl
length-names_where ((name, b) ∷ l) = ground (arith, length-names_where l)

names_where-append : (l m : Dict Bool) → names_where (l ++ m) ≡ names_where l ++ names_where m
names_where-append [] m = refl
names_where-append ((name, true) ∷ l) m = ap (λ r. name ∷ r) (names_where-append l m)
names_where-append ((name, false) ∷ l) m = names_where-append l m

contains-names_where :
    (x : String) (l : Dict Bool)
    → contains x (map (λ p. p.0) l) ≡ false
    → contains x (names_where l) ≡ false
contains-names_where x [] h = refl
contains-names_where x ((name, true) ∷ l) h =
    ground (arith, h, contains-names_where x l (ground (arith, h)))
contains-names_where x ((name, false) ∷ l) h = contains-names_where x l (ground (arith, h))

-- texts that a test tells apart
differ : {s : String} (t : String) → s ≡ t → str_eq s t ≡ false → ⊥
differ {s} t e other = ground (arith, e, other, eq_iff s t)

severity_of_many : (n : ℕ) → severity_of (suc (suc (suc n))) ≡ "high"
severity_of_many n =
    let not_none : leb (suc (suc (suc n))) 0 ≡ false = ground arith in
    let not_few : leb (suc (suc (suc n))) 2 ≡ false = ground arith in rw (not_none, not_few) refl

severity_of-low : (n : ℕ) → (severity_of n ≡ "low") ↔ (n ≡ 0)
severity_of-low zero = (λ _. refl, λ _. refl)
severity_of-low (suc zero) = (λ e. absurd (differ "low" e refl), λ e. absurd (omega (arith, e)))
severity_of-low (suc (suc zero)) =
    (λ e. absurd (differ "low" e refl), λ e. absurd (omega (arith, e)))
severity_of-low (suc (suc (suc n))) =
    (λ e. absurd (differ "low" (sym (severity_of_many n) ∙ e) refl), λ e. absurd (omega (arith, e)))

severity_of-high : (n : ℕ) → (severity_of n ≡ "high") ↔ (3 ≤ n)
severity_of-high zero = (λ e. absurd (differ "high" e refl), λ e. absurd (omega (arith, e)))
severity_of-high (suc zero) = (λ e. absurd (differ "high" e refl), λ e. absurd (omega (arith, e)))
severity_of-high (suc (suc zero)) =
    (λ e. absurd (differ "high" e refl), λ e. absurd (omega (arith, e)))
severity_of-high (suc (suc (suc n))) = (λ _. omega arith, λ _. severity_of_many n)

summary_of-normal :
    (l keywords : List String) → l ≡ [] → summary_of l keywords ≡ "System behavior appears normal."
summary_of-normal [] keywords e = refl
summary_of-normal (t ∷ ts) keywords e = absurd (ground (arith, e))

length-nil : (l : List String) → length l ≡ 0 → l ≡ []
length-nil [] e = refl
length-nil (t ∷ ts) e = absurd (ground (arith, e))

pub names_where_none : (l : Dict Bool) → count_true l ≡ 0 → names_where l ≡ []
names_where_none l e = length-nil (names_where l) (length-names_where l ∙ e)

with_errors-names_where :
    (l : Dict Bool) (errors : ℕ)
    → contains "logs:error" (names_where l) ≡ false
    → with_errors errors (names_where l) ≡ names_where (l ++ ("logs:error", ltb 0 errors) ∷ [])
with_errors-names_where l errors absent = ground (
  arith,
  absent,
  names_where-append l (("logs:error", ltb 0 errors) ∷ []),
  append-nil (names_where l),
)

-- the errors that a summary counts
abbrev pub errors_in : Option LogSummary → ℕ
errors_in none = 0
errors_in (some s) = s.error_count

module _ {V : Type 0} (floats : Floats V) where
  -- the limits on the metrics, and whether each is passed
  abbrev pub breaches : Metrics V → Dict Bool
  breaches m =
      ("cpu", floats.exceeds m.cpu (floats.of_int 80))
      ∷ ("memory", floats.exceeds m.memory (floats.of_int 80))
      ∷ ("network_in", floats.exceeds m.network_in (floats.of_int 1000000))
      ∷ ("network_out", floats.exceeds m.network_out (floats.of_int 1000000))
      ∷ ("volume_write_bytes", floats.exceeds m.volume_write_bytes (floats.of_int 10000000))
      ∷ []

  -- those, and whether the logs have errors
  abbrev pub reasons : Metrics V → ℕ → Dict Bool
  reasons m errors = breaches m ++ ("logs:error", ltb 0 errors) ∷ []

  abbrev triggered_at : Metrics V → ℕ → List String
  triggered_at m errors = with_errors errors (triggered_by floats (model_dump m) feature_thresholds)

  triggered-reasons :
      (m : Metrics V) (errors : ℕ) → triggered_at m errors ≡ names_where (reasons m errors)
  triggered-reasons m errors =
      with_errors-names_where (breaches m) errors
        (contains-names_where "logs:error" (breaches m) refl)

  -- the facts about a list of reasons, for the names of those that hold
  held-facts :
      (l : Dict Bool) (triggered keywords : List String)
      → triggered ≡ names_where l
      → (triggered ≡ names_where l)
        × ((ltb 0 (length triggered) ≡ true) ↔ (1 ≤ count_true l))
        × (floats.of_int (length triggered) ≡ floats.of_int (count_true l))
        × ((severity_of (length triggered) ≡ "low") ↔ (count_true l ≡ 0))
        × ((severity_of (length triggered) ≡ "high") ↔ (3 ≤ count_true l))
        × (count_true l ≡ 0 → summary_of triggered keywords ≡ "System behavior appears normal.")
  held-facts l triggered keywords e =
      let n : length triggered ≡ count_true l = ap length e ∙ length-names_where l in
      (
        e,
        ground (arith, n),
        ap floats.of_int n,
        rw n (severity_of-low (count_true l)),
        rw n (severity_of-high (count_true l)),
        λ none_held. summary_of-normal triggered keywords (length-nil triggered (n ∙ none_held)),
      )

  -- The reasons for an alarm are the five limits on the metrics, each passed or not, and errors in
  -- the logs, none where there is no summary of them. The result names the reasons that hold, in
  -- their order; it is an anomaly where some reason holds, its score is how many do, its severity
  -- is low for none and high for three or more, and its text says that all is normal where none
  -- does. It is about the metrics' instance.
  pub detect_anomaly_rule_based-reasons :
      (m : Metrics V) (log_summary : Option LogSummary) (now : ℕ)
      → let r = detect_anomaly_rule_based floats m log_summary now in
        let held = reasons m (errors_in log_summary) in
        (r.triggered_features ≡ names_where held)
        × ((r.is_anomaly ≡ true) ↔ (1 ≤ count_true held))
        × (r.score ≡ floats.of_int (count_true held))
        × ((r.severity ≡ "low") ↔ (count_true held ≡ 0))
        × ((r.severity ≡ "high") ↔ (3 ≤ count_true held))
        × (count_true held ≡ 0 → r.summary ≡ "System behavior appears normal.")
        × (r.instance_id ≡ m.instance_id)
  unfolding detect_anomaly_rule_based
  detect_anomaly_rule_based-reasons m none now =
      let (a, b, c, d, e, f) =
        held-facts (reasons m 0) (triggered_at m 0) [] (triggered-reasons m 0) in
      (a, b, c, d, e, f, refl)
  detect_anomaly_rule_based-reasons m (some s) now =
      let n = s.error_count in
      let (a, b, c, d, e, f) =
        held-facts (reasons m n) (triggered_at m n) s.keywords (triggered-reasons m n) in
      (a, b, c, d, e, f, refl)
