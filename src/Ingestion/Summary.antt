-- ===== src/Ingestion/Summary.antt =====
-- backend/pipelines/ingestion_pipeline.py: the summary against a description by filters.
use aiops_aws.Prelude.{
  ℕ, ◌+◌, ◌≤◌, String, ◌≡◌, refl, ap, ◌∙◌, Bool, true, false, ◌&&◌, ◌||◌, List, [], ◌∷◌, length,
  filter, any, arith, str_eq, eq_iff, IsAscending, sorted-IsAscending, length-filter-sorted,
  any-sorted, contains, occurrences, add_once, contains-add_once, occurrences-add_once,
  if◌then◌else◌,
}
use aiops_aws.Ingestion.{
  Log, mentions, tracked_keywords, LogSummary, find_keywords, note_log, note_all, summarize_logs,
}

abbrev pub count : String → List Log → ℕ
count word logs = length (filter (mentions word) logs)

find_keywords-contains :
    (x : String) (keywords : List String) (log : Log) (found : List String)
    → contains x (find_keywords keywords log found)
      ≡ (contains x found || contains x keywords && mentions x log)
find_keywords-contains x [] log found = ground arith
find_keywords-contains x (k ∷ keywords) log found = ground (
  arith,
  eq_iff k x,
  contains-add_once x k found,
  find_keywords-contains x keywords log (if mentions k log then add_once k found else found),
)

find_keywords-occurrences :
    (x : String) (keywords : List String) (log : Log) (found : List String)
    → occurrences x found ≤ 1
    → occurrences x (find_keywords keywords log found) ≤ 1
find_keywords-occurrences x [] log found h = h
find_keywords-occurrences x (k ∷ keywords) log found h =
    find_keywords-occurrences x keywords log (if mentions k log then add_once k found else found)
      (ground (arith, h, occurrences-add_once x k found h))

note_all-counts :
    (logs : List Log) (found : LogSummary)
    → ((note_all logs found).error_count ≡ found.error_count + count "error" logs)
      × ((note_all logs found).warning_count ≡ found.warning_count + count "warning" logs)
note_all-counts [] found = (omega arith, omega arith)
note_all-counts (log ∷ logs) found =
    let h = note_all-counts logs (note_log log found) in (ground (arith, h.0), ground (arith, h.1))

distribute : (a t m r : Bool) → ((a || t && m) || t && r) ≡ (a || t && (m || r))
distribute true t m r = refl
distribute false true m r = refl
distribute false false m r = refl

note_all-contains :
    (x : String) (logs : List Log) (found : LogSummary)
    → contains x (note_all logs found).keywords
      ≡ (contains x found.keywords || contains x tracked_keywords && any (mentions x) logs)
note_all-contains x [] found = ground arith
note_all-contains x (log ∷ logs) found =
    let k = contains x tracked_keywords in
    note_all-contains x logs (note_log log found)
    ∙ ap (λ b. b || k && any (mentions x) logs)
        (find_keywords-contains x tracked_keywords log found.keywords)
    ∙ distribute (contains x found.keywords) k (mentions x log) (any (mentions x) logs)

note_all-occurrences :
    (x : String) (logs : List Log) (found : LogSummary)
    → occurrences x found.keywords ≤ 1
    → occurrences x (note_all logs found).keywords ≤ 1
note_all-occurrences x [] found h = h
note_all-occurrences x (log ∷ logs) found h =
    note_all-occurrences x logs (note_log log found)
      (find_keywords-occurrences x tracked_keywords log found.keywords h)

-- The summary of a batch counts the logs that mention an error and those that mention a warning,
-- whatever the case of the letters; its keywords are the tracked words that some log mentions,
-- each once and in order.
pub summarize_logs_counts :
    (logs : List Log)
    → ((summarize_logs logs).error_count ≡ count "error" logs)
      × ((summarize_logs logs).warning_count ≡ count "warning" logs)
      × ((x : String)
          → contains x (summarize_logs logs).keywords
            ≡ (contains x tracked_keywords && any (mentions x) logs))
      × ((x : String) → occurrences x (summarize_logs logs).keywords ≤ 1)
      × IsAscending (λ k. k) (summarize_logs logs).keywords
unfolding summarize_logs
summarize_logs_counts logs =
    let start : LogSummary = record { error_count = 0; warning_count = 0; keywords = [] } in
    let found = note_all logs start in
    let counts = note_all-counts logs start in
    (
      ground (arith, counts.0),
      ground (arith, counts.1),
      (λ x. any-sorted (λ k. k) (λ y. str_eq y x) found.keywords ∙ note_all-contains x logs start),
      (λ x. ground (
        arith,
        length-filter-sorted (λ k. k) (λ y. str_eq y x) found.keywords,
        note_all-occurrences x logs start,
      )),
      sorted-IsAscending (λ k. k) found.keywords,
    )
