-- ===== src/Tests/Ingestion.antt =====
-- The theorem on the summary of logs at a concrete input.
use aiops_aws.Prelude.{
  String, ◌≡◌, ◌≤◌, refl, ◌&&◌, some, none, List, [], ◌∷◌, any, contains, occurrences, IsAscending,
}
use aiops_aws.Ingestion.{Log, mentions, tracked_keywords, summarize_logs}
use aiops_aws.Ingestion.Summary.{summarize_logs_counts}

abbrev batch : List Log
batch =
    record { message = some "Timeout: connection refused" }
    ∷ record { message = some "ERROR timeout" }
    ∷ record { message = none }
    ∷ record { message = some "Warning: disk" }
    ∷ []

batch_keywords : (summarize_logs batch).keywords ≡ "error" ∷ "refused" ∷ "timeout" ∷ []
unfolding summarize_logs mentions
batch_keywords = refl

summarize_logs_counts_example :
    ((summarize_logs batch).error_count ≡ 1)
    × ((summarize_logs batch).warning_count ≡ 1)
    × ((x : String)
        → contains x (summarize_logs batch).keywords
          ≡ (contains x tracked_keywords && any (mentions x) batch))
    × ((x : String) → occurrences x (summarize_logs batch).keywords ≤ 1)
    × IsAscending (λ k. k) (summarize_logs batch).keywords
unfolding mentions
summarize_logs_counts_example = summarize_logs_counts batch
