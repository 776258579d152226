-- ===== src/Ingestion.antt =====
-- backend/pipelines/ingestion_pipeline.py: the summary of a batch of logs.
pub mod Summary
use Prim.Native.String
use aiops_aws.Prelude.{
  is_prefix, ℕ, ◌+◌, String, Bool, true, false, ◌&&◌, ◌||◌, Option, none, some, List, [], ◌∷◌,
  lower, sorted, add_once, ◌==◌, if◌then◌else◌,
}

-- `needle in text`
abbrev pub is_infix : String → String → Bool
is_infix needle String.[] = is_prefix needle String.[]
is_infix needle (String.◌∷◌ c s) = is_prefix needle (String.◌∷◌ c s) || is_infix needle s

-- A log is a dictionary of which the code reads `message`.
pub record Log : Type 0 where
  pub message : Option String

abbrev text_or_empty : Option String → String
text_or_empty none = ""
text_or_empty (some s) = s

-- whether the message, in lower case, holds a word
unfoldable pub mentions : String → Log → Bool
unfolding lower
mentions word log = is_infix word (lower (text_or_empty log.message))

abbrev pub tracked_keywords : List String
tracked_keywords = "error" ∷ "exception" ∷ "timeout" ∷ "failed" ∷ "refused" ∷ "killed" ∷ []

pub record LogSummary : Type 0 where
  pub error_count : ℕ
  pub warning_count : ℕ
  pub keywords : List String

-- `for keyword in tracked_keywords: …`, with the set as a list without repetition
abbrev pub find_keywords : List String → Log → List String → List String
find_keywords [] log found = found
find_keywords (keyword ∷ keywords) log found =
    find_keywords keywords log (if mentions keyword log then add_once keyword found else found)

abbrev plus_one_if : Bool → ℕ → ℕ
plus_one_if b n = if b then n + 1 else n

-- one turn of the loop over the logs
abbrev pub note_log : Log → LogSummary → LogSummary
note_log log found = record {
  error_count = plus_one_if (mentions "error" log) found.error_count;
  warning_count = plus_one_if (mentions "warning" log) found.warning_count;
  keywords = find_keywords tracked_keywords log found.keywords;
}

abbrev pub note_all : List Log → LogSummary → LogSummary
note_all [] found = found
note_all (log ∷ logs) found = note_all logs (note_log log found)

unfoldable pub summarize_logs : List Log → LogSummary
summarize_logs logs =
    let found = note_all logs (record { error_count = 0; warning_count = 0; keywords = [] }) in
    record found { keywords = sorted (λ k. k) found.keywords }
