-- ===== src/Tests/Verdicts.antt =====
-- Reviews that are read and merged.
use omarchy_yolo.Prelude.{
  ◌≡◌, refl, none, some, append_text, List, [], ◌∷◌, strip, strip_chars, lstrip, rstrip, is_space,
}
use omarchy_yolo.Prelude.Fallible.{returns, refuse_if, traverse, ◌>>=◌}
use omarchy_yolo.Config.Values.{text, array, item, no_items, Entries, entry, no_entries, get}
use omarchy_yolo.Agents.{ReviewResult}
use omarchy_yolo.Reviews.{Entry, read_finding, read_review, all_findings, review_failure}
use omarchy_yolo.Reviews.Verdicts.{IsReview, read_review-IsReview}
use omarchy_yolo.Reviews.Failures.{IsMerged, review_failure-IsMerged}

-- A failure whose only finding is blank.
abbrev failing_answer : Entries
failing_answer = entry "verdict" (text "fail") (
    entry "summary" (text "unsafe")
      (entry "findings" (array (item (text " ") no_items)) no_entries))

abbrev failing_review : ReviewResult
failing_review = record { verdict = "fail"; summary = "unsafe"; findings = "" ∷ [] }

answer_read : read_review (λ s. s) failing_answer ≡ returns failing_review
unfolding refuse_if traverse ◌>>=◌ get strip strip_chars lstrip rstrip is_space read_finding
    read_review
answer_read = refl

read_review-IsReview_example : IsReview failing_review
read_review-IsReview_example =
    read_review-IsReview (λ s. s) failing_answer failing_review answer_read

-- A failure, a pass, and a retry that has only a summary.
abbrev entries : List Entry
entries =
    record {
      label = "chunk 1";
      review = record { verdict = "fail"; summary = "unsafe"; findings = "leak" ∷ "" ∷ [] };
    }
    ∷ record {
      label = "chunk 2";
      review = record { verdict = "pass"; summary = "fine"; findings = [] };
    }
    ∷ record {
      label = "chunk 3";
      review = record { verdict = "retry"; summary = "unclear"; findings = [] };
    }
    ∷ []

review_failure-IsMerged_example :
    IsMerged (λ n. "n") entries "shards" (review_failure (λ n. "n") "shards" entries)
review_failure-IsMerged_example = review_failure-IsMerged (λ n. "n") "shards" entries

entries_merged :
    review_failure (λ n. "n") "shards" entries
    ≡ some record {
      verdict = "fail";
      summary = "shards";
      findings = "chunk 1: leak" ∷ "chunk 3: unclear" ∷ [];
    }
unfolding append_text all_findings review_failure
entries_merged = refl

-- A failure whose only finding is blank is not reported.
failure_lost :
    review_failure (λ n. "n") "shards" (record { label = "chunk 1"; review = failing_review } ∷ [])
    ≡ none
unfolding all_findings review_failure
failure_lost = refl
