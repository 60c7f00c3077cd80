-- ===== src/Reviews.antt =====
-- src/omarchy_yolo/reviewer.py, the reading of a reviewer's answer, and the merge of the answers in
-- `_review_failure` of src/omarchy_yolo/orchestrator_integration.py. The JSON object is Entries.
pub mod Verdicts
pub mod Failures
use omarchy_yolo.Prelude.{
  ℕ, ◌+◌, ◌-◌, String, Bool, true, false, not, ◌&&◌, ◌||◌, Option, none, some, List, [], ◌∷◌, ◌++◌,
  map, Eq, ◌==◌, string_eq, elem, any, is_empty, length, take, ltb, text_length, append_text, strip,
  if◌then◌else◌,
}
use omarchy_yolo.Prelude.Fallible.{Fallible, returns, raises, refuse_if, traverse, ◌>>=◌, ◌>>◌}
use omarchy_yolo.Config.Values.{
  Value, text, integer, boolean, array, table, other, values_of, Entries, get,
}
use omarchy_yolo.Agents.{ReviewResult, passed}

abbrev pub max_review_summary_chars : ℕ
max_review_summary_chars = 8000

abbrev pub max_review_findings : ℕ
max_review_findings = 64

abbrev pub max_review_finding_chars : ℕ
max_review_finding_chars = 4000

-- YoloError, one constructor for each message of `_run`.
pub data ReviewError : Type 0 where
  not_strings invalid_verdict summary_too_large not_an_array too_many_findings not_a_string
        finding_too_large pass_with_findings pass_without_summary empty_rejection :
      ReviewError

-- `payload.get(key, "")`, if it is a str
abbrev pub text_of : Option Value → Fallible ReviewError String
text_of none = returns ""
text_of (some (text s)) = returns s
text_of (some (integer n)) = raises not_strings
text_of (some (boolean b)) = raises not_strings
text_of (some (array vs)) = raises not_strings
text_of (some (table es)) = raises not_strings
text_of (some (other n)) = raises not_strings

-- `payload.get("findings", [])`, if it is a list
abbrev pub items_of : Option Value → Fallible ReviewError (List Value)
items_of none = returns []
items_of (some (array vs)) = returns (values_of vs)
items_of (some (text s)) = raises not_an_array
items_of (some (integer n)) = raises not_an_array
items_of (some (boolean b)) = raises not_an_array
items_of (some (table es)) = raises not_an_array
items_of (some (other n)) = raises not_an_array

abbrev pub finding_text : String → Fallible ReviewError String
finding_text s = do
  refuse_if (ltb max_review_finding_chars (text_length (strip s))) finding_too_large
  returns (strip s)

-- One item of the loop over the findings.
unfoldable pub read_finding : Value → Fallible ReviewError String
read_finding (text s) = finding_text s
read_finding (integer n) = raises not_a_string
read_finding (boolean b) = raises not_a_string
read_finding (array vs) = raises not_a_string
read_finding (table es) = raises not_a_string
read_finding (other n) = raises not_a_string

-- `any(findings)`
abbrev pub some_text : List String → Bool
some_text findings = any (λ f. not (f == "")) findings

-- The part of `_run` after the agent; `lower` is `str.lower`.
unfoldable pub read_review : (String → String) → Entries → Fallible ReviewError ReviewResult
read_review lower payload = do
  verdict_raw ← text_of (get payload "verdict")
  summary_raw ← text_of (get payload "summary")
  let verdict = lower (strip verdict_raw)
  let summary = strip summary_raw
  refuse_if (not (elem verdict ("pass" ∷ "retry" ∷ "fail" ∷ []))) invalid_verdict
  refuse_if (ltb max_review_summary_chars (text_length summary)) summary_too_large
  items ← items_of (get payload "findings")
  refuse_if (ltb max_review_findings (length items)) too_many_findings
  findings ← traverse read_finding items
  refuse_if (verdict == "pass" && not (is_empty findings)) pass_with_findings
  refuse_if (verdict == "pass" && summary == "") pass_without_summary
  refuse_if (not (verdict == "pass") && summary == "" && not (some_text findings)) empty_rejection
  returns record { verdict = verdict; summary = summary; findings = findings }

pub record Entry : Type 0 where
  pub label : String
  pub review : ReviewResult

-- `review.findings or (review.summary,)`
abbrev pub findings_or_summary : List String → String → List String
findings_or_summary [] summary = summary ∷ []
findings_or_summary (f ∷ fs) summary = f ∷ fs

-- `if finding: findings.append(f"{label}: {finding}")`
abbrev pub labelled : String → List String → List String
labelled label [] = []
labelled label (f ∷ fs) =
    if f == ""
    then labelled label fs
    else append_text (append_text label ": ") f ∷ labelled label fs

abbrev pub findings_of : Entry → List String
findings_of e =
    if passed e.review
    then []
    else labelled e.label (findings_or_summary e.review.findings e.review.summary)

unfoldable pub all_findings : List Entry → List String
all_findings [] = []
all_findings (e ∷ es) = findings_of e ++ all_findings es

abbrev pub saw_fail : List Entry → Bool
saw_fail es = any (λ e. not (passed e.review) && e.review.verdict == "fail") es

-- `bounded`, with the number of findings left out.
abbrev pub bounded_findings : (ℕ → String) → List String → List String
bounded_findings show_nat findings =
    take 64 findings
    ++ (if ltb 64 (length findings)
        then append_text (show_nat (length findings - 64)) " additional findings omitted" ∷ []
        else [])

unfoldable pub review_failure : (ℕ → String) → String → List Entry → Option ReviewResult
review_failure show_nat summary es =
    if is_empty (all_findings es)
    then none
    else some record {
      verdict = if saw_fail es then "fail" else "retry";
      summary = summary;
      findings = bounded_findings show_nat (all_findings es);
    }
