-- ===== src/Reviews/Verdicts.antt =====
-- What holds of a review that src/omarchy_yolo/reviewer.py accepts.
use omarchy_yolo.Prelude.{
  ◌≤◌, suc, String, ◌≡◌, sym, ◌∙◌, ==-comm, ◌≢◌, ◌⊎◌, inl, inr, refl, true, false, not, ◌&&◌, List,
  [], ◌∷◌, arith, ◌==◌, string_eq, elem, is_empty, length, text_length, strip, All, Bool-cases,
}
use omarchy_yolo.Prelude.Fallible.{
  Fallible, returns, traverse, Ensures, Ensures-returns, Ensures-raises, Ensures-refuse,
  Ensures-bind, Ensures-unit, Ensures-traverse,
}
use omarchy_yolo.Config.Values.{Value, text, integer, boolean, array, table, other, Entries}
use omarchy_yolo.Agents.{ReviewResult}
use omarchy_yolo.Reviews.{
  ReviewError, max_review_findings, max_review_finding_chars, max_review_summary_chars,
  read_finding, some_text, read_review,
}

-- A verdict with its grounds: a pass has a summary and no finding, any other has a summary or a
-- finding that is not blank.
abbrev pub IsGrounded : ReviewResult → Type 0
IsGrounded r =
    ((r.verdict ≡ "pass") × ((r.findings ≡ []) × (r.summary ≢ "")))
    ⊎ ((elem r.verdict ("retry" ∷ "fail" ∷ []) ≡ true)
        × ((r.summary ≢ "") ⊎ (some_text r.findings ≡ true)))

pub record IsReview (r : ReviewResult) : Type 0 where
  pub summary_short : text_length r.summary ≤ max_review_summary_chars
  pub few_findings : length r.findings ≤ max_review_findings
  pub short_findings : All (λ f. text_length f ≤ max_review_finding_chars) r.findings
  pub grounded : IsGrounded r

-- As many findings as items.
length-traverse :
    {A B : Type 0} (f : A → Fallible ReviewError B) (xs : List A)
    → Ensures (λ ys. length ys ≡ length xs) (traverse f xs)
unfolding traverse
length-traverse f [] = Ensures-returns (λ ys. length ys ≡ 0) [] refl
length-traverse f (x ∷ xs) =
    Ensures-bind (λ _. Unit {0}) (λ ys. length ys ≡ suc (length xs)) (f x) _ (Ensures-unit (f x))
      λ y u.
        Ensures-bind (λ ys. length ys ≡ length xs) (λ ys. length ys ≡ suc (length xs))
          (traverse f xs) _ (length-traverse f xs)
          λ ys e. Ensures-returns (λ ys. length ys ≡ suc (length xs)) (y ∷ ys) (rw e refl)

read_finding-short :
    (v : Value) → Ensures (λ f. text_length f ≤ max_review_finding_chars) (read_finding v)
unfolding read_finding
read_finding-short (text s) = Ensures-refuse _ _ _ _ λ short.
    Ensures-returns (λ f. text_length f ≤ max_review_finding_chars) (strip s) (ground arith)
read_finding-short (integer n) = Ensures-raises _ _
read_finding-short (boolean b) = Ensures-raises _ _
read_finding-short (array vs) = Ensures-raises _ _
read_finding-short (table es) = Ensures-raises _ _
read_finding-short (other n) = Ensures-raises _ _

empty_of : {A : Type 0} (xs : List A) → is_empty xs ≡ true → xs ≡ []
empty_of [] h = refl
empty_of (x ∷ xs) h = cc

grounds :
    (verdict summary : String) (findings : List String)
    → elem verdict ("pass" ∷ "retry" ∷ "fail" ∷ []) ≡ true
    → (verdict == "pass" && not (is_empty findings)) ≡ false
    → (verdict == "pass" && summary == "") ≡ false
    → (not (verdict == "pass") && summary == "" && not (some_text findings)) ≡ false
    → IsGrounded (record { verdict = verdict; summary = summary; findings = findings })
grounds verdict summary findings known bare given blank = elim (Bool-cases (verdict == "pass")) [
  | inl e ↦ inl (
    (string_eq.beq_iff verdict "pass").0 e,
    (empty_of findings (ground arith), ground (arith, string_eq.beq_iff summary "")),
  )
  | inr e ↦ inr (
    rw (sym (==-comm verdict "pass") ∙ e) at known,
    elim (Bool-cases (summary == "")) [
      | inl blank_summary ↦ inr (ground arith)
      | inr text_given ↦ inl (ground (arith, string_eq.beq_iff summary ""))
    ],
  )
]

-- Whatever JSON object an agent answers: a review that `_run` returns has a bounded summary, at most
-- 64 bounded findings, and a verdict with its grounds: a pass has a summary and no finding, a retry
-- or a failure has a summary or a finding that is not blank.
pub read_review-IsReview :
    (lower : String → String) (payload : Entries) (r : ReviewResult)
    → read_review lower payload ≡ returns r
    → IsReview r
unfolding read_review
read_review-IsReview lower payload r h =
    let all_ways : Ensures IsReview (read_review lower payload) =
      Ensures-bind _ IsReview _ _ (Ensures-unit _) λ verdict_raw _.
        Ensures-bind _ IsReview _ _ (Ensures-unit _) λ summary_raw _.
          Ensures-refuse IsReview _ _ _ λ known. Ensures-refuse IsReview _ _ _ λ short.
            Ensures-bind _ IsReview _ _ (Ensures-unit _) λ items _.
              Ensures-refuse IsReview _ _ _ λ few.
                Ensures-bind
                  (λ fs.
                    All (λ f. text_length f ≤ max_review_finding_chars) fs
                    × (length fs ≡ length items))
                  IsReview _ _ (both items)
                  λ findings found. Ensures-refuse IsReview _ _ _ λ bare.
                    Ensures-refuse IsReview _ _ _ λ given. Ensures-refuse IsReview _ _ _ λ blank.
                      Ensures-returns IsReview _ (record {
                        summary_short = ground arith;
                        few_findings =
                            let same : length findings ≡ length items = found.1 in ground arith;
                        short_findings = found.0;
                        grounded = grounds _ _ findings (ground arith) bare given blank;
                      }) in
    all_ways.at r h
  where
    both :
        (items : List Value)
        → Ensures
            (λ fs.
              All (λ f. text_length f ≤ max_review_finding_chars) fs × (length fs ≡ length items))
            (traverse read_finding items)
    both items = record {
      at = λ fs e. (
        (Ensures-traverse (λ f. text_length f ≤ max_review_finding_chars) read_finding items
              read_finding-short).at
            fs e,
        (length-traverse read_finding items).at fs e,
      );
    }
