-- ===== src/Reviews/Failures.antt =====
-- What `_review_failure` of src/omarchy_yolo/orchestrator_integration.py makes of its entries.
use omarchy_yolo.Prelude.{
  ℕ, zero, ◌-◌, ◌≤◌, ◌<◌, suc, String, ◌≡◌, ◌⊎◌, ap, sym, inl, inr, refl, Bool, true, false, not,
  ◌&&◌, Option, none, some, List, [], ◌∷◌, ◌++◌, arith, ◌==◌, string_eq, eq_of_==, any, is_empty,
  length, take, ltb, append_text, if◌then◌else◌, Bool-cases, All, All-append, All-map_of, Exists,
  Exists-append_left, Exists-append_right, IsMember,
}
use omarchy_yolo.Agents.{ReviewResult, passed}
use omarchy_yolo.Reviews.{
  Entry, findings_or_summary, labelled, findings_of, all_findings, saw_fail, bounded_findings,
  review_failure,
}

abbrev pub line : String → String → String
line label text = append_text (append_text label ": ") text

-- A review that did not pass owes the merged one a line for each finding that is not blank, or, if
-- it has no findings at all, one for its summary.
pub data Owes (e : Entry) : String → Type 0 where
  finding :
      (f : String)
      → (e.review.verdict == "pass") ≡ false
      → IsMember f e.review.findings
      → (f == "") ≡ false
      → Owes e (line e.label f)
  bare :
      (e.review.verdict == "pass") ≡ false
      → e.review.findings ≡ []
      → (e.review.summary == "") ≡ false
      → Owes e (line e.label e.review.summary)

-- A blank text needs no line.
abbrev pub Shown : List String → String → String → Type 0
Shown lines label text = (text ≡ "") ⊎ IsMember (line label text) lines

abbrev pub Told : List String → Entry → Type 0
Told lines e =
    (e.review.verdict ≡ "pass")
    ⊎ (((e.review.findings ≡ []) × Shown lines e.label e.review.summary)
        ⊎ ((is_empty e.review.findings ≡ false) × All (Shown lines e.label) e.review.findings))

-- The lines in full up to 64, else the first 64 and the number of the others.
abbrev pub IsBounded : (ℕ → String) → List String → List String → Type 0
IsBounded show_nat lines findings =
    ((length lines ≤ 64) × (findings ≡ lines))
    ⊎ ((64 < length lines)
        × (findings ≡ (
            take 64 lines
            ++ append_text (show_nat (length lines - 64)) " additional findings omitted" ∷ [])))

abbrev pub IsVerdict : List Entry → String → Type 0
IsVerdict es verdict =
    ((verdict ≡ "fail") × Exists (λ e. e.review.verdict ≡ "fail") es)
    ⊎ ((verdict ≡ "retry") × All (λ e. (e.review.verdict == "fail") ≡ false) es)

abbrev pub Reports : (ℕ → String) → List Entry → String → List String → Option ReviewResult → Type 0
Reports show_nat es summary lines none = lines ≡ []
Reports show_nat es summary lines (some r) =
    (is_empty lines ≡ false)
    × ((r.summary ≡ summary) × (IsVerdict es r.verdict × IsBounded show_nat lines r.findings))

-- The report on entries, by the lines that they owe.
pub record IsMerged (show_nat : ℕ → String) (es : List Entry) (summary : String)
    (report : Option ReviewResult) : Type 0 where
  pub lines : List String
  pub owed : All (λ l. Exists (λ e. Owes e l) es) lines
  pub told : All (Told lines) es
  pub reported : Reports show_nat es summary lines report

labelled-All :
    (P : String → Type 0) (label : String) (fs : List String)
    → ((f : String) → IsMember f fs → (f == "") ≡ false → P (line label f))
    → All P (labelled label fs)
labelled-All P label [] h = tt
labelled-All P label (f ∷ fs) h =
    let rest = labelled-All P label fs (λ g m. h g (inr m)) in
    elim (Bool-cases (f == "")) [ inl e ↦ rw e rest | inr e ↦ rw e (h f (inl refl) e, rest) ]

labelled-Shown : (label : String) (fs : List String) → All (Shown (labelled label fs) label) fs
labelled-Shown label [] = tt
labelled-Shown label (f ∷ fs) = go (f == "") refl (labelled-Shown label fs)
  where
    go :
        (blank : Bool)
        → (f == "") ≡ blank
        → All (Shown (labelled label fs) label) fs
        → let lines = if blank then labelled label fs else line label f ∷ labelled label fs in
          Shown lines label f × All (Shown lines label) fs
    go true e rest = (inl (eq_of_== f "" e), rest)
    go false e rest = (
      inr (inl refl),
      All-map_of (Shown (labelled label fs) label) (Shown (line label f ∷ labelled label fs) label)
          fs (λ g s. elim s [ inl b ↦ inl b | inr m ↦ inr (inr m) ]) rest,
    )

-- What holds of the lines of an entry that is told holds of more lines.
Told-more :
    (lines more : List String)
    → ((l : String) → IsMember l lines → IsMember l more)
    → (e : Entry) → Told lines e
    → Told more e
Told-more lines more h e t = elim t [
  | inl p ↦ inl p
  | inr (inl b) ↦ inr (inl (b.0, shown e.review.summary b.1))
  | inr (inr fs) ↦ inr (inr (fs.0, All-map_of _ _ e.review.findings shown fs.1))
]
  where
    shown : (f : String) → Shown lines e.label f → Shown more e.label f
    shown f (inl b) = inl b
    shown f (inr m) = inr (h (line e.label f) m)

findings_of-Told : (e : Entry) → Told (findings_of e) e
findings_of-Told e = elim (Bool-cases (passed e.review)) [
  | inl p ↦ inl (eq_of_== e.review.verdict "pass" p)
  | inr p ↦ rw p (inr (go e.review.findings))
]
  where
    go :
        (fs : List String)
        → let lines = labelled e.label (findings_or_summary fs e.review.summary) in
          ((fs ≡ []) × Shown lines e.label e.review.summary)
          ⊎ ((is_empty fs ≡ false) × All (Shown lines e.label) fs)
    go [] = inl (refl, (labelled-Shown e.label (e.review.summary ∷ [])).0)
    go (f ∷ fs) = inr (refl, labelled-Shown e.label (f ∷ fs))

findings_of-Owes : (e : Entry) → All (Owes e) (findings_of e)
findings_of-Owes e = elim (Bool-cases (passed e.review)) [
  | inl p ↦ rw p tt
  | inr p ↦ rw p (go e.review.findings refl p)
]
  where
    go :
        (fs : List String)
        → e.review.findings ≡ fs
        → passed e.review ≡ false
        → All (Owes e) (labelled e.label (findings_or_summary fs e.review.summary))
    go [] h p = labelled-All (Owes e) e.label (e.review.summary ∷ []) λ f m b. elim m [
      | inl same ↦ rw (sym same) (Owes.bare p h (rw same b))
      | inr never ↦ elim never [ ]
    ]
    go (f ∷ fs) h p = labelled-All (Owes e) e.label (f ∷ fs) λ g m b. Owes.finding g p (rw h m) b

all_findings-Owes : (es : List Entry) → All (λ l. Exists (λ e. Owes e l) es) (all_findings es)
unfolding all_findings
all_findings-Owes [] = tt
all_findings-Owes (e ∷ es) =
    All-append _ (findings_of e) (all_findings es)
      (All-map_of (Owes e) _ (findings_of e) (λ l o. inl o) (findings_of-Owes e))
      (All-map_of (λ l. Exists (λ x. Owes x l) es) _ (all_findings es) (λ l o. inr o)
        (all_findings-Owes es))

all_findings-Told : (es : List Entry) → All (Told (all_findings es)) es
unfolding all_findings
all_findings-Told [] = tt
all_findings-Told (e ∷ es) =
    let first = findings_of e in
    let rest = all_findings es in
    (
      Told-more first (first ++ rest) (λ l. Exists-append_left (λ x. x ≡ l) first rest) e
          (findings_of-Told e),
      All-map_of (Told rest) (Told (first ++ rest)) es
          (Told-more rest (first ++ rest) (λ l. Exists-append_right (λ x. x ≡ l) first rest))
          (all_findings-Told es),
    )

take-all : {A : Type 0} (n : ℕ) (xs : List A) → length xs ≤ n → take n xs ≡ xs
take-all zero [] h = refl
take-all zero (x ∷ xs) h = let never : ⊥ = omega arith in elim never [ ]
take-all (suc n) [] h = refl
take-all (suc n) (x ∷ xs) h = ap (λ ys. x ∷ ys) (take-all n xs (omega arith))

append-nil : {A : Type 0} (xs : List A) → (xs ++ []) ≡ xs
append-nil [] = refl
append-nil (x ∷ xs) = ap (λ ys. x ∷ ys) (append-nil xs)

bounded_findings-IsBounded :
    (show_nat : ℕ → String) (lines : List String)
    → IsBounded show_nat lines (bounded_findings show_nat lines)
bounded_findings-IsBounded show_nat lines = elim (Bool-cases (ltb 64 (length lines))) [
  | inl e ↦ inr (ground arith, rw e refl)
  | inr e ↦
      let few : length lines ≤ 64 = ground arith in
      inl (few, rw e (rw (take-all 64 lines few) (append-nil lines)))
]

abbrev failed : Entry → Bool
failed e = e.review.verdict == "fail"

-- A verdict of failure is not one of passing.
failed-ne-passed : (e : Entry) → (not (passed e.review) && failed e) ≡ failed e
failed-ne-passed e = elim (Bool-cases (failed e)) [
  | inl h ↦ rw (eq_of_== e.review.verdict "fail" h) refl
  | inr h ↦ rw h (ground arith)
]

saw_fail-any : (es : List Entry) → saw_fail es ≡ any failed es
saw_fail-any [] = refl
saw_fail-any (e ∷ es) = rw (failed-ne-passed e) (rw (saw_fail-any es) refl)

any-IsVerdict : (es : List Entry) → IsVerdict es (if any failed es then "fail" else "retry")
any-IsVerdict [] = inr (refl, tt)
any-IsVerdict (e ∷ es) = elim (Bool-cases (failed e)) [
  | inl h ↦ rw h (inl (refl, inl (eq_of_== e.review.verdict "fail" h)))
  | inr h ↦ rw h (elim (any-IsVerdict es) [
    | inl some_failed ↦ inl (some_failed.0, inr some_failed.1)
    | inr none_failed ↦ inr (none_failed.0, (refl, none_failed.1))
  ])
]

saw_fail-IsVerdict : (es : List Entry) → IsVerdict es (if saw_fail es then "fail" else "retry")
saw_fail-IsVerdict es = rw (saw_fail-any es) (any-IsVerdict es)

-- `_review_failure` works on a list of lines, and reports nothing exactly if that is empty. Each line
-- belongs to an entry whose verdict is not "pass": its label with a finding that is not blank or,
-- if it has no findings at all, with its summary where that is not blank; and every such line is in
-- the list. A report has the given summary, all lines up to 64, else the first 64 and the number of
-- the others, and the verdict "fail" if the verdict of some entry is "fail", else "retry".
pub review_failure-IsMerged :
    (show_nat : ℕ → String) (summary : String) (es : List Entry)
    → IsMerged show_nat es summary (review_failure show_nat summary es)
unfolding review_failure
review_failure-IsMerged show_nat summary es = record {
  lines = all_findings es;
  owed = all_findings-Owes es;
  told = all_findings-Told es;
  reported = go (all_findings es);
}
  where
    go :
        (lines : List String)
        → Reports show_nat es summary lines (
            if is_empty lines
            then none
            else some record {
              verdict = if saw_fail es then "fail" else "retry";
              summary = summary;
              findings = bounded_findings show_nat lines;
            })
    go [] = refl
    go (l ∷ ls) =
        (refl, (refl, (saw_fail-IsVerdict es, bounded_findings-IsBounded show_nat (l ∷ ls))))
