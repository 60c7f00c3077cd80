-- ===== src/Execution/Finalize.antt =====
-- The final audit in src/omarchy_yolo/orchestrator_integration.py: gates, and a review by shards,
-- files and a synthesis, with repairs in between.
use omarchy_yolo.Prelude.{
  ℕ, zero, suc, String, Bool, true, false, not, Option, none, some, List, [], ◌∷◌, ◌++◌, map, ◌==◌,
  string_eq, elem, all, is_empty, length, append_text, if◌then◌else◌,
}
use omarchy_yolo.Prelude.Fallible.{Fallible, returns, raises}
use omarchy_yolo.Agents.{AgentRole, GateResult, ReviewResult, passed}
use omarchy_yolo.Reviews.{Entry, review_failure}
use omarchy_yolo.Db.Rows.{PayloadValue}
use omarchy_yolo.Db.Records.{entry, get_job}
use omarchy_yolo.Execution.Runs.{
  Failure, other, GateScope, Effect, final_reviewed, waited, Chunk, World, Run, pure, raise, store,
  await, emit, ◌>>=◌, ◌>>◌,
}
use omarchy_yolo.Execution.Integrate.{gates_ok, role_agent, run_gates, repair_integration, flag}
use omarchy_yolo.Execution.Worktrees.{parse_answer, join_texts, or_text, count}

-- A chunk with its review.
pub record Shard : Type 0 where
  pub chunk : Chunk
  pub review : ReviewResult

-- What `for file_path in chunk.files` appends to the list of `path`.
abbrev pub hits : String → List String → ReviewResult → List ReviewResult
hits path [] review = []
hits path (f ∷ fs) review = if f == path then review ∷ hits path fs review else hits path fs review

-- `chunk_reviews_by_file[path]`
unfoldable pub reviews_of : String → List Shard → List ReviewResult
reviews_of path [] = []
reviews_of path (s ∷ ss) = hits path s.chunk.files s.review ++ reviews_of path ss

abbrev pub final_effect : Fallible Failure ReviewResult → Effect
final_effect (returns r) = final_reviewed (passed r)
final_effect (raises e) = waited "review"

abbrev pub review_payload : ReviewResult → List (record { key : String; value : PayloadValue })
review_payload r =
    entry "verdict" r.verdict
    ∷ entry "summary" r.summary
    ∷ record { key = "findings"; value = PayloadValue.texts r.findings }
    ∷ []

abbrev pub lost_coverage : String → ReviewResult
lost_coverage path = record {
  verdict = "fail";
  summary = "hierarchical review lost changed-file coverage";
  findings = append_text "no reviewed shard represented " path ∷ [];
}

-- What is fixed for one final review.
pub record Audit : Type 0 where
  pub job_id : String
  pub goal : String
  pub path : String
  pub gates : List GateResult
  pub reviewer_name : String
  pub cycle : ℕ

abbrev pub unless_failed : Option ReviewResult → Run ReviewResult → Run ReviewResult
unless_failed none next = next
unless_failed (some r) next = pure r

module _ (w : World) where
  -- A review whose verdict stays within the hierarchy.
  abbrev pub ask_review : Audit → String → Run ReviewResult
  ask_review x prompt =
      await w (λ log. parse_answer w (w.run_agent log x.reviewer_name prompt))
        (λ _. waited "review")

  -- The loop over the chunks, with the number of all chunks.
  unfoldable pub review_shards : Audit → List String → ℕ → List Chunk → Run (List Shard)
  review_shards x manifest total [] = pure []
  review_shards x manifest total (c ∷ cs) = do
    review ← ask_review x (w.chunk_prompt x.goal x.gates total c)
    emit w x.job_id "final.review_chunk"
        (count "cycle" x.cycle
          ∷ count "chunk" c.index
          ∷ count "chunks" total
          ∷ record { key = "files"; value = PayloadValue.texts c.files }
          ∷ review_payload review)
        none
    if all (λ f. elem f manifest) c.files
        then pure tt
        else raise (other "final-review shard referenced a file outside the manifest")
    rest ← review_shards x manifest total cs
    pure (record { chunk = c; review = review } ∷ rest)

  abbrev pub chunk_entries : List Shard → List Entry
  chunk_entries ss =
      map
        (λ s. record { label = append_text "chunk " (w.show_nat s.chunk.index); review = s.review })
        ss

  -- The review of one file: of its only shard, or a synthesis of its shards.
  abbrev pub file_review : Audit → String → ReviewResult → List ReviewResult → Run ReviewResult
  file_review x path first [] = pure first
  file_review x path first (second ∷ others) =
      ask_review x (w.file_prompt x.goal x.gates path (first ∷ second ∷ others))

  abbrev pub review_file : Audit → String → ReviewResult → List ReviewResult → Run Entry
  review_file x path first others = do
    review ← file_review x path first others
    emit w x.job_id "final.review_file"
        (count "cycle" x.cycle
          ∷ entry "file" path
          ∷ count "shards" (suc (length others))
          ∷ flag "synthesized" (not (is_empty others))
          ∷ review_payload review)
        none
    pure record { label = path; review = review }

  -- The loop over the manifest: the files' reviews, or the early return.
  unfoldable pub review_files :
      Audit → List Shard → List String → Run (Fallible ReviewResult (List Entry))
  review_files x shards [] = pure (returns [])
  review_files x shards (path ∷ paths) = elim (reviews_of path shards) [
    | [] ↦ pure (raises (lost_coverage path))
    | first ∷ others ↦ do
      file ← review_file x path first others
      rest ← review_files x shards paths
      pure (elim rest [ returns files ↦ returns (file ∷ files) | raises r ↦ raises r ])
  ]

  -- The synthesis over all files.
  abbrev pub synthesize : Audit → List String → List Entry → Run ReviewResult
  synthesize x manifest files = do
    review ←
        await w
          (λ log.
            parse_answer w
              (w.run_agent log x.reviewer_name (w.synthesis_prompt x.goal x.gates manifest files)))
          final_effect
    emit w x.job_id "final.review_synthesis" (count "cycle" x.cycle ∷ review_payload review) none
    pure review

  abbrev pub judge_files :
      Audit → List String → Fallible ReviewResult (List Entry) → Run ReviewResult
  judge_files x manifest (raises r) = pure r
  judge_files x manifest (returns files) =
      unless_failed
        (review_failure w.show_nat "file-level semantic synthesis found material defects" files)
        (synthesize x manifest files)

  unfoldable pub judge_shards : Audit → List String → List Shard → Run ReviewResult
  judge_shards x manifest shards =
      unless_failed
        (review_failure w.show_nat "hierarchical shard audit found material defects"
          (chunk_entries shards))
        (review_files x shards manifest >>= judge_files x manifest)

  unfoldable pub hierarchical_final_review :
      String → String → List GateResult → String → ℕ → Run ReviewResult
  hierarchical_final_review job_id path gates reviewer_name cycle = do
    job ← store w (λ _. get_job job_id)
    source ←
        await w (λ log. w.review_chunks log path job.base_commit)
          (λ _. waited "build_review_chunks")
    let x : Audit = record {
      job_id = job_id;
      goal = job.goal;
      path = path;
      gates = gates;
      reviewer_name = reviewer_name;
      cycle = cycle;
    }
    emit w job_id "final.review_manifest"
        (count "cycle" cycle
          ∷ count "files" (length source.manifest)
          ∷ count "chunks" (length source.chunks)
          ∷ [])
        none
    shards ← review_shards x source.manifest (length source.chunks) source.chunks
    judge_shards x source.manifest shards

  -- A repair between two cycles; none after the last one.
  unfoldable pub repair_or_raise :
      String → String → String → Bool → String → String → Run (Option String)
  repair_or_raise job_id path issue true exhausted unrepaired = raise (other exhausted)
  repair_or_raise job_id path issue false exhausted unrepaired = do
    repaired ←
        repair_integration w job_id path issue none []
          (w.config.engine.integrator_agent ∷ w.config.engine.worker_agents)
    if repaired then pure none else raise (other unrepaired)

  abbrev pub audit_issue : ReviewResult → String
  audit_issue r =
      append_text (append_text "Final audit findings:\n" (join_texts "\n" r.findings))
        (if r.summary == "" then "" else append_text "\nSummary: " r.summary)

  abbrev pub audit_error : ReviewResult → String
  audit_error r =
      append_text "final audit did not pass: " (or_text (join_texts "; " r.findings) r.summary)

  unfoldable pub review_cycle :
      String → String → List GateResult → String → ℕ → Bool → Run (Option String)
  review_cycle job_id path gates reviewer_name cycle is_last = do
    review ← hierarchical_final_review job_id path gates reviewer_name cycle
    emit w job_id "final.reviewed" (count "cycle" cycle ∷ review_payload review) none
    if passed review
        then pure (some (or_text review.summary "All tasks, gates, and final review passed."))
        else repair_or_raise job_id path (audit_issue review) is_last (audit_error review)
            "final audit requested repairs but no integration agent could complete them"

  -- One cycle: `some` is the returned summary, `none` is `continue` or the end of the body.
  unfoldable pub final_cycle : String → String → String → ℕ → Bool → Run (Option String)
  final_cycle job_id path reviewer_name cycle is_last = do
    gates ← run_gates w job_id "final" none path GateScope.final_audit w.config.gates.final_commands
    let issue = append_text "Final repository gates failed:\n" (w.format_gates gates)
    if gates_ok gates
        then review_cycle job_id path gates reviewer_name cycle is_last
        else repair_or_raise job_id path issue is_last issue
            "final gates failed and no integration agent could repair them"

  -- `for cycle in range(0, max_final_cycles + 1)`, with the cycles left after this one.
  unfoldable pub final_cycles : String → String → String → ℕ → ℕ → Run String
  final_cycles job_id path reviewer_name cycle zero =
      final_cycle job_id path reviewer_name cycle true >>= λ outcome. elim outcome [
        | some summary ↦ pure summary
        | none ↦ raise (other "finalization exhausted without a passing audit")
      ]
  final_cycles job_id path reviewer_name cycle (suc left) =
      final_cycle job_id path reviewer_name cycle false >>= λ outcome. elim outcome [
        | some summary ↦ pure summary
        | none ↦ final_cycles job_id path reviewer_name (suc cycle) left
      ]

  unfoldable pub finalize : String → String → Run String
  finalize job_id path = do
    reviewer_name ← role_agent w w.config.engine.reviewer_agent AgentRole.reviewer
    final_cycles job_id path reviewer_name 0 w.config.engine.max_final_cycles
