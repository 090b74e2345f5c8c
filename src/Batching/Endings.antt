-- ===== src/Batching/Endings.antt =====
-- src/rwkv_agent/batching.py: how a job ends, by an answer, an error or a cancellation.
use rwkv_agent.Base.{
  ℕ, ◌==◌, String, not, List, [], ◌∷◌, none, some, if◌then◌else◌, string_dec, length, is_empty,
  Dict, lookup, insert, mentions, M, pure, ◌>>=◌, ◌>>◌, ignore_key_error, read, modify, for_each,
  or_fail, runtime_error, key_error, Error,
}
use rwkv_agent.Backend.{Backend}
use rwkv_agent.Decoding.{Text}
use rwkv_agent.Scheduler.Requests
use rwkv_agent.Runtime.Turns.{StateResult, label_scores}
use rwkv_agent.Batching.Jobs.{
  InferenceJob, ActiveRow, StateContinuationItem, Engine, JobState, Future, answered, failed,
  withdrawn, Answer, scored, continued, is_done, is_persistent, scheduled, bump, completed_name,
}

-- The jobs of the rows, each once, in order.
unfoldable pub jobs_of : List String → List ActiveRow → List InferenceJob
jobs_of seen [] = []
jobs_of seen (row ∷ rows) =
    let rest = jobs_of (row.job.job_id ∷ seen) rows in
    let again = jobs_of seen rows in if mentions row.job.job_id seen then again else row.job ∷ rest

module _ ⦃B : Backend⦄ where
  abbrev pub resolved : Future → JobState → JobState
  resolved f j = if is_done j.future then j else record j { future = f }

  -- `if not job.future.done(): …`
  unfoldable pub resolve : String → Future → M Engine (Unit {0})
  resolve id f = modify (λ s. record s {
    jobs = elim (lookup string_dec id s.jobs) [
      | none ↦ s.jobs
      | some j ↦ insert string_dec id (resolved f j) s.jobs
    ];
  })

  -- `_release`
  unfoldable pub release : String → M Engine (Unit {0})
  release id = ignore_key_error (scheduled (Requests.release id))

  unfoldable pub release_ephemeral : ActiveRow → M Engine (Unit {0})
  release_ephemeral row = if is_persistent row.job then pure tt else release row.request_id

  unfoldable pub fail_rows : List ActiveRow → Error → M Engine (Unit {0})
  fail_rows rows e = do
    for_each rows release_ephemeral
    for_each (jobs_of [] rows) (λ job. resolve job.job_id (failed e))
    if is_empty rows then pure tt else bump "failed" (length (jobs_of [] rows))

  unfoldable pub fail_without_state : InferenceJob → Error → M Engine (Unit {0})
  fail_without_state job e = do resolve job.job_id (failed e); bump "failed" 1

  unfoldable pub cancel_row : ActiveRow → M Engine (Unit {0})
  cancel_row row = do release_ephemeral row; resolve row.job.job_id withdrawn; bump "cancelled" 1

  unfoldable pub cancel_without_state : InferenceJob → M Engine (Unit {0})
  cancel_without_state job = do resolve job.job_id withdrawn; bump "cancelled" 1

  abbrev pub tokens_of : Engine → String → ℕ
  tokens_of s id = elim (lookup string_dec id s.jobs) [ none ↦ 0 | some j ↦ j.input_tokens ]

  -- `result` is the answer but for its count of input tokens.
  unfoldable pub finish_ephemeral : ActiveRow → (ℕ → Answer) → M Engine (Unit {0})
  finish_ephemeral row result = do
    s ← read
    release row.request_id
    resolve row.job.job_id (answered (result (tokens_of s row.job.job_id)))
    bump "completed" 1
    bump (completed_name row.job.kind) 1

  unfoldable pub finish_classification : ActiveRow → M Engine (Unit {0})
  finish_classification row = do
    q ← scheduled (Requests.request row.request_id)
    logits ← or_fail q.logits runtime_error
    scores ← label_scores logits row.job.labels
    finish_ephemeral row (scored scores)

  -- The results in the order of the items.
  unfoldable pub output_of :
      Dict String StateResult → List StateContinuationItem → M Engine (List (StateResult × ℕ))
  output_of results [] = pure []
  output_of results (item ∷ items) = do
    value ← or_fail (lookup string_dec item.state_id results) key_error
    rest ← output_of results items
    pure ((value, length item.token_ids) ∷ rest)

  abbrev pub results_of : Engine → String → Dict String StateResult
  results_of s id = elim (lookup string_dec id s.jobs) [ none ↦ [] | some j ↦ j.state_results ]

  -- `job.state_results[request_id] = …`
  unfoldable pub record_result : String → StateResult → M Engine (Unit {0})
  record_result id r = modify (λ s. record s {
    jobs = elim (lookup string_dec id s.jobs) [
      | none ↦ s.jobs
      | some j ↦
          insert string_dec id
            (record j { state_results = insert string_dec r.state_id r j.state_results }) s.jobs
    ];
  })

  unfoldable pub finish_state_row : ActiveRow → Text → M Engine (Unit {0})
  finish_state_row row stop_reason = do
    q ← scheduled (Requests.request row.request_id)
    record_result row.job.job_id (record {
      state_id = row.request_id;
      branch = row.branch;
      text = row.output_text;
      token_ids = row.output_ids;
      stop_reason = stop_reason;
      seen_tokens = q.seen_tokens;
    })
    s ← read
    let results = results_of s row.job.job_id
    if not (length results == length row.job.state_items) then pure tt else do
      output ← output_of results row.job.state_items
      resolve row.job.job_id (answered (continued output))
      bump "completed" 1
      bump "completed_state_continuation" 1
      bump "completed_state_rows" (length output)
