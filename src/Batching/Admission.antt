-- ===== src/Batching/Admission.antt =====
-- src/rwkv_agent/batching.py: the collection and the admission of waiting jobs.
use rwkv_agent.Base.{
  ℕ, ◌-◌, String, Bool, true, false, List, [], ◌∷◌, ◌++◌, map, none, some, if◌then◌else◌,
  string_dec, length, is_empty, any, drop, lookup, insert, has, ℤ, M, pure, ◌>>=◌, ◌>>◌, raise_if,
  or_fail, library_error, read, modify, attempt, inl, inr, value_error, runtime_error,
}
use rwkv_agent.Backend.{Backend}
use rwkv_agent.Scheduler.Requests
use rwkv_agent.Scheduler.Continuations
use rwkv_agent.Batching.Jobs.{
  InferenceJob, ActiveRow, StateContinuationItem, Engine, JobState, is_persistent, scheduled, bump,
}
use rwkv_agent.Batching.Endings.{fail_without_state, cancel_without_state}

-- `values[-n:]`, for a positive n.
abbrev pub last_of : ℕ → List ℤ → List ℤ
last_of n values = drop (length values - n) values

abbrev pub new_row : InferenceJob → String → String → ActiveRow
new_row job id branch = record {
  request_id = id;
  job = job;
  branch = branch;
  output_ids = [];
  output_text = [];
}

module _ ⦃B : Backend⦄ where
  -- `_collect`: what came to the queue by now is waiting.
  unfoldable pub collect : M Engine (Unit {0})
  collect = modify (λ s. record s { waiting = s.waiting ++ s.queue; queue = [] })

  abbrev pub change_job : String → (JobState → JobState) → Engine → Engine
  change_job id change s = record s {
    jobs = elim (lookup string_dec id s.jobs) [
      | none ↦ s.jobs
      | some j ↦ insert string_dec id (change j) s.jobs
    ];
  }

  unfoldable pub add_prefilling : ActiveRow → M Engine (Unit {0})
  add_prefilling row =
      modify (λ s. record s { prefilling = insert string_dec row.request_id row s.prefilling })

  unfoldable pub add_rows : List ActiveRow → M Engine (Unit {0})
  add_rows [] = pure tt
  add_rows (row ∷ rows) = do add_prefilling row; add_rows rows

  abbrev pub rows_of_items : InferenceJob → List StateContinuationItem → List ActiveRow
  rows_of_items job = map (λ item. new_row job item.state_id item.branch)

  -- The `try` of `_admit_state_job`.
  unfoldable pub install_state_job : InferenceJob → M Engine (Unit {0})
  install_state_job job = do
    modify (λ s. change_job job.job_id (λ j. record j { admitted_at = some s.now }) s)
    s ← read
    let rows = rows_of_items job job.state_items
    raise_if (any (λ row. has string_dec row.request_id s.prefilling) rows) runtime_error
    scheduled (
          Continuations.install_continuations
            (map (λ item. (item.state_id, item.token_ids)) job.state_items))
        >>= λ _. pure tt
    add_rows rows
    bump "admitted_state_jobs" 1
    bump "admitted_state_rows" (length rows)

  -- The `try` of `_admit`.
  unfoldable pub install_ephemeral : InferenceJob → M Engine (Unit {0})
  install_ephemeral job = do
    s ← read
    tokens ← or_fail (s.encode job.prompt) library_error
    let values = last_of s.context_limit (job.prefix_token_ids ++ tokens)
    raise_if (is_empty values) value_error
    scheduled (Requests.admit job.job_id values) >>= λ _. pure tt
    modify (λ s.
        change_job job.job_id
          (λ j. record j { input_tokens = length values; admitted_at = some s.now }) s)
    add_prefilling (new_row job job.job_id "")
    bump "admitted" 1

  abbrev pub is_cancelled : Engine → InferenceJob → Bool
  is_cancelled s job = elim (lookup string_dec job.job_id s.jobs) [
    | none ↦ false
    | some j ↦ j.is_cancelled
  ]

  unfoldable pub install : M Engine (Unit {0}) → InferenceJob → M Engine (Unit {0})
  install body job = do
    done ← attempt body
    elim done [ inl _ ↦ pure tt | inr e ↦ fail_without_state job e ]

  -- One try of a waiting job, and whether it goes on waiting.
  unfoldable pub admit_job : InferenceJob → M Engine Bool
  admit_job job = do
    s ← read
    if is_cancelled s job
        then (cancel_without_state job >> pure false)
        else if is_persistent job
        then (install (install_state_job job) job >> pure false)
        else if is_empty s.scheduler.pool.free
        then pure true
        else (install (install_ephemeral job) job >> pure false)

  -- The jobs that go on waiting, in order.
  unfoldable pub admit_each : List InferenceJob → M Engine (List InferenceJob)
  admit_each [] = pure []
  admit_each (job ∷ jobs) = do
    waits ← admit_job job
    rest ← admit_each jobs
    pure (if waits then job ∷ rest else rest)

  unfoldable pub admit : M Engine (Unit {0})
  admit = do s ← read; kept ← admit_each s.waiting; modify (λ s. record s { waiting = kept })
