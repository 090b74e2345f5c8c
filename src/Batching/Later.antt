-- ===== src/Batching/Later.antt =====
-- src/rwkv_agent/batching.py: the endings of jobs leave the futures that are done as they are, and the
-- request table of the scheduler in agreement with its pool.
use rwkv_agent.Base.{
  ℕ, ◌≤◌, ◌==◌, ◌≡◌, ◌≢◌, refl, String, true, not, List, [], ◌∷◌, map, Option, none, some,
  string_dec, length, is_empty, any, ℤ, Dict, lookup, insert, lookup-insert, M, ok, raise, Outcome,
  Error, pure, ◌>>=◌, after, for_each, raise_if, or_fail, inl, inr, arith, Option-cases, key_error,
  runtime_error, Preserves, bind-Preserves, raise_if-Preserves, or_fail-Preserves, if-Preserves,
  for_each-Preserves, ignore_key_error-Preserves,
}
use rwkv_agent.Backend.{Backend}
use rwkv_agent.Decoding.{Text}
use rwkv_agent.Scheduler.Requests
use rwkv_agent.Scheduler.Requests.{Scheduler, RequestState}
use rwkv_agent.Scheduler.Agreement.{Agrees}
use rwkv_agent.Scheduler.Admissions.{release-Agrees}
use rwkv_agent.Scheduler.Forks.{request-Agrees}
use rwkv_agent.Runtime.Turns.{StateResult, label_scores}
use rwkv_agent.Batching.Jobs.{
  InferenceJob, ActiveRow, StateContinuationItem, Engine, JobState, Future, failed, withdrawn,
  answered, Answer, scored, continued, is_done, is_persistent, scheduled, bump,
}
use rwkv_agent.Batching.Endings.{
  jobs_of, resolved, resolve, release, release_ephemeral, fail_rows, fail_without_state, cancel_row,
  cancel_without_state, tokens_of, finish_ephemeral, finish_classification, output_of, results_of,
  record_result, finish_state_row,
}

module _ ⦃B : Backend⦄ where
  abbrev pub future_at : Dict String JobState → String → Option Future
  future_at jobs id = elim (lookup string_dec id jobs) [ none ↦ none | some j ↦ some j.future ]

  -- The table agrees with the pool, the watched futures are what they were, and no identity to come is
  -- that of a watched job.
  pub record IsLater (IsWatched : String → Future → Type 0) (t : Engine) : Type 0 where
    pub table : Agrees t.scheduler
    pub kept : (id : String) (f : Future) → IsWatched id f → future_at t.jobs id ≡ some f
    pub fresh :
        (id : String) (f : Future) (n : ℕ) → IsWatched id f → t.ids_used ≤ n → t.new_id n ≢ id

module _ ⦃B : Backend⦄ (IsWatched : String → Future → Type 0)
    (done : (id : String) (f : Future) → IsWatched id f → is_done f ≡ true) where
  abbrev pub Later : {A : Type 0} → M Engine A → Type 0
  Later m = Preserves (IsLater IsWatched) m

  pub bind :
      {A C : Type 0} (m : M Engine A) (f : A → M Engine C)
      → Later m
      → ((a : A) → Later (f a))
      → Later (m >>= f)
  bind = bind-Preserves (IsLater IsWatched)

  pub changed-Later :
      (t : Engine) (id : String) (j k : JobState)
      → lookup string_dec id t.jobs ≡ some j
      → (is_done j.future ≡ true → k.future ≡ j.future)
      → IsLater IsWatched t
      → IsLater IsWatched (record t { jobs = insert string_dec id k t.jobs })
  changed-Later t id j k e same_future h = record {
    table = h.table;
    kept = λ i f w.
        ground
          (arith, e, h.kept i f w, done i f w, same_future, lookup-insert string_dec id i k t.jobs);
    fresh = h.fresh;
  }

  pub scheduled-Later : {A : Type 0} (m : M Scheduler A) → Preserves Agrees m → Later (scheduled m)
  scheduled-Later {A = A} m k t h = put (m t.scheduler) (k t.scheduler h.table)
    where
      put :
          (o : Outcome Scheduler A)
          → Agrees (after o)
          → IsLater IsWatched (
              after {S = Engine} {A = A} (elim o [
                | ok a q ↦ ok a (record t { scheduler = q })
                | raise e q ↦ raise e (record t { scheduler = q })
              ]))
      put (ok a q) a' = record { table = a'; kept = h.kept; fresh = h.fresh }
      put (raise x q) a' = record { table = a'; kept = h.kept; fresh = h.fresh }

  pub bump-Later : (name : String) (n : ℕ) → Later (bump name n)
  unfolding bump
  bump-Later name n t h = record { table = h.table; kept = h.kept; fresh = h.fresh }

  pub resolve-Later : (id : String) (f : Future) → Later (resolve id f)
  unfolding resolve
  resolve-Later id f t h = elim (Option-cases (lookup string_dec id t.jobs)) [
    | inl unknown ↦ rw unknown (record { table = h.table; kept = h.kept; fresh = h.fresh })
    | inr (j, e) ↦ rw e (changed-Later t id j (resolved f j) e (λ d. ground (arith, d)) h)
  ]

  pub release-Later : (id : String) → Later (release id)
  unfolding release
  release-Later id =
      ignore_key_error-Preserves (IsLater IsWatched) (scheduled (Requests.release id))
        (scheduled-Later (Requests.release id) (release-Agrees id))

  release_ephemeral-Later : (row : ActiveRow) → Later (release_ephemeral row)
  unfolding release_ephemeral
  release_ephemeral-Later row =
      if-Preserves (IsLater IsWatched) (is_persistent row.job) (pure tt) (release row.request_id)
        (λ t h. h) (release-Later row.request_id)

  pub fail_rows-Later : (rows : List ActiveRow) (e : Error) → Later (fail_rows rows e)
  unfolding fail_rows
  fail_rows-Later rows e =
      bind {C = Unit {0}} (for_each rows release_ephemeral) _
        (for_each-Preserves (IsLater IsWatched) rows release_ephemeral release_ephemeral-Later)
        λ _.
          bind {C = Unit {0}} (for_each (jobs_of [] rows) (λ job. resolve job.job_id (failed e))) _
            (for_each-Preserves (IsLater IsWatched) (jobs_of [] rows) _
              (λ job. resolve-Later job.job_id (failed e)))
            λ _.
              if-Preserves (IsLater IsWatched) (is_empty rows) (pure tt) _ (λ t h. h)
                (bump-Later "failed" (length (jobs_of [] rows)))

  pub fail_without_state-Later : (job : InferenceJob) (e : Error) → Later (fail_without_state job e)
  unfolding fail_without_state
  fail_without_state-Later job e =
      bind {C = Unit {0}} (resolve job.job_id (failed e)) _ (resolve-Later job.job_id (failed e))
        (λ _. bump-Later "failed" 1)

  pub cancel_row-Later : (row : ActiveRow) → Later (cancel_row row)
  unfolding cancel_row
  cancel_row-Later row =
      bind {C = Unit {0}} (release_ephemeral row) _ (release_ephemeral-Later row) λ _.
        bind {C = Unit {0}} (resolve row.job.job_id withdrawn) _
          (resolve-Later row.job.job_id withdrawn) (λ _. bump-Later "cancelled" 1)

  pub cancel_without_state-Later : (job : InferenceJob) → Later (cancel_without_state job)
  unfolding cancel_without_state
  cancel_without_state-Later job =
      bind {C = Unit {0}} (resolve job.job_id withdrawn) _ (resolve-Later job.job_id withdrawn)
        (λ _. bump-Later "cancelled" 1)

  pub finish_ephemeral-Later :
      (row : ActiveRow) (result : ℕ → Answer) → Later (finish_ephemeral row result)
  unfolding finish_ephemeral
  finish_ephemeral-Later row result = λ t.
      bind {C = Unit {0}} (release row.request_id) _ (release-Later row.request_id)
        (λ _.
          bind {C = Unit {0}}
            (resolve row.job.job_id (answered (result (tokens_of t row.job.job_id)))) _
            (resolve-Later row.job.job_id _)
            λ _.
              bind {C = Unit {0}} (bump "completed" 1) _ (bump-Later "completed" 1)
                (λ _. bump-Later _ 1))
        t

  label_scores-Later :
      (logits : B.Logits) (labels : List (String × ℤ)) → Later (label_scores logits labels)
  unfolding label_scores
  label_scores-Later logits labels =
      let scores = map (λ (label : String × ℤ). (label.0, B.item logits label.1)) labels in
      let test = any (λ (e : String × B.Score). not (B.is_finite e.1)) scores in
      bind {C = List (String × B.Score)} (raise_if test runtime_error) (λ _. pure scores)
        (raise_if-Preserves (IsLater IsWatched) test runtime_error) (λ _ t h. h)

  pub finish_classification-Later : (row : ActiveRow) → Later (finish_classification row)
  unfolding finish_classification
  finish_classification-Later row =
      bind {C = Unit {0}} (scheduled (Requests.request row.request_id)) _
        (scheduled-Later (Requests.request row.request_id) (request-Agrees row.request_id))
        λ q.
          bind {C = Unit {0}} (or_fail q.logits runtime_error) _
            (or_fail-Preserves (IsLater IsWatched) q.logits runtime_error)
            λ logits.
              bind {C = Unit {0}} (label_scores logits row.job.labels) _
                (label_scores-Later logits row.job.labels)
                (λ scores. finish_ephemeral-Later row (scored scores))

  output_of-Later :
      (results : Dict String StateResult) (items : List StateContinuationItem)
      → Later (output_of results items)
  unfolding output_of
  output_of-Later results [] = λ t h. h
  output_of-Later results (item ∷ items) =
      bind {C = List (StateResult × ℕ)}
        (or_fail (lookup string_dec item.state_id results) key_error) _
        (or_fail-Preserves (IsLater IsWatched) (lookup string_dec item.state_id results) key_error)
        λ value.
          bind {C = List (StateResult × ℕ)} (output_of results items) _
            (output_of-Later results items) (λ rest t h. h)

  record_result-Later : (id : String) (r : StateResult) → Later (record_result id r)
  unfolding record_result
  record_result-Later id r t h = elim (Option-cases (lookup string_dec id t.jobs)) [
    | inl unknown ↦ rw unknown (record { table = h.table; kept = h.kept; fresh = h.fresh })
    | inr (j, e) ↦ rw e (changed-Later t id j _ e (λ d. refl) h)
  ]

  pub finish_state_row-Later :
      (row : ActiveRow) (reason : Text) → Later (finish_state_row row reason)
  unfolding finish_state_row
  finish_state_row-Later row reason =
      bind {C = Unit {0}} (scheduled (Requests.request row.request_id)) _
        (scheduled-Later (Requests.request row.request_id) (request-Agrees row.request_id))
        λ q.
          bind {C = Unit {0}} (record_result row.job.job_id _) _
            (record_result-Later row.job.job_id _)
            λ _ t.
              if-Preserves (IsLater IsWatched)
                (not (length (results_of t row.job.job_id) == length row.job.state_items)) (pure tt)
                _ (λ u h. h)
                (bind {C = Unit {0}} (output_of (results_of t row.job.job_id) row.job.state_items) _
                  (output_of-Later _ row.job.state_items)
                  λ output.
                    bind {C = Unit {0}} (resolve row.job.job_id (answered (continued output))) _
                      (resolve-Later row.job.job_id _)
                      λ _.
                        bind {C = Unit {0}} (bump "completed" 1) _ (bump-Later "completed" 1) λ _.
                          bind {C = Unit {0}} (bump "completed_state_continuation" 1) _
                            (bump-Later "completed_state_continuation" 1)
                            (λ _. bump-Later "completed_state_rows" (length output)))
                t
