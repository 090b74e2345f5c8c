-- ===== src/Batching/Submissions.antt =====
-- src/rwkv_agent/batching.py: the calls of the clients leave the futures that are done as they are, and
-- the request table of the scheduler in agreement with its pool.
use rwkv_agent.Base.{
  ℕ, ◌≡◌, ◌≢◌, refl, sym, String, Bool, true, not, ◌&&◌, ◌||◌, List, map, Option, none, some,
  if◌then◌else◌, string_dec, length, is_empty, is_none, is_blank, any, is_negative, is_unique, ltb,
  leb, ℤ, lookup, insert, lookup-insert, M, pure, ◌>>=◌, ◌>>◌, after, modify, raise_if, value_error,
  runtime_error, timeout_error, arith, fail, subst, raise_if-Preserves, guard-Preserves,
  split-Preserves,
}
use rwkv_agent.Backend.{Backend}
use rwkv_agent.Decoding.{Text}
use rwkv_agent.Batching.Jobs.{
  InferenceJob, StateContinuationItem, Engine, JobState, Future, is_done, is_persistent, bump,
  new_job_id, new_job_state, submitted_name, submit, expire, complete, classify, continue_many,
}
use rwkv_agent.Batching.Later.{IsLater, Later, bump-Later, changed-Later}
use rwkv_agent.Batching.Phases.{bind, branch}

module _ ⦃B : Backend⦄ (IsWatched : String → Future → Type 0)
    (done : (id : String) (f : Future) → IsWatched id f → is_done f ≡ true) where
  pub expire-Later : (job : InferenceJob) → Later IsWatched done (expire job)
  unfolding expire
  expire-Later job t h = expired (lookup string_dec job.job_id t.jobs) refl
    where
      expired :
          (o : Option JobState)
          → lookup string_dec job.job_id t.jobs ≡ o
          → IsLater IsWatched (
              after (
                (elim o as (λ _. M Engine (Unit {0})) [
                  | none ↦ pure tt
                  | some j ↦
                      if is_persistent job && not (is_none j.admitted_at)
                      then bump "active_state_deadline_overruns" 1
                      else do
                        modify (λ s. record s {
                          jobs =
                              insert string_dec job.job_id
                                (record j { is_cancelled = true })
                                s.jobs;
                        })
                        bump "request_timeouts" 1
                        fail timeout_error
                ])
                  t))
      expired none e = h
      expired (some j) e =
          split-Preserves {C = Unit {0}} (IsLater IsWatched)
            (is_persistent job && not (is_none j.admitted_at))
            (bump "active_state_deadline_overruns" 1) _ t
            (bump-Later IsWatched done "active_state_deadline_overruns" 1 t h)
            (bind IsWatched done {C = Unit {0}} (bump "request_timeouts" 1)
              (λ _. fail timeout_error) (bump-Later IsWatched done "request_timeouts" 1)
              (λ _ u k. k) _
              (changed-Later IsWatched done t job.job_id j (record j { is_cancelled = true }) e
                (λ _. refl) h))

  -- A job that is new, since no watched job has its identity.
  submit-Later :
      (job : InferenceJob) (t : Engine)
      → IsLater IsWatched t
      → ((id : String) (f : Future) → IsWatched id f → job.job_id ≢ id)
      → IsLater IsWatched (after (submit job t))
  unfolding submit
  submit-Later job t h new =
      guard-Preserves {C = Unit {0}} (IsLater IsWatched) t.closing runtime_error _ t h λ _.
        split-Preserves {C = Unit {0}} (IsLater IsWatched) (leb t.max_waiting_jobs (length t.queue))
          (bump "rejected_queue_full" 1 >> fail runtime_error) _ t
          (bind IsWatched done {C = Unit {0}} (bump "rejected_queue_full" 1)
            (λ _. fail runtime_error) (bump-Later IsWatched done "rejected_queue_full" 1)
            (λ _ u k. k) t h)
          (counted _ (record {
            table = h.table;
            kept = λ id f w. ground (
              arith,
              h.kept id f w,
              new id f w,
              lookup-insert string_dec job.job_id id new_job_state t.jobs,
            );
            fresh = h.fresh;
          }))
    where
      counted : Later IsWatched done (
          bump "submitted" 1 >>= λ _. bump (submitted_name job.kind) 1 >>= λ _.
          if is_persistent job
          then bump "submitted_state_rows" (length job.state_items)
          else pure tt)
      counted =
          bind IsWatched done {C = Unit {0}} (bump "submitted" 1) _
            (bump-Later IsWatched done "submitted" 1)
            λ _.
              bind IsWatched done {C = Unit {0}} (bump (submitted_name job.kind) 1) _
                (bump-Later IsWatched done (submitted_name job.kind) 1)
                λ _.
                  branch IsWatched done (is_persistent job)
                    (bump "submitted_state_rows" (length job.state_items)) (pure tt)
                    (bump-Later IsWatched done "submitted_state_rows" (length job.state_items))
                    (λ u k. k)

  -- The identity of a job that a client makes is new.
  new_job-Later :
      (job : String → InferenceJob)
      → ((id : String) → (job id).job_id ≡ id)
      → Later IsWatched done (new_job_id >>= λ id. submit (job id))
  unfolding new_job_id
  new_job-Later job named t h =
      submit-Later (job (t.new_id t.ids_used)) _
        (record {
          table = h.table;
          kept = h.kept;
          fresh = λ id f n w le. h.fresh id f n w (omega arith);
        })
        (λ id f w.
          subst (λ x. x ≢ id) (sym (named (t.new_id t.ids_used)))
            (h.fresh id f t.ids_used w (omega arith)))

  pub complete-Later :
      (prompt : String) (stops : List Text) (n : ℕ) (prefix : List ℤ)
      → Later IsWatched done (complete prompt stops n prefix)
  unfolding complete
  complete-Later prompt stops n prefix =
      bind IsWatched done {C = Unit {0}} (raise_if (is_blank prompt) value_error) _
        (raise_if-Preserves (IsLater IsWatched) _ _)
        λ _.
          bind IsWatched done {C = Unit {0}} (raise_if (ltb n 1) value_error) _
            (raise_if-Preserves (IsLater IsWatched) _ _) λ _. new_job-Later _ (λ id. refl)

  pub classify-Later :
      (prompt : String) (labels : List (String × ℤ)) → Later IsWatched done (classify prompt labels)
  unfolding classify
  classify-Later prompt labels =
      bind IsWatched done {C = Unit {0}} (raise_if (is_blank prompt) value_error) _
        (raise_if-Preserves (IsLater IsWatched) _ _)
        λ _.
          bind IsWatched done {C = Unit {0}}
            (raise_if (ltb (length labels) 2 || any (λ e. is_negative e.1) labels) value_error) _
            (raise_if-Preserves (IsLater IsWatched) _ _) λ _. new_job-Later _ (λ id. refl)

  pub continue_many-Later :
      (items : List StateContinuationItem) (stops : List Text) (n : ℕ) (sink : Option Bool)
      → Later IsWatched done (continue_many items stops n sink)
  unfolding continue_many
  continue_many-Later items stops n sink =
      let ids = map (λ (item : StateContinuationItem). item.state_id) items in
      bind IsWatched done {C = Unit {0}} (raise_if (is_empty items) value_error) _
        (raise_if-Preserves (IsLater IsWatched) _ _)
        λ _ t.
          bind IsWatched done {C = Unit {0}}
            (raise_if (ltb t.max_state_rows (length items)) value_error) _
            (raise_if-Preserves (IsLater IsWatched) _ _)
            (λ _.
              bind IsWatched done {C = Unit {0}} (raise_if (any is_blank ids) value_error) _
                (raise_if-Preserves (IsLater IsWatched) _ _)
                λ _.
                  bind IsWatched done {C = Unit {0}} (raise_if (not (is_unique ids)) value_error) _
                    (raise_if-Preserves (IsLater IsWatched) _ _)
                    λ _.
                      bind IsWatched done {C = Unit {0}}
                        (raise_if
                          (any (λ (item : StateContinuationItem). is_empty item.token_ids) items)
                          value_error)
                        _ (raise_if-Preserves (IsLater IsWatched) _ _)
                        λ _.
                          bind IsWatched done {C = Unit {0}} (raise_if (ltb n 1) value_error) _
                            (raise_if-Preserves (IsLater IsWatched) _ _)
                            λ _. new_job-Later _ (λ id. refl))
            t
