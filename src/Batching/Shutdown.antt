-- ===== src/Batching/Shutdown.antt =====
-- src/rwkv_agent/batching.py, the `finally` clause of `_run`: every job that is left gets its end.
use rwkv_agent.Base.{
  ◌≡◌, refl, sym, ◌∙◌, ap, String, Bool, true, ◌||◌, [], ◌++◌, string_dec, has, subst, mentions,
  mentions-append, mentions-nil, ok, modify, for_each, runtime_error, arith,
}
use rwkv_agent.Backend.{Backend}
use rwkv_agent.Scheduler.Agreement.{Agrees}
use rwkv_agent.Batching.Jobs.{Engine}
use rwkv_agent.Batching.Endings.{jobs_of, fail_rows, fail_without_state}
use rwkv_agent.Batching.Ticks.{rows_of}
use rwkv_agent.Batching.Loop.{shut_down}
use rwkv_agent.Batching.Sweeps.{
  ids_of_jobs, ids_of_rows, jobs_of-ids, answered_at, Sweeps, then-Sweeps, each_job-Sweeps,
  fail_without_state-Sweeps, fail_rows-Sweeps,
}

module _ ⦃B : Backend⦄ where
  -- The job waits in the queue or in the worker, or has a row.
  abbrev pub is_left : Engine → String → Bool
  is_left s id =
      mentions id (ids_of_rows (rows_of s.prefilling ++ rows_of s.decoding))
      || mentions id (ids_of_jobs s.waiting)
      || mentions id (ids_of_jobs s.queue)

  emptied-Sweeps :
      (id : String) (f : Engine → Engine)
      → ((s : Engine) → (f s).scheduler ≡ s.scheduler)
      → ((s : Engine) → (f s).jobs ≡ s.jobs)
      → Sweeps id [] (modify f)
  emptied-Sweeps id f table jobs s h = (
    f s,
    record {
      returns = refl;
      holding = record {
        table = subst Agrees (sym (table s)) h.table;
        known = ap (has string_dec id) (jobs s) ∙ h.known;
      };
      answers = λ k. ground (arith, k, mentions-nil id, jobs s);
    },
  )

  left-mentions :
      (s : Engine) (id : String)
      → is_left s id ≡ true
      → mentions id (
          (ids_of_jobs (jobs_of [] (rows_of s.prefilling ++ rows_of s.decoding)) ++ [])
          ++ (ids_of_jobs s.waiting ++ (ids_of_jobs s.queue ++ [])))
        ≡ true
  left-mentions s id left =
      let jobs = ids_of_jobs (jobs_of [] (rows_of s.prefilling ++ rows_of s.decoding)) in
      ground (
        arith,
        left,
        jobs_of-ids id [] (rows_of s.prefilling ++ rows_of s.decoding),
        mentions-nil id,
        mentions-append id (jobs ++ []) (ids_of_jobs s.waiting ++ (ids_of_jobs s.queue ++ [])),
        mentions-append id jobs [],
        mentions-append id (ids_of_jobs s.waiting) (ids_of_jobs s.queue ++ []),
        mentions-append id (ids_of_jobs s.queue) [],
      )

  -- When the scheduler's request table agrees with its pool, the end of the loop returns, and a known
  -- job that waits in the queue or in the worker, or has a row, has its future done.
  pub shut_down-answers :
      (s : Engine) (id : String)
      → Agrees s.scheduler
      → has string_dec id s.jobs ≡ true
      → is_left s id ≡ true
      → (t : Engine) × (shut_down s ≡ ok tt t) × (answered_at id t ≡ true)
  unfolding shut_down
  shut_down-answers s id a known left =
      let rows = rows_of s.prefilling ++ rows_of s.decoding in
      let (t, k) =
        then-Sweeps id (ids_of_jobs (jobs_of [] rows) ++ [])
          (ids_of_jobs s.waiting ++ (ids_of_jobs s.queue ++ [])) (fail_rows rows runtime_error) _
          (fail_rows-Sweeps id rows runtime_error)
          (then-Sweeps id (ids_of_jobs s.waiting) (ids_of_jobs s.queue ++ [])
            (for_each s.waiting (λ job. fail_without_state job runtime_error)) _
            (each_job-Sweeps id (λ job. fail_without_state job runtime_error)
              (fail_without_state-Sweeps id runtime_error) s.waiting)
            (then-Sweeps id [] (ids_of_jobs s.queue ++ []) (modify (λ s. record s { waiting = [] }))
              _ (emptied-Sweeps id (λ s. record s { waiting = [] }) (λ s. refl) (λ s. refl))
              (then-Sweeps id (ids_of_jobs s.queue) []
                (for_each s.queue (λ job. fail_without_state job runtime_error)) _
                (each_job-Sweeps id (λ job. fail_without_state job runtime_error)
                  (fail_without_state-Sweeps id runtime_error) s.queue)
                (emptied-Sweeps id (λ s. record s { queue = [] }) (λ s. refl) (λ s. refl)))))
          s (record { table = a; known = known }) in
      (t, k.returns, k.answers (ground (arith, left-mentions s id left)))
