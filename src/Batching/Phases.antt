-- ===== src/Batching/Phases.antt =====
-- src/rwkv_agent/batching.py: the phases of an iteration leave the futures that are done as they are, and
-- the request table of the scheduler in agreement with its pool.
use rwkv_agent.Base.{
  ◌≡◌, refl, String, Bool, true, false, List, [], ◌∷◌, ◌++◌, map, some, if◌then◌else◌, string_dec,
  length, is_empty, lookup, has, any, M, pure, ◌>>=◌, ◌>>◌, modify, raise_if, inl, inr,
  Option-cases, runtime_error, value_error, raise_if-Preserves, or_fail, or_fail-Preserves,
  library_error, if-Preserves, tried-Preserves,
}
use rwkv_agent.Backend.{Backend}
use rwkv_agent.Scheduler.Requests
use rwkv_agent.Scheduler.Requests.{Scheduler, RequestState, remaining}
use rwkv_agent.Scheduler.Continuations
use rwkv_agent.Scheduler.Turns.{install_continuations-Steady}
use rwkv_agent.Scheduler.Agreement.{Steady-Agrees}
use rwkv_agent.Scheduler.Admissions.{admit-Agrees}
use rwkv_agent.Batching.Jobs.{
  InferenceJob, ActiveRow, StateContinuationItem, Engine, JobState, Future, is_done, is_persistent,
  scheduled, bump,
}
use rwkv_agent.Batching.Endings.{fail_without_state, cancel_without_state}
use rwkv_agent.Batching.Admission.{
  collect, last_of, change_job, add_prefilling, add_rows, rows_of_items, new_row, install_state_job,
  install_ephemeral, is_cancelled, install, admit_job, admit_each, admit,
}
use rwkv_agent.Batching.Later.{
  IsLater, Later, changed-Later, scheduled-Later, bump-Later, fail_rows-Later,
  fail_without_state-Later, cancel_row-Later, cancel_without_state-Later,
}

module _ ⦃B : Backend⦄ where
  -- The end of the `try` of `_admit_state_job`.
  abbrev installed_rows : InferenceJob → M Engine (Unit {0})
  installed_rows job = do
    scheduled (
          Continuations.install_continuations
            (map (λ item. (item.state_id, item.token_ids)) job.state_items))
        >>= λ _. pure tt
    add_rows (rows_of_items job job.state_items)
    bump "admitted_state_jobs" 1
    bump "admitted_state_rows" (length (rows_of_items job job.state_items))

module _ ⦃B : Backend⦄ (IsWatched : String → Future → Type 0)
    (done : (id : String) (f : Future) → IsWatched id f → is_done f ≡ true) where
  pub bind :
      {A C : Type 0} (m : M Engine A) (f : A → M Engine C)
      → Later IsWatched done m
      → ((a : A) → Later IsWatched done (f a))
      → Later IsWatched done (m >>= f)
  bind = rwkv_agent.Batching.Later.bind IsWatched done

  pub branch :
      {A : Type 0} (t : Bool) (a b : M Engine A)
      → Later IsWatched done a
      → Later IsWatched done b
      → Later IsWatched done (if t then a else b)
  branch = if-Preserves (IsLater IsWatched)

  change_job-Later :
      (id : String) (change : JobState → JobState)
      → ((j : JobState) → (change j).future ≡ j.future)
      → Later IsWatched done (modify (λ s. change_job id change s))
  change_job-Later id change k t h = elim (Option-cases (lookup string_dec id t.jobs)) [
    | inl unknown ↦ rw unknown (record { table = h.table; kept = h.kept; fresh = h.fresh })
    | inr (j, e) ↦ rw e (changed-Later IsWatched done t id j (change j) e (λ _. k j) h)
  ]

  pub collect-Later : Later IsWatched done collect
  unfolding collect
  collect-Later t h = record { table = h.table; kept = h.kept; fresh = h.fresh }

  add_prefilling-Later : (row : ActiveRow) → Later IsWatched done (add_prefilling row)
  unfolding add_prefilling
  add_prefilling-Later row t h = record { table = h.table; kept = h.kept; fresh = h.fresh }

  add_rows-Later : (rows : List ActiveRow) → Later IsWatched done (add_rows rows)
  unfolding add_rows
  add_rows-Later [] = λ t h. h
  add_rows-Later (row ∷ rows) =
      bind {C = Unit {0}} (add_prefilling row) _ (add_prefilling-Later row)
        (λ _. add_rows-Later rows)

  installed_rows-Later : (job : InferenceJob) → Later IsWatched done (installed_rows job)
  installed_rows-Later job =
      let rows = rows_of_items job job.state_items in
      let values =
        map (λ (item : StateContinuationItem). (item.state_id, item.token_ids)) job.state_items in
      bind {A = Unit {0}} {C = Unit {0}}
        (scheduled (Continuations.install_continuations values) >>= λ _. pure tt) _
        (bind {C = Unit {0}} (scheduled (Continuations.install_continuations values)) (λ _. pure tt)
          (scheduled-Later IsWatched done (Continuations.install_continuations values) (
            Steady-Agrees (Continuations.install_continuations values)
              (λ s. install_continuations-Steady s values)))
          (λ _ v k. k))
        λ _. bind {C = Unit {0}} (add_rows rows) _ (add_rows-Later rows) λ _.
          bind {C = Unit {0}} (bump "admitted_state_jobs" 1) _
            (bump-Later IsWatched done "admitted_state_jobs" 1)
            (λ _. bump-Later IsWatched done "admitted_state_rows" (length rows))

  install_state_job-Later : (job : InferenceJob) → Later IsWatched done (install_state_job job)
  unfolding install_state_job
  install_state_job-Later job t h =
      let rows = rows_of_items job job.state_items in
      bind {C = Unit {0}}
        (raise_if (any (λ (row : ActiveRow). has string_dec row.request_id t.prefilling) rows)
          runtime_error)
        (λ _. installed_rows job) (raise_if-Preserves (IsLater IsWatched) _ runtime_error)
        (λ _. installed_rows-Later job) _
        (change_job-Later job.job_id (λ j. record j { admitted_at = some t.now }) (λ j. refl) t h)

  install_ephemeral-Later : (job : InferenceJob) → Later IsWatched done (install_ephemeral job)
  unfolding install_ephemeral
  install_ephemeral-Later job t =
      bind {C = Unit {0}} (or_fail (t.encode job.prompt) library_error) _
        (or_fail-Preserves (IsLater IsWatched) (t.encode job.prompt) library_error)
        (λ tokens.
          let values = last_of t.context_limit (job.prefix_token_ids ++ tokens) in
          bind {C = Unit {0}} (raise_if (is_empty values) value_error) _
            (raise_if-Preserves (IsLater IsWatched) _ value_error)
            (λ _.
              bind {A = Unit {0}} {C = Unit {0}}
                (scheduled (Requests.admit job.job_id values) >>= λ _. pure tt) _
                (bind {C = Unit {0}} (scheduled (Requests.admit job.job_id values)) (λ _. pure tt)
                  (scheduled-Later IsWatched done (Requests.admit job.job_id values)
                    (admit-Agrees job.job_id values))
                  (λ _ v k. k))
                λ _ u k.
                  bind {C = Unit {0}} (add_prefilling (new_row job job.job_id "")) _
                    (add_prefilling-Later (new_row job job.job_id ""))
                    (λ _. bump-Later IsWatched done "admitted" 1) _
                    (change_job-Later job.job_id
                      (λ j. record j { input_tokens = length values; admitted_at = some u.now })
                      (λ j. refl) u k)))
        t

  install-Later :
      (body : M Engine (Unit {0})) (job : InferenceJob)
      → Later IsWatched done body
      → Later IsWatched done (install body job)
  unfolding install
  install-Later body job k =
      tried-Preserves (IsLater IsWatched) {C = Unit {0}} body (λ _. pure tt)
        (fail_without_state job) k (λ _ t h. h) (fail_without_state-Later IsWatched done job)

  admit_job-Later : (job : InferenceJob) → Later IsWatched done (admit_job job)
  unfolding admit_job
  admit_job-Later job t =
      branch (is_cancelled t job) (cancel_without_state job >> pure false) _
        (bind {C = Bool} (cancel_without_state job) (λ _. pure false)
          (cancel_without_state-Later IsWatched done job) (λ _ u k. k))
        (branch (is_persistent job) (install (install_state_job job) job >> pure false) _
          (bind {C = Bool} (install (install_state_job job) job) (λ _. pure false)
            (install-Later (install_state_job job) job (install_state_job-Later job)) (λ _ u k. k))
          (branch (is_empty t.scheduler.pool.free) (pure true)
            (install (install_ephemeral job) job >> pure false) (λ u k. k)
            (bind {C = Bool} (install (install_ephemeral job) job) (λ _. pure false)
              (install-Later (install_ephemeral job) job (install_ephemeral-Later job))
              (λ _ u k. k))))
        t

  admit_each-Later : (jobs : List InferenceJob) → Later IsWatched done (admit_each jobs)
  unfolding admit_each
  admit_each-Later [] = λ t h. h
  admit_each-Later (job ∷ jobs) =
      bind {C = List InferenceJob} (admit_job job) _ (admit_job-Later job) λ waits.
        bind {C = List InferenceJob} (admit_each jobs) _ (admit_each-Later jobs) (λ rest t h. h)

  pub admit-Later : Later IsWatched done admit
  unfolding admit
  admit-Later t =
      bind {C = Unit {0}} (admit_each t.waiting) _ (admit_each-Later t.waiting)
        (λ kept u k. record { table = k.table; kept = k.kept; fresh = k.fresh }) t
