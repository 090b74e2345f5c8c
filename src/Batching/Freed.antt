-- ===== src/Batching/Freed.antt =====
-- src/rwkv_agent/batching.py: which requests of the scheduler the endings of jobs release. A state that
-- outlives its job is persistent, and keeps its request.
use rwkv_agent.Base.{
  ℕ, ◌≡◌, refl, sym, ◌∙◌, ap, String, Bool, true, false, List, [], ◌∷◌, ◌++◌, none, if◌then◌else◌,
  string_dec, length, is_empty, lookup, subst, mentions, mentions-append, mentions-nil, M, ok,
  raise, Outcome, pure, ◌>>=◌, for_each, ignore_key_error, inl, inr, Bool-cases, runtime_error,
  arith, modify, Error,
}
use rwkv_agent.Backend.{Backend}
use rwkv_agent.Scheduler.Requests
use rwkv_agent.Scheduler.Agreement.{Agrees}
use rwkv_agent.Scheduler.Admissions.{release-table}
use rwkv_agent.Batching.Jobs.{
  InferenceJob, ActiveRow, Engine, Future, failed, withdrawn, answered, Answer, is_persistent,
  scheduled, bump, completed_name,
}
use rwkv_agent.Batching.Endings.{
  jobs_of, resolve, release, release_ephemeral, fail_rows, fail_without_state, cancel_row,
  finish_ephemeral, tokens_of,
}
use rwkv_agent.Batching.Ticks.{rows_of}
use rwkv_agent.Batching.Loop.{shut_down}

-- The request of a row whose job has no persistent state.
unfoldable pub own_requests : List ActiveRow → List String
own_requests [] = []
own_requests (row ∷ rows) =
    if is_persistent row.job then own_requests rows else row.request_id ∷ own_requests rows

append_nil : {A : Type 0} (xs : List A) → xs ++ [] ≡ xs
append_nil [] = refl
append_nil (x ∷ xs) = ap (λ ys. x ∷ ys) (append_nil xs)

module _ ⦃B : Backend⦄ where
  -- The requests of the ids are gone from the scheduler, every other one stays, and the request table
  -- agrees with the pool.
  pub record Freed (ids : List String) (s t : Engine) : Type 0 where
    pub agrees : Agrees t.scheduler
    pub requests :
        (k : String)
        → lookup string_dec k t.scheduler.requests
          ≡ (if mentions k ids then none else lookup string_dec k s.scheduler.requests)

  abbrev pub Frees : List String → M Engine (Unit {0}) → Type 0
  Frees ids m = (s : Engine) → Agrees s.scheduler → (t : Engine) × (m s ≡ ok tt t) × Freed ids s t

  then-Frees :
      (is js : List String) (m n : M Engine (Unit {0}))
      → Frees is m
      → Frees js n
      → Frees (is ++ js) (m >>= λ _. n)
  then-Frees is js m n k l s a =
      let (t, e, f) = k s a in
      let (u, g, h) = l t f.agrees in
      (
        u,
        ap
              (λ (o : Outcome Engine (Unit {0})). elim o as (λ _. Outcome Engine (Unit {0})) [
                | ok _ t ↦ n t
                | raise e t ↦ raise e t
              ])
              e
            ∙ g,
        record {
          agrees = h.agrees;
          requests = λ k. ground (arith, f.requests k, h.requests k, mentions-append k is js);
        },
      )

  -- A change that leaves the scheduler as it is.
  aside-Frees :
      (f : Engine → Engine) → ((s : Engine) → (f s).scheduler ≡ s.scheduler) → Frees [] (modify f)
  aside-Frees f same s a = (
    f s,
    refl,
    record {
      agrees = subst Agrees (sym (same s)) a;
      requests = λ k. ground (arith, same s, mentions-nil k);
    },
  )

  nothing-Frees : Frees [] (pure tt)
  nothing-Frees s a =
      (s, refl, record { agrees = a; requests = λ k. ground (arith, mentions-nil k) })

  bump-Frees : (name : String) (n : ℕ) → Frees [] (bump name n)
  unfolding bump
  bump-Frees name n = aside-Frees _ (λ s. refl)

  resolve-Frees : (id : String) (f : Future) → Frees [] (resolve id f)
  unfolding resolve
  resolve-Frees id f = aside-Frees _ (λ s. refl)

  ignored :
      (s : Engine) (id : String) (o : Outcome Requests.Scheduler (Unit {0}))
      → Requests.release id s.scheduler ≡ o
      → release id s ≡ ignore_key_error (scheduled (λ _. o)) s
  unfolding release
  ignored s id o e =
      ap (λ (o : Outcome Requests.Scheduler (Unit {0})). ignore_key_error (scheduled (λ _. o)) s) e

  release-Frees : (id : String) → Frees (id ∷ []) (release id)
  release-Frees id s a =
      let (q, outcome, agrees, requests) = release-table s.scheduler id a in
      let freed : Freed (id ∷ []) s (record s { scheduler = q }) = record {
        agrees = agrees;
        requests = requests;
      } in
      elim outcome [
        | inl done ↦ (record s { scheduler = q }, ignored s id _ done, freed)
        | inr unknown ↦ (record s { scheduler = q }, ignored s id _ unknown, freed)
      ]

  release_ephemeral-Frees :
      (row : ActiveRow) → Frees (own_requests (row ∷ [])) (release_ephemeral row)
  unfolding release_ephemeral own_requests
  release_ephemeral-Frees row = elim (Bool-cases (is_persistent row.job)) [
    | inl kept ↦ rw kept nothing-Frees
    | inr own ↦ rw own (release-Frees row.request_id)
  ]

  releases-Frees :
      (rows : List ActiveRow) → Frees (own_requests rows) (for_each rows release_ephemeral)
  unfolding own_requests
  releases-Frees [] = nothing-Frees
  releases-Frees (row ∷ rows) =
      subst (λ ids. Frees ids (for_each (row ∷ rows) release_ephemeral)) joined
        (then-Frees (own_requests (row ∷ [])) (own_requests rows) (release_ephemeral row)
          (for_each rows release_ephemeral) (release_ephemeral-Frees row) (releases-Frees rows))
    where
      joined : own_requests (row ∷ []) ++ own_requests rows ≡ own_requests (row ∷ rows)
      joined = ground arith

  each_aside-Frees :
      {A : Type 0} (xs : List A) (body : A → M Engine (Unit {0}))
      → ((x : A) → Frees [] (body x))
      → Frees [] (for_each xs body)
  each_aside-Frees [] body k = nothing-Frees
  each_aside-Frees (x ∷ xs) body k =
      then-Frees [] [] (body x) (for_each xs body) (k x) (each_aside-Frees xs body k)

  branch-Frees :
      (ids : List String) (t : Bool) (a b : M Engine (Unit {0}))
      → Frees ids a
      → Frees ids b
      → Frees ids (if t then a else b)
  branch-Frees ids true a b k l = k
  branch-Frees ids false a b k l = l

  -- Code that frees the ids, and more code that leaves the scheduler as it is.
  last-Frees :
      (ids : List String) (m n : M Engine (Unit {0}))
      → Frees ids m
      → Frees [] n
      → Frees ids (m >>= λ _. n)
  last-Frees ids m n k l =
      subst (λ js. Frees js (m >>= λ _. n)) (append_nil ids) (then-Frees ids [] m n k l)

  fail_without_state-Frees : (job : InferenceJob) (e : Error) → Frees [] (fail_without_state job e)
  unfolding fail_without_state
  fail_without_state-Frees job e =
      then-Frees [] [] (resolve job.job_id (failed e)) (bump "failed" 1)
        (resolve-Frees job.job_id (failed e)) (bump-Frees "failed" 1)

  fail_rows-Frees :
      (rows : List ActiveRow) (e : Error) → Frees (own_requests rows) (fail_rows rows e)
  unfolding fail_rows
  fail_rows-Frees rows e =
      last-Frees (own_requests rows) (for_each rows release_ephemeral) _ (releases-Frees rows) (
        then-Frees [] [] (for_each (jobs_of [] rows) (λ job. resolve job.job_id (failed e))) _
          (each_aside-Frees (jobs_of [] rows) _ (λ job. resolve-Frees job.job_id (failed e)))
          (branch-Frees [] (is_empty rows) (pure tt) (bump "failed" (length (jobs_of [] rows)))
            nothing-Frees (bump-Frees "failed" _)))

  -- When the request table agrees with the pool, the end of the loop returns, and releases the request
  -- of each row in prefill or decode whose job has no persistent state: these requests are gone, every
  -- other one, of persistent states too, stays, and the table agrees with the pool.
  pub shut_down-Freed :
      (s : Engine)
      → Agrees s.scheduler
      → (t : Engine) × (shut_down s ≡ ok tt t)
        × Freed (own_requests (rows_of s.prefilling ++ rows_of s.decoding)) s t
  unfolding shut_down
  shut_down-Freed s a =
      let rows = rows_of s.prefilling ++ rows_of s.decoding in
      let failing = λ (job : InferenceJob). fail_without_state job runtime_error in
      let failing-Frees = λ (job : InferenceJob). fail_without_state-Frees job runtime_error in
      last-Frees (own_requests rows) (fail_rows rows runtime_error) _
        (fail_rows-Frees rows runtime_error)
        (then-Frees [] [] (for_each s.waiting failing) _
          (each_aside-Frees s.waiting failing failing-Frees)
          (then-Frees [] [] (modify (λ s. record s { waiting = [] })) _
            (aside-Frees (λ s. record s { waiting = [] }) (λ s. refl))
            (then-Frees [] [] (for_each s.queue failing) _
              (each_aside-Frees s.queue failing failing-Frees)
              (aside-Frees (λ s. record s { queue = [] }) (λ s. refl)))))
        s a

  -- When the request table agrees with the pool, the answer to a job without persistent state and the
  -- cancellation of a row return: the answer releases the request of the row, the cancellation
  -- releases it unless the job has persistent states; every other request stays, and the table agrees
  -- with the pool.
  pub endings-Freed :
      (row : ActiveRow) (result : ℕ → Answer) (s : Engine)
      → Agrees s.scheduler
      → ((t : Engine) × (finish_ephemeral row result s ≡ ok tt t) × Freed (row.request_id ∷ []) s t)
        × ((u : Engine) × (cancel_row row s ≡ ok tt u) × Freed (own_requests (row ∷ [])) s u)
  unfolding finish_ephemeral cancel_row
  endings-Freed row result s a = (
    last-Frees (row.request_id ∷ []) (release row.request_id) _ (release-Frees row.request_id)
        (then-Frees [] [] (resolve row.job.job_id (answered (result (tokens_of s row.job.job_id))))
          _ (resolve-Frees row.job.job_id (answered (result (tokens_of s row.job.job_id))))
          (then-Frees [] [] (bump "completed" 1) _ (bump-Frees "completed" 1)
            (bump-Frees (completed_name row.job.kind) 1)))
        s a,
    last-Frees (own_requests (row ∷ [])) (release_ephemeral row) _ (release_ephemeral-Frees row)
        (then-Frees [] [] (resolve row.job.job_id withdrawn) (bump "cancelled" 1)
          (resolve-Frees row.job.job_id withdrawn) (bump-Frees "cancelled" 1))
        s a,
  )
