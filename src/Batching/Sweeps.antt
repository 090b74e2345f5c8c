-- ===== src/Batching/Sweeps.antt =====
-- src/rwkv_agent/batching.py: code that returns, and by which given jobs are done.
use rwkv_agent.Base.{
  ℕ, ◌≡◌, refl, sym, ◌∙◌, ap, String, Bool, true, false, ◌||◌, List, [], ◌∷◌, ◌++◌, map, none, some,
  if◌then◌else◌, string_dec, length, is_empty, Dict, lookup, insert, lookup-insert, has, has-lookup,
  subst, mentions, mentions-cons, mentions-append, mentions-nil, M, ok, raise, Outcome, Error, pure,
  ◌>>=◌, for_each, ignore_key_error, inl, inr, Option-cases, Bool-cases, key_error, arith, after,
}
use rwkv_agent.Backend.{Backend}
use rwkv_agent.Scheduler.Requests
use rwkv_agent.Scheduler.Agreement.{Agrees}
use rwkv_agent.Scheduler.Admissions.{release-Agrees, release_known, release_unknown}
use rwkv_agent.Batching.Jobs.{
  InferenceJob, ActiveRow, Engine, JobState, Future, failed, is_done, is_persistent, scheduled,
  bump,
}
use rwkv_agent.Batching.Endings.{
  jobs_of, resolved, resolve, release, release_ephemeral, fail_rows, fail_without_state,
}

abbrev pub ids_of_jobs : List InferenceJob → List String
ids_of_jobs = map (λ job. job.job_id)

abbrev pub ids_of_rows : List ActiveRow → List String
ids_of_rows = map (λ row. row.job.job_id)

mentions_same :
    (x y : String) (xs : List String) → mentions y xs ≡ true → x ≡ y → mentions x xs ≡ true
mentions_same x y xs e same_text = subst (λ z. mentions z xs ≡ true) (sym same_text) e

pub jobs_of-ids :
    (id : String) (seen : List String) (rows : List ActiveRow)
    → (mentions id (ids_of_jobs (jobs_of seen rows)) || mentions id seen)
      ≡ (mentions id (ids_of_rows rows) || mentions id seen)
unfolding jobs_of
jobs_of-ids id seen [] = refl
jobs_of-ids id seen (row ∷ rows) = elim (Bool-cases (mentions row.job.job_id seen)) [
  | inl again ↦ ground (
    arith,
    again,
    jobs_of-ids id seen rows,
    mentions-cons id row.job.job_id (ids_of_rows rows),
    mentions_same id row.job.job_id seen,
  )
  | inr new ↦ ground (
    arith,
    new,
    jobs_of-ids id (row.job.job_id ∷ seen) rows,
    mentions-cons id row.job.job_id (ids_of_rows rows),
    mentions-cons id row.job.job_id seen,
    mentions-cons id row.job.job_id (ids_of_jobs (jobs_of (row.job.job_id ∷ seen) rows)),
  )
]

module _ ⦃B : Backend⦄ where
  abbrev pub answered_at : String → Engine → Bool
  answered_at id s = elim (lookup string_dec id s.jobs) [ none ↦ false | some j ↦ is_done j.future ]

  pub record IsHolding (id : String) (s : Engine) : Type 0 where
    pub table : Agrees s.scheduler
    pub known : has string_dec id s.jobs ≡ true

  -- Code that returns, and by which the jobs of the ids are done.
  pub record Swept (id : String) (ids : List String) (m : M Engine (Unit {0})) (s t : Engine)
      : Type 0 where
    pub returns : m s ≡ ok tt t
    pub holding : IsHolding id t
    pub answers : (answered_at id s || mentions id ids) ≡ true → answered_at id t ≡ true

  abbrev pub Sweeps : String → List String → M Engine (Unit {0}) → Type 0
  Sweeps id ids m = (s : Engine) → IsHolding id s → (t : Engine) × Swept id ids m s t

  pub then-Sweeps :
      (id : String) (is js : List String) (m n : M Engine (Unit {0}))
      → Sweeps id is m
      → Sweeps id js n
      → Sweeps id (is ++ js) (m >>= λ _. n)
  then-Sweeps id is js m n k l s h =
      let (t, a) = k s h in
      let (u, b) = l t a.holding in
      (
        u,
        record {
          returns =
              ap
                (λ (o : Outcome Engine (Unit {0})). elim o as (λ _. Outcome Engine (Unit {0})) [
                  | ok _ t ↦ n t
                  | raise e t ↦ raise e t
                ])
                a.returns
              ∙ b.returns;
          holding = b.holding;
          answers = λ e. b.answers (ground (arith, e, a.answers, mentions-append id is js));
        },
      )

  pub bump-Sweeps : (id : String) (name : String) (n : ℕ) → Sweeps id [] (bump name n)
  unfolding bump
  bump-Sweeps id name n s h = (
    _,
    record {
      returns = refl;
      holding = record { table = h.table; known = h.known };
      answers = λ e. ground (arith, e, mentions-nil id);
    },
  )

  lookup-resolved :
      (id j : String) (f : Future) (d : Dict String JobState)
      → lookup string_dec id (elim (lookup string_dec j d) [
        | none ↦ d
        | some k ↦ insert string_dec j (resolved f k) d
      ])
        ≡ elim (string_dec j id) [
          | yes _ ↦ elim (lookup string_dec id d) [ none ↦ none | some k ↦ some (resolved f k) ]
          | no _ ↦ lookup string_dec id d
        ]
  lookup-resolved id j f d = elim (Option-cases (lookup string_dec j d)) [
    | inl unknown ↦ rw unknown (ground (arith, unknown))
    | inr (k, e) ↦ rw e (ground (arith, e, lookup-insert string_dec j id (resolved f k) d))
  ]

  pub resolve-Sweeps : (id j : String) (e : Error) → Sweeps id (j ∷ []) (resolve j (failed e))
  unfolding resolve
  resolve-Sweeps id j e s h =
      let looked = lookup-resolved id j (failed e) s.jobs in
      (
        _,
        record {
          returns = refl;
          holding = record {
            table = h.table;
            known = ground (
              arith,
              h.known,
              looked,
              has-lookup string_dec id s.jobs,
              has-lookup string_dec id (after (resolve j (failed e) s)).jobs,
            );
          };
          answers = λ k. ground (
            arith,
            h.known,
            looked,
            has-lookup string_dec id s.jobs,
            mentions-cons id j [],
            mentions-nil id,
            k,
          );
        },
      )

  release-Sweeps : (id j : String) → Sweeps id [] (release j)
  unfolding release
  release-Sweeps id j s h = elim (Bool-cases (has string_dec j s.scheduler.requests)) [
    | inl here ↦
        let (q, e, _, _) = release_known s.scheduler j h.table here in
        (
          record s { scheduler = q },
          record {
            returns = ignored e;
            holding = record {
              table = rw (ap after e) at (release-Agrees j s.scheduler h.table);
              known = h.known;
            };
            answers = λ k. ground (arith, k, mentions-nil id);
          },
        )
    | inr gone ↦ (
      s,
      record {
        returns = unknown (release_unknown s.scheduler j gone);
        holding = h;
        answers = λ k. ground (arith, k, mentions-nil id);
      },
    )
  ]
    where
      ignored :
          {q : Requests.Scheduler}
          → Requests.release j s.scheduler ≡ ok tt q
          → ignore_key_error (scheduled (Requests.release j)) s ≡ ok tt (record s { scheduler = q })
      ignored e =
          ap
            (λ (o : Outcome Requests.Scheduler (Unit {0})). ignore_key_error (scheduled (λ _. o)) s)
            e

      unknown :
          Requests.release j s.scheduler ≡ raise key_error s.scheduler
          → ignore_key_error (scheduled (Requests.release j)) s ≡ ok tt s
      unknown e =
          ap
            (λ (o : Outcome Requests.Scheduler (Unit {0})). ignore_key_error (scheduled (λ _. o)) s)
            e

  pub nothing-Sweeps : (id : String) → Sweeps id [] (pure tt)
  nothing-Sweeps id s h =
      (s, record { returns = refl; holding = h; answers = λ k. ground (arith, k, mentions-nil id) })

  pub branch-Sweeps :
      (id : String) (ids : List String) (t : Bool) (a b : M Engine (Unit {0}))
      → Sweeps id ids a
      → Sweeps id ids b
      → Sweeps id ids (if t then a else b)
  branch-Sweeps id ids true a b k l = k
  branch-Sweeps id ids false a b k l = l

  pub releases-Sweeps :
      (id : String) (rows : List ActiveRow) → Sweeps id [] (for_each rows release_ephemeral)
  unfolding release_ephemeral
  releases-Sweeps id [] = nothing-Sweeps id
  releases-Sweeps id (row ∷ rows) =
      then-Sweeps id [] [] (release_ephemeral row) (for_each rows release_ephemeral)
        (branch-Sweeps id [] (is_persistent row.job) (pure tt) (release row.request_id)
          (nothing-Sweeps id) (release-Sweeps id row.request_id))
        (releases-Sweeps id rows)

  pub each_job-Sweeps :
      (id : String) (body : InferenceJob → M Engine (Unit {0}))
      → ((job : InferenceJob) → Sweeps id (job.job_id ∷ []) (body job))
      → (jobs : List InferenceJob) → Sweeps id (ids_of_jobs jobs) (for_each jobs body)
  each_job-Sweeps id body k [] = nothing-Sweeps id
  each_job-Sweeps id body k (job ∷ jobs) =
      then-Sweeps id (job.job_id ∷ []) (ids_of_jobs jobs) (body job) (for_each jobs body) (k job)
        (each_job-Sweeps id body k jobs)

  pub fail_without_state-Sweeps :
      (id : String) (e : Error) (job : InferenceJob)
      → Sweeps id (job.job_id ∷ []) (fail_without_state job e)
  unfolding fail_without_state
  fail_without_state-Sweeps id e job =
      then-Sweeps id (job.job_id ∷ []) [] (resolve job.job_id (failed e)) (bump "failed" 1)
        (resolve-Sweeps id job.job_id e) (bump-Sweeps id "failed" 1)

  pub fail_rows-Sweeps :
      (id : String) (rows : List ActiveRow) (e : Error)
      → Sweeps id (ids_of_jobs (jobs_of [] rows) ++ []) (fail_rows rows e)
  unfolding fail_rows
  fail_rows-Sweeps id rows e =
      then-Sweeps id [] (ids_of_jobs (jobs_of [] rows) ++ []) (for_each rows release_ephemeral) _
        (releases-Sweeps id rows)
        (then-Sweeps id (ids_of_jobs (jobs_of [] rows)) []
          (for_each (jobs_of [] rows) (λ job. resolve job.job_id (failed e))) _
          (each_job-Sweeps id (λ job. resolve job.job_id (failed e))
            (λ job. resolve-Sweeps id job.job_id e) (jobs_of [] rows))
          (branch-Sweeps id [] (is_empty rows) (pure tt) (bump "failed" (length (jobs_of [] rows)))
            (nothing-Sweeps id) (bump-Sweeps id "failed" _)))
