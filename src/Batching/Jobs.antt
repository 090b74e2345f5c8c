-- ===== src/Batching/Jobs.antt =====
-- src/rwkv_agent/batching.py: jobs, their futures, and the calls of the clients. Durations are left
-- out of the answers.
use rwkv_agent.Base.{
  ℕ, ◌+◌, String, Bool, true, false, not, ◌&&◌, ◌||◌, List, [], ◌∷◌, ◌++◌, map, Option, none, some,
  ltb, leb, if◌then◌else◌, string_dec, length, is_empty, any, select, Dict, lookup, insert, tally,
  is_unique, is_blank, ℤ, is_negative, is_none, M, pure, fail, ◌>>=◌, ◌>>◌, raise_if, read, modify,
  value_error, runtime_error, timeout_error, Error, ◌⊎◌, ok, raise,
}
use rwkv_agent.Backend.{Backend}
use rwkv_agent.Decoding.{Text, is_empty_text}
use rwkv_agent.Scheduler.Requests.{Scheduler}
use rwkv_agent.Runtime.Turns.{StateResult}

pub record StateContinuationItem : Type 0 where
  pub state_id : String
  pub branch : String
  pub token_ids : List ℤ

pub data Kind : Type 0 where
  completion classification state_continuation : Kind

-- `f"submitted_{kind}"` and `f"completed_{kind}"`
abbrev pub submitted_name : Kind → String
submitted_name completion = "submitted_completion"
submitted_name classification = "submitted_classification"
submitted_name state_continuation = "submitted_state_continuation"

abbrev pub completed_name : Kind → String
completed_name completion = "completed_completion"
completed_name classification = "completed_classification"
completed_name state_continuation = "completed_state_continuation"

-- The fields of a job that no one writes after its creation. `event_sink` says whether the callback
-- raises, if there is one.
pub record InferenceJob : Type 0 where
  pub job_id : String
  pub kind : Kind
  pub prompt : String
  pub prefix_token_ids : List ℤ
  pub state_items : List StateContinuationItem
  pub stops : List Text
  pub max_tokens : ℕ
  pub labels : List (String × ℤ)
  pub event_sink : Option Bool

abbrev pub is_persistent : InferenceJob → Bool
is_persistent job = elim job.kind [ state_continuation ↦ true | _ ↦ false ]

abbrev pub is_classification : InferenceJob → Bool
is_classification job = elim job.kind [ classification ↦ true | _ ↦ false ]

pub record ActiveRow : Type 0 where
  pub request_id : String
  pub job : InferenceJob
  pub branch : String
  pub output_ids : List ℤ
  pub output_text : Text

-- What a stream callback gets.
pub record StreamEvent : Type 0 where
  pub state_id : String
  pub text : Text
  pub delta : Text
  pub replace : Bool
  pub output_tokens : ℕ

module _ ⦃B : Backend⦄ where
  -- The result of a job; a number is its count of input tokens.
  pub data Answer : Type 0 where
    generated : Text → Text → List ℤ → ℕ → Answer
    scored : List (String × B.Score) → ℕ → Answer
    continued : List (StateResult × ℕ) → Answer

  pub data Future : Type 0 where
    pending : Future
    answered : Answer → Future
    failed : Error → Future
    withdrawn : Future

  abbrev pub is_done : Future → Bool
  is_done pending = false
  is_done _ = true

  -- The fields of a job that change, kept under its `job_id`.
  pub record JobState : Type 0 where
    pub future : Future
    pub is_cancelled : Bool
    pub admitted_at : Option ℕ
    pub input_tokens : ℕ
    pub state_results : Dict String StateResult

  -- The engine with the variables of `_run`. `encode` gives nothing where the tokenizer
  -- raises, and `decode` may raise; `now` is what the clock reads during
  -- a step; `new_id n` is the n-th identity that `uuid.uuid4()` gives.
  pub record Engine : Type 0 where
    pub scheduler : Scheduler
    pub encode : String → Option (List ℤ)
    pub decode : List ℤ → Error ⊎ Text
    pub context_limit : ℕ
    pub eos_token_id : ℤ
    pub max_state_rows : ℕ
    pub max_waiting_jobs : ℕ
    pub queue : List InferenceJob
    pub closing : Bool
    pub metrics : Dict String ℕ
    pub waiting_count : ℕ
    pub prefilling_count : ℕ
    pub decoding_count : ℕ
    pub waiting : List InferenceJob
    pub prefilling : Dict String ActiveRow
    pub decoding : Dict String ActiveRow
    pub jobs : Dict String JobState
    pub events : List StreamEvent
    pub now : ℕ
    pub new_id : ℕ → String
    pub ids_used : ℕ

  abbrev pub scheduled : {A : Type 0} → M Scheduler A → M Engine A
  scheduled m s = elim (m s.scheduler) [
    | ok a q ↦ ok a (record s { scheduler = q })
    | raise e q ↦ raise e (record s { scheduler = q })
  ]

  unfoldable pub bump : String → ℕ → M Engine (Unit {0})
  bump name n = modify (λ s. record s { metrics = tally string_dec name n s.metrics })

  unfoldable pub new_job_id : M Engine String
  new_job_id s = ok (s.new_id s.ids_used) (record s { ids_used = s.ids_used + 1 })

  abbrev pub new_job_state : JobState
  new_job_state = record {
    future = pending;
    is_cancelled = false;
    admitted_at = none;
    input_tokens = 0;
    state_results = [];
  }

  -- The part of `_submit` before the wait; a queue that stays full for its second raises.
  unfoldable pub submit : InferenceJob → M Engine (Unit {0})
  submit job = do
    s ← read
    raise_if s.closing runtime_error
    if leb s.max_waiting_jobs (length s.queue)
        then (bump "rejected_queue_full" 1 >> fail runtime_error)
        else do
          modify (λ s. record s {
            queue = s.queue ++ job ∷ [];
            jobs = insert string_dec job.job_id new_job_state s.jobs;
          })
          bump "submitted" 1
          bump (submitted_name job.kind) 1
          if is_persistent job
              then bump "submitted_state_rows" (length job.state_items)
              else pure tt

  -- The part of `_submit` at its deadline: a persistent job that was admitted is waited for, any other
  -- is cancelled.
  unfoldable pub expire : InferenceJob → M Engine (Unit {0})
  expire job = do
    s ← read
    elim (lookup string_dec job.job_id s.jobs) [
      | none ↦ pure tt
      | some j ↦
          if is_persistent job && not (is_none j.admitted_at)
          then bump "active_state_deadline_overruns" 1
          else do
            modify (λ s. record s {
              jobs = insert string_dec job.job_id (record j { is_cancelled = true }) s.jobs;
            })
            bump "request_timeouts" 1
            fail timeout_error
    ]

  unfoldable pub complete : String → List Text → ℕ → List ℤ → M Engine (Unit {0})
  complete prompt stops max_tokens prefix_token_ids = do
    raise_if (is_blank prompt) value_error
    raise_if (ltb max_tokens 1) value_error
    job_id ← new_job_id
    submit (record {
      job_id = job_id;
      kind = completion;
      prompt = prompt;
      prefix_token_ids = prefix_token_ids;
      state_items = [];
      stops = select (λ stop. not (is_empty_text stop)) stops;
      max_tokens = max_tokens;
      labels = [];
      event_sink = none;
    })

  -- The labels are the items of a dict, so that their names are distinct.
  unfoldable pub classify : String → List (String × ℤ) → M Engine (Unit {0})
  classify prompt labels = do
    raise_if (is_blank prompt) value_error
    raise_if (ltb (length labels) 2 || any (λ e. is_negative e.1) labels) value_error
    job_id ← new_job_id
    submit (record {
      job_id = job_id;
      kind = classification;
      prompt = prompt;
      prefix_token_ids = [];
      state_items = [];
      stops = [];
      max_tokens = 0;
      labels = labels;
      event_sink = none;
    })

  unfoldable pub continue_many :
      List StateContinuationItem → List Text → ℕ → Option Bool → M Engine (Unit {0})
  continue_many items stops max_tokens event_sink = do
    raise_if (is_empty items) value_error
    s ← read
    raise_if (ltb s.max_state_rows (length items)) value_error
    let state_ids = map (λ item. item.state_id) items
    raise_if (any is_blank state_ids) value_error
    raise_if (not (is_unique state_ids)) value_error
    raise_if (any (λ item. is_empty item.token_ids) items) value_error
    raise_if (ltb max_tokens 1) value_error
    job_id ← new_job_id
    submit (record {
      job_id = job_id;
      kind = state_continuation;
      prompt = "";
      prefix_token_ids = [];
      state_items = items;
      stops = select (λ stop. not (is_empty_text stop)) stops;
      max_tokens = max_tokens;
      labels = [];
      event_sink = event_sink;
    })

  unfoldable pub begin_close : M Engine (Unit {0})
  begin_close = modify (λ s. record s { closing = true })
