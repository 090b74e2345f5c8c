-- ===== src/Examples/Engine.antt =====
-- Runs of the scheduler and of the batch engine.
use rwkv_agent.Base.{
  suc, ◌≡◌, ◌≢◌, refl, String, true, false, [], ◌∷◌, none, some, pos, arith, ok, inr, string_dec,
  has, lookup, length, strip, insert, ap, mentions, runtime_error,
}
use rwkv_agent.StatePool
use rwkv_agent.StatePool.{StatePool, PoolConfig, init}
use rwkv_agent.StatePool.Invariant.{init-IsValid}
use rwkv_agent.Scheduler.Requests
use rwkv_agent.Scheduler.Requests.{Scheduler, SchedulerConfig}
use rwkv_agent.Scheduler.Agreement.{Agrees}
use rwkv_agent.Scheduler.History.{
  run, step, forks, admits, prefills, releases, init-Agrees, run-Agrees, run-releases,
}
use rwkv_agent.Batching.Jobs.{
  ActiveRow, scored, Engine, InferenceJob, JobState, Future, failed, pending, completion,
  state_continuation,
}
use rwkv_agent.Batching.Loop.{shut_down}
use rwkv_agent.Batching.Endings.{finish_ephemeral, cancel_row}
use rwkv_agent.Batching.Freed.{Freed, own_requests, shut_down-Freed, endings-Freed}
use rwkv_agent.Batching.Later.{future_at}
use rwkv_agent.Batching.History
use rwkv_agent.Batching.Once.{answered_once}
use rwkv_agent.Batching.Shutdown.{shut_down-answers, is_left}
use rwkv_agent.Batching.Sweeps.{answered_at}
use rwkv_agent.Examples.Machine.{machine}

names_differ : ◌≢◌ {A = String} "n" "f"
unfolding mentions string_dec
names_differ same_text = absurd (ground (arith, ap (λ x. mentions x ("f" ∷ [])) same_text))

abbrev small : PoolConfig
small = record { pool_id = "p"; capacity = 3; max_batch_size = 2; device = "cpu" }

abbrev pool : StatePool ⦃B = machine⦄
pool = record {
  config = small;
  state = (3, λ i. []);
  workspaces = [];
  free = 0 ∷ 1 ∷ 2 ∷ [];
  generation = 0 ∷ 0 ∷ 0 ∷ [];
  owners = none ∷ none ∷ none ∷ [];
}

pool_made : init ⦃B = machine⦄ small ≡ ok pool tt
unfolding init
pool_made = refl

abbrev settings : SchedulerConfig
settings = record {
  prefill_chunk_size = 4;
  max_batch_size = 2;
  max_queue_size = 3;
  max_input_tokens = 8;
  eos_token_id = pos 0;
}

abbrev pub idle : Scheduler ⦃B = machine⦄
idle = record {
  pool = pool;
  config = settings;
  requests = [];
  metrics = [];
  shape_counts = [];
  clock = 0;
  greedy = true;
  generator = 0;
}

pub idle-Agrees : Agrees ⦃B = machine⦄ idle
unfolding Requests.init
idle-Agrees =
    init-Agrees ⦃B = machine⦄ pool settings 0 true 0 idle
      (init-IsValid ⦃B = machine⦄ small pool pool_made) refl

run-Agrees_example : Agrees ⦃B = machine⦄ (
    run ⦃B = machine⦄
      (admits "r" (pos 3 ∷ []) ∷ prefills none ∷ forks "r" ("c" ∷ []) ∷ releases "r" ∷ [])
      idle)
run-Agrees_example =
    run-Agrees ⦃B = machine⦄
      (admits "r" (pos 3 ∷ []) ∷ prefills none ∷ forks "r" ("c" ∷ []) ∷ releases "r" ∷ []) idle
      idle-Agrees

admitted_r :
    has string_dec "r" (run ⦃B = machine⦄ (admits "r" (pos 3 ∷ []) ∷ []) idle).requests ≡ true
unfolding run step Requests.admit Requests.bump StatePool.allocate StatePool.claim has insert
    string_dec strip
admitted_r = refl

run-releases_example :
    let s = run ⦃B = machine⦄ (admits "r" (pos 3 ∷ []) ∷ []) idle in
    (t : Scheduler ⦃B = machine⦄) × (Requests.release ⦃B = machine⦄ "r" s ≡ ok tt t)
    × (has string_dec "r" t.requests ≡ false)
    × (length t.pool.free ≡ suc (length s.pool.free))
run-releases_example =
    run-releases ⦃B = machine⦄ (admits "r" (pos 3 ∷ []) ∷ []) idle "r" idle-Agrees admitted_r

abbrev waiting_job : InferenceJob
waiting_job = record {
  job_id = "w";
  kind = completion;
  prompt = "hi";
  prefix_token_ids = [];
  state_items = [];
  stops = [];
  max_tokens = 4;
  labels = [];
  event_sink = none;
}

abbrev job_state : Future ⦃B = machine⦄ → JobState ⦃B = machine⦄
job_state f = record {
  future = f;
  is_cancelled = false;
  admitted_at = none;
  input_tokens = 0;
  state_results = [];
}

-- A job that waits in the queue, beside one that failed.
abbrev engine : Engine ⦃B = machine⦄
engine = record {
  scheduler = idle;
  encode = λ s. some (pos 3 ∷ []);
  decode = λ ids. inr [];
  context_limit = 8;
  eos_token_id = pos 0;
  max_state_rows = 2;
  max_waiting_jobs = 2;
  queue = waiting_job ∷ [];
  closing = false;
  metrics = [];
  waiting_count = 0;
  prefilling_count = 0;
  decoding_count = 0;
  waiting = [];
  prefilling = [];
  decoding = [];
  jobs = ("w", job_state pending) ∷ ("f", job_state (failed runtime_error)) ∷ [];
  events = [];
  now = 0;
  new_id = λ n. "n";
  ids_used = 0;
}

failed_at : future_at ⦃B = machine⦄ engine.jobs "f" ≡ some (failed runtime_error)
unfolding lookup string_dec
failed_at = refl

answered_once_example :
    future_at ⦃B = machine⦄
      (History.run ⦃B = machine⦄
        (History.collects ∷ History.admits ∷ History.prefills ∷ History.shuts_down ∷ [])
        engine).jobs
      "f"
    ≡ some (failed runtime_error)
answered_once_example =
    answered_once ⦃B = machine⦄
      (History.collects ∷ History.admits ∷ History.prefills ∷ History.shuts_down ∷ []) engine "f"
      (failed runtime_error) idle-Agrees (λ n le e. names_differ e) refl failed_at

known_w : has string_dec "w" engine.jobs ≡ true
unfolding has string_dec
known_w = refl

left_w : is_left ⦃B = machine⦄ engine "w" ≡ true
unfolding mentions string_dec
left_w = refl

shut_down-answers_example :
    (t : Engine ⦃B = machine⦄) × (shut_down ⦃B = machine⦄ engine ≡ ok tt t)
    × (answered_at ⦃B = machine⦄ "w" t ≡ true)
shut_down-answers_example = shut_down-answers ⦃B = machine⦄ engine "w" idle-Agrees known_w left_w

-- A job of a persistent state.
abbrev state_job : InferenceJob
state_job = record {
  job_id = "j";
  kind = state_continuation;
  prompt = "";
  prefix_token_ids = [];
  state_items = record { state_id = "x"; branch = "b"; token_ids = pos 3 ∷ [] } ∷ [];
  stops = [];
  max_tokens = 4;
  labels = [];
  event_sink = none;
}

abbrev row_of : String → InferenceJob → ActiveRow
row_of id job = record {
  request_id = id;
  job = job;
  branch = "";
  output_ids = [];
  output_text = [];
}

-- Two rows decode, and the second is that of a persistent state.
abbrev busy_engine : Engine ⦃B = machine⦄
busy_engine = record engine {
  scheduler = run ⦃B = machine⦄ (admits "w" (pos 3 ∷ []) ∷ admits "x" (pos 3 ∷ []) ∷ []) idle;
  decoding = ("w", row_of "w" waiting_job) ∷ ("x", row_of "x" state_job) ∷ [];
}

busy_engine-Agrees : Agrees ⦃B = machine⦄ busy_engine.scheduler
busy_engine-Agrees =
    run-Agrees ⦃B = machine⦄ (admits "w" (pos 3 ∷ []) ∷ admits "x" (pos 3 ∷ []) ∷ []) idle
      idle-Agrees

shut_down-Freed_example :
    (t : Engine ⦃B = machine⦄) × (shut_down ⦃B = machine⦄ busy_engine ≡ ok tt t)
    × Freed ⦃B = machine⦄ ("w" ∷ []) busy_engine t
unfolding own_requests
shut_down-Freed_example = shut_down-Freed ⦃B = machine⦄ busy_engine busy_engine-Agrees

endings-Freed_example :
    ((t : Engine ⦃B = machine⦄) × (finish_ephemeral ⦃B = machine⦄
          (row_of "w" waiting_job)
          (scored [])
          busy_engine
        ≡ ok tt t)
      × Freed ⦃B = machine⦄ ("w" ∷ []) busy_engine t)
    × ((u : Engine ⦃B = machine⦄) × (cancel_row ⦃B = machine⦄ (row_of "w" waiting_job) busy_engine
          ≡ ok tt u)
        × Freed ⦃B = machine⦄ ("w" ∷ []) busy_engine u)
unfolding own_requests
endings-Freed_example =
    endings-Freed ⦃B = machine⦄ (row_of "w" waiting_job) (scored []) busy_engine busy_engine-Agrees
