-- ===== src/Scheduler/Requests.antt =====
-- src/rwkv7_scheduler/scheduler.py: the request table, and the methods that create, fork, cancel
-- and release requests. The model lock makes each method one step.
use rwkv_agent.Base.{
  ℕ, ◌+◌, ◌-◌, String, Bool, true, false, not, ◌||◌, List, [], ◌∷◌, ◌++◌, map, Option, none, some,
  ltb, leb, string_dec, length, is_empty, any, Dict, lookup, insert, remove, has, tally, strip,
  is_blank, ℤ, is_negative, mentions, is_unique, M, ok, raise, pure, fail, ◌>>=◌, ◌>>◌, is_none,
  raise_if, on_error, read, modify, for_each, or_fail, value_error, runtime_error, key_error,
}
use rwkv_agent.Backend.{Backend}
use rwkv_agent.StatePool.{StatePool, StateHandle}
use rwkv_agent.StatePool

pub record SchedulerConfig : Type 0 where
  pub prefill_chunk_size : ℕ
  pub max_batch_size : ℕ
  pub max_queue_size : ℕ
  pub max_input_tokens : ℕ
  pub eos_token_id : ℤ

-- What `__post_init__` accepts.
unfoldable pub config_accepted : SchedulerConfig → Bool
config_accepted c = not (
    ltb c.prefill_chunk_size 1
    || ltb c.max_batch_size 1
    || ltb c.max_queue_size c.max_batch_size
    || ltb c.max_input_tokens 1)

module _ ⦃B : Backend⦄ where
  -- A request object is shared by reference: the model names it by its key in the table.
  pub record RequestState : Type 0 where
    pub request_id : String
    pub handle : StateHandle
    pub token_ids : List ℤ
    pub offset : ℕ
    pub seen_tokens : ℕ
    pub logits : Option B.Logits
    pub output_ids : List ℤ
    pub admitted_at : ℕ
    pub first_service_at : Option ℕ
    pub completed_at : Option ℕ
    pub cancelled : Bool

  -- The offset never passes the token count, so that truncation plays no part.
  abbrev pub remaining : RequestState → ℕ
  remaining r = length r.token_ids - r.offset

  -- `clock` is what `time.monotonic()` reads during a call, `greedy` what `_sampling_settings()`
  -- selects, and `generator` the state of `_sample_generator`.
  pub record Scheduler : Type 0 where
    pub pool : StatePool
    pub config : SchedulerConfig
    pub requests : Dict String RequestState
    pub metrics : Dict String ℕ
    pub shape_counts : Dict (ℕ × ℕ) ℕ
    pub clock : ℕ
    pub greedy : Bool
    pub generator : ℕ

  unfoldable pub init : StatePool → SchedulerConfig → ℕ → Bool → ℕ → M (Unit {0}) Scheduler
  init pool config clock greedy seed = do
    raise_if (ltb pool.max_batch_size config.max_batch_size) value_error
    pure (record {
      pool = pool;
      config = config;
      requests = [];
      metrics = [];
      shape_counts = [];
      clock = clock;
      greedy = greedy;
      generator = seed;
    })

  -- A method of the pool, called by the scheduler.
  abbrev pub on_pool : {A : Type 0} → M StatePool A → M Scheduler A
  on_pool m s = elim (m s.pool) [
    | ok a p ↦ ok a (record s { pool = p })
    | raise e p ↦ raise e (record s { pool = p })
  ]

  unfoldable pub bump : String → ℕ → M Scheduler (Unit {0})
  bump name n = modify (λ s. record s { metrics = tally string_dec name n s.metrics })

  unfoldable pub request : String → M Scheduler RequestState
  request request_id s = or_fail (lookup string_dec request_id s.requests) key_error s

  abbrev pub store : RequestState → M Scheduler (Unit {0})
  store r = modify (λ s. record s { requests = insert string_dec r.request_id r s.requests })

  abbrev pub fresh_request : String → StateHandle → List ℤ → ℕ → RequestState
  fresh_request request_id handle token_ids now = record {
    request_id = request_id;
    handle = handle;
    token_ids = token_ids;
    offset = 0;
    seen_tokens = 0;
    logits = none;
    output_ids = [];
    admitted_at = now;
    first_service_at = none;
    completed_at = none;
    cancelled = false;
  }

  unfoldable pub admit : String → List ℤ → M Scheduler RequestState
  admit request_id token_ids = do
    let clean_id = strip request_id
    raise_if (is_blank clean_id) value_error
    raise_if (is_empty token_ids) value_error
    s ← read
    raise_if (ltb s.config.max_input_tokens (length token_ids)) value_error
    raise_if (any is_negative token_ids) value_error
    raise_if (has string_dec clean_id s.requests) value_error
    raise_if (leb s.config.max_queue_size (length s.requests)) runtime_error
    handle ← on_pool (StatePool.allocate clean_id)
    let r = fresh_request clean_id handle token_ids s.clock
    store r
    bump "admitted" 1
    pure r

  unfoldable pub release : String → M Scheduler (Unit {0})
  release request_id = do
    s ← read
    r ← or_fail (lookup string_dec request_id s.requests) key_error
    modify (λ s. record s { requests = remove string_dec request_id s.requests })
    on_pool (StatePool.release r.handle)
    bump "released" 1

  -- The `try` of `admit_many`: what `admitted` holds at the raise is released.
  unfoldable pub admit_each :
      List RequestState → List (String × List ℤ) → M Scheduler (List RequestState)
  admit_each admitted [] = pure admitted
  admit_each admitted ((request_id, token_ids) ∷ rows) = do
    r ← on_error (admit request_id token_ids) (for_each admitted (λ a. release a.request_id))
    admit_each (admitted ++ r ∷ []) rows

  unfoldable pub admit_many : List (String × List ℤ) → M Scheduler (List RequestState)
  admit_many rows = admit_each [] rows

  unfoldable pub cancel : String → M Scheduler (Unit {0})
  cancel request_id = do
    r ← request request_id
    store (record r { cancelled = true })
    bump "cancelled" 1

  abbrev pub child_of : RequestState → String → StateHandle → ℕ → RequestState
  child_of parent child_id handle now = record {
    request_id = child_id;
    handle = handle;
    token_ids = [];
    offset = 0;
    seen_tokens = parent.seen_tokens;
    logits = parent.logits;
    output_ids = [];
    admitted_at = now;
    first_service_at = some now;
    completed_at = some now;
    cancelled = false;
  }

  -- `zip(child_ids, handles, strict=True)`
  unfoldable pub install_children :
      RequestState → ℕ → List String → List StateHandle → M Scheduler (List RequestState)
  install_children parent now [] [] = pure []
  install_children parent now [] (h ∷ hs) = fail value_error
  install_children parent now (child_id ∷ ids) [] = fail value_error
  install_children parent now (child_id ∷ ids) (h ∷ hs) = do
    let child = child_of parent child_id h now
    store child
    children ← install_children parent now ids hs
    pure (child ∷ children)

  unfoldable pub fork : String → List String → M Scheduler (List RequestState)
  fork parent_request_id child_request_ids = do
    let child_ids = map strip child_request_ids
    raise_if (is_empty child_ids || any is_blank child_ids) value_error
    raise_if (not (is_unique child_ids)) value_error
    parent ← request parent_request_id
    raise_if parent.cancelled runtime_error
    raise_if (ltb 0 (remaining parent)) runtime_error
    raise_if (is_none parent.logits) runtime_error
    s ← read
    raise_if
        (mentions parent_request_id child_ids || any (λ c. has string_dec c s.requests) child_ids)
        value_error
    raise_if (ltb s.config.max_queue_size (length s.requests + length child_ids)) runtime_error
    handles ← on_pool (StatePool.clone_many parent.handle child_ids)
    children ← on_error (install_children parent s.clock child_ids handles) (do
      for_each child_ids (λ c. modify (λ s. record s { requests = remove string_dec c s.requests }))
      on_pool (StatePool.release_many handles))
    bump "fork_calls" 1
    bump "forked_states" (length children)
    pure children
