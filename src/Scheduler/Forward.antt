-- ===== src/Scheduler/Forward.antt =====
-- src/rwkv7_scheduler/scheduler.py: one model call over a batch of requests, for a prefill chunk and
-- for a decoded token.
use rwkv_agent.Base.{
  ℕ, ◌+◌, ◌*◌, String, ◌||◌, List, [], ◌∷◌, map, Option, none, some, ltb, length, take, drop,
  is_empty, tally, ℤ, M, pure, fail, ◌>>=◌, ◌>>◌, raise_if, read, modify, or_fail, value_error,
  library_error, ℕ_discrete,
}
use rwkv_agent.Backend.{Backend}
use rwkv_agent.StatePool.{StatePool, StateHandle, checkout, checkin, write_through}
use rwkv_agent.Scheduler.Requests.{Scheduler, RequestState, on_pool, bump, request, store}

pair-discrete : Discrete (ℕ × ℕ)
pair-discrete = hlevel ℕ_discrete

-- The shapes (batch, tokens) that are counted.
unfoldable pub shape_dec : Discrete (ℕ × ℕ)
unfolding pair-discrete
shape_dec = pair-discrete

module _ ⦃B : Backend⦄ where
  -- checkout, the tensor of tokens, `model.forward`, which updates the batch in place and may raise
  -- when it has changed some of it, and checkin.
  unfoldable pub forward_batch : List StateHandle → List (List ℤ) → M StatePool (List B.Logits)
  forward_batch handles rows = do
    (b, borrowed) ← checkout handles
    tokens ← or_fail (B.token_tensor rows) library_error
    let (result, b') = B.forward tokens b
    write_through handles b' borrowed
    logits ← or_fail result library_error
    checkin handles b' borrowed
    pure logits

  unfoldable pub count_shape : ℕ → ℕ → M Scheduler (Unit {0})
  count_shape batch tokens =
      modify (λ s. record s { shape_counts = tally shape_dec (batch, tokens) 1 s.shape_counts })

  -- The requests that the keys stand for.
  unfoldable pub requests_of : List String → M Scheduler (List RequestState)
  requests_of [] = pure []
  requests_of (id ∷ ids) = do r ← request id; rs ← requests_of ids; pure (r ∷ rs)

  unfoldable pub chunk_rows : ℕ → List RequestState → M Scheduler (List (List ℤ))
  chunk_rows n [] = pure []
  chunk_rows n (r ∷ rs) = do
    raise_if (ltb (length r.token_ids) (r.offset + n)) value_error
    rows ← chunk_rows n rs
    pure (take n (drop r.offset r.token_ids) ∷ rows)

  abbrev pub first_service : Option ℕ → ℕ → Option ℕ
  first_service none now = some now
  first_service (some t) now = some t

  abbrev pub after_chunk : ℕ → ℕ → B.Logits → RequestState → RequestState
  after_chunk n now logits r = record r {
    offset = r.offset + n;
    seen_tokens = r.seen_tokens + n;
    logits = some logits;
    first_service_at = first_service r.first_service_at now;
  }

  abbrev pub after_token : B.Logits → RequestState → RequestState
  after_token logits r = record r { seen_tokens = r.seen_tokens + 1; logits = some logits }

  -- `for row, request in enumerate(requests)`, with `logits[row]`.
  unfoldable pub store_rows :
      (B.Logits → RequestState → RequestState)
      → List RequestState
      → List B.Logits
      → M Scheduler (Unit {0})
  store_rows update [] logits = pure tt
  store_rows update (r ∷ rs) [] = fail value_error
  store_rows update (r ∷ rs) (l ∷ logits) = do store (update l r); store_rows update rs logits

  unfoldable pub run_exact_chunk : List String → ℕ → M Scheduler (Unit {0})
  run_exact_chunk ids n = do
    raise_if (is_empty ids || ltb n 1) value_error
    requests ← requests_of ids
    rows ← chunk_rows n requests
    logits ← on_pool (forward_batch (map (λ r. r.handle) requests) rows)
    s ← read
    store_rows (after_chunk n s.clock) requests logits
    bump "prefill_calls" 1
    bump "prefill_tokens" (length ids * n)
    count_shape (length ids) n

  unfoldable pub run_token_batch : List String → List ℤ → M Scheduler (Unit {0})
  run_token_batch ids tokens = do
    requests ← requests_of ids
    logits ← on_pool (forward_batch (map (λ r. r.handle) requests) (map (λ t. t ∷ []) tokens))
    store_rows after_token requests logits
    bump "decode_calls" 1
    count_shape (length ids) 1
