-- ===== src/Scheduler/Decode.antt =====
-- src/rwkv7_scheduler/scheduler.py: sampling, committing tokens, and the greedy decode loop.
use rwkv_agent.Base.{
  ℕ, zero, suc, String, Bool, not, ◌&&◌, ◌||◌, List, [], ◌∷◌, map, none, some, ltb, if◌then◌else◌,
  string_dec, length, is_empty, any, Dict, lookup, is_none, ℤ, pos, is_negative, M, pure, fail,
  ◌>>=◌, ◌>>◌, raise_if, read, modify, for_each, or_fail, value_error, runtime_error, key_error,
  out_of_fuel, sum,
}
use rwkv_agent.Backend.{Backend}
use rwkv_agent.Decoding.{append_greedy_token, finished}
use rwkv_agent.Scheduler.Requests.{Scheduler, RequestState, remaining, bump, request, store}
use rwkv_agent.Scheduler.Forward.{requests_of, run_token_batch}
use rwkv_agent.Scheduler.Prefill.{selected, batches}

-- `tokens[id]`, asked only for keys of the dict.
abbrev pub token_of : Dict String ℤ → String → ℤ
token_of tokens id = elim (lookup string_dec id tokens) [ none ↦ pos 0 | some t ↦ t ]

module _ ⦃B : Backend⦄ where
  -- The logits of a request that may be sampled.
  unfoldable pub ready_logits : String → M Scheduler (RequestState × B.Logits)
  ready_logits id = do
    r ← request id
    raise_if r.cancelled runtime_error
    raise_if (ltb 0 (remaining r)) runtime_error
    logits ← or_fail r.logits runtime_error
    pure (r, logits)

  unfoldable pub all_ready : List String → M Scheduler (List (RequestState × B.Logits))
  all_ready [] = pure []
  all_ready (id ∷ ids) = do r ← ready_logits id; rs ← all_ready ids; pure (r ∷ rs)

  -- `_sample_logits` for each row, on one generator.
  unfoldable pub draw_each : List (RequestState × B.Logits) → M Scheduler (List (String × ℤ))
  draw_each [] = pure []
  draw_each ((r, logits) ∷ rs) = do
    s ← read
    let (token, generator) = B.draw s.generator r.output_ids logits
    modify (λ s. record s { generator = generator })
    rest ← draw_each rs
    pure ((r.request_id, pos token) ∷ rest)

  unfoldable pub sample_next : List String → M Scheduler (Dict String ℤ)
  sample_next request_ids = do
    ids ← selected (some request_ids)
    if is_empty ids then pure [] else do
      rows ← all_ready ids
      s ← read
      sampled ←
          (if s.greedy
            then pure (map (λ row. (row.0.request_id, pos (B.argmax row.1))) rows)
            else draw_each rows)
      bump "sample_calls" 1
      pure sampled

  -- The keys of `tokens_by_request` are the requests, so that every key has a token.
  unfoldable pub advance_tokens : Dict String ℤ → M Scheduler (Unit {0})
  advance_tokens tokens_by_request = if is_empty tokens_by_request then pure tt else do
    ids ← selected (some (map (λ e. e.0) tokens_by_request))
    s ← read
    for_each (batches s.config.max_batch_size ids) λ batch. do
      let tokens = map (token_of tokens_by_request) batch
      raise_if (any is_negative tokens) value_error
      run_token_batch batch tokens
    bump "advanced_tokens" (length ids)

  unfoldable pub start_decode : String → M Scheduler (Unit {0})
  start_decode id = do
    r ← request id
    raise_if (ltb 0 (remaining r)) runtime_error
    raise_if (is_none r.logits) runtime_error
    store (record r { output_ids = [] })

  -- One round of the `for` loop: the tokens to commit, and the requests that go on.
  unfoldable pub append_each :
      Bool → Dict String ℕ → Dict String ℤ → List String → M Scheduler (Dict String ℤ × List String)
  append_each commit_last_token budgets sampled [] = pure ([], [])
  append_each commit_last_token budgets sampled (id ∷ ids) = do
    r ← request id
    token ← or_fail (lookup string_dec id sampled) key_error
    budget ← or_fail (lookup string_dec id budgets) key_error
    s ← read
    let (status, output_ids) = append_greedy_token r.output_ids token s.config.eos_token_id budget
    store (record r { output_ids = output_ids })
    (advance, next_active) ← append_each commit_last_token budgets sampled ids
    pure (
      (if not status.eos && (commit_last_token || not status.budget_reached)
          then (id, status.token) ∷ advance
          else advance),
      (if finished status then next_active else id ∷ next_active),
    )

  unfoldable pub decode_loop : ℕ → Bool → Dict String ℕ → List String → M Scheduler (Unit {0})
  decode_loop zero commit_last_token budgets active = fail out_of_fuel
  decode_loop (suc fuel) commit_last_token budgets active = if is_empty active then pure tt else do
    sampled ← sample_next active
    (advance, next_active) ← append_each commit_last_token budgets sampled active
    if is_empty advance then pure tt else advance_tokens advance
    decode_loop fuel commit_last_token budgets next_active

  abbrev pub budget_total : Dict String ℕ → ℕ
  budget_total budgets = sum (map (λ e. e.1) budgets)

  -- `max_new_tokens` as the budgets of the requests; a single budget is one for each of them.
  unfoldable pub greedy_decode :
      List String → Dict String ℕ → Bool → M Scheduler (List (String × List ℤ))
  greedy_decode request_ids budgets commit_last_token = do
    raise_if (any (λ e. ltb e.1 1) budgets) value_error
    ids ← selected (some request_ids)
    for_each ids start_decode
    decode_loop (suc (budget_total budgets)) commit_last_token budgets ids
    rs ← requests_of ids
    bump "decoded_requests" (length ids)
    bump "decoded_tokens" (sum (map (λ r. length r.output_ids) rs))
    pure (map (λ r. (r.request_id, r.output_ids)) rs)
