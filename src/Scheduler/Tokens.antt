-- ===== src/Scheduler/Tokens.antt =====
-- src/rwkv7_scheduler/scheduler.py: sampling and decode leave every request with the handle it has, and
-- every slot in the hands it is in.
use rwkv_agent.Base.{
  ℕ, zero, suc, String, Bool, List, [], ◌∷◌, map, some, if◌then◌else◌, ltb, length, is_empty,
  is_none, any, string_dec, is_negative, ℤ, pos, Dict, lookup, sum, pure, raise_if, or_fail,
  for_each, value_error, key_error, runtime_error, or_fail-Preserves, for_each-Preserves,
}
use rwkv_agent.Backend.{Backend}
use rwkv_agent.Decoding.{append_greedy_token}
use rwkv_agent.Scheduler.Requests.{Scheduler, RequestState, bump, remaining}
use rwkv_agent.Scheduler.Prefill.{batches, selected}
use rwkv_agent.Scheduler.Decode.{
  token_of, ready_logits, all_ready, draw_each, sample_next, advance_tokens, start_decode,
  append_each, decode_loop, budget_total, greedy_decode,
}
use rwkv_agent.Scheduler.Steady.{
  IsSteady, Steady, bind, check, branch, with_request, with_requests, bump-Steady, store-Steady,
  generator-Steady,
}
use rwkv_agent.Scheduler.Passes.{run_token_batch-Steady}
use rwkv_agent.Scheduler.Waves.{selected-Steady}

module _ ⦃B : Backend⦄ (s : Scheduler) where
  ready_logits-Steady : (id : String) → Steady s (ready_logits id)
  unfolding ready_logits
  ready_logits-Steady id = with_request s {C = RequestState × B.Logits} id _ λ r k.
      bind s {C = RequestState × B.Logits} (raise_if r.cancelled runtime_error) _ (check s _ _) λ _.
        bind s {C = RequestState × B.Logits} (raise_if (ltb 0 (remaining r)) runtime_error) _
          (check s _ _)
          λ _.
            bind s {C = RequestState × B.Logits} (or_fail r.logits runtime_error) _
              (or_fail-Preserves (IsSteady s) r.logits runtime_error) (λ l t h. h)

  all_ready-Steady : (ids : List String) → Steady s (all_ready ids)
  unfolding all_ready
  all_ready-Steady [] = λ t h. h
  all_ready-Steady (id ∷ ids) =
      bind s {C = List (RequestState × B.Logits)} (ready_logits id) _ (ready_logits-Steady id) λ r.
        bind s {C = List (RequestState × B.Logits)} (all_ready ids) _ (all_ready-Steady ids)
          (λ rs t h. h)

  draw_each-Steady : (rows : List (RequestState × B.Logits)) → Steady s (draw_each rows)
  unfolding draw_each
  draw_each-Steady [] = λ t h. h
  draw_each-Steady ((r, logits) ∷ rows) = λ t h.
      bind s {C = List (String × ℤ)} (draw_each rows) _ (draw_each-Steady rows) (λ rest u h. h) _
        (generator-Steady s (B.draw t.generator r.output_ids logits).1 t h)

  pub sample_next-Steady : (ids : List String) → Steady s (sample_next ids)
  unfolding sample_next
  sample_next-Steady ids =
      bind s {C = Dict String ℤ} (selected (some ids)) _ (selected-Steady s (some ids)) λ known.
        branch s (is_empty known) (pure []) _ (λ t h. h)
          (bind s {C = Dict String ℤ} (all_ready known) _ (all_ready-Steady known) λ rows t.
            bind s {A = List (String × ℤ)} {C = Dict String ℤ}
              (if t.greedy then _ else draw_each rows) _
              (branch s t.greedy (pure (map (λ row. (row.0.request_id, pos (B.argmax row.1))) rows))
                (draw_each rows) (λ u h. h) (draw_each-Steady rows))
              (λ sampled.
                bind s {C = Dict String ℤ} (bump "sample_calls" 1) _
                  (bump-Steady s "sample_calls" 1) (λ _ u h. h))
              t)

  pub advance_tokens-Steady : (tokens : Dict String ℤ) → Steady s (advance_tokens tokens)
  unfolding advance_tokens
  advance_tokens-Steady tokens =
      branch s (is_empty tokens) (pure tt) _ (λ t h. h)
        (bind s {C = Unit {0}} (selected (some (map (λ e. e.0) tokens))) _
          (selected-Steady s (some (map (λ e. e.0) tokens)))
          λ ids t.
            bind s {A = Unit {0}} {C = Unit {0}} (for_each (batches t.config.max_batch_size ids) _)
              _
              (for_each-Preserves (IsSteady s) (batches t.config.max_batch_size ids) _ λ batch.
                bind s {C = Unit {0}}
                  (raise_if (any is_negative (map (token_of tokens) batch)) value_error) _
                  (check s _ _) λ _. run_token_batch-Steady s batch (map (token_of tokens) batch))
              (λ _. bump-Steady s "advanced_tokens" (length ids)) t)

  start_decode-Steady : (id : String) → Steady s (start_decode id)
  unfolding start_decode
  start_decode-Steady id = with_request s {C = Unit {0}} id _ λ r k.
      bind s {C = Unit {0}} (raise_if (ltb 0 (remaining r)) runtime_error) _ (check s _ _) λ _.
        bind s {C = Unit {0}} (raise_if (is_none r.logits) runtime_error) _ (check s _ _)
          (λ _. store-Steady s (record r { output_ids = [] }) k)

  append_each-Steady :
      (commit_last_token : Bool) (budgets : Dict String ℕ) (sampled : Dict String ℤ)
      (ids : List String)
      → Steady s (append_each commit_last_token budgets sampled ids)
  unfolding append_each
  append_each-Steady c budgets sampled [] = λ t h. h
  append_each-Steady c budgets sampled (id ∷ ids) =
      with_request s {C = Dict String ℤ × List String} id _ λ r k.
        bind s {C = Dict String ℤ × List String} (or_fail (lookup string_dec id sampled) key_error)
          _ (or_fail-Preserves (IsSteady s) (lookup string_dec id sampled) key_error)
          λ token.
            bind s {C = Dict String ℤ × List String}
              (or_fail (lookup string_dec id budgets) key_error) _
              (or_fail-Preserves (IsSteady s) (lookup string_dec id budgets) key_error)
              λ budget t h.
                let kept =
                  (append_greedy_token r.output_ids token t.config.eos_token_id budget).1 in
                bind s {C = Dict String ℤ × List String} (append_each c budgets sampled ids) _
                  (append_each-Steady c budgets sampled ids) (λ rest u g. g) _
                  (store-Steady s (record r { output_ids = kept }) k t h)

  decode_loop-Steady :
      (fuel : ℕ) (commit_last_token : Bool) (budgets : Dict String ℕ) (active : List String)
      → Steady s (decode_loop fuel commit_last_token budgets active)
  unfolding decode_loop
  decode_loop-Steady zero c budgets active = λ t h. h
  decode_loop-Steady (suc fuel) c budgets active =
      branch s (is_empty active) (pure tt) _ (λ t h. h)
        (bind s {C = Unit {0}} (sample_next active) _ (sample_next-Steady active) λ sampled.
          bind s {C = Unit {0}} (append_each c budgets sampled active) _
            (append_each-Steady c budgets sampled active)
            λ (advance, next_active).
              bind s {A = Unit {0}} {C = Unit {0}}
                (if is_empty advance then pure tt else advance_tokens advance) _
                (branch s (is_empty advance) (pure tt) (advance_tokens advance) (λ t h. h)
                  (advance_tokens-Steady advance))
                (λ _. decode_loop-Steady fuel c budgets next_active))

  pub greedy_decode-Steady :
      (ids : List String) (budgets : Dict String ℕ) (commit_last_token : Bool)
      → Steady s (greedy_decode ids budgets commit_last_token)
  unfolding greedy_decode
  greedy_decode-Steady ids budgets c =
      bind s {C = List (String × List ℤ)} (raise_if (any (λ e. ltb e.1 1) budgets) value_error) _
        (check s _ _)
        λ _.
          bind s {C = List (String × List ℤ)} (selected (some ids)) _ (selected-Steady s (some ids))
            λ known.
              bind s {A = Unit {0}} {C = List (String × List ℤ)} (for_each known start_decode) _
                (for_each-Preserves (IsSteady s) known start_decode start_decode-Steady)
                λ _.
                  bind s {C = List (String × List ℤ)}
                    (decode_loop (suc (budget_total budgets)) c budgets known) _
                    (decode_loop-Steady (suc (budget_total budgets)) c budgets known)
                    λ _. with_requests s {C = List (String × List ℤ)} known _ λ rs k.
                      bind s {C = List (String × List ℤ)} (bump "decoded_requests" (length known)) _
                        (bump-Steady s "decoded_requests" (length known))
                        λ _.
                          bind s {C = List (String × List ℤ)}
                            (bump "decoded_tokens" (sum (map (λ r. length r.output_ids) rs))) _
                            (bump-Steady s "decoded_tokens"
                              (sum (map (λ r. length r.output_ids) rs)))
                            (λ _ t h. h)
