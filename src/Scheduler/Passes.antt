-- ===== src/Scheduler/Passes.antt =====
-- src/rwkv7_scheduler/scheduler.py: a forward pass leaves every request with the handle it has, and every
-- slot in the hands it is in.
use rwkv_agent.Base.{
  ℕ, ◌+◌, ◌*◌, String, Bool, ◌||◌, List, [], ◌∷◌, map, ltb, length, is_empty, ℤ, raise_if,
  value_error, library_error, or_fail, bind-Preserves, or_fail-Preserves,
}
use rwkv_agent.Backend.{Backend}
use rwkv_agent.StatePool.{StateHandle, checkout, checkin, write_through}
use rwkv_agent.StatePool.History.{SameSlots}
use rwkv_agent.StatePool.Frames.{Still, checkout-Still, checkin-Still, write_through-Still}
use rwkv_agent.Scheduler.Requests.{Scheduler, RequestState, on_pool, bump}
use rwkv_agent.Scheduler.Forward.{
  forward_batch, chunk_rows, after_chunk, after_token, store_rows, run_exact_chunk, run_token_batch,
}
use rwkv_agent.Scheduler.Steady.{
  IsKnown, AllKnown, Steady, bind, check, with_requests, bump-Steady, count_shape-Steady,
  on_pool-Steady, stored-IsSteady,
}

module _ ⦃B : Backend⦄ (s : Scheduler) where
  forward_batch-Still :
      (hs : List StateHandle) (rows : List (List ℤ)) → Still s.pool (forward_batch hs rows)
  unfolding forward_batch
  forward_batch-Still hs rows =
      bind-Preserves (SameSlots s.pool) {A = B.Batch × Bool} {C = List B.Logits} (checkout hs) _
        (checkout-Still s.pool hs)
        λ (b, borrowed).
          bind-Preserves (SameSlots s.pool) {C = List B.Logits}
            (or_fail (B.token_tensor rows) library_error) _
            (or_fail-Preserves (SameSlots s.pool) (B.token_tensor rows) library_error)
            λ tokens.
              let result = B.forward tokens b in
              bind-Preserves (SameSlots s.pool) {C = List B.Logits}
                (write_through hs result.1 borrowed) _ (write_through-Still s.pool hs _ borrowed)
                λ _.
                  bind-Preserves (SameSlots s.pool) {C = List B.Logits}
                    (or_fail result.0 library_error) _
                    (or_fail-Preserves (SameSlots s.pool) result.0 library_error)
                    λ _.
                      bind-Preserves (SameSlots s.pool) {C = List B.Logits}
                        (checkin hs result.1 borrowed) _ (checkin-Still s.pool hs _ borrowed)
                        (λ _ q e. e)

  forward-Steady :
      (hs : List StateHandle) (rows : List (List ℤ)) → Steady s (on_pool (forward_batch hs rows))
  forward-Steady hs rows = on_pool-Steady s (forward_batch hs rows) (forward_batch-Still hs rows)

  store_rows-Steady :
      (update : B.Logits → RequestState → RequestState) (rs : List RequestState)
      (logits : List B.Logits)
      → ((l : B.Logits) (r : RequestState) → IsKnown s r → IsKnown s (update l r))
      → AllKnown s rs
      → Steady s (store_rows update rs logits)
  unfolding store_rows
  store_rows-Steady update [] logits u k = λ t h. h
  store_rows-Steady update (r ∷ rs) [] u k = λ t h. h
  store_rows-Steady update (r ∷ rs) (l ∷ logits) u k = λ t h.
      store_rows-Steady update rs logits u k.1 _ (stored-IsSteady s t (update l r) (u l r k.0) h)

  chunk_rows-Steady : (n : ℕ) (rs : List RequestState) → Steady s (chunk_rows n rs)
  unfolding chunk_rows
  chunk_rows-Steady n [] = λ t h. h
  chunk_rows-Steady n (r ∷ rs) =
      bind s {C = List (List ℤ)} (raise_if (ltb (length r.token_ids) (r.offset + n)) value_error) _
        (check s _ _)
        λ _. bind s {C = List (List ℤ)} (chunk_rows n rs) _ (chunk_rows-Steady n rs) (λ rows t h. h)

  pub run_exact_chunk-Steady : (ids : List String) (n : ℕ) → Steady s (run_exact_chunk ids n)
  unfolding run_exact_chunk
  run_exact_chunk-Steady ids n =
      bind s {C = Unit {0}} (raise_if (is_empty ids || ltb n 1) value_error) _ (check s _ _) λ _.
        with_requests s {C = Unit {0}} ids _ λ rs k.
          bind s {C = Unit {0}} (chunk_rows n rs) _ (chunk_rows-Steady n rs) λ rows.
            bind s {C = Unit {0}} (on_pool (forward_batch (map (λ r. r.handle) rs) rows)) _
              (forward-Steady (map (λ r. r.handle) rs) rows)
              λ logits t.
                bind s {C = Unit {0}} (store_rows (after_chunk n t.clock) rs logits) _
                  (store_rows-Steady _ rs logits (λ l r e. e) k)
                  (λ _.
                    bind s {C = Unit {0}} (bump "prefill_calls" 1) _
                      (bump-Steady s "prefill_calls" 1)
                      λ _.
                        bind s {C = Unit {0}} (bump "prefill_tokens" (length ids * n)) _
                          (bump-Steady s "prefill_tokens" _)
                          λ _. count_shape-Steady s (length ids) n)
                  t

  pub run_token_batch-Steady :
      (ids : List String) (tokens : List ℤ) → Steady s (run_token_batch ids tokens)
  unfolding run_token_batch
  run_token_batch-Steady ids tokens = with_requests s {C = Unit {0}} ids _ λ rs k.
      bind s {C = Unit {0}}
        (on_pool (forward_batch (map (λ r. r.handle) rs) (map (λ t. t ∷ []) tokens))) _
        (forward-Steady (map (λ r. r.handle) rs) (map (λ t. t ∷ []) tokens))
        λ logits.
          bind s {C = Unit {0}} (store_rows after_token rs logits) _
            (store_rows-Steady after_token rs logits (λ l r e. e) k)
            λ _.
              bind s {C = Unit {0}} (bump "decode_calls" 1) _ (bump-Steady s "decode_calls" 1)
                λ _. count_shape-Steady s (length ids) 1
