-- ===== src/Scheduler/Endings.antt =====
-- src/rwkv7_scheduler/scheduler.py: sampling and committing tokens return or raise.
use rwkv_agent.Base.{
  ℕ, ◌≡◌, refl, String, Bool, true, false, List, [], ◌∷◌, map, Dict, lookup, string_dec, some,
  if◌then◌else◌, ◌&&◌, ◌==◌, ltb, is_empty, not, any, length, mentions, is_negative, ℤ, M, ok,
  raise, pure, ◌>>=◌, raise_if, or_fail, for_each, Outcome, Ends, stalls, bind-Ends, raise_if-Ends,
  or_fail-Ends, if-Ends, for_each-Ends, value_error, runtime_error, key_error, stale_state_handle,
  same, leb, contains, library_error,
}
use rwkv_agent.Backend.{Backend}
use rwkv_agent.StatePool.{
  StatePool, StateHandle, validate, validate_from, validate_unique, workspace, gather, checkout,
  commit, checkin, write_through, is_range, first, slots,
}
use rwkv_agent.StatePool.Batches.{workspace-cases}
use rwkv_agent.Scheduler.Requests.{Scheduler, RequestState, on_pool, bump, request, remaining}
use rwkv_agent.Scheduler.Forward.{
  forward_batch, count_shape, requests_of, after_token, store_rows, run_token_batch,
}
use rwkv_agent.Scheduler.Prefill.{selected_from, selected, batches}
use rwkv_agent.Scheduler.Decode.{
  token_of, ready_logits, all_ready, draw_each, sample_next, advance_tokens,
}

module _ ⦃B : Backend⦄ where
  validate-Ends : (h : StateHandle) → Ends (validate h)
  unfolding validate
  validate-Ends h p =
      bind-Ends {C = Unit {0}} (raise_if (not (same h.device p.device)) stale_state_handle) _
        (raise_if-Ends _ _ refl)
        (λ _.
          bind-Ends {C = Unit {0}} (raise_if (leb p.capacity h.slot) stale_state_handle) _
            (raise_if-Ends _ _ refl) (λ _. raise_if-Ends _ _ refl))
        p

  validate_from-Ends : (seen : List ℕ) (hs : List StateHandle) → Ends (validate_from seen hs)
  unfolding validate_from
  validate_from-Ends seen [] = λ p. refl
  validate_from-Ends seen (h ∷ hs) = bind-Ends {C = Unit {0}} (validate h) _ (validate-Ends h) λ _.
      bind-Ends {C = Unit {0}} (raise_if (contains h.slot seen) value_error) _
        (raise_if-Ends _ _ refl) λ _. validate_from-Ends (h.slot ∷ seen) hs

  validate_unique-Ends : (hs : List StateHandle) → Ends (validate_unique hs)
  unfolding validate_unique
  validate_unique-Ends hs = validate_from-Ends [] hs

  commit-Ends : (hs : List StateHandle) (b : B.Batch) → Ends (commit hs b)
  unfolding commit
  commit-Ends hs b =
      bind-Ends {C = Unit {0}} (raise_if (is_empty hs) value_error) _ (raise_if-Ends _ _ refl) λ _.
        bind-Ends {C = Unit {0}} (validate_unique hs) _ (validate_unique-Ends hs) λ _.
          bind-Ends {C = Unit {0}} (raise_if (not (B.size b == length hs)) value_error) _
            (raise_if-Ends _ _ refl) (λ _ p. refl)

  checkin-Ends :
      (hs : List StateHandle) (b : B.Batch) (borrowed : Bool) → Ends (checkin hs b borrowed)
  unfolding checkin
  checkin-Ends hs b true =
      bind-Ends {C = Unit {0}} (validate_unique hs) _ (validate_unique-Ends hs)
        λ _. raise_if-Ends _ _ refl
  checkin-Ends hs b false = commit-Ends hs b

  write_through-Ends :
      (hs : List StateHandle) (b : B.Batch) (borrowed : Bool) → Ends (write_through hs b borrowed)
  unfolding write_through
  write_through-Ends hs b true p = refl
  write_through-Ends hs b false p = refl

  workspace-Ends : (n : ℕ) → Ends (workspace n)
  workspace-Ends n p = let (b, w, e) = workspace-cases n p in rw e refl

  gather-Ends : (hs : List StateHandle) → Ends (gather hs)
  unfolding gather
  gather-Ends hs =
      bind-Ends {C = B.Batch} (raise_if (is_empty hs) value_error) _ (raise_if-Ends _ _ refl) λ _ p.
        bind-Ends {C = B.Batch} (raise_if (ltb p.max_batch_size (length hs)) value_error) _
          (raise_if-Ends _ _ refl)
          (λ _. bind-Ends {C = B.Batch} (validate_unique hs) _ (validate_unique-Ends hs) λ _.
            bind-Ends {A = Unit {0}} {C = B.Batch} _ _
              (bind-Ends {A = B.Batch} {C = Unit {0}} (workspace (length hs)) _
                (workspace-Ends (length hs)) (λ _ q. refl))
              (λ _ q. refl))
          p

  checkout-Ends : (hs : List StateHandle) → Ends (checkout hs)
  unfolding checkout
  checkout-Ends hs =
      bind-Ends {C = B.Batch × Bool} (raise_if (is_empty hs) value_error) _ (raise_if-Ends _ _ refl)
        λ _. bind-Ends {C = B.Batch × Bool} (validate_unique hs) _ (validate_unique-Ends hs) λ _ p.
          let views = B.narrow (first (slots hs)) (length hs) p.state in
          if-Ends (is_range (first (slots hs)) (slots hs) && B.is_contiguous views)
            (pure (views, true)) (gather hs >>= λ b. pure (b, false)) (λ q. refl)
            (bind-Ends {A = B.Batch} {C = B.Batch × Bool} (gather hs) (λ b. pure (b, false))
              (gather-Ends hs) (λ b q. refl))
            p

  forward_batch-Ends : (hs : List StateHandle) (rows : List (List ℤ)) → Ends (forward_batch hs rows)
  unfolding forward_batch
  forward_batch-Ends hs rows =
      bind-Ends {A = B.Batch × Bool} {C = List B.Logits} (checkout hs) _ (checkout-Ends hs)
        λ (b, borrowed).
          bind-Ends {C = List B.Logits} (or_fail (B.token_tensor rows) library_error) _
            (or_fail-Ends (B.token_tensor rows) library_error refl)
            λ tokens.
              let result = B.forward tokens b in
              bind-Ends {C = List B.Logits} (write_through hs result.1 borrowed) _
                (write_through-Ends hs _ borrowed)
                λ _.
                  bind-Ends {C = List B.Logits} (or_fail result.0 library_error) _
                    (or_fail-Ends result.0 library_error refl)
                    λ _.
                      bind-Ends {C = List B.Logits} (checkin hs result.1 borrowed) _
                        (checkin-Ends hs _ borrowed) (λ _ p. refl)

  on_pool-Ends : {A : Type 0} (m : M StatePool A) → Ends m → Ends (on_pool m)
  on_pool-Ends {A = A} m k s = put (m s.pool) (k s.pool)
    where
      put :
          (o : Outcome StatePool A)
          → stalls o ≡ false
          → stalls {S = Scheduler} {A = A} (elim o [
            | ok a p ↦ ok a (record s { pool = p })
            | raise e p ↦ raise e (record s { pool = p })
          ])
            ≡ false
      put (ok a p) e = refl
      put (raise x p) e = e

  pub request-Ends : (id : String) → Ends (request id)
  unfolding request
  request-Ends id s = or_fail-Ends (lookup string_dec id s.requests) key_error refl s

  bump-Ends : (name : String) (n : ℕ) → Ends (bump name n)
  unfolding bump
  bump-Ends name n s = refl

  requests_of-Ends : (ids : List String) → Ends (requests_of ids)
  unfolding requests_of
  requests_of-Ends [] = λ s. refl
  requests_of-Ends (id ∷ ids) =
      bind-Ends {C = List RequestState} (request id) _ (request-Ends id) λ r.
        bind-Ends {C = List RequestState} (requests_of ids) _ (requests_of-Ends ids) (λ rs s. refl)

  store_rows-Ends :
      (update : B.Logits → RequestState → RequestState) (rs : List RequestState)
      (logits : List B.Logits)
      → Ends (store_rows update rs logits)
  unfolding store_rows
  store_rows-Ends update [] logits = λ s. refl
  store_rows-Ends update (r ∷ rs) [] = λ s. refl
  store_rows-Ends update (r ∷ rs) (l ∷ logits) = λ s. store_rows-Ends update rs logits _

  run_token_batch-Ends : (ids : List String) (tokens : List ℤ) → Ends (run_token_batch ids tokens)
  unfolding run_token_batch count_shape
  run_token_batch-Ends ids tokens =
      bind-Ends {C = Unit {0}} (requests_of ids) _ (requests_of-Ends ids) λ rs.
        bind-Ends {C = Unit {0}} (on_pool (forward_batch _ _)) _
          (on_pool-Ends _ (forward_batch-Ends _ _))
          λ logits.
            bind-Ends {C = Unit {0}} (store_rows after_token rs logits) _
              (store_rows-Ends after_token rs logits)
              λ _.
                bind-Ends {C = Unit {0}} (bump "decode_calls" 1) _ (bump-Ends "decode_calls" 1)
                  (λ _ s. refl)

  selected_from-Ends : (seen ids : List String) → Ends (selected_from seen ids)
  unfolding selected_from
  selected_from-Ends seen [] = λ s. refl
  selected_from-Ends seen (id ∷ ids) =
      bind-Ends {C = List String} (raise_if (mentions id seen) value_error) _
        (raise_if-Ends _ _ refl)
        λ _.
          bind-Ends {A = Unit {0}} {C = List String} _ _
            (bind-Ends {A = RequestState} {C = Unit {0}} (request id) _ (request-Ends id)
              (λ _ s. refl))
            λ _.
              bind-Ends {C = List String} (selected_from (id ∷ seen) ids) _
                (selected_from-Ends (id ∷ seen) ids) (λ rest s. refl)

  selected-Ends : (ids : List String) → Ends (selected (some ids))
  unfolding selected
  selected-Ends ids = selected_from-Ends [] ids

  ready_logits-Ends : (id : String) → Ends (ready_logits id)
  unfolding ready_logits
  ready_logits-Ends id =
      bind-Ends {A = RequestState} {C = RequestState × B.Logits} (request id) _ (request-Ends id)
        λ r.
          bind-Ends {C = RequestState × B.Logits} (raise_if r.cancelled runtime_error) _
            (raise_if-Ends _ _ refl)
            λ _.
              bind-Ends {C = RequestState × B.Logits} (raise_if (ltb 0 (remaining r)) runtime_error)
                _ (raise_if-Ends _ _ refl)
                λ _.
                  bind-Ends {C = RequestState × B.Logits} (or_fail r.logits runtime_error) _
                    (or_fail-Ends r.logits runtime_error refl) (λ l s. refl)

  all_ready-Ends : (ids : List String) → Ends (all_ready ids)
  unfolding all_ready
  all_ready-Ends [] = λ s. refl
  all_ready-Ends (id ∷ ids) =
      bind-Ends {C = List (RequestState × B.Logits)} (ready_logits id) _ (ready_logits-Ends id) λ r.
        bind-Ends {C = List (RequestState × B.Logits)} (all_ready ids) _ (all_ready-Ends ids)
          (λ rs s. refl)

  draw_each-Ends : (rows : List (RequestState × B.Logits)) → Ends (draw_each rows)
  unfolding draw_each
  draw_each-Ends [] = λ s. refl
  draw_each-Ends ((r, logits) ∷ rows) = λ s.
      bind-Ends {C = List (String × ℤ)} (draw_each rows) _ (draw_each-Ends rows) (λ rest s. refl) _

  pub sample_next-Ends : (ids : List String) → Ends (sample_next ids)
  unfolding sample_next
  sample_next-Ends ids =
      bind-Ends {C = Dict String ℤ} (selected (some ids)) _ (selected-Ends ids) λ known.
        if-Ends (is_empty known) _ _ (λ s. refl)
          (bind-Ends {C = Dict String ℤ} (all_ready known) _ (all_ready-Ends known) λ rows s.
            bind-Ends {A = List (String × ℤ)} {C = Dict String ℤ}
              (if s.greedy then _ else draw_each rows) _
              (if-Ends s.greedy _ _ (λ s. refl) (draw_each-Ends rows))
              (λ sampled.
                bind-Ends {C = Dict String ℤ} (bump "sample_calls" 1) _ (bump-Ends "sample_calls" 1)
                  (λ _ s. refl))
              s)

  pub advance_tokens-Ends : (tokens : Dict String ℤ) → Ends (advance_tokens tokens)
  unfolding advance_tokens
  advance_tokens-Ends tokens =
      if-Ends (is_empty tokens) _ _ (λ s. refl)
        (bind-Ends {C = Unit {0}} (selected (some (map (λ e. e.0) tokens))) _ (selected-Ends _)
          λ ids s.
            bind-Ends {A = Unit {0}} {C = Unit {0}}
              (for_each (batches s.config.max_batch_size ids) _) _
              (for_each-Ends _ _ λ batch.
                bind-Ends {C = Unit {0}}
                  (raise_if (any is_negative (map (token_of tokens) batch)) value_error) _
                  (raise_if-Ends _ _ refl)
                  λ _. run_token_batch-Ends batch (map (token_of tokens) batch))
              (λ _. bump-Ends "advanced_tokens" _) s)
