-- ===== src/Scheduler/Turns.antt =====
-- src/rwkv7_scheduler/scheduler.py: continuations and cancellations leave every request with the handle
-- it has, and every slot in the hands it is in.
use rwkv_agent.Base.{
  ◌+◌, String, true, not, List, [], ◌∷◌, map, some, ltb, length, is_empty, any, is_negative,
  is_unique, is_blank, strip, ℤ, pure, ◌>>=◌, raise_if, or_fail, for_each, value_error,
  runtime_error, assertion_error, or_fail-Preserves, for_each-Preserves,
}
use rwkv_agent.Backend.{Backend}
use rwkv_agent.Scheduler.Requests.{Scheduler, bump, request, remaining, cancel}
use rwkv_agent.Scheduler.Prefill.{selected, prefill}
use rwkv_agent.Scheduler.Continuations.{
  installed, continue_tokens, check_row, install_row, install_continuations, continue_many, ids_of,
}
use rwkv_agent.Scheduler.Steady.{
  IsSteady, Steady, bind, check, branch, with_request, bump-Steady, store-Steady,
}
use rwkv_agent.Scheduler.Waves.{selected-Steady, prefill-Steady}

module _ ⦃B : Backend⦄ (s : Scheduler) where
  drained-Steady :
      (id : String)
      → Steady s (
          (prefill (some (id ∷ [])) >>= λ _. pure tt) >>= λ _. request id >>= λ r.
          or_fail r.logits assertion_error >>= λ l. bump "continuations" 1 >>= λ _. pure l)
  drained-Steady id =
      bind s {A = Unit {0}} {C = B.Logits} (prefill (some (id ∷ [])) >>= λ _. pure tt) _
        (bind s {C = Unit {0}} (prefill (some (id ∷ []))) (λ _. pure tt)
          (prefill-Steady s (some (id ∷ []))) (λ _ u h. h))
        λ _. with_request s {C = B.Logits} id _ λ r k.
          bind s {C = B.Logits} (or_fail r.logits assertion_error) _
            (or_fail-Preserves (IsSteady s) r.logits assertion_error)
            λ l.
              bind s {C = B.Logits} (bump "continuations" 1) (λ _. pure l)
                (bump-Steady s "continuations" 1) (λ _ u h. h)

  pub continue_tokens-Steady :
      (id : String) (values : List ℤ) → Steady s (continue_tokens id values)
  unfolding continue_tokens
  continue_tokens-Steady id values =
      bind s {C = B.Logits} (raise_if (is_empty values) value_error) _ (check s _ _) λ _.
        with_request s {C = B.Logits} id _ λ r k.
          bind s {C = B.Logits} (raise_if r.cancelled runtime_error) _ (check s _ _) λ _.
            bind s {C = B.Logits} (raise_if (ltb 0 (remaining r)) runtime_error) _ (check s _ _)
              λ _ t.
                bind s {C = B.Logits}
                  (raise_if (ltb t.config.max_input_tokens (r.seen_tokens + length values))
                    value_error)
                  _ (check s _ _)
                  (λ _ u h. drained-Steady id _ (store-Steady s (installed values r) k u h)) t

  check_row-Steady : (row : String × List ℤ) → Steady s (check_row row)
  unfolding check_row
  check_row-Steady (id, values) = with_request s {C = Unit {0}} id _ λ r k.
      bind s {C = Unit {0}} (raise_if r.cancelled runtime_error) _ (check s _ _) λ _.
        bind s {C = Unit {0}} (raise_if (ltb 0 (remaining r)) runtime_error) _ (check s _ _)
          (λ _ t. check s _ _ t)

  install_row-Steady : (row : String × List ℤ) → Steady s (install_row row)
  unfolding install_row
  install_row-Steady (id, values) =
      with_request s {C = Unit {0}} id _ (λ r k. store-Steady s (installed values r) k)

  pub install_continuations-Steady :
      (rows : List (String × List ℤ)) → Steady s (install_continuations rows)
  unfolding install_continuations
  install_continuations-Steady rows =
      let normalized = map (λ (row : String × List ℤ). (strip row.0, row.1)) rows in
      let ids = ids_of normalized in
      branch s (is_empty normalized) (pure []) _ (λ t h. h)
        (bind s {C = List String} (raise_if (any is_blank ids) value_error) _ (check s _ _) λ _.
          bind s {C = List String} (raise_if (not (is_unique ids)) value_error) _ (check s _ _) λ _.
            bind s {C = List String} (raise_if (any (λ row. is_empty row.1) normalized) value_error)
              _ (check s _ _)
              λ _.
                bind s {C = List String}
                  (raise_if (any (λ row. any is_negative row.1) normalized) value_error) _
                  (check s _ _)
                  λ _.
                    bind s {A = Unit {0}} {C = List String} (selected (some ids) >>= λ _. pure tt) _
                      (bind s {C = Unit {0}} (selected (some ids)) (λ _. pure tt)
                        (selected-Steady s (some ids)) (λ _ u h. h))
                      λ _.
                        bind s {A = Unit {0}} {C = List String} (for_each normalized check_row) _
                          (for_each-Preserves (IsSteady s) normalized check_row check_row-Steady)
                          λ _.
                            bind s {A = Unit {0}} {C = List String}
                              (for_each normalized install_row) _
                              (for_each-Preserves (IsSteady s) normalized install_row
                                install_row-Steady)
                              λ _.
                                bind s {C = List String} (bump "continuation_batches" 1) _
                                  (bump-Steady s "continuation_batches" 1)
                                  λ _.
                                    bind s {C = List String} (bump "continuations" (length ids)) _
                                      (bump-Steady s "continuations" (length ids)) (λ _ u h. h))

  pub continue_many-Steady : (rows : List (String × List ℤ)) → Steady s (continue_many rows)
  unfolding continue_many
  continue_many-Steady rows =
      bind s {C = List (String × B.Logits)} (install_continuations rows) _
        (install_continuations-Steady rows)
        λ ids.
          branch s (is_empty ids) (pure []) (prefill (some ids)) (λ t h. h)
            (prefill-Steady s (some ids))

  pub cancel-Steady : (id : String) → Steady s (cancel id)
  unfolding cancel
  cancel-Steady id = with_request s {C = Unit {0}} id _ λ r k t h.
      bump-Steady s "cancelled" 1 _ (store-Steady s (record r { cancelled = true }) k t h)
