-- ===== src/Scheduler/Waves.antt =====
-- src/rwkv7_scheduler/scheduler.py: the prefill leaves every request
-- with the handle it has, and every slot in the hands it is in.
use rwkv_agent.Base.{
  ℕ, zero, suc, ◌==◌, String, ◌&&◌, List, [], ◌∷◌, Option, none, some, select, leb, is_empty,
  is_none, mentions, Dict, pure, ◌>>=◌, raise_if, for_each, value_error, for_each-Preserves, inl,
  inr, Bool-cases,
}
use rwkv_agent.Backend.{Backend}
use rwkv_agent.Scheduler.Requests.{Scheduler, RequestState, bump, request, remaining}
use rwkv_agent.Scheduler.Forward.{run_exact_chunk}
use rwkv_agent.Scheduler.Prefill.{
  batches, append_to, longest_first, selected_from, selected, active_in, active_prefill,
  next_prefill_length, group_by_length, run_prefill_wave, completed, mark_prefill_complete,
  with_logits, available_logits, prefill_loop, work, prefill, prefill_round,
}
use rwkv_agent.Scheduler.Steady.{
  IsSteady, IsKnown, Steady, bind, check, branch, with_request, with_requests, bump-Steady,
  store-Steady,
}
use rwkv_agent.Scheduler.Passes.{run_exact_chunk-Steady}

module _ ⦃B : Backend⦄ (s : Scheduler) where
  selected_from-Steady : (seen ids : List String) → Steady s (selected_from seen ids)
  unfolding selected_from
  selected_from-Steady seen [] = λ t h. h
  selected_from-Steady seen (id ∷ ids) =
      bind s {C = List String} (raise_if (mentions id seen) value_error) _ (check s _ _) λ _.
        bind s {A = Unit {0}} {C = List String} (request id >>= λ _. pure tt) _
          (with_request s {C = Unit {0}} id (λ _. pure tt) (λ r k t h. h))
          λ _.
            bind s {C = List String} (selected_from (id ∷ seen) ids) _
              (selected_from-Steady (id ∷ seen) ids) (λ rest t h. h)

  pub selected-Steady : (ids : Option (List String)) → Steady s (selected ids)
  unfolding selected
  selected-Steady none = λ t h. h
  selected-Steady (some ids) = selected_from-Steady [] ids

  next_prefill_length-Steady : (r : RequestState) → Steady s (next_prefill_length r)
  unfolding next_prefill_length
  next_prefill_length-Steady r =
      bind s {C = ℕ} (raise_if (leb (remaining r) 0) value_error) _ (check s _ _) (λ _ t h. h)

  group_by_length-Steady :
      (ids : List String) (groups : Dict ℕ (List String)) → Steady s (group_by_length ids groups)
  unfolding group_by_length
  group_by_length-Steady [] groups = λ t h. h
  group_by_length-Steady (id ∷ ids) groups = with_request s {C = Dict ℕ (List String)} id _ λ r k.
      bind s {C = Dict ℕ (List String)} (next_prefill_length r) _ (next_prefill_length-Steady r)
        λ n. group_by_length-Steady ids (append_to n id groups)

  run_prefill_wave-Steady : (ids : List String) → Steady s (run_prefill_wave ids)
  unfolding run_prefill_wave
  run_prefill_wave-Steady ids =
      bind s {C = Unit {0}} (group_by_length ids []) _ (group_by_length-Steady ids []) λ groups t.
        for_each-Preserves (IsSteady s) (longest_first groups)
          (λ (g : ℕ × List String).
            for_each (batches t.config.max_batch_size g.1) (λ batch. run_exact_chunk batch g.0))
          (λ g.
            for_each-Preserves (IsSteady s) (batches t.config.max_batch_size g.1)
              (λ batch. run_exact_chunk batch g.0) (λ batch. run_exact_chunk-Steady s batch g.0))
          t

  completed-IsKnown : (t : Scheduler) (r : RequestState) → IsKnown s r → IsKnown s (completed t r)
  completed-IsKnown t r k = elim (Bool-cases ((remaining r == 0) && is_none r.completed_at)) [
    | inl now ↦ rw now k
    | inr not_now ↦ rw not_now k
  ]

  pub mark_prefill_complete-Steady : (ids : List String) → Steady s (mark_prefill_complete ids)
  unfolding mark_prefill_complete
  mark_prefill_complete-Steady ids = for_each-Preserves (IsSteady s) ids _ λ id.
      with_request s {C = Unit {0}} id _
        (λ r k t. store-Steady s (completed t r) (completed-IsKnown t r k) t)

  pub available_logits-Steady : (ids : List String) → Steady s (available_logits ids)
  unfolding available_logits
  available_logits-Steady ids = with_requests s ids (λ rs. pure (with_logits rs)) (λ rs k t h. h)

  prefill_loop-Steady : (fuel : ℕ) (ids : List String) → Steady s (prefill_loop fuel ids)
  unfolding prefill_loop active_prefill
  prefill_loop-Steady zero ids = λ t h. h
  prefill_loop-Steady (suc fuel) ids = λ t.
      branch s (is_empty (select (active_in t) ids)) (pure tt) _ (λ u h. h)
        (bind s {C = Unit {0}} (run_prefill_wave (select (active_in t) ids)) _
          (run_prefill_wave-Steady (select (active_in t) ids)) (λ _. prefill_loop-Steady fuel ids))
        t

  pub prefill-Steady : (request_ids : Option (List String)) → Steady s (prefill request_ids)
  unfolding prefill
  prefill-Steady request_ids =
      bind s {C = List (String × B.Logits)} (selected request_ids) _ (selected-Steady request_ids)
        λ ids.
          branch s (is_empty ids) (pure []) _ (λ t h. h)
            λ t.
              bind s {C = List (String × B.Logits)} (prefill_loop (suc (work t ids)) ids) _
                (prefill_loop-Steady (suc (work t ids)) ids)
                (λ _.
                  bind s {C = List (String × B.Logits)} (mark_prefill_complete ids) _
                    (mark_prefill_complete-Steady ids) (λ _. available_logits-Steady ids))
                t

  pub prefill_round-Steady :
      (request_ids : Option (List String)) → Steady s (prefill_round request_ids)
  unfolding prefill_round active_prefill
  prefill_round-Steady request_ids =
      bind s {C = List (String × B.Logits)} (selected request_ids) _ (selected-Steady request_ids)
        λ ids t.
          branch s (is_empty (select (active_in t) ids)) (available_logits ids) _
            (available_logits-Steady ids)
            (bind s {C = List (String × B.Logits)} (run_prefill_wave (select (active_in t) ids)) _
              (run_prefill_wave-Steady (select (active_in t) ids))
              λ _.
                bind s {C = List (String × B.Logits)} (mark_prefill_complete ids) _
                  (mark_prefill_complete-Steady ids)
                  λ _.
                    bind s {C = List (String × B.Logits)} (bump "prefill_rounds" 1) _
                      (bump-Steady s "prefill_rounds" 1) λ _. available_logits-Steady ids)
            t
