-- ===== src/Scheduler/Imports.antt =====
-- src/rwkv7_scheduler/scheduler.py: an import takes a slot for a new request, or takes none.
use rwkv_agent.Base.{
  ℕ, suc, ◌≡◌, refl, String, not, ◌||◌, List, [], ◌∷◌, ltb, is_none, raise_if, or_fail, value_error,
  key_error, runtime_error, bind-Preserves-Yields, or_fail-Preserves, Yields,
}
use rwkv_agent.Backend.{Backend}
use rwkv_agent.StatePool
use rwkv_agent.StatePool.{StatePool, StateHandle, allocate, vacate}
use rwkv_agent.StatePool.Frames.{gather-Still, commit-Still}
use rwkv_agent.Scheduler.Requests.{Scheduler, RequestState, on_pool, bump, remaining}
use rwkv_agent.Scheduler.Steady.{
  IsSteady, Steady, bind, check, bump-Steady, on_pool-Steady, with_request,
}
use rwkv_agent.Scheduler.Transfer.{
  Transfer, Manifest, Tensors, TensorName, find_tensor, name_at, export_state, validated_tensor,
  incoming_group, incoming_groups, layout_matches, has_names, logits_name, prepare_import,
}

module _ ⦃B : Backend⦄ ⦃F : Transfer⦄ (s : Scheduler) where
  snapshot-Steady : (h : StateHandle) → Steady s (on_pool (StatePool.snapshot h))
  unfolding StatePool.snapshot
  snapshot-Steady h = on_pool-Steady s (StatePool.gather (h ∷ [])) (gather-Still s.pool (h ∷ []))

  pub export_state-Steady : (id : String) → Steady s (export_state id)
  unfolding export_state
  export_state-Steady id = with_request s {C = Manifest × Tensors} id _ λ r k.
      bind s {C = Manifest × Tensors}
        (raise_if (r.cancelled || ltb 0 (remaining r) || is_none r.logits) runtime_error) _
        (check s _ _)
        λ _.
          bind s {C = Manifest × Tensors} (on_pool (StatePool.snapshot r.handle)) _
            (snapshot-Steady r.handle)
            λ state.
              bind s {C = Manifest × Tensors} (or_fail r.logits runtime_error) _
                (or_fail-Preserves (IsSteady s) r.logits runtime_error)
                λ l.
                  bind s {C = Manifest × Tensors} (bump "state_exports" 1) _
                    (bump-Steady s "state_exports" 1) (λ _ t h. h)

  validated_tensor-Steady :
      (name : TensorName) (ts : Tensors) (target : F.Tensor)
      → Steady s (validated_tensor name ts target)
  unfolding validated_tensor
  validated_tensor-Steady name ts target =
      bind s {C = F.Tensor} (or_fail (find_tensor name ts) value_error) _
        (or_fail-Preserves (IsSteady s) (find_tensor name ts) value_error)
        λ v.
          bind s {C = F.Tensor} (raise_if (not (F.fits v target)) value_error) _ (check s _ _)
            (λ _ t h. h)

  incoming_group-Steady :
      (ts : Tensors) (g i : ℕ) (targets : List F.Tensor) → Steady s (incoming_group ts g i targets)
  unfolding incoming_group
  incoming_group-Steady ts g i [] = λ t h. h
  incoming_group-Steady ts g i (target ∷ targets) =
      bind s {C = List F.Tensor} (validated_tensor (name_at g i) ts target) _
        (validated_tensor-Steady (name_at g i) ts target)
        λ v.
          bind s {C = List F.Tensor} (incoming_group ts g (suc i) targets) _
            (incoming_group-Steady ts g (suc i) targets) (λ rest t h. h)

  incoming_groups-Steady :
      (ts : Tensors) (g : ℕ) (groups : List (List F.Tensor))
      → Steady s (incoming_groups ts g groups)
  unfolding incoming_groups
  incoming_groups-Steady ts g [] = λ t h. h
  incoming_groups-Steady ts g (targets ∷ groups) =
      bind s {C = List (List F.Tensor)} (incoming_group ts g 0 targets) _
        (incoming_group-Steady ts g 0 targets)
        λ v.
          bind s {C = List (List F.Tensor)} (incoming_groups ts (suc g) groups) _
            (incoming_groups-Steady ts (suc g) groups) (λ rest t h. h)

  -- The request that is prepared has the name and the handle that were asked for.
  abbrev pub IsPrepared : String → StateHandle → RequestState → Type 0
  IsPrepared id h r = (r.request_id ≡ id) × (r.handle ≡ h)

  pub prepare_import-Yields :
      (id : String) (h : StateHandle) (m : Manifest) (ts : Tensors) (n : ℕ)
      → Yields (IsSteady s) (IsPrepared id h) (prepare_import id h m ts n)
  unfolding prepare_import
  prepare_import-Yields id h m ts n =
      bind-Preserves-Yields (IsSteady s) (IsPrepared id h) (on_pool (StatePool.snapshot h)) _
        (snapshot-Steady h)
        λ state.
          let expected = F.groups (B.row state 0) in
          bind-Preserves-Yields (IsSteady s) (IsPrepared id h)
            (raise_if (not (layout_matches m expected)) value_error) _ (check s _ _)
            λ _.
              bind-Preserves-Yields (IsSteady s) (IsPrepared id h) (incoming_groups ts 0 expected) _
                (incoming_groups-Steady ts 0 expected)
                λ incoming.
                  bind-Preserves-Yields (IsSteady s) (IsPrepared id h)
                    (raise_if (not (has_names ts expected)) value_error) _ (check s _ _)
                    λ _.
                      bind-Preserves-Yields (IsSteady s) (IsPrepared id h)
                        (or_fail (find_tensor logits_name ts) key_error) _
                        (or_fail-Preserves (IsSteady s) (find_tensor logits_name ts) key_error)
                        λ logits.
                          bind-Preserves-Yields (IsSteady s) (IsPrepared id h)
                            (raise_if (not (F.is_vocabulary logits)) value_error) _ (check s _ _)
                            λ _.
                              bind-Preserves-Yields (IsSteady s) (IsPrepared id h)
                                (on_pool (StatePool.commit (h ∷ []) (F.batch_of incoming))) _
                                (on_pool-Steady s (StatePool.commit (h ∷ []) (F.batch_of incoming))
                                  (commit-Still s.pool (h ∷ []) (F.batch_of incoming)))
                                (λ _ t k. (k, (refl, refl)))
