-- ===== src/Runtime/Expiry.antt =====
-- src/rwkv_agent/state_runtime.py, _cleanup_expired_locked: an expiry while a decode runs.
use rwkv_agent.Base.{◌≡◌, subst, inl, inr, String, List, is_empty, Bool-cases, arith, ok}
use rwkv_agent.Backend.{Backend}
use rwkv_agent.Registry.{Registry, cleanup_expired}
use rwkv_agent.Registry.Orphans.{IsForest}
use rwkv_agent.Registry.Release.{Outcome-cases, Spared, cleanup_expired-spares}
use rwkv_agent.Runtime.Defs.{Runtime, cleanup, bump}

module _ ⦃B : Backend⦄ where
  cleanup-registry :
      (found found' : List String) (s t : Runtime) (r : Registry)
      → cleanup_expired s.busy s.registry ≡ ok found r
      → cleanup s ≡ ok found' t
      → r ≡ t.registry
  unfolding cleanup bump
  cleanup-registry found found' s t r done e = elim (Bool-cases (is_empty found)) [
    | inl quiet ↦ ground (arith, done, e, quiet)
    | inr some_gone ↦ ground (arith, done, e, some_gone)
  ]

  -- From a forest, a `cleanup` that returns has left every busy record in place, and a forest: no
  -- record that stays has lost its parent.
  pub cleanup-spares :
      (found : List String) (s t : Runtime)
      → IsForest s.registry.records
      → cleanup s ≡ ok found t
      → Spared s.busy s.registry.records t.registry.records
  unfolding cleanup
  cleanup-spares found s t f e = elim (Outcome-cases (cleanup_expired s.busy s.registry)) [
    | inr (x, r, failed) ↦ absurd (ground (arith, e, failed))
    | inl (gone, r, done) ↦
        subst (λ (q : Registry). Spared s.busy s.registry.records q.records)
          (cleanup-registry gone found s t r done e)
          (cleanup_expired-spares s.busy gone s.registry r f done)
  ]
