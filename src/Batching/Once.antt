-- ===== src/Batching/Once.antt =====
-- src/rwkv_agent/batching.py: what any interleaving of the worker's phases with the clients' calls keeps.
use rwkv_agent.Base.{ℕ, ◌≤◌, ◌≡◌, ◌≢◌, refl, sym, ap, ◌∙◌, String, true, List, some, subst}
use rwkv_agent.Backend.{Backend}
use rwkv_agent.Scheduler.Agreement.{Agrees}
use rwkv_agent.Batching.Jobs.{Engine, Future, is_done}
use rwkv_agent.Batching.Later.{future_at}
use rwkv_agent.Batching.History.{Call, run, run-Later}

module _ ⦃B : Backend⦄ where
  -- When the scheduler's request table agrees with its pool and no identity to come is that of a job
  -- whose future is done, that future stays as it is through every interleaving of clients' calls
  -- with the phases of the loop and its end: a job is answered, failed or withdrawn once.
  pub answered_once :
      (cs : List Call) (s : Engine) (id : String) (f : Future)
      → Agrees s.scheduler
      → ((n : ℕ) → s.ids_used ≤ n → s.new_id n ≢ id)
      → is_done f ≡ true
      → future_at s.jobs id ≡ some f
      → future_at (run cs s).jobs id ≡ some f
  answered_once cs s id f a fresh d e =
      (run-Later (λ i g. (i ≡ id) × (g ≡ f)) (λ i g w. subst (λ x. is_done x ≡ true) (sym w.1) d) cs
          s
          (record {
            table = a;
            kept = λ i g w. ap (future_at s.jobs) w.0 ∙ e ∙ ap some (sym w.1);
            fresh = λ i g n w le. subst (λ x. s.new_id n ≢ x) (sym w.0) (fresh n le);
          })).kept
        id f (refl, refl)
