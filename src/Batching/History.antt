-- ===== src/Batching/History.antt =====
-- src/rwkv_agent/batching.py: any interleaving of the phases of the worker's loop with the calls of the
-- clients.
use rwkv_agent.Base.{
  ℕ, ◌≡◌, String, Bool, true, List, [], ◌∷◌, ◌++◌, Option, if◌then◌else◌, is_empty, ℤ, pure, after,
  modify, for_each, runtime_error, for_each-Preserves,
}
use rwkv_agent.Backend.{Backend}
use rwkv_agent.Decoding.{Text}
use rwkv_agent.Batching.Jobs.{
  InferenceJob, StateContinuationItem, Engine, Future, is_done, expire, complete, classify,
  continue_many, begin_close,
}
use rwkv_agent.Batching.Endings.{fail_rows, fail_without_state}
use rwkv_agent.Batching.Admission.{collect, admit}
use rwkv_agent.Batching.Ticks.{rows_of, prefill_tick, decode_tick}
use rwkv_agent.Batching.Loop.{publish_counts, decode_phase, shut_down}
use rwkv_agent.Batching.Later.{IsLater, Later, fail_rows-Later, fail_without_state-Later}
use rwkv_agent.Batching.Phases.{bind, branch, collect-Later, admit-Later}
use rwkv_agent.Batching.Rounds.{prefill_tick-Later, decode_tick-Later}
use rwkv_agent.Batching.Submissions.{
  expire-Later, complete-Later, classify-Later, continue_many-Later,
}

-- A call of a client, or a phase of the loop.
pub data Call : Type 0 where
  completes : String → List Text → ℕ → List ℤ → Call
  classifies : String → List (String × ℤ) → Call
  continues : List StateContinuationItem → List Text → ℕ → Option Bool → Call
  expires : InferenceJob → Call
  begins_close collects admits publishes prefills decodes shuts_down : Call

module _ ⦃B : Backend⦄ where
  unfoldable pub step : Call → Engine → Engine
  step (completes prompt stops n prefix) s = after (complete prompt stops n prefix s)
  step (classifies prompt labels) s = after (classify prompt labels s)
  step (continues items stops n sink) s = after (continue_many items stops n sink s)
  step (expires job) s = after (expire job s)
  step begins_close s = after (begin_close s)
  step collects s = after (collect s)
  step admits s = after (admit s)
  step publishes s = after (publish_counts s)
  step prefills s = after (prefill_tick s)
  step decodes s = after (decode_phase s)
  step shuts_down s = after (shut_down s)

  unfoldable pub run : List Call → Engine → Engine
  unfolding step
  run [] s = s
  run (c ∷ cs) s = run cs (step c s)

module _ ⦃B : Backend⦄ (IsWatched : String → Future → Type 0)
    (done : (id : String) (f : Future) → IsWatched id f → is_done f ≡ true) where
  publish_counts-Later : Later IsWatched done publish_counts
  unfolding publish_counts
  publish_counts-Later t h = record { table = h.table; kept = h.kept; fresh = h.fresh }

  begin_close-Later : Later IsWatched done begin_close
  unfolding begin_close
  begin_close-Later t h = record { table = h.table; kept = h.kept; fresh = h.fresh }

  decode_phase-Later : Later IsWatched done decode_phase
  unfolding decode_phase
  decode_phase-Later t =
      bind IsWatched done {A = Unit {0}} {C = Unit {0}}
        (if is_empty t.decoding then pure tt else decode_tick) (λ _. publish_counts)
        (branch IsWatched done (is_empty t.decoding) (pure tt) decode_tick (λ u k. k)
          (decode_tick-Later IsWatched done))
        (λ _. publish_counts-Later) t

  failing-Later :
      (jobs : List InferenceJob)
      → Later IsWatched done (for_each jobs (λ job. fail_without_state job runtime_error))
  failing-Later jobs =
      for_each-Preserves (IsLater IsWatched) jobs _
        (λ job. fail_without_state-Later IsWatched done job runtime_error)

  shut_down-Later : Later IsWatched done shut_down
  unfolding shut_down
  shut_down-Later t =
      bind IsWatched done {C = Unit {0}}
        (fail_rows (rows_of t.prefilling ++ rows_of t.decoding) runtime_error) _
        (fail_rows-Later IsWatched done (rows_of t.prefilling ++ rows_of t.decoding) runtime_error)
        (λ _.
          bind IsWatched done {C = Unit {0}}
            (for_each t.waiting (λ job. fail_without_state job runtime_error)) _
            (failing-Later t.waiting)
            λ _ u k.
              bind IsWatched done {C = Unit {0}}
                (for_each t.queue (λ job. fail_without_state job runtime_error))
                (λ _. modify (λ s. record s { queue = [] })) (failing-Later t.queue)
                (λ _ v l. record { table = l.table; kept = l.kept; fresh = l.fresh }) _
                (record { table = k.table; kept = k.kept; fresh = k.fresh }))
        t

  step-Later : (c : Call) (t : Engine) → IsLater IsWatched t → IsLater IsWatched (step c t)
  unfolding step
  step-Later (completes prompt stops n prefix) = complete-Later IsWatched done prompt stops n prefix
  step-Later (classifies prompt labels) = classify-Later IsWatched done prompt labels
  step-Later (continues items stops n sink) = continue_many-Later IsWatched done items stops n sink
  step-Later (expires job) = expire-Later IsWatched done job
  step-Later begins_close = begin_close-Later
  step-Later collects = collect-Later IsWatched done
  step-Later admits = admit-Later IsWatched done
  step-Later publishes = publish_counts-Later
  step-Later prefills = prefill_tick-Later IsWatched done
  step-Later decodes = decode_phase-Later
  step-Later shuts_down = shut_down-Later

  pub run-Later : (cs : List Call) (t : Engine) → IsLater IsWatched t → IsLater IsWatched (run cs t)
  unfolding run
  run-Later [] t h = h
  run-Later (c ∷ cs) t h = run-Later cs (step c t) (step-Later c t h)
