-- ===== src/Scheduler/History.antt =====
-- src/rwkv7_scheduler/scheduler.py: any sequence of calls of the scheduler, whether they return or raise.
use rwkv_agent.Base.{
  ℕ, ◌≡◌, String, Bool, true, false, List, [], ◌∷◌, Option, ℤ, Dict, lookup, has, string_dec, suc,
  length, ok, after, arith,
}
use rwkv_agent.Backend.{Backend}
use rwkv_agent.StatePool.{StatePool}
use rwkv_agent.StatePool.Invariant.{IsValid}
use rwkv_agent.Scheduler.Requests.{
  Scheduler, SchedulerConfig, init, admit, admit_many, fork, cancel, release,
}
use rwkv_agent.Scheduler.Prefill.{prefill, prefill_round}
use rwkv_agent.Scheduler.Continuations.{continue_tokens, install_continuations, continue_many}
use rwkv_agent.Scheduler.Decode.{sample_next, advance_tokens, greedy_decode}
use rwkv_agent.Scheduler.Waves.{prefill-Steady, prefill_round-Steady}
use rwkv_agent.Scheduler.Turns.{
  continue_tokens-Steady, install_continuations-Steady, continue_many-Steady, cancel-Steady,
}
use rwkv_agent.Scheduler.Tokens.{sample_next-Steady, advance_tokens-Steady, greedy_decode-Steady}
use rwkv_agent.Scheduler.Agreement.{Agrees, Steady-Agrees}
use rwkv_agent.Scheduler.Admissions.{admit-Agrees, admit_many-Agrees, release-Agrees, release_known}
use rwkv_agent.Scheduler.Forks.{fork-Agrees}

-- One call of a client, with whatever arguments.
pub data Call : Type 0 where
  admits : String → List ℤ → Call
  admits_many : List (String × List ℤ) → Call
  forks : String → List String → Call
  prefills : Option (List String) → Call
  prefill_rounds : Option (List String) → Call
  continues : String → List ℤ → Call
  installs : List (String × List ℤ) → Call
  continues_many : List (String × List ℤ) → Call
  samples : List String → Call
  advances : Dict String ℤ → Call
  decodes : List String → Dict String ℕ → Bool → Call
  cancels : String → Call
  releases : String → Call

module _ ⦃B : Backend⦄ where
  unfoldable pub step : Call → Scheduler → Scheduler
  step (admits id tokens) s = after (admit id tokens s)
  step (admits_many rows) s = after (admit_many rows s)
  step (forks parent children) s = after (fork parent children s)
  step (prefills ids) s = after (prefill ids s)
  step (prefill_rounds ids) s = after (prefill_round ids s)
  step (continues id values) s = after (continue_tokens id values s)
  step (installs rows) s = after (install_continuations rows s)
  step (continues_many rows) s = after (continue_many rows s)
  step (samples ids) s = after (sample_next ids s)
  step (advances tokens) s = after (advance_tokens tokens s)
  step (decodes ids budgets c) s = after (greedy_decode ids budgets c s)
  step (cancels id) s = after (cancel id s)
  step (releases id) s = after (release id s)

  unfoldable pub run : List Call → Scheduler → Scheduler
  unfolding step
  run [] s = s
  run (c ∷ cs) s = run cs (step c s)

  step-Agrees : (c : Call) (s : Scheduler) → Agrees s → Agrees (step c s)
  unfolding step
  step-Agrees (admits id tokens) = admit-Agrees id tokens
  step-Agrees (admits_many rows) = admit_many-Agrees rows
  step-Agrees (forks parent children) = fork-Agrees parent children
  step-Agrees (prefills ids) = Steady-Agrees (prefill ids) (λ s. prefill-Steady s ids)
  step-Agrees (prefill_rounds ids) =
      Steady-Agrees (prefill_round ids) (λ s. prefill_round-Steady s ids)
  step-Agrees (continues id values) =
      Steady-Agrees (continue_tokens id values) (λ s. continue_tokens-Steady s id values)
  step-Agrees (installs rows) =
      Steady-Agrees (install_continuations rows) (λ s. install_continuations-Steady s rows)
  step-Agrees (continues_many rows) =
      Steady-Agrees (continue_many rows) (λ s. continue_many-Steady s rows)
  step-Agrees (samples ids) = Steady-Agrees (sample_next ids) (λ s. sample_next-Steady s ids)
  step-Agrees (advances tokens) =
      Steady-Agrees (advance_tokens tokens) (λ s. advance_tokens-Steady s tokens)
  step-Agrees (decodes ids budgets c) =
      Steady-Agrees (greedy_decode ids budgets c) (λ s. greedy_decode-Steady s ids budgets c)
  step-Agrees (cancels id) = Steady-Agrees (cancel id) (λ s. cancel-Steady s id)
  step-Agrees (releases id) = release-Agrees id

  -- From a scheduler whose request table agrees with its pool, every sequence of calls, whatever their
  -- arguments and whether they return or raise, leaves one where they agree: each request has a live
  -- handle, no two requests share a slot, and a slot is free, once, exactly when nobody owns it.
  pub run-Agrees : (cs : List Call) (s : Scheduler) → Agrees s → Agrees (run cs s)
  unfolding run
  run-Agrees [] s a = a
  run-Agrees (c ∷ cs) s a = run-Agrees cs (step c s) (step-Agrees c s a)

  -- The scheduler that the constructor returns over a valid pool agrees with it.
  pub init-Agrees :
      (pool : StatePool) (config : SchedulerConfig) (clock : ℕ) (greedy : Bool) (seed : ℕ)
      (s : Scheduler)
      → IsValid pool
      → init pool config clock greedy seed tt ≡ ok s tt
      → Agrees s
  unfolding init lookup
  init-Agrees pool config clock greedy seed s v e = record {
    pool = rw same_pool v;
    distinct = rw empty tt;
    keyed = λ id r k. absurd (ground (arith, k, empty));
    live = λ id h k. absurd (ground (arith, k, empty));
    apart = λ id j h g k. absurd (ground (arith, k, empty));
  }
    where
      empty : s.requests ≡ []
      empty = ground (arith, e)

      same_pool : s.pool ≡ pool
      same_pool = ground (arith, e)

  -- After any sequence of calls on a scheduler whose request table agrees with its pool, the release
  -- of a request of the table succeeds: the request is gone and one more slot is free.
  pub run-releases :
      (cs : List Call) (s : Scheduler) (id : String)
      → Agrees s
      → has string_dec id (run cs s).requests ≡ true
      → (t : Scheduler) × (release id (run cs s) ≡ ok tt t)
        × (has string_dec id t.requests ≡ false)
        × (length t.pool.free ≡ suc (length (run cs s).pool.free))
  run-releases cs s id a e = release_known (run cs s) id (run-Agrees cs s a) e
