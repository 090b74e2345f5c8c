-- ===== src/Batching/Loop.antt =====
-- src/rwkv_agent/batching.py: an iteration of the worker's loop, and its end.
use rwkv_agent.Base.{
  ◌+◌, Bool, [], ◌++◌, if◌then◌else◌, length, is_empty, not, ◌||◌, M, pure, ◌>>=◌, ◌>>◌, read,
  modify, for_each, runtime_error,
}
use rwkv_agent.Backend.{Backend}
use rwkv_agent.Batching.Jobs.{Engine}
use rwkv_agent.Batching.Endings.{fail_rows, fail_without_state}
use rwkv_agent.Batching.Admission.{collect, admit}
use rwkv_agent.Batching.Ticks.{rows_of, prefill_tick, decode_tick}

module _ ⦃B : Backend⦄ where
  unfoldable pub publish_counts : M Engine (Unit {0})
  publish_counts = modify (λ s. record s {
    waiting_count = length s.waiting + length s.queue;
    prefilling_count = length s.prefilling;
    decoding_count = length s.decoding;
  })

  -- The condition of the loop.
  unfoldable pub goes_on : Engine → Bool
  goes_on s =
      not s.closing
      || not (is_empty s.waiting)
      || not (is_empty s.prefilling)
      || not (is_empty s.decoding)
      || not (is_empty s.queue)

  unfoldable pub decode_phase : M Engine (Unit {0})
  decode_phase = do s ← read; if is_empty s.decoding then pure tt else decode_tick; publish_counts

  -- An iteration during which no client calls.
  unfoldable pub iterate : M Engine (Unit {0})
  iterate = do
    collect
    admit
    publish_counts
    follows ← prefill_tick
    if follows then decode_phase else pure tt

  -- The `finally` clause of `_run`.
  unfoldable pub shut_down : M Engine (Unit {0})
  shut_down = do
    s ← read
    fail_rows (rows_of s.prefilling ++ rows_of s.decoding) runtime_error
    for_each s.waiting (λ job. fail_without_state job runtime_error)
    modify (λ s. record s { waiting = [] })
    for_each s.queue (λ job. fail_without_state job runtime_error)
    modify (λ s. record s { queue = [] })
