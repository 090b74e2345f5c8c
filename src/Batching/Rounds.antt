-- ===== src/Batching/Rounds.antt =====
-- src/rwkv_agent/batching.py: a round of prefill or of decode leaves the futures that are done as they
-- are, and the request table of the scheduler in agreement with its pool.
use rwkv_agent.Base.{
  ◌==◌, ◌≡◌, String, Bool, true, false, not, ◌&&◌, List, [], ◌∷◌, ◌++◌, some, string_dec, is_empty,
  is_none, select, same, ℤ, Dict, lookup, pure, ◌>>◌, modify, for_each, or_fail, key_error,
  or_fail-Preserves, for_each-Preserves, tried-Preserves, either-Preserves, option-Preserves,
}
use rwkv_agent.Backend.{Backend}
use rwkv_agent.Decoding.{Text, append_greedy_token, decode_text_stops, GreedyTokenStatus}
use rwkv_agent.Scheduler.Requests
use rwkv_agent.Scheduler.Requests.{Scheduler, RequestState, remaining}
use rwkv_agent.Scheduler.Prefill
use rwkv_agent.Scheduler.Decode.{sample_next, advance_tokens}
use rwkv_agent.Scheduler.Waves.{prefill_round-Steady}
use rwkv_agent.Scheduler.Tokens.{sample_next-Steady, advance_tokens-Steady}
use rwkv_agent.Scheduler.Agreement.{Steady-Agrees}
use rwkv_agent.Scheduler.Forks.{request-Agrees}
use rwkv_agent.Runtime.Turns.{end_of_sequence}
use rwkv_agent.Batching.Jobs.{
  ActiveRow, Future, generated, is_done, is_persistent, is_classification, scheduled, bump,
}
use rwkv_agent.Batching.Endings.{fail_rows, cancel_row, finish_classification, finish_state_row}
use rwkv_agent.Batching.Admission.{is_cancelled}
use rwkv_agent.Batching.Ticks.{
  rows_of, keys_of, same_text, Tick, drop_prefilling, put_decoding, drop_decoding, settle_row,
  prefill_tick, emit, stop_row, tick_row, tick_each, advance_rows, finish_row, decode_tick,
}
use rwkv_agent.Batching.Later.{
  IsLater, Later, scheduled-Later, bump-Later, fail_rows-Later, cancel_row-Later,
  finish_ephemeral-Later, finish_classification-Later, finish_state_row-Later,
}
use rwkv_agent.Batching.Phases.{bind, branch}

module _ ⦃B : Backend⦄ (IsWatched : String → Future → Type 0)
    (done : (id : String) (f : Future) → IsWatched id f → is_done f ≡ true) where
  drop_prefilling-Later : (id : String) → Later IsWatched done (drop_prefilling id)
  unfolding drop_prefilling
  drop_prefilling-Later id t h = record { table = h.table; kept = h.kept; fresh = h.fresh }

  put_decoding-Later : (row : ActiveRow) → Later IsWatched done (put_decoding row)
  unfolding put_decoding
  put_decoding-Later row t h = record { table = h.table; kept = h.kept; fresh = h.fresh }

  drop_decoding-Later : (id : String) → Later IsWatched done (drop_decoding id)
  unfolding drop_decoding
  drop_decoding-Later id t h = record { table = h.table; kept = h.kept; fresh = h.fresh }

  settle_row-Later : (id : String) → Later IsWatched done (settle_row id)
  unfolding settle_row
  settle_row-Later id t =
      bind IsWatched done {C = Unit {0}} (or_fail (lookup string_dec id t.prefilling) key_error) _
        (or_fail-Preserves (IsLater IsWatched) (lookup string_dec id t.prefilling) key_error)
        (λ row.
          branch IsWatched done (is_cancelled t row.job && not (is_persistent row.job))
            (drop_prefilling id >> cancel_row row) _
            (bind IsWatched done {C = Unit {0}} (drop_prefilling id) (λ _. cancel_row row)
              (drop_prefilling-Later id) (λ _. cancel_row-Later IsWatched done row))
            (bind IsWatched done {C = Unit {0}} (scheduled (Requests.request id)) _
              (scheduled-Later IsWatched done (Requests.request id) (request-Agrees id))
              λ q.
                branch IsWatched done (not (remaining q == 0)) (pure tt) _ (λ u k. k)
                  (bind IsWatched done {C = Unit {0}} (drop_prefilling id) _
                    (drop_prefilling-Later id)
                    λ _.
                      branch IsWatched done (is_classification row.job) _ (put_decoding row)
                        (tried-Preserves (IsLater IsWatched) {C = Unit {0}}
                          (finish_classification row) (λ _. pure tt) (fail_rows (row ∷ []))
                          (finish_classification-Later IsWatched done row) (λ _ u k. k)
                          (fail_rows-Later IsWatched done (row ∷ [])))
                        (put_decoding-Later row))))
        t

  pub prefill_tick-Later : Later IsWatched done prefill_tick
  unfolding prefill_tick
  prefill_tick-Later t =
      let ids = keys_of t.prefilling in
      branch IsWatched done (is_empty ids) (pure true) _ (λ u k. k)
        (tried-Preserves (IsLater IsWatched) {C = Bool}
          (scheduled (Prefill.prefill_round (some ids))) (λ _. for_each ids settle_row >> pure true)
          (λ e.
            modify (λ s. record s { prefilling = [] })
            >> (fail_rows (rows_of t.prefilling) e >> pure false))
          (scheduled-Later IsWatched done (Prefill.prefill_round (some ids)) (
            Steady-Agrees (Prefill.prefill_round (some ids))
              (λ s. prefill_round-Steady s (some ids))))
          (λ _.
            bind IsWatched done {C = Bool} (for_each ids settle_row) (λ _. pure true)
              (for_each-Preserves (IsLater IsWatched) ids settle_row settle_row-Later) (λ _ u k. k))
          (λ e u k.
            bind IsWatched done {C = Bool} (fail_rows (rows_of t.prefilling) e) (λ _. pure false)
              (fail_rows-Later IsWatched done (rows_of t.prefilling) e) (λ _ v l. l) _
              (record { table = k.table; kept = k.kept; fresh = k.fresh })))
        t

  emit-Later : (row : ActiveRow) (previous : Text) → Later IsWatched done (emit row previous)
  unfolding emit
  emit-Later row previous =
      option-Preserves (IsLater IsWatched) {C = Unit {0}} row.job.event_sink (pure tt) _ (λ t h. h)
        λ raises.
          branch IsWatched done (same_text row.output_text previous) (pure tt) _ (λ t h. h)
            (λ t h.
              branch IsWatched done raises (bump "stream_sink_errors" 1) (pure tt)
                (bump-Later IsWatched done "stream_sink_errors" 1) (λ u k. k) _
                (record { table = h.table; kept = h.kept; fresh = h.fresh }))

  stop_row-Later :
      (row : ActiveRow) (status : GreedyTokenStatus) (tick : Tick)
      → Later IsWatched done (stop_row row status tick)
  unfolding stop_row
  stop_row-Later row status tick =
      bind IsWatched done {C = Tick} (put_decoding row) _ (put_decoding-Later row) λ _ t.
        either-Preserves (IsLater IsWatched) {D = Tick} (t.decode row.output_ids) _ _
          (λ e.
            let affected =
              select (λ (other : ActiveRow). same other.job.job_id row.job.job_id)
                (rows_of t.decoding) in
            bind IsWatched done {A = Unit {0}} {C = Tick}
              (for_each affected (λ other. drop_decoding other.request_id)) _
              (for_each-Preserves (IsLater IsWatched) affected _
                (λ other. drop_decoding-Later other.request_id))
              λ _.
                bind IsWatched done {C = Tick} (fail_rows affected e) (λ _. pure tick)
                  (fail_rows-Later IsWatched done affected e) (λ _ u k. k))
          (λ text.
            let decoded =
              decode_text_stops (λ _. text) row.output_ids row.output_text row.job.stops in
            let row' = record row { output_text = decoded.text } in
            bind IsWatched done {C = Tick} (put_decoding row') _ (put_decoding-Later row') λ _.
              bind IsWatched done {C = Tick} (emit row' row.output_text) _
                (emit-Later row' row.output_text) (λ _ u k. k))
          t

  tick_row-Later :
      (sampled : Dict String ℤ) (id : String) (tick : Tick)
      → Later IsWatched done (tick_row sampled id tick)
  unfolding tick_row
  tick_row-Later sampled id tick t =
      option-Preserves (IsLater IsWatched) {C = Tick} (lookup string_dec id t.decoding) (pure tick)
        _ (λ u k. k)
        (λ row.
          branch IsWatched done (is_cancelled t row.job && not (is_persistent row.job))
            (drop_decoding id >> cancel_row row >> pure tick) _
            (bind IsWatched done {A = Unit {0}} {C = Tick} (drop_decoding id >> cancel_row row)
              (λ _. pure tick)
              (bind IsWatched done {C = Unit {0}} (drop_decoding id) (λ _. cancel_row row)
                (drop_decoding-Later id) (λ _. cancel_row-Later IsWatched done row))
              (λ _ u k. k))
            (bind IsWatched done {C = Tick} (or_fail (lookup string_dec id sampled) key_error) _
              (or_fail-Preserves (IsLater IsWatched) (lookup string_dec id sampled) key_error)
              λ token.
                let appended =
                  append_greedy_token row.output_ids token t.eos_token_id row.job.max_tokens in
                branch IsWatched done appended.0.eos
                  (pure (record tick { finished = tick.finished ++ (row, end_of_sequence) ∷ [] })) _
                  (λ u k. k)
                  (stop_row-Later (record row { output_ids = appended.1 }) appended.0 tick)))
        t

  tick_each-Later :
      (sampled : Dict String ℤ) (ids : List String) (tick : Tick)
      → Later IsWatched done (tick_each sampled ids tick)
  unfolding tick_each
  tick_each-Later sampled [] tick = λ t h. h
  tick_each-Later sampled (id ∷ ids) tick =
      bind IsWatched done {C = Tick} (tick_row sampled id tick) _ (tick_row-Later sampled id tick)
        (λ next. tick_each-Later sampled ids next)

  advance_rows-Later :
      (ids : List String) (advance : Dict String ℤ)
      → Later IsWatched done (advance_rows ids advance)
  unfolding advance_rows
  advance_rows-Later ids advance =
      branch IsWatched done (is_empty advance) (pure true) _ (λ t h. h)
        (tried-Preserves (IsLater IsWatched) {C = Bool} (scheduled (advance_tokens advance))
          (λ _. pure true) _
          (scheduled-Later IsWatched done (advance_tokens advance)
            (Steady-Agrees (advance_tokens advance) (λ s. advance_tokens-Steady s advance)))
          (λ _ t h. h)
          (λ e t h.
            bind IsWatched done {C = Bool} (fail_rows (rows_of t.decoding) e) (λ _. pure false)
              (fail_rows-Later IsWatched done (rows_of t.decoding) e) (λ _ v l. l) _
              (record { table = h.table; kept = h.kept; fresh = h.fresh })))

  finish_row-Later : (row : ActiveRow × Text) → Later IsWatched done (finish_row row)
  unfolding finish_row
  finish_row-Later (row, reason) t =
      branch IsWatched done (is_none (lookup string_dec row.request_id t.decoding)) (pure tt) _
        (λ u k. k)
        (bind IsWatched done {C = Unit {0}} (drop_decoding row.request_id) _
          (drop_decoding-Later row.request_id)
          λ _.
            branch IsWatched done (is_persistent row.job) (finish_state_row row reason) _
              (finish_state_row-Later IsWatched done row reason)
              (finish_ephemeral-Later IsWatched done row
                (generated row.output_text reason row.output_ids)))
        t

  pub decode_tick-Later : Later IsWatched done decode_tick
  unfolding decode_tick
  decode_tick-Later t =
      let ids = keys_of t.decoding in
      tried-Preserves (IsLater IsWatched) {C = Unit {0}} (scheduled (sample_next ids)) _ _
        (scheduled-Later IsWatched done (sample_next ids)
          (Steady-Agrees (sample_next ids) (λ s. sample_next-Steady s ids)))
        (λ sampled.
          bind IsWatched done {C = Unit {0}}
            (tick_each sampled ids (record { advance = []; finished = [] })) _
            (tick_each-Later sampled ids _)
            λ tick.
              bind IsWatched done {C = Unit {0}} (advance_rows ids tick.advance) _
                (advance_rows-Later ids tick.advance)
                λ goes_on.
                  branch IsWatched done goes_on (for_each tick.finished finish_row) (pure tt)
                    (for_each-Preserves (IsLater IsWatched) tick.finished finish_row
                      finish_row-Later)
                    (λ u k. k))
        (λ e u k.
          fail_rows-Later IsWatched done (rows_of t.decoding) e _
            (record { table = k.table; kept = k.kept; fresh = k.fresh }))
        t
