-- ===== src/Batching/Ticks.antt =====
-- src/rwkv_agent/batching.py: a round of prefill and a round of decode.
use rwkv_agent.Base.{
  ◌==◌, String, Bool, true, false, not, ◌&&◌, ◌||◌, List, [], ◌∷◌, ◌++◌, map, none, some,
  if◌then◌else◌, string_dec, same, length, is_empty, select, Dict, lookup, insert, remove, ℤ, M,
  pure, ◌>>=◌, ◌>>◌, read, modify, for_each, or_fail, attempt, inl, inr, key_error, is_none,
}
use rwkv_agent.Backend.{Backend}
use rwkv_agent.Decoding.{
  Text, append_greedy_token, decode_text_stops, is_empty_text, is_prefix, DecodedTextStatus,
  GreedyTokenStatus,
}
use rwkv_agent.Scheduler.Requests
use rwkv_agent.Scheduler.Requests.{remaining}
use rwkv_agent.Scheduler.Prefill
use rwkv_agent.Scheduler.Decode.{sample_next, advance_tokens}
use rwkv_agent.Runtime.Turns.{end_of_sequence, max_tokens_reached}
use rwkv_agent.Batching.Jobs.{
  ActiveRow, Engine, generated, is_persistent, is_classification, scheduled, bump,
}
use rwkv_agent.Batching.Endings.{
  fail_rows, cancel_row, finish_ephemeral, finish_classification, finish_state_row,
}
use rwkv_agent.Batching.Admission.{is_cancelled}

abbrev pub rows_of : Dict String ActiveRow → List ActiveRow
rows_of = map (λ e. e.1)

abbrev pub keys_of : Dict String ActiveRow → List String
keys_of = map (λ e. e.0)

-- `s[n:]`
abbrev pub text_after : Text → Text → Text
text_after [] s = s
text_after (c ∷ p) [] = []
text_after (c ∷ p) (d ∷ s) = text_after p s

unfoldable pub same_text : Text → Text → Bool
same_text [] [] = true
same_text (c ∷ s) (d ∷ t) = (c == d) && same_text s t
same_text _ _ = false

-- The variables of `_decode_tick`.
pub record Tick : Type 0 where
  pub advance : Dict String ℤ
  pub finished : List (ActiveRow × Text)

module _ ⦃B : Backend⦄ where
  unfoldable pub drop_prefilling : String → M Engine (Unit {0})
  drop_prefilling id = modify (λ s. record s { prefilling = remove string_dec id s.prefilling })

  unfoldable pub put_decoding : ActiveRow → M Engine (Unit {0})
  put_decoding row =
      modify (λ s. record s { decoding = insert string_dec row.request_id row s.decoding })

  unfoldable pub drop_decoding : String → M Engine (Unit {0})
  drop_decoding id = modify (λ s. record s { decoding = remove string_dec id s.decoding })

  -- One row after a round of prefill.
  unfoldable pub settle_row : String → M Engine (Unit {0})
  settle_row id = do
    s ← read
    row ← or_fail (lookup string_dec id s.prefilling) key_error
    if is_cancelled s row.job && not (is_persistent row.job)
        then (drop_prefilling id >> cancel_row row)
        else do
          q ← scheduled (Requests.request id)
          if not (remaining q == 0) then pure tt else do
            drop_prefilling id
            if is_classification row.job
                then (attempt (finish_classification row) >>= λ done. elim done [
                  | inl _ ↦ pure tt
                  | inr e ↦ fail_rows (row ∷ []) e
                ])
                else put_decoding row

  -- The prefill part of an iteration, and whether the decode part follows.
  unfoldable pub prefill_tick : M Engine Bool
  prefill_tick = do
    s ← read
    let ids = keys_of s.prefilling
    if is_empty ids then pure true else do
      done ← attempt (scheduled (Prefill.prefill_round (some ids)))
      elim done [
        | inr e ↦ do
          modify (λ s. record s { prefilling = [] })
          fail_rows (rows_of s.prefilling) e
          pure false
        | inl _ ↦ do for_each ids settle_row; pure true
      ]

  unfoldable pub emit : ActiveRow → Text → M Engine (Unit {0})
  emit row previous = elim row.job.event_sink [
    | none ↦ pure tt
    | some raises ↦ if same_text row.output_text previous then pure tt else do
      let grows = is_prefix previous row.output_text
      modify (λ s. record s {
        events =
            s.events
            ++ record {
              state_id = row.request_id;
              text = row.output_text;
              delta = if grows then text_after previous row.output_text else row.output_text;
              replace = not grows;
              output_tokens = length row.output_ids;
            }
              ∷ [];
      })
      if raises then bump "stream_sink_errors" 1 else pure tt
  ]

  -- `decoded.stop_reason or ("max_tokens" if status.budget_reached else "")`
  abbrev pub reason_of : DecodedTextStatus → GreedyTokenStatus → Text
  reason_of decoded status =
      if not (is_empty_text decoded.stop_reason)
      then decoded.stop_reason
      else if status.budget_reached
      then max_tokens_reached
      else []

  abbrev pub noted : ActiveRow → ℤ → Text → Tick → Tick
  noted row token reason t = record {
    advance =
        if is_persistent row.job || is_empty_text reason
        then insert string_dec row.request_id token t.advance
        else t.advance;
    finished = if is_empty_text reason then t.finished else t.finished ++ (row, reason) ∷ [];
  }

  -- `row` has the sampled token appended.
  unfoldable pub stop_row : ActiveRow → GreedyTokenStatus → Tick → M Engine Tick
  stop_row row status t = do
    put_decoding row
    s ← read
    elim (s.decode row.output_ids) [
      | inl e ↦ do
        let affected = select (λ other. same other.job.job_id row.job.job_id) (rows_of s.decoding)
        for_each affected (λ other. drop_decoding other.request_id)
        fail_rows affected e
        pure t
      | inr text ↦ do
        let decoded = decode_text_stops (λ _. text) row.output_ids row.output_text row.job.stops
        let row' = record row { output_text = decoded.text }
        put_decoding row'
        emit row' row.output_text
        pure (noted row' status.token (reason_of decoded status) t)
    ]

  -- One row of the first loop of `_decode_tick`.
  unfoldable pub tick_row : Dict String ℤ → String → Tick → M Engine Tick
  tick_row sampled id t = do
    s ← read
    elim (lookup string_dec id s.decoding) [
      | none ↦ pure t
      | some row ↦
          if is_cancelled s row.job && not (is_persistent row.job)
          then (drop_decoding id >> cancel_row row >> pure t)
          else do
            token ← or_fail (lookup string_dec id sampled) key_error
            let (status, output_ids) =
                append_greedy_token row.output_ids token s.eos_token_id row.job.max_tokens
            if status.eos
                then pure (record t { finished = t.finished ++ (row, end_of_sequence) ∷ [] })
                else stop_row (record row { output_ids = output_ids }) status t
    ]

  unfoldable pub tick_each : Dict String ℤ → List String → Tick → M Engine Tick
  tick_each sampled [] t = pure t
  tick_each sampled (id ∷ ids) t = do t' ← tick_row sampled id t; tick_each sampled ids t'

  -- `advance_tokens`, if there are any, and whether it succeeded.
  unfoldable pub advance_rows : List String → Dict String ℤ → M Engine Bool
  advance_rows ids advance = if is_empty advance then pure true else do
    done ← attempt (scheduled (advance_tokens advance))
    elim done [
      | inl _ ↦ pure true
      | inr e ↦ do
        s ← read
        modify (λ s. record s { decoding = [] })
        fail_rows (rows_of s.decoding) e
        pure false
    ]

  -- One row of the last loop of `_decode_tick`.
  unfoldable pub finish_row : ActiveRow × Text → M Engine (Unit {0})
  finish_row (row, reason) = do
    s ← read
    if is_none (lookup string_dec row.request_id s.decoding) then pure tt else do
      drop_decoding row.request_id
      if is_persistent row.job
          then finish_state_row row reason
          else finish_ephemeral row (generated row.output_text reason row.output_ids)

  unfoldable pub decode_tick : M Engine (Unit {0})
  decode_tick = do
    s ← read
    let ids = keys_of s.decoding
    done ← attempt (scheduled (sample_next ids))
    elim done [
      | inr e ↦ do modify (λ s. record s { decoding = [] }); fail_rows (rows_of s.decoding) e
      | inl sampled ↦ do
        t ← tick_each sampled ids (record { advance = []; finished = [] })
        goes_on ← advance_rows ids t.advance
        if goes_on then for_each t.finished finish_row else pure tt
    ]
