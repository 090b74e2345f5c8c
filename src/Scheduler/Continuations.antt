-- ===== src/Scheduler/Continuations.antt =====
-- src/rwkv7_scheduler/scheduler.py: further tokens for a request whose prefill has finished.
use rwkv_agent.Base.{
  ◌+◌, String, not, List, [], ◌∷◌, map, none, some, ltb, if◌then◌else◌, length, is_empty, any,
  strip, is_unique, is_blank, ℤ, is_negative, M, pure, ◌>>=◌, ◌>>◌, raise_if, read, for_each,
  or_fail, value_error, runtime_error, assertion_error,
}
use rwkv_agent.Backend.{Backend}
use rwkv_agent.Scheduler.Requests.{Scheduler, RequestState, remaining, bump, request, store}
use rwkv_agent.Scheduler.Prefill.{selected, prefill}

module _ ⦃B : Backend⦄ where
  abbrev pub installed : List ℤ → RequestState → RequestState
  installed values r = record r { token_ids = values; offset = 0; completed_at = none }

  unfoldable pub continue_tokens : String → List ℤ → M Scheduler B.Logits
  continue_tokens request_id values = do
    raise_if (is_empty values) value_error
    r ← request request_id
    raise_if r.cancelled runtime_error
    raise_if (ltb 0 (remaining r)) runtime_error
    s ← read
    raise_if (ltb s.config.max_input_tokens (r.seen_tokens + length values)) value_error
    store (installed values r)
    prefill (some (request_id ∷ [])) >>= λ _. pure tt
    r' ← request request_id
    logits ← or_fail r'.logits assertion_error
    bump "continuations" 1
    pure logits

  abbrev stripped_rows : List (String × List ℤ) → List (String × List ℤ)
  stripped_rows = map (λ row. (strip row.0, row.1))

  abbrev pub ids_of : List (String × List ℤ) → List String
  ids_of = map (λ row. row.0)

  -- The checks that `install_continuations` makes of one request before it changes any.
  unfoldable pub check_row : String × List ℤ → M Scheduler (Unit {0})
  check_row (id, values) = do
    r ← request id
    raise_if r.cancelled runtime_error
    raise_if (ltb 0 (remaining r)) runtime_error
    s ← read
    raise_if (ltb s.config.max_input_tokens (r.seen_tokens + length values)) value_error

  unfoldable pub install_row : String × List ℤ → M Scheduler (Unit {0})
  install_row (id, values) = do r ← request id; store (installed values r)

  -- The keys are distinct, so `dict(normalized)` gives each request the tokens of its row.
  unfoldable pub install_continuations : List (String × List ℤ) → M Scheduler (List String)
  install_continuations rows = do
    let normalized = stripped_rows rows
    let request_ids = ids_of normalized
    if is_empty normalized then pure [] else do
      raise_if (any is_blank request_ids) value_error
      raise_if (not (is_unique request_ids)) value_error
      raise_if (any (λ row. is_empty row.1) normalized) value_error
      raise_if (any (λ row. any is_negative row.1) normalized) value_error
      selected (some request_ids) >>= λ _. pure tt
      for_each normalized check_row
      for_each normalized install_row
      bump "continuation_batches" 1
      bump "continuations" (length request_ids)
      pure request_ids

  unfoldable pub continue_many : List (String × List ℤ) → M Scheduler (List (String × B.Logits))
  continue_many rows = do
    request_ids ← install_continuations rows
    if is_empty request_ids then pure [] else prefill (some request_ids)
