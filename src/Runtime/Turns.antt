-- ===== src/Runtime/Turns.antt =====
-- src/rwkv_agent/state_runtime.py: classification and continuation of persistent states. The decode
-- of a continuation runs outside the lock, between the step that marks the states busy and the step
-- that clears the marks.
use rwkv_agent.Base.{
  ℕ, zero, suc, ◌+◌, String, Bool, true, false, not, ◌||◌, List, [], ◌∷◌, ◌++◌, map, Option, none,
  some, ltb, leb, if◌then◌else◌, string_dec, length, is_empty, any, select, Dict, is_unique,
  mentions, ℤ, is_negative, M, Outcome, ok, raise, pure, fail, ◌>>=◌, ◌>>◌, raise_if, on_error,
  read, modify, or_fail, value_error, runtime_error, key_error, out_of_fuel,
}
use rwkv_agent.Backend.{Backend}
use rwkv_agent.Decoding.{Text, append_greedy_token, decode_text_stops, is_empty_text}
use rwkv_agent.Scheduler.Requests.{Scheduler, RequestState}
use rwkv_agent.Scheduler.Requests
use rwkv_agent.Scheduler.Continuations
use rwkv_agent.Scheduler.Decode.{sample_next, advance_tokens, token_of}
use rwkv_agent.Registry.{PersistentState, clean_owner, require}
use rwkv_agent.Runtime.Defs.{
  Runtime, on_registry, scheduled, bump, encode, cleanup, ensure_available, touch_all,
}

-- One entry of the `items` of a batch.
pub record TurnItem : Type 0 where
  pub state_id : String
  pub input : String

pub record StateResult : Type 0 where
  pub state_id : String
  pub branch : String
  pub text : Text
  pub token_ids : List ℤ
  pub stop_reason : Text
  pub seen_tokens : ℕ

-- The variables of `_decode_locked` for one state.
pub record DecodeRow : Type 0 where
  pub state_id : String
  pub output_ids : List ℤ
  pub output_text : Text
  pub stop_reason : Text
  pub is_finished : Bool

-- "</s>" and "max_tokens"
abbrev pub end_of_sequence : Text
end_of_sequence = b'<' ∷ b'/' ∷ b's' ∷ b'>' ∷ []

abbrev pub max_tokens_reached : Text
max_tokens_reached = b'm' ∷ b'a' ∷ b'x' ∷ b'_' ∷ b't' ∷ b'o' ∷ b'k' ∷ b'e' ∷ b'n' ∷ b's' ∷ []

-- The first `for` of a round: append the sampled token, or finish at the end of the sequence. The
-- second part of the pair is the token to commit.
unfoldable pub take_token : ℤ → ℕ → Dict String ℤ → DecodeRow → DecodeRow × Option ℤ
take_token eos max_tokens sampled row =
    let (status, output_ids) =
      append_greedy_token row.output_ids (token_of sampled row.state_id) eos max_tokens in
    if status.eos
    then (record row { stop_reason = end_of_sequence; is_finished = true }, none)
    else (record row { output_ids = output_ids }, some status.token)

-- The second `for` of a round: the text, the earliest stop, the token budget.
unfoldable pub check_stop : (List ℤ → Text) → List Text → ℕ → DecodeRow → DecodeRow
check_stop decode stops max_tokens row =
    let decoded = decode_text_stops decode row.output_ids row.output_text stops in
    if row.is_finished
    then row
    else if not (is_empty_text decoded.stop_reason)
    then record row {
      output_text = decoded.text;
      stop_reason = decoded.stop_reason;
      is_finished = true;
    }
    else if leb max_tokens (length row.output_ids)
    then record row {
      output_text = decoded.text;
      stop_reason = max_tokens_reached;
      is_finished = true;
    }
    else record row { output_text = decoded.text }

abbrev pub still_active : List DecodeRow → List DecodeRow
still_active = select (λ row. not row.is_finished)

abbrev pub advance_of : List (DecodeRow × Option ℤ) → Dict String ℤ
advance_of [] = []
advance_of ((row, none) ∷ rows) = advance_of rows
advance_of ((row, some token) ∷ rows) = (row.state_id, token) ∷ advance_of rows

module _ ⦃B : Backend⦄ where
  -- The `items` loop that both methods share: each state is the owner's, and its new tokens fit.
  unfoldable pub collect_turns :
      String → ℕ → List TurnItem → M Runtime (List (PersistentState × List ℤ))
  collect_turns owner extra [] = pure []
  collect_turns owner extra (item ∷ items) = do
    r ← on_registry (require item.state_id owner)
    tokens ← encode item.input
    q ← scheduled (Requests.request r.state_id)
    s ← read
    raise_if (ltb s.context_limit (q.seen_tokens + length tokens + extra)) value_error
    rest ← collect_turns owner extra items
    pure ((r, tokens) ∷ rest)

  abbrev pub continuations_of : List (PersistentState × List ℤ) → List (String × List ℤ)
  continuations_of = map (λ t. (t.0.state_id, t.1))

  abbrev pub ids_of : List (PersistentState × List ℤ) → List String
  ids_of = map (λ t. t.0.state_id)

  -- `finite_label_scores`
  unfoldable pub label_scores :
      {S : Type 0} → B.Logits → List (String × ℤ) → M S (List (String × B.Score))
  label_scores logits labels = do
    let scores = map (λ label. (label.0, B.item logits label.1)) labels
    raise_if (any (λ e. not (B.is_finite e.1)) scores) runtime_error
    pure scores

  unfoldable pub score_each :
      List (String × ℤ)
      → List PersistentState
      → M Runtime (List (String × List (String × B.Score) × ℕ))
  score_each labels [] = pure []
  score_each labels (r ∷ rs) = do
    q ← scheduled (Requests.request r.state_id)
    logits ← or_fail q.logits runtime_error
    scores ← label_scores logits labels
    rest ← score_each labels rs
    pure ((r.state_id, scores, q.seen_tokens) ∷ rest)

  -- The labels are the items of a dict, so that their names are distinct.
  unfoldable pub classify_many :
      String
      → List TurnItem
      → List (String × ℤ)
      → M Runtime (List (String × List (String × B.Score) × ℕ))
  classify_many owner_id items labels = do
    owner ← on_registry (clean_owner owner_id)
    raise_if (is_empty items) value_error
    raise_if (ltb (length labels) 2 || any (λ e. is_negative e.1) labels) value_error
    cleanup >>= λ _. pure tt
    turns ← collect_turns owner 0 items
    raise_if (not (is_unique (ids_of turns))) value_error
    let records = map (λ t. t.0) turns
    ensure_available records
    output ←
        on_error
          (do
            scheduled (Continuations.continue_many (continuations_of turns)) >>= λ _. pure tt
            score_each labels records)
          (bump "failed" 1)
    touch_all records
    bump "classified" (length records)
    pure output

  -- Under the lock: the checks, and the marks.
  unfoldable pub begin_turns :
      String → List TurnItem → ℕ → M Runtime (List (PersistentState × List ℤ))
  begin_turns owner_id items max_tokens = do
    owner ← on_registry (clean_owner owner_id)
    raise_if (is_empty items) value_error
    raise_if (ltb max_tokens 1 || ltb 4096 max_tokens) value_error
    cleanup >>= λ _. pure tt
    turns ← collect_turns owner max_tokens items
    raise_if (not (is_unique (ids_of turns))) value_error
    ensure_available (map (λ t. t.0) turns)
    modify (λ s. record s { busy = ids_of turns ++ s.busy })
    pure turns

  -- The loop of `_decode_locked`; a round leaves each active row with one more token or finished.
  unfoldable pub decode_rounds :
      ℕ → List Text → ℕ → List DecodeRow → List DecodeRow → M Runtime (List DecodeRow)
  decode_rounds zero stops max_tokens active done = fail out_of_fuel
  decode_rounds (suc fuel) stops max_tokens active done = if is_empty active then pure done else do
    s ← read
    sampled ← scheduled (sample_next (map (λ row. row.state_id) active))
    let taken = map (take_token s.eos_token_id max_tokens sampled) active
    scheduled (advance_tokens (advance_of taken))
    let rows = map (λ t. check_stop s.tokenizer.decode stops max_tokens t.0) taken
    decode_rounds fuel stops max_tokens (still_active rows)
        (select (λ row. row.is_finished) rows ++ done)

  abbrev pub new_row : PersistentState → DecodeRow
  new_row r = record {
    state_id = r.state_id;
    output_ids = [];
    output_text = [];
    stop_reason = [];
    is_finished = false;
  }

  abbrev pub row_of : String → List DecodeRow → Option DecodeRow
  row_of id [] = none
  row_of id (row ∷ rows) = elim (string_dec row.state_id id) [
    | yes _ ↦ some row
    | no _ ↦ row_of id rows
  ]

  unfoldable pub results_of : List DecodeRow → List PersistentState → M Runtime (List StateResult)
  results_of rows [] = pure []
  results_of rows (r ∷ rs) = do
    q ← scheduled (Requests.request r.state_id)
    row ← or_fail (row_of r.state_id rows) key_error
    rest ← results_of rows rs
    pure (
        record {
          state_id = r.state_id;
          branch = r.branch;
          text = row.output_text;
          token_ids = row.output_ids;
          stop_reason = row.stop_reason;
          seen_tokens = q.seen_tokens;
        }
        ∷ rest)

  unfoldable pub decode_locked : List PersistentState → List Text → ℕ → M Runtime (List StateResult)
  decode_locked records stops max_tokens = do
    rows ← decode_rounds (suc max_tokens) stops max_tokens (map new_row records) []
    results_of rows records

  -- `difference_update`
  abbrev pub unmark : List String → List String → List String
  unmark ids busy = select (λ id. not (mentions id ids)) busy

  -- Under the lock again: the `finally` clause.
  unfoldable pub finish_turns :
      {A : Type 0} → List (PersistentState × List ℤ) → Outcome Runtime A → Outcome Runtime A
  finish_turns turns (ok a s) =
      (do
        modify (λ s. record s { busy = unmark (ids_of turns) s.busy })
        touch_all (map (λ t. t.0) turns)
        bump "continued" (length turns)
        pure a)
        s
  finish_turns turns (raise e s) =
      (do bump "failed" 1; modify (λ s. record s { busy = unmark (ids_of turns) s.busy }); fail e) s

  -- `engine` is `decode_engine.continue_many`; without it the runtime decodes by itself.
  unfoldable pub run_turns :
      Option (List (PersistentState × List ℤ) → List Text → ℕ → M Scheduler (List StateResult))
      → List (PersistentState × List ℤ)
      → List Text
      → ℕ
      → M Runtime (List StateResult)
  run_turns (some engine) turns stops max_tokens = scheduled (engine turns stops max_tokens)
  run_turns none turns stops max_tokens = do
    scheduled (Continuations.continue_many (continuations_of turns)) >>= λ _. pure tt
    decode_locked (map (λ t. t.0) turns) stops max_tokens

  unfoldable pub continue_many :
      Option (List (PersistentState × List ℤ) → List Text → ℕ → M Scheduler (List StateResult))
      → String
      → List TurnItem
      → List Text
      → ℕ
      → M Runtime (List StateResult)
  continue_many engine owner_id items stops max_tokens = do
    turns ← begin_turns owner_id items max_tokens
    λ s.
        finish_turns turns
          (run_turns engine turns (select (λ stop. not (is_empty_text stop)) stops) max_tokens s)
