-- ===== src/Runtime/Creation.antt =====
-- src/rwkv_agent/state_runtime.py, prefill_many: independently owned states, made by one prefill.
use rwkv_agent.Base.{
  ℕ, String, List, [], ◌∷◌, ◌++◌, map, none, some, length, is_empty, ℤ, M, pure, ◌>>=◌, ◌>>◌,
  raise_if, on_error, ignore_key_error, read, for_each, value_error,
}
use rwkv_agent.Backend.{Backend}
use rwkv_agent.Scheduler.Requests
use rwkv_agent.Scheduler.Prefill
use rwkv_agent.Registry.{PersistentState, clean_owner, ensure_capacity, add}
use rwkv_agent.Runtime.Defs.{
  Runtime, Description, on_registry, scheduled, bump, new_state_id, encode, cleanup, describe,
  new_record, truncate, or_default,
}

-- One entry of `items`, as it comes.
pub record PrefillItem : Type 0 where
  pub owner_id : String
  pub prompt : String
  pub branch : String

-- One entry of `normalized`.
pub record Prompt : Type 0 where
  pub owner : String
  pub tokens : List ℤ
  pub label : String

module _ ⦃B : Backend⦄ where
  unfoldable pub normalize : List PrefillItem → M Runtime (List Prompt)
  normalize [] = pure []
  normalize (item ∷ items) = do
    owner ← on_registry (clean_owner item.owner_id)
    tokens ← encode item.prompt
    rest ← normalize items
    pure (
        record {
          owner = owner;
          tokens = tokens;
          label = truncate 80 (or_default item.branch "root");
        }
        ∷ rest)

  -- `zip(state_ids, normalized)`
  unfoldable pub identify : List Prompt → M Runtime (List (String × Prompt))
  identify [] = pure []
  identify (p ∷ prompts) = do id ← new_state_id; rest ← identify prompts; pure ((id, p) ∷ rest)

  -- The `except` clause: what was admitted is released.
  unfoldable pub undo_admitted : List String → M Runtime (Unit {0})
  undo_admitted admitted = do
    for_each admitted (λ id. ignore_key_error (scheduled (Requests.release id)))
    bump "failed" 1

  unfoldable pub admit_prompts : List String → List (String × Prompt) → M Runtime (List String)
  admit_prompts admitted [] = pure admitted
  admit_prompts admitted ((id, p) ∷ rows) = do
    on_error (scheduled (Requests.admit id p.tokens) >>= λ _. pure tt) (undo_admitted admitted)
    admit_prompts (admitted ++ id ∷ []) rows

  abbrev pub record_of : ℕ → String × Prompt → PersistentState
  record_of now (id, p) = new_record id p.owner none p.label now

  unfoldable pub describe_each : List PersistentState → M Runtime (List Description)
  describe_each [] = pure []
  describe_each (r ∷ rs) = do
    q ← scheduled (Requests.request r.state_id)
    rest ← describe_each rs
    pure (describe r q.seen_tokens ∷ rest)

  unfoldable pub prefill_many : List PrefillItem → M Runtime (List Description)
  prefill_many items = do
    raise_if (is_empty items) value_error
    prompts ← normalize items
    cleanup >>= λ _. pure tt
    on_registry (ensure_capacity (length prompts))
    rows ← identify prompts
    admitted ← admit_prompts [] rows
    on_error (scheduled (Prefill.prefill (some (map (λ row. row.0) rows))) >>= λ _. pure tt)
        (undo_admitted admitted)
    s ← read
    let records = map (record_of s.registry.now) rows
    for_each records (λ r. on_registry (add r))
    bump "created" (length records)
    bump "batch_prefill_calls" 1
    bump "batch_prefill_states" (length records)
    describe_each records
