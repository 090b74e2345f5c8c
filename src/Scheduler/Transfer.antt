-- ===== src/Scheduler/Transfer.antt =====
-- src/rwkv7_scheduler/scheduler.py: `export_state` and `import_state`. The name of a tensor, a formatted
-- text in the source, is kept as its parts.
use rwkv_agent.Base.{
  ℕ, suc, ◌==◌, String, Bool, true, false, not, ◌&&◌, ◌||◌, List, [], ◌∷◌, ◌++◌, map, Option, none,
  some, ltb, leb, length, any, is_none, is_blank, strip, has, string_dec, same, ℤ, pos, negsuc,
  if◌then◌else◌, M, pure, ◌>>=◌, ◌>>◌, raise_if, or_fail, read, on_error, value_error, key_error,
  runtime_error,
}
use rwkv_agent.Backend.{Backend}
use rwkv_agent.StatePool
use rwkv_agent.StatePool.{StateHandle}
use rwkv_agent.Scheduler.Requests.{
  Scheduler, RequestState, on_pool, bump, request, store, remaining,
}

-- `"logits"`, `f"state.{i}"`, `f"state.{g}.{i}"`, and any other text.
pub data TensorName : Type 0 where
  logits_name : TensorName
  item_name : ℕ → TensorName
  group_name : ℕ → ℕ → TensorName
  other_name : String → TensorName

unfoldable pub same_name : TensorName → TensorName → Bool
same_name logits_name logits_name = true
same_name (item_name i) (item_name j) = i == j
same_name (group_name g i) (group_name h j) = (g == h) && (i == j)
same_name (other_name a) (other_name b) = same a b
same_name _ _ = false

-- What `manifest.get("group_lengths")` gives: None, a list of numbers or another value.
pub data GroupLengths : Type 0 where
  missing : GroupLengths
  counts : List ℕ → GroupLengths
  other_value : GroupLengths

-- What `manifest.get` gives.
pub record Manifest : Type 0 where
  pub format : String
  pub backend : String
  pub layout : String
  pub group_lengths : GroupLengths
  pub seen_tokens : ℤ

unfoldable pub same_lengths : List ℕ → List ℕ → Bool
same_lengths [] [] = true
same_lengths (m ∷ ms) (n ∷ ns) = (m == n) && same_lengths ms ns
same_lengths _ _ = false

-- What the code takes from PyTorch about the tensors of a row. `groups` are those of a batch with one
-- row, a single group when the layout is stacked.
pub record Transfer ⦃B : Backend⦄ : Type 1 where
  pub Tensor : Type 0
  pub is_pipeline : Bool
  pub groups : B.Row → List (List Tensor)
  pub batch_of : List (List Tensor) → B.Batch
  -- The shapes and the dtypes are equal.
  pub fits : Tensor → Tensor → Bool
  pub of_logits : B.Logits → Tensor
  pub to_logits : Tensor → B.Logits
  -- A vector with the size of the vocabulary, where the model has one.
  pub is_vocabulary : Tensor → Bool

module _ ⦃B : Backend⦄ ⦃F : Transfer⦄ where
  abbrev pub Tensors : Type 0
  Tensors = List (TensorName × F.Tensor)

  unfoldable pub find_tensor : TensorName → Tensors → Option F.Tensor
  find_tensor name [] = none
  find_tensor name ((n, t) ∷ ts) =
      let rest = find_tensor name ts in if same_name name n then some t else rest

  -- The name of an item, which has its group's index under a pipeline only.
  abbrev pub name_at : ℕ → ℕ → TensorName
  name_at g i = if F.is_pipeline then group_name g i else item_name i

  unfoldable pub named_group : ℕ → ℕ → List F.Tensor → Tensors
  named_group g i [] = []
  named_group g i (t ∷ ts) = (name_at g i, t) ∷ named_group g (suc i) ts

  unfoldable pub named_groups : ℕ → List (List F.Tensor) → Tensors
  named_groups g [] = []
  named_groups g (ts ∷ groups) = named_group g 0 ts ++ named_groups (suc g) groups

  abbrev pub lengths_of : List (List F.Tensor) → List ℕ
  lengths_of groups = if F.is_pipeline then map length groups else []

  abbrev pub layout_name : String
  layout_name = if F.is_pipeline then "pipeline" else "stacked"

  unfoldable pub export_state : String → M Scheduler (Manifest × Tensors)
  export_state request_id = do
    r ← request request_id
    raise_if (r.cancelled || ltb 0 (remaining r) || is_none r.logits) runtime_error
    state ← on_pool (StatePool.snapshot r.handle)
    logits ← or_fail r.logits runtime_error
    bump "state_exports" 1
    pure (
      record {
        format = "rwkv-recurrent-state.v1";
        backend = "albatross";
        layout = layout_name;
        group_lengths = counts (lengths_of (F.groups (B.row state 0)));
        seen_tokens = pos r.seen_tokens;
      },
      (logits_name, F.of_logits logits) ∷ named_groups 0 (F.groups (B.row state 0)),
    )

  -- `_validated_snapshot_tensor`
  unfoldable pub validated_tensor : TensorName → Tensors → F.Tensor → M Scheduler F.Tensor
  validated_tensor name tensors target = do
    value ← or_fail (find_tensor name tensors) value_error
    raise_if (not (F.fits value target)) value_error
    pure value

  unfoldable pub incoming_group : Tensors → ℕ → ℕ → List F.Tensor → M Scheduler (List F.Tensor)
  incoming_group tensors g i [] = pure []
  incoming_group tensors g i (target ∷ targets) = do
    value ← validated_tensor (name_at g i) tensors target
    rest ← incoming_group tensors g (suc i) targets
    pure (value ∷ rest)

  unfoldable pub incoming_groups :
      Tensors → ℕ → List (List F.Tensor) → M Scheduler (List (List F.Tensor))
  incoming_groups tensors g [] = pure []
  incoming_groups tensors g (targets ∷ groups) = do
    values ← incoming_group tensors g 0 targets
    rest ← incoming_groups tensors (suc g) groups
    pure (values ∷ rest)

  -- The groups' lengths that the layout wants; when stacked, the list may also be missing.
  unfoldable pub layout_matches : Manifest → List (List F.Tensor) → Bool
  layout_matches m expected = same m.layout layout_name && elim m.group_lengths [
    | missing ↦ not F.is_pipeline
    | counts ns ↦ same_lengths ns (lengths_of expected)
    | other_value ↦ false
  ]

  -- `set(tensors) == expected_names`, whose names are distinct.
  unfoldable pub has_names : Tensors → List (List F.Tensor) → Bool
  has_names tensors expected =
      let wanted = (logits_name ∷ map (λ e. e.0) (named_groups 0 expected)) in
      not (any (λ e. not (any (same_name e.0) wanted)) tensors)
      && not (any (λ n. is_none (find_tensor n tensors)) wanted)

  abbrev pub imported_request : String → StateHandle → ℕ → B.Logits → ℕ → RequestState
  imported_request request_id handle seen_tokens logits now = record {
    request_id = request_id;
    handle = handle;
    token_ids = [];
    offset = 0;
    seen_tokens = seen_tokens;
    logits = some logits;
    output_ids = [];
    admitted_at = now;
    first_service_at = some now;
    completed_at = some now;
    cancelled = false;
  }

  -- The `try` of `import_state`, up to the new request.
  unfoldable pub prepare_import :
      String → StateHandle → Manifest → Tensors → ℕ → M Scheduler RequestState
  prepare_import request_id handle m tensors seen_tokens = do
    state ← on_pool (StatePool.snapshot handle)
    let expected = F.groups (B.row state 0)
    raise_if (not (layout_matches m expected)) value_error
    incoming ← incoming_groups tensors 0 expected
    raise_if (not (has_names tensors expected)) value_error
    logits ← or_fail (find_tensor logits_name tensors) key_error
    raise_if (not (F.is_vocabulary logits)) value_error
    on_pool (StatePool.commit (handle ∷ []) (F.batch_of incoming))
    s ← read
    pure (imported_request request_id handle seen_tokens (F.to_logits logits) s.clock)

  -- `int(manifest.get("seen_tokens", -1))`, unless it is negative.
  abbrev pub count_of : ℤ → Option ℕ
  count_of (pos n) = some n
  count_of (negsuc n) = none

  unfoldable pub import_state : String → Manifest → Tensors → M Scheduler RequestState
  import_state request_id m tensors = do
    let clean_id = strip request_id
    raise_if (is_blank clean_id) value_error
    raise_if (not (same m.format "rwkv-recurrent-state.v1") || not (same m.backend "albatross"))
        value_error
    seen_tokens ← or_fail (count_of m.seen_tokens) value_error
    s ← read
    raise_if (ltb s.config.max_input_tokens seen_tokens) value_error
    raise_if (has string_dec clean_id s.requests) value_error
    raise_if (leb s.config.max_queue_size (length s.requests)) runtime_error
    handle ← on_pool (StatePool.allocate clean_id)
    r ←
        on_error (prepare_import clean_id handle m tensors seen_tokens)
          (on_pool (StatePool.release handle))
    store r
    bump "state_imports" 1
    pure r
