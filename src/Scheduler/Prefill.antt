-- ===== src/Scheduler/Prefill.antt =====
-- src/rwkv7_scheduler/scheduler.py: prefill in waves of exact-length chunks.
use rwkv_agent.Base.{
  mentions, ℕ, zero, suc, ◌+◌, ◌-◌, ◌%◌, min, String, Bool, false, not, ◌&&◌, List, [], ◌∷◌, ◌++◌,
  map, Option, none, some, ltb, leb, ◌==◌, if◌then◌else◌, string_dec, ℕ_discrete, ite, length,
  is_empty, select, take, drop, Dict, lookup, is_none, M, pure, fail, ◌>>=◌, ◌>>◌, raise_if, read,
  for_each, value_error, out_of_fuel,
}
use rwkv_agent.Backend.{Backend}
use rwkv_agent.Scheduler.Requests.{Scheduler, RequestState, remaining, bump, request, store}
use rwkv_agent.Scheduler.Forward.{requests_of, run_exact_chunk}

-- The fuel of a loop over slices of a list: its length is enough, as a slice has an element.
unfoldable pub batches_from {ℓ} : {A : Type ℓ} → ℕ → ℕ → List A → List (List A)
batches_from zero limit xs = []
batches_from (suc fuel) limit [] = []
batches_from (suc fuel) limit (x ∷ xs) =
    take limit (x ∷ xs) ∷ batches_from fuel limit (drop limit (x ∷ xs))

-- `_batches`: slices of at most `limit` elements, in order.
unfoldable pub batches {ℓ} : {A : Type ℓ} → ℕ → List A → List (List A)
unfolding batches_from
batches limit xs = batches_from (length xs) limit xs

-- `groups[length].append(request)`
unfoldable pub append_to : ℕ → String → Dict ℕ (List String) → Dict ℕ (List String)
append_to n id [] = (n, id ∷ []) ∷ []
append_to n id ((m, ids) ∷ groups) =
    ite (ℕ_discrete m n) ((m, ids ++ id ∷ []) ∷ groups) ((m, ids) ∷ append_to n id groups)

-- `sorted(groups, reverse=True)`, with the groups: keys are distinct.
unfoldable pub insert_group : ℕ × List String → Dict ℕ (List String) → Dict ℕ (List String)
insert_group g [] = g ∷ []
insert_group (n, ids) ((m, js) ∷ groups) =
    if ltb m n then (n, ids) ∷ (m, js) ∷ groups else (m, js) ∷ insert_group (n, ids) groups

unfoldable pub longest_first : Dict ℕ (List String) → Dict ℕ (List String)
longest_first [] = []
longest_first (g ∷ groups) = insert_group g (longest_first groups)

-- At most up to the next multiple of the chunk size that the request has seen.
unfoldable pub chunk_length : ℕ → ℕ → ℕ → ℕ
chunk_length quantum seen left =
    min left (if seen % quantum == 0 then quantum else quantum - seen % quantum)

module _ ⦃B : Backend⦄ where
  unfoldable pub selected_from : List String → List String → M Scheduler (List String)
  selected_from seen [] = pure []
  selected_from seen (id ∷ ids) = do
    raise_if (mentions id seen) value_error
    request id >>= λ _. pure tt
    rest ← selected_from (id ∷ seen) ids
    pure (id ∷ rest)

  -- `_selected`: the keys asked for, each known and named once, or all of them.
  unfoldable pub selected : Option (List String) → M Scheduler (List String)
  selected none = do s ← read; pure (map (λ e. e.0) s.requests)
  selected (some ids) = selected_from [] ids

  abbrev pub is_active : RequestState → Bool
  is_active r = not r.cancelled && ltb 0 (remaining r)

  abbrev pub active_in : Scheduler → String → Bool
  active_in s id = elim (lookup string_dec id s.requests) [ none ↦ false | some r ↦ is_active r ]

  unfoldable pub active_prefill : List String → M Scheduler (List String)
  active_prefill ids = do s ← read; pure (select (active_in s) ids)

  unfoldable pub next_prefill_length : RequestState → M Scheduler ℕ
  next_prefill_length r = do
    raise_if (leb (remaining r) 0) value_error
    s ← read
    pure (chunk_length s.config.prefill_chunk_size r.seen_tokens (remaining r))

  unfoldable pub group_by_length :
      List String → Dict ℕ (List String) → M Scheduler (Dict ℕ (List String))
  group_by_length [] groups = pure groups
  group_by_length (id ∷ ids) groups = do
    r ← request id
    n ← next_prefill_length r
    group_by_length ids (append_to n id groups)

  unfoldable pub run_prefill_wave : List String → M Scheduler (Unit {0})
  run_prefill_wave ids = do
    groups ← group_by_length ids []
    s ← read
    for_each (longest_first groups) λ (g : ℕ × List String).
        for_each (batches s.config.max_batch_size g.1) (λ batch. run_exact_chunk batch g.0)

  abbrev pub completed : Scheduler → RequestState → RequestState
  completed s r =
      if (remaining r == 0) && is_none r.completed_at
      then record r { completed_at = some s.clock }
      else r

  unfoldable pub mark_prefill_complete : List String → M Scheduler (Unit {0})
  mark_prefill_complete ids = for_each ids λ id. do r ← request id; s ← read; store (completed s r)

  abbrev pub with_logits : List RequestState → List (String × B.Logits)
  with_logits [] = []
  with_logits (r ∷ rs) = elim r.logits [
    | none ↦ with_logits rs
    | some l ↦ (r.request_id, l) ∷ with_logits rs
  ]

  unfoldable pub available_logits : List String → M Scheduler (List (String × B.Logits))
  available_logits ids = do rs ← requests_of ids; pure (with_logits rs)

  -- `while active := …`
  unfoldable pub prefill_loop : ℕ → List String → M Scheduler (Unit {0})
  prefill_loop zero ids = fail out_of_fuel
  prefill_loop (suc fuel) ids = do
    active ← active_prefill ids
    if is_empty active then pure tt else do run_prefill_wave active; prefill_loop fuel ids

  -- Every wave takes a token from each active request.
  unfoldable pub work : Scheduler → List String → ℕ
  work s [] = 0
  work s (id ∷ ids) =
      (elim (lookup string_dec id s.requests) [ none ↦ 0 | some r ↦ remaining r ]) + work s ids

  unfoldable pub prefill : Option (List String) → M Scheduler (List (String × B.Logits))
  prefill request_ids = do
    ids ← selected request_ids
    if is_empty ids then pure [] else do
      s ← read
      prefill_loop (suc (work s ids)) ids
      mark_prefill_complete ids
      available_logits ids

  unfoldable pub prefill_round : Option (List String) → M Scheduler (List (String × B.Logits))
  prefill_round request_ids = do
    ids ← selected request_ids
    active ← active_prefill ids
    if is_empty active then available_logits ids else do
      run_prefill_wave active
      mark_prefill_complete ids
      bump "prefill_rounds" 1
      available_logits ids
