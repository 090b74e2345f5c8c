-- ===== src/Scheduler/Portable.antt =====
-- src/rwkv7_scheduler/scheduler.py: an exported state that is imported is the state it was.
use rwkv_agent.Base.{
  ℕ, ◌≤◌, ◌≡◌, refl, ap, ◌∙◌, String, true, false, not, List, [], ◌∷◌, some, Dict, insert,
  ℕ_discrete, M, ok, Outcome, ◌>>=◌, arith, value_error, key_error, passes, finds, returns,
}
use rwkv_agent.Backend.{Backend}
use rwkv_agent.StatePool
use rwkv_agent.StatePool.{StatePool, StateHandle, gather, commit, allocate, slots}
use rwkv_agent.StatePool.Invariant.{IsValid}
use rwkv_agent.StatePool.Handles.{is_live}
use rwkv_agent.StatePool.Batches.{IsBatch, validate_unique-ok, workspace-cases}
use rwkv_agent.StatePool.Clone.{slot_inside}
use rwkv_agent.Scheduler.Requests.{Scheduler, on_pool}
use rwkv_agent.Scheduler.Transfer.{
  Transfer, Manifest, counts, prepare_import, layout_matches, lengths_of, layout_name, has_names,
  imported_request, find_tensor, logits_name, same_name, incoming_groups,
}
use rwkv_agent.Scheduler.Names.{GroupsFit, exported, exported-FoundGroups, incoming_groups-found}
use rwkv_agent.Scheduler.Listed.{exported-names, lengths_of-same}

-- What PyTorch and the model promise: a row is what its tensors make, and all rows have tensors of the
-- same shapes; the logits come back from their tensor, and have the size of the vocabulary.
pub record IsExact ⦃B : Backend⦄ (F : Transfer) : Type 0 where
  pub size-batch_of : (gs : List (List F.Tensor)) → B.size (F.batch_of gs) ≡ 1
  pub row-batch_of : (r : B.Row) → B.row (F.batch_of (F.groups r)) 0 ≡ r
  pub fits-groups : (r q : B.Row) → GroupsFit ⦃F = F⦄ (F.groups r) (F.groups q)
  pub one_group :
      (r : B.Row) → F.is_pipeline ≡ false → (vs : List F.Tensor) × (F.groups r ≡ vs ∷ [])
  pub to_logits-of_logits : (l : B.Logits) → F.to_logits (F.of_logits l) ≡ l
  pub is_vocabulary-of_logits : (l : B.Logits) → F.is_vocabulary (F.of_logits l) ≡ true

module _ ⦃B : Backend⦄ where
  one-IsBatch : (p : StatePool) (h : StateHandle) → is_live p h ≡ true → IsBatch p (h ∷ [])
  one-IsBatch p h live = record { live = (live, tt); distinct = (tt, tt) }

  -- A snapshot of a live handle is its row.
  pub snapshot_live :
      (p : StatePool) (h : StateHandle)
      → is_live p h ≡ true
      → 1 ≤ p.max_batch_size
      → (w : Dict ℕ B.Batch) × (StatePool.snapshot h p
          ≡ ok (B.index_select (h.slot ∷ []) p.state) (record p { workspaces = w }))
  unfolding StatePool.snapshot gather
  snapshot_live p h live wide =
      let (b, w, got) = workspace-cases 1 p in
      (
        insert ℕ_discrete 1 (B.index_select (h.slot ∷ []) p.state) w,
        ground (arith, got, wide, validate_unique-ok (h ∷ []) p (one-IsBatch p h live)),
      )

  pub snapshot_row :
      (p : StatePool) (h : StateHandle)
      → IsValid p
      → is_live p h ≡ true
      → B.row (B.index_select (h.slot ∷ []) p.state) 0 ≡ B.row p.state h.slot
  snapshot_row p h v live =
      B.row-index_select (h.slot ∷ []) p.state 0 h.slot refl (slot_inside p h v live)

  commit_live :
      (p : StatePool) (h : StateHandle) (b : B.Batch)
      → is_live p h ≡ true
      → B.size b ≡ 1
      → commit (h ∷ []) b p ≡ ok tt (record p { state = B.index_copy (h.slot ∷ []) b p.state })
  unfolding commit
  commit_live p h b live size =
      ground (arith, size, validate_unique-ok (h ∷ []) p (one-IsBatch p h live))

  pub committed_row :
      (p : StatePool) (h : StateHandle) (b : B.Batch)
      → IsValid p
      → is_live p h ≡ true
      → B.row (B.index_copy (h.slot ∷ []) b p.state) h.slot ≡ B.row b 0
  committed_row p h b v live =
      B.row-index_copy_named (h.slot ∷ []) b p.state 0 h.slot (tt, tt) refl (slot_inside p h v live)

  pub pooled :
      {A C : Type 0} {a : A} (m : M StatePool A) (f : A → M Scheduler C) (s : Scheduler)
      {q : StatePool}
      → m s.pool ≡ ok a q
      → (on_pool m >>= f) s ≡ f a (record s { pool = q })
  pooled {A = A} m f s k = ap (λ (o : Outcome StatePool A). (on_pool (λ _. o) >>= f) s) k

module _ ⦃B : Backend⦄ ⦃F : Transfer⦄ (exact : IsExact F) where
  abbrev pub gs : B.Row → List (List F.Tensor)
  gs r = F.groups r

  find_first :
      (l : B.Logits) (groups : List (List F.Tensor))
      → find_tensor logits_name (exported l groups) ≡ some (F.of_logits l)
  unfolding find_tensor same_name
  find_first l groups = refl

  -- The tensors of a row and its logits fit any slot.
  pub prepare_import-exact :
      (id : String) (h : StateHandle) (m : Manifest) (r : B.Row) (l : B.Logits) (n : ℕ)
      (u : Scheduler)
      → m.layout ≡ layout_name
      → m.group_lengths ≡ counts (lengths_of (gs r))
      → is_live u.pool h ≡ true
      → 1 ≤ u.pool.max_batch_size
      → (w : Dict ℕ B.Batch) × (prepare_import id h m (exported l (gs r)) n u
          ≡ ok (imported_request id h n l u.clock) (record u {
            pool = record u.pool {
              workspaces = w;
              state = B.index_copy (h.slot ∷ []) (F.batch_of (gs r)) u.pool.state;
            };
          }))
  unfolding prepare_import layout_matches
  prepare_import-exact id h m r l n u layout lengths live wide =
      let (w, taken) = snapshot_live u.pool h live wide in
      let expected = F.groups (B.row (B.index_select (h.slot ∷ []) u.pool.state) 0) in
      let fit = exact.fits-groups r (B.row (B.index_select (h.slot ∷ []) u.pool.state) 0) in
      let v = record u { pool = record u.pool { workspaces = w } } in
      (
        w,
        pooled (StatePool.snapshot h) _ u taken
            ∙ passes value_error _ v (matches expected fit)
            ∙ returns (incoming_groups (exported l (gs r)) 0 expected) _ v (
                incoming_groups-found (exported l (gs r)) 0 (gs r) expected v
                  (exported-FoundGroups l (gs r) (exact.one_group r)) fit)
            ∙ passes value_error _ v (named expected fit)
            ∙ finds key_error _ v found
            ∙ passes value_error _ v vocabulary
            ∙ pooled (commit (h ∷ []) (F.batch_of (gs r)))
                (λ _ s. ok (imported_request id h n (F.to_logits (F.of_logits l)) s.clock) s) v
                (commit_live v.pool h (F.batch_of (gs r)) live (exact.size-batch_of (gs r)))
            ∙ ap (λ k. ok (imported_request id h n k u.clock) (stored w))
                (exact.to_logits-of_logits l),
      )
    where
      stored : Dict ℕ B.Batch → Scheduler
      stored w = record u {
        pool = record u.pool {
          workspaces = w;
          state = B.index_copy (h.slot ∷ []) (F.batch_of (gs r)) u.pool.state;
        };
      }

      named :
          (expected : List (List F.Tensor))
          → GroupsFit (gs r) expected
          → not (has_names (exported l (gs r)) expected) ≡ false
      named expected fit = ap not (exported-names l (gs r) expected fit)

      vocabulary : not (F.is_vocabulary (F.of_logits l)) ≡ false
      vocabulary = ap not (exact.is_vocabulary-of_logits l)

      found : find_tensor logits_name (exported l (gs r)) ≡ some (F.of_logits l)
      found = find_first l (gs r)

      matches :
          (expected : List (List F.Tensor))
          → GroupsFit (gs r) expected
          → not (layout_matches m expected) ≡ false
      matches expected fit = ground (arith, layout, lengths, lengths_of-same (gs r) expected fit)
