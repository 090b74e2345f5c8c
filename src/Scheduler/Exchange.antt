-- ===== src/Scheduler/Exchange.antt =====
-- src/rwkv7_scheduler/scheduler.py: an export that is imported, into the same scheduler or another.
use rwkv_agent.Base.{
  ℕ, ◌≤◌, ◌<◌, ◌≡◌, refl, ap, ◌∙◌, String, true, false, not, ◌||◌, List, some, ltb, leb, length,
  is_none, is_blank, strip, has, string_dec, same, pos, lookup, Dict, M, ok, Outcome, on_error,
  after, arith, value_error, key_error, runtime_error, passes, finds, returns, inl, inr,
}
use rwkv_agent.Backend.{Backend}
use rwkv_agent.StatePool
use rwkv_agent.StatePool.{StatePool, StateHandle, allocate, claim}
use rwkv_agent.StatePool.Handles.{is_live, allocate_lem, allocate-eq-ok}
use rwkv_agent.Scheduler.Requests.{Scheduler, RequestState, on_pool, bump, remaining, request}
use rwkv_agent.Scheduler.Agreement.{Agrees}
use rwkv_agent.Scheduler.Transfer.{
  Transfer, Manifest, counts, Tensors, export_state, import_state, prepare_import, lengths_of,
  layout_name, imported_request,
}
use rwkv_agent.Scheduler.Names.{exported}
use rwkv_agent.Scheduler.Portable.{
  IsExact, snapshot_live, snapshot_row, committed_row, pooled, prepare_import-exact,
}

module _ ⦃B : Backend⦄ where
  -- A request that can be exported: its prefill is done, it was not cancelled, and it has logits.
  pub record IsReady (s : Scheduler) (id : String) (q : RequestState) (l : B.Logits) : Type 0 where
    pub table : Agrees s
    pub known : lookup string_dec id s.requests ≡ some q
    pub active : q.cancelled ≡ false
    pub done : remaining q ≡ 0
    pub ready : q.logits ≡ some l
    pub wide : 1 ≤ s.pool.max_batch_size

  -- A scheduler that can take a state of n tokens under the name.
  pub record HasRoom (u : Scheduler) (name : String) (n : ℕ) : Type 0 where
    pub table : Agrees u
    pub clean : strip (strip name) ≡ strip name
    pub named : is_blank (strip name) ≡ false
    pub short : n ≤ u.config.max_input_tokens
    pub new : has string_dec (strip name) u.requests ≡ false
    pub room : length u.requests < u.config.max_queue_size
    pub free : 0 < length u.pool.free
    pub wide : 1 ≤ u.pool.max_batch_size

module _ ⦃B : Backend⦄ ⦃F : Transfer⦄ (exact : IsExact F) where
  abbrev manifest_of : B.Row → ℕ → Manifest
  manifest_of r n = record {
    format = "rwkv-recurrent-state.v1";
    backend = "albatross";
    layout = layout_name;
    group_lengths = counts (lengths_of (F.groups r));
    seen_tokens = pos n;
  }

  -- A request that is ready exports its row and its logits.
  export_state-ready :
      (s : Scheduler) (id : String) (q : RequestState) (l : B.Logits)
      → Agrees s
      → lookup string_dec id s.requests ≡ some q
      → q.cancelled ≡ false
      → remaining q ≡ 0
      → q.logits ≡ some l
      → 1 ≤ s.pool.max_batch_size
      → let r = B.row s.pool.state q.handle.slot in
        (t : Scheduler) × (export_state id s
          ≡ ok (manifest_of r q.seen_tokens, exported l (F.groups r)) t)
  unfolding export_state bump request
  export_state-ready s id q l a known active done ready wide =
      let live : is_live s.pool q.handle ≡ true = a.live id q.handle (ground (arith, known)) in
      let (w, taken) = snapshot_live s.pool q.handle live wide in
      let same_row = snapshot_row s.pool q.handle a.pool live in
      (
        _,
        finds key_error _ s known
            ∙ passes runtime_error _ s checked
            ∙ pooled (StatePool.snapshot q.handle) _ s taken
            ∙ finds runtime_error _ (record s { pool = record s.pool { workspaces = w } }) ready
            ∙ ap (λ r. ok (manifest_of r q.seen_tokens, exported l (F.groups r)) (counted w))
                same_row,
      )
    where
      checked : (q.cancelled || ltb 0 (remaining q) || is_none q.logits) ≡ false
      checked = rw (active, done, ready) refl

      counted : Dict ℕ B.Batch → Scheduler
      counted w =
          after (bump "state_exports" 1 (record s { pool = record s.pool { workspaces = w } }))

  claim-config :
      (p : StatePool) (name : String) (slot : ℕ) (rest : List ℕ)
      → (claim p name slot rest).config ≡ p.config
  unfolding claim
  claim-config p name slot rest = refl

  -- A free slot takes an exported row under a new, clean name.
  import_state-new :
      (u : Scheduler) (id : String) (r : B.Row) (l : B.Logits) (n : ℕ)
      → Agrees u
      → strip (strip id) ≡ strip id
      → is_blank (strip id) ≡ false
      → n ≤ u.config.max_input_tokens
      → has string_dec (strip id) u.requests ≡ false
      → length u.requests < u.config.max_queue_size
      → 0 < length u.pool.free
      → 1 ≤ u.pool.max_batch_size
      → (h : StateHandle) × (t : Scheduler) × (import_state id
            (manifest_of r n)
            (exported l (F.groups r))
            u
          ≡ ok (imported_request (strip id) h n l u.clock) t)
        × (B.row t.pool.state h.slot ≡ r)
  unfolding import_state bump
  import_state-new u id r l n a clean named short new room free wide =
      elim (allocate_lem u.pool a.pool (strip id)) [
        | inr (inl (blank, _)) ↦ absurd (ground (arith, blank, clean, named))
        | inr (inr (full, _)) ↦ absurd (ground (arith, full, free))
        | inl (h, p, e, k) ↦
            let (slot, rest, _, p_eq, _, _) = allocate-eq-ok u.pool (strip id) h p e in
            let config : p.config ≡ u.pool.config =
              ap (λ x. x.config) p_eq ∙ claim-config u.pool (strip (strip id)) slot rest in
            let v : Scheduler = record u { pool = p } in
            let m = manifest_of r n in
            let (w, prepared) =
              prepare_import-exact exact (strip id) h m r l n v refl refl k.live
                (ground (arith, config, wide)) in
            (
              h,
              _,
              passes value_error _ u named
                  ∙ passes value_error _ u formats
                  ∙ passes value_error _ u small
                  ∙ passes value_error _ u new
                  ∙ passes runtime_error _ u unfilled
                  ∙ pooled (allocate (strip id)) _ u e
                  ∙ returns
                      (on_error (prepare_import (strip id) h m (exported l (F.groups r)) n)
                        (on_pool (StatePool.release h)))
                      _ v
                      (handled (prepare_import (strip id) h m (exported l (F.groups r)) n)
                        (on_pool (StatePool.release h)) v prepared),
              committed_row p h (F.batch_of (F.groups r)) k.valid k.live ∙ exact.row-batch_of r,
            )
      ]
    where
      small : ltb u.config.max_input_tokens n ≡ false
      small = ground (arith, short)

      unfilled : leb u.config.max_queue_size (length u.requests) ≡ false
      unfilled = ground (arith, room)

      formats :
          (not (same "rwkv-recurrent-state.v1" "rwkv-recurrent-state.v1")
            || not (same "albatross" "albatross"))
          ≡ false
      formats = ground arith

      handled :
          (m : M Scheduler RequestState) (k : M Scheduler (Unit {0})) (v : Scheduler)
          {w : Scheduler} {q : RequestState}
          → m v ≡ ok q w
          → on_error m k v ≡ ok q w
      handled m k v e = ap (λ (o : Outcome Scheduler RequestState). on_error (λ _. o) k v) e

  -- Where the tensors of a row determine it, the export of a ready request returns, and its import into
  -- a scheduler with room returns a request with the logits and the token count of the original, in a
  -- slot whose row is the row of the original.
  pub import_state-export_state :
      (s u : Scheduler) (id name : String) (q : RequestState) (l : B.Logits)
      → IsReady s id q l
      → HasRoom u name q.seen_tokens
      → (m : Manifest) × (tensors : Tensors) × (t : Scheduler) × (h : StateHandle) × (v : Scheduler)
        × (export_state id s ≡ ok (m, tensors) t)
        × (import_state name m tensors u
            ≡ ok (imported_request (strip name) h q.seen_tokens l u.clock) v)
        × (B.row v.pool.state h.slot ≡ B.row s.pool.state q.handle.slot)
  import_state-export_state s u id name q l a b =
      let r = B.row s.pool.state q.handle.slot in
      let (t, out) = export_state-ready s id q l a.table a.known a.active a.done a.ready a.wide in
      let (h, v, into, same_row) =
        import_state-new u name r l q.seen_tokens b.table b.clean b.named b.short b.new b.room
          b.free b.wide in
      (manifest_of r q.seen_tokens, exported l (F.groups r), t, h, v, out, into, same_row)
