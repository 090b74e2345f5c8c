-- ===== src/Scheduler/Rows.antt =====
-- One forward pass over a batch, seen row by row. It makes no difference to the slab whether the
-- batch was borrowed from it or gathered into a workspace and committed.
use rwkv_agent.Base.{
  ℕ, zero, suc, ◌+◌, ◌<◌, ◌≤◌, ◌≡◌, refl, ◌∙◌, sym, ap, Bool, true, false, ◌&&◌, List, [], ◌∷◌,
  some, length, length-map, get_elem?, is_empty, NotIn, arith, ok, Dict, Bool-cases, inl, inr, ℤ,
  insert, ℕ_discrete, lt_of_get_elem?,
}
use rwkv_agent.Backend.{Backend, is_rectangle}
use rwkv_agent.StatePool.{
  StatePool, StateHandle, slots, checkout, checkin, commit, gather, write_through, is_range, first,
}
use rwkv_agent.StatePool.Invariant.{IsValid}
use rwkv_agent.StatePool.Batches.{IsBatch, validate_unique-ok, workspace-cases}
use rwkv_agent.StatePool.Clone.{get_elem?-slots, AllLive-get, AllLive-mono, slot_inside}
use rwkv_agent.Scheduler.Forward.{forward_batch}

is_range-get :
    (start : ℕ) (is : List ℕ) (k i : ℕ)
    → is_range start is ≡ true
    → get_elem? is k ≡ some i
    → i ≡ start + k
is_range-get start [] k i r e = ground arith
is_range-get start (j ∷ is) zero i r e = ground arith
is_range-get start (j ∷ is) (suc k) i r e = ground (arith, is_range-get (suc start) is k i)

module _ ⦃B : Backend⦄ (p : StatePool) (hs : List StateHandle) (v : IsValid p)
    (batch : IsBatch p hs) (some_handle : is_empty hs ≡ false)
    (fits : length hs ≤ p.max_batch_size) where
  -- A checked-out batch: a row for each handle, in order, and a slab that is as it was.
  pub record CheckedOut (b : B.Batch) (q : StatePool) : Type 0 where
    pub size : B.size b ≡ length hs
    pub rows :
        (k : ℕ) (h : StateHandle) → get_elem? hs k ≡ some h → B.row b k ≡ B.row p.state h.slot
    pub slab : (w : Dict ℕ B.Batch) × (q ≡ record p { workspaces = w })

  inside : (k : ℕ) (h : StateHandle) → get_elem? hs k ≡ some h → h.slot < B.size p.state
  inside k h e = slot_inside p h v (AllLive-get p hs k h batch.live e)

  borrowed-CheckedOut :
      is_range (first (slots hs)) (slots hs) ≡ true
      → CheckedOut (B.narrow (first (slots hs)) (length hs) p.state) p
  borrowed-CheckedOut r = record {
    size = B.size-narrow (first (slots hs)) (length hs) p.state;
    rows = λ k h e.
        let at : h.slot ≡ first (slots hs) + k =
          is_range-get (first (slots hs)) (slots hs) k h.slot r (get_elem?-slots hs k h e) in
        B.row-narrow (first (slots hs)) (length hs) k p.state (lt_of_get_elem? hs k h e)
          (omega (arith, inside k h e))
        ∙ ap (B.row p.state) (sym at);
    slab = (p.workspaces, refl);
  }

  gathered-CheckedOut :
      (w : Dict ℕ B.Batch)
      → CheckedOut (B.index_select (slots hs) p.state) (record p { workspaces = w })
  gathered-CheckedOut w = record {
    size = B.size-index_select (slots hs) p.state ∙ length-map hs (λ h. h.slot);
    rows = λ k h e.
        B.row-index_select (slots hs) p.state k h.slot (get_elem?-slots hs k h e) (inside k h e);
    slab = (w, refl);
  }

  gather-ok :
      (w : Dict ℕ B.Batch) × (gather hs p
        ≡ ok (B.index_select (slots hs) p.state) (record p { workspaces = w }))
  unfolding gather
  gather-ok =
      let (b, w, got) = workspace-cases (length hs) p in
      (
        insert ℕ_discrete (length hs) (B.index_select (slots hs) p.state) w,
        ground (arith, got, validate_unique-ok hs p batch),
      )

  pub checkout-ok :
      (b : B.Batch) × (borrowed : Bool) × (q : StatePool) × (checkout hs p ≡ ok (b, borrowed) q)
      × CheckedOut b q
  unfolding checkout
  checkout-ok =
      let passed = validate_unique-ok hs p batch in
      elim (Bool-cases (
        is_range (first (slots hs)) (slots hs)
        && B.is_contiguous (B.narrow (first (slots hs)) (length hs) p.state))) [
          | inl borrow ↦ (
            B.narrow (first (slots hs)) (length hs) p.state,
            true,
            p,
            ground arith,
            borrowed-CheckedOut (ground arith),
          )
          | inr copy ↦
              let (w, e) = gather-ok in
              (
                B.index_select (slots hs) p.state,
                false,
                record p { workspaces = w },
                ground arith,
                gathered-CheckedOut w,
              )
        ]

  -- Writing a batch of the right size back leaves its rows in the slab, whichever way it was got.
  pub write_back :
      (b : B.Batch) (borrowed : Bool) (w : Dict ℕ B.Batch)
      → B.size b ≡ length hs
      → (q : StatePool) × (write_through hs b borrowed (record p { workspaces = w }) ≡ ok tt q)
        × (w' : Dict ℕ B.Batch) × (checkin hs b borrowed q
            ≡ ok tt (record p { workspaces = w'; state = B.index_copy (slots hs) b p.state }))
  unfolding write_through checkin commit
  write_back b true w size = (
    record p { workspaces = w; state = B.index_copy (slots hs) b p.state },
    refl,
    w,
    ground (
      arith,
      validate_unique-ok hs (record p { workspaces = w; state = B.index_copy (slots hs) b p.state })
          (record { live = AllLive-mono p p hs (λ x l. l) batch.live; distinct = batch.distinct }),
    ),
  )
  write_back b false w size = (
    record p { workspaces = insert ℕ_discrete (length hs) b w },
    refl,
    insert ℕ_discrete (length hs) b w,
    ground (
      arith,
      validate_unique-ok hs (record p { workspaces = insert ℕ_discrete (length hs) b w })
          (record { live = AllLive-mono p p hs (λ x l. l) batch.live; distinct = batch.distinct }),
    ),
  )

-- What one forward call does: each request's row is advanced by its own tokens and by nothing else,
-- the logits are those of its row, and all other rows and all ownership stay.
pub record Forwarded ⦃B : Backend⦄ (p : StatePool) (hs : List StateHandle) (rows : List (List ℤ))
    (logits : List B.Logits) (q : StatePool) : Type 0 where
  pub advanced :
      (k : ℕ) (h : StateHandle) (ts : List ℤ)
      → get_elem? hs k ≡ some h
      → get_elem? rows k ≡ some ts
      → B.row q.state h.slot ≡ B.advance ts (B.row p.state h.slot)
  pub scored :
      (k : ℕ) (h : StateHandle) (ts : List ℤ)
      → get_elem? hs k ≡ some h
      → get_elem? rows k ≡ some ts
      → get_elem? logits k ≡ some (B.score ts (B.row p.state h.slot))
  pub untouched : (i : ℕ) → NotIn i (slots hs) → B.row q.state i ≡ B.row p.state i
  pub owners : q.owners ≡ p.owners
  pub generation : q.generation ≡ p.generation
  pub free : q.free ≡ p.free
  pub config : q.config ≡ p.config
  pub valid : IsValid q

module _ ⦃B : Backend⦄ where
  -- The rows of tokens make a tensor, with a row for each request.
  record IsInput (n : ℕ) (hs : List StateHandle) (rows : List (List ℤ)) (tokens : B.Tokens)
      : Type 0 where
    some_token : 1 ≤ n
    shape : is_rectangle B.vocabulary n rows ≡ true
    made : B.token_tensor rows ≡ some tokens
    same_length : length rows ≡ length hs

  committed-Forwarded :
      (p : StatePool) (hs : List StateHandle) (n : ℕ) (rows : List (List ℤ)) (tokens : B.Tokens)
      (b : B.Batch) (logits : List B.Logits) (w : Dict ℕ B.Batch)
      → IsValid p
      → IsBatch p hs
      → IsInput n hs rows tokens
      → B.size b ≡ length hs
      → ((k : ℕ) (h : StateHandle) → get_elem? hs k ≡ some h → B.row b k ≡ B.row p.state h.slot)
      → (B.forward tokens b).0 ≡ some logits
      → Forwarded p hs rows logits (record p {
        workspaces = w;
        state = B.index_copy (slots hs) (B.forward tokens b).1 p.state;
      })
  committed-Forwarded p hs n rows tokens b logits w v batch input size held out = record {
    advanced = λ k h ts e t.
        B.row-index_copy_named (slots hs) after p.state k h.slot batch.distinct
          (get_elem?-slots hs k h e) (slot_inside p h v (AllLive-get p hs k h batch.live e))
        ∙ B.row-forward n rows tokens b k ts input.some_token input.shape input.made fits t
        ∙ ap (B.advance ts) (held k h e);
    scored = λ k h ts e t.
        B.logits-forward n rows tokens b logits k ts input.some_token input.shape input.made fits
          out t
        ∙ ap (λ r. some (B.score ts r)) (held k h e);
    untouched = λ i n. B.row-index_copy_other (slots hs) after p.state i n;
    owners = refl;
    generation = refl;
    free = refl;
    config = refl;
    valid = record {
      slab = B.size-index_copy (slots hs) after p.state ∙ v.slab;
      generations = v.generations;
      owned = v.owned;
      vacant = v.vacant;
      balanced = v.balanced;
    };
  }
    where
      after : B.Batch
      after = (B.forward tokens b).1

      fits : B.size b ≡ length rows
      fits = size ∙ sym input.same_length

  -- In a valid pool, a forward pass over distinct live handles, at least one and no more than the
  -- largest batch, with n tokens of the vocabulary for each, n not zero, succeeds: each row is
  -- advanced and scored by its own tokens and no other row changes, whether the batch was borrowed
  -- or gathered.
  pub forward_batch-rows :
      (p : StatePool) (hs : List StateHandle) (n : ℕ) (rows : List (List ℤ))
      → IsValid p
      → IsBatch p hs
      → is_empty hs ≡ false
      → length hs ≤ p.max_batch_size
      → length rows ≡ length hs
      → 1 ≤ n
      → is_rectangle B.vocabulary n rows ≡ true
      → (logits : List B.Logits) × (q : StatePool) × (forward_batch hs rows p ≡ ok logits q)
        × Forwarded p hs rows logits q
  unfolding forward_batch
  forward_batch-rows p hs n rows v batch nonempty fits same_length some_token shape =
      let (b, borrowed, q, e, out) = checkout-ok p hs v batch nonempty fits in
      let (w, q_eq) = out.slab in
      let (tokens, made) = B.token_tensor-rectangle n rows shape in
      let (logits, scored) =
        B.forward-rectangle n rows tokens b some_token shape made (out.size ∙ sym same_length) in
      let (w1, through, w', written) =
        write_back p hs v batch nonempty fits (B.forward tokens b).1 borrowed w
          (B.size-forward tokens b ∙ out.size) in
      (
        logits,
        record p {
          workspaces = w';
          state = B.index_copy (slots hs) (B.forward tokens b).1 p.state;
        },
        ground (arith, e, q_eq, made, scored, through, written),
        committed-Forwarded p hs n rows tokens b logits w' v batch
            (record {
              some_token = some_token;
              shape = shape;
              made = made;
              same_length = same_length;
            })
            out.size out.rows scored,
      )
