-- ===== src/StatePool/History.antt =====
-- Any sequence of calls on the pool: what holds at the end, and what a released handle may do.
use rwkv_agent.Base.{
  ℕ, ◌+◌, ◌≡◌, refl, ap, inl, inr, String, Bool, true, ◌&&◌, ◌||◌, List, [], ◌∷◌, none, some, ltb,
  leb, get_or-set, arith, is_none, ok, raise, after, strip, stale_state_handle,
}
use rwkv_agent.Backend.{Backend}
use rwkv_agent.StatePool.{
  StatePool, StateHandle, owner_at, generation_at, claim, validate, allocate, release, commit,
  gather, slots,
}
use rwkv_agent.StatePool.Invariant.{IsValid}
use rwkv_agent.StatePool.Batches.{commit-cases, gather-cases}
use rwkv_agent.StatePool.Handles.{
  validate_lem, release_lem, release-IsValid, allocate_lem, allocate-eq-ok,
}

module _ ⦃B : Backend⦄ where
  -- One call of a client, with whatever arguments.
  pub data Call : Type 0 where
    allocates : String → Call
    releases : StateHandle → Call
    commits : List StateHandle → B.Batch → Call
    gathers : List StateHandle → Call

  unfoldable pub step : Call → StatePool → StatePool
  step (allocates name) p = after (allocate name p)
  step (releases h) p = after (release h p)
  step (commits hs b) p = after (commit hs b p)
  step (gathers hs) p = after (gather hs p)

  unfoldable pub run : List Call → StatePool → StatePool
  unfolding step
  run [] p = p
  run (c ∷ cs) p = run cs (step c p)

  -- A pool that has the same slots in the same hands.
  pub record SameSlots (p q : StatePool) : Type 0 where
    pub config : q.config ≡ p.config
    pub free : q.free ≡ p.free
    pub generation : q.generation ≡ p.generation
    pub owners : q.owners ≡ p.owners
    pub size : B.size q.state ≡ B.size p.state

  pub SameSlots-refl : (p : StatePool) → SameSlots p p
  SameSlots-refl p = record {
    config = refl;
    free = refl;
    generation = refl;
    owners = refl;
    size = refl;
  }

  pub SameSlots-IsValid : (p q : StatePool) → SameSlots p q → IsValid p → IsValid q
  SameSlots-IsValid p q s v = record {
    slab = ground (arith, v.slab, s.size, s.config);
    generations = ground (arith, v.generations, s.generation, s.config);
    owned = ground (arith, v.owned, s.owners, s.config);
    vacant = λ i. ground (arith, v.vacant i, s.owners, s.free, s.config);
    balanced = ground (arith, v.balanced, s.owners, s.free, s.config);
  }

  commit-SameSlots :
      (hs : List StateHandle) (b : B.Batch) (p : StatePool) → SameSlots p (after (commit hs b p))
  commit-SameSlots hs b p = elim (commit-cases hs b p) [
    | inl (e, _, _) ↦ rw e (record {
      config = refl;
      free = refl;
      generation = refl;
      owners = refl;
      size = B.size-index_copy (slots hs) b p.state;
    })
    | inr (_, e) ↦ rw e (SameSlots-refl p)
  ]

  gather-SameSlots : (hs : List StateHandle) (p : StatePool) → SameSlots p (after (gather hs p))
  gather-SameSlots hs p = elim (gather-cases hs p) [
    | inl (w, e, _, _) ↦
        rw e (record { config = refl; free = refl; generation = refl; owners = refl; size = refl })
    | inr (_, e) ↦ rw e (SameSlots-refl p)
  ]

  -- Every call keeps the invariant.
  pub step-IsValid : (c : Call) (p : StatePool) → IsValid p → IsValid (step c p)
  unfolding step
  step-IsValid (allocates name) p v = elim (allocate_lem p v name) [
    | inl (h, q, e, a) ↦ rw e a.valid
    | inr (inl (_, e)) ↦ rw e v
    | inr (inr (_, e)) ↦ rw e v
  ]
  step-IsValid (releases h) p v = release-IsValid p v h
  step-IsValid (commits hs b) p v = SameSlots-IsValid p _ (commit-SameSlots hs b p) v
  step-IsValid (gathers hs) p v = SameSlots-IsValid p _ (gather-SameSlots hs p) v

  -- Any sequence of allocations, releases, commits and gathers keeps a valid pool valid: a slot is
  -- free, once, exactly when nobody owns it, and the tables have the size of the pool.
  pub run-IsValid : (cs : List Call) (p : StatePool) → IsValid p → IsValid (run cs p)
  unfolding run
  run-IsValid [] p v = v
  run-IsValid (c ∷ cs) p v = run-IsValid cs (step c p) (step-IsValid c p v)

  -- The handle's generation has passed, or its slot is free in it.
  abbrev pub is_dead : StatePool → StateHandle → Bool
  is_dead p h =
      leb h.generation (generation_at p h.slot)
      && (ltb h.generation (generation_at p h.slot) || is_none (owner_at p h.slot))

  claim-dead :
      (name : String) (slot : ℕ) (rest : List ℕ) (h : StateHandle) (p : StatePool)
      → IsValid p
      → is_dead p h ≡ true
      → is_dead (claim p name slot rest) h ≡ true
  unfolding claim
  claim-dead name slot rest h p v d = ground (
    arith,
    v.owned,
    v.generations,
    get_or-set p.owners slot h.slot (some name) none,
    get_or-set p.generation slot h.slot (generation_at p slot + 1) 0,
  )

  step-dead :
      (c : Call) (h : StateHandle) (p : StatePool)
      → IsValid p
      → is_dead p h ≡ true
      → is_dead (step c p) h ≡ true
  unfolding step
  step-dead (allocates name) h p v d = elim (allocate_lem p v name) [
    | inl (g, q, e, a) ↦
        let (slot, rest, free, q_eq, _, _) = allocate-eq-ok p name g q e in
        rw (e, q_eq) (claim-dead (strip name) slot rest h p v d)
    | inr (inl (_, e)) ↦ rw e d
    | inr (inr (_, e)) ↦ rw e d
  ]
  step-dead (releases g) h p v d =
      ground (arith, release_lem p g, get_or-set p.owners g.slot h.slot none none)
  step-dead (commits hs b) h p v d = ground (arith, commit-SameSlots hs b p)
  step-dead (gathers hs) h p v d = ground (arith, gather-SameSlots hs p)

  release-dead :
      (h : StateHandle) (p q : StatePool) → IsValid p → release h p ≡ ok tt q → is_dead q h ≡ true
  release-dead h p q v e =
      ground (arith, release_lem p h, v.owned, get_or-set p.owners h.slot h.slot none none)

  run-dead :
      (cs : List Call) (h : StateHandle) (p : StatePool)
      → IsValid p
      → is_dead p h ≡ true
      → is_dead (run cs p) h ≡ true
  unfolding run
  run-dead [] h p v d = d
  run-dead (c ∷ cs) h p v d = run-dead cs h (step c p) (step-IsValid c p v) (step-dead c h p v d)

  -- In a valid pool, a handle whose release succeeded is refused as stale after any sequence of
  -- calls that follows: also when its slot is allocated anew.
  pub released_forever :
      (h : StateHandle) (p q : StatePool) (cs : List Call)
      → IsValid p
      → release h p ≡ ok tt q
      → validate h (run cs q) ≡ raise stale_state_handle (run cs q)
  released_forever h p q cs v e = ground (
    arith,
    validate_lem (run cs q) h,
    run-dead cs h q (rw (ap after e) at (release-IsValid p v h)) (release-dead h p q v e),
  )
