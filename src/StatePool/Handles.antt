-- ===== src/StatePool/Handles.antt =====
-- Ownership of slots: what a handle may still do, and what the methods leave to the other handles.
use rwkv_agent.Base.{
  ℕ, zero, ◌+◌, ◌<◌, ◌≡◌, ◌≢◌, refl, ◌⊎◌, inl, inr, String, Bool, true, false, ◌&&◌, not, List, [],
  ◌∷◌, none, some, ltb, ◌==◌, if◌then◌else◌, length, get_or-set, arith, is_none, ok, raise, after,
  same, strip, is_blank, Bool-cases, List-cases, Option-cases, stale_state_handle, state_pool_full,
  value_error,
}
use rwkv_agent.Backend.{Backend}
use rwkv_agent.StatePool.{
  StatePool, StateHandle, owner_at, generation_at, claim, vacate, validate, allocate, release,
  handle_of,
}
use rwkv_agent.StatePool.Invariant.{IsValid, claim-IsValid, vacate-IsValid}

module _ ⦃B : Backend⦄ where
  -- The handle names a slot of this pool that is owned, in the generation it was made for.
  abbrev pub is_live : StatePool → StateHandle → Bool
  is_live p h =
      same h.device p.device
      && ltb h.slot p.capacity
      && not (is_none (owner_at p h.slot))
      && generation_at p h.slot == h.generation

  pub validate_lem :
      (p : StatePool) (h : StateHandle)
      → validate h p ≡ (if is_live p h then ok tt p else raise stale_state_handle p)
  unfolding validate
  validate_lem p h = ground arith

  pub release_lem :
      (p : StatePool) (h : StateHandle)
      → release h p ≡ (if is_live p h then ok tt (vacate h.slot p) else raise stale_state_handle p)
  unfolding release
  release_lem p h = ground (arith, validate_lem p h)

  -- What one `allocate` promises about the pool it leaves.
  pub record Allocated (p : StatePool) (name : String) (h : StateHandle) (q : StatePool)
      : Type 0 where
    pub valid : IsValid q
    pub live : is_live q h ≡ true
    pub owned : owner_at q h.slot ≡ some (strip name)
    pub zeroed : B.row q.state h.slot ≡ B.zero_row
    pub was_free : owner_at p h.slot ≡ none
    pub taken : length q.free + 1 ≡ length p.free

  -- A successful `allocate` pops the free list and claims the slot.
  pub allocate-eq-ok :
      (p : StatePool) (name : String) (h : StateHandle) (q : StatePool)
      → allocate name p ≡ ok h q
      → (slot : ℕ) × (rest : List ℕ) × (p.free ≡ slot ∷ rest)
        × (q ≡ claim p (strip name) slot rest)
        × (h ≡ handle_of (claim p (strip name) slot rest) slot)
        × (is_blank (strip name) ≡ false)
  unfolding allocate
  allocate-eq-ok p name h q e = elim (List-cases p.free) [
    | inl full ↦ absurd (ground arith)
    | inr (slot, rest, free) ↦ (slot, rest, free, ground arith, ground arith, ground arith)
  ]

  module _ (p : StatePool) (v : IsValid p) where
    -- The slot at the head of the free list is inside the slab, and nobody owns it.
    pub free_slot :
        (slot : ℕ) (rest : List ℕ)
        → p.free ≡ slot ∷ rest
        → (slot < p.capacity) × (owner_at p slot ≡ none)
    free_slot slot rest e = ground (arith, v.vacant slot)

    claim-Allocated :
        (name : String) (slot : ℕ) (rest : List ℕ)
        → p.free ≡ slot ∷ rest
        → let q = claim p (strip name) slot rest in Allocated p name (handle_of q slot) q
    unfolding claim
    claim-Allocated name slot rest e = record {
      valid = unfold claim in claim-IsValid p (strip name) slot rest e v;
      live = ground (
        arith,
        free_slot slot rest e,
        v.owned,
        get_or-set p.owners slot slot (some (strip name)) none,
      );
      owned = ground (
        arith,
        free_slot slot rest e,
        v.owned,
        get_or-set p.owners slot slot (some (strip name)) none,
      );
      zeroed =
          B.row-index_fill_named (slot ∷ []) p.state zero slot refl
            (omega (arith, v.slab, free_slot slot rest e));
      was_free = (free_slot slot rest e).1;
      taken = ground arith;
    }

    -- `allocate` on a valid pool: a fresh zeroed slot with a live handle, or an error that leaves
    -- the pool as it was, for a blank owner and for a full pool only.
    pub allocate_lem :
        (name : String)
        → ((h : StateHandle) × (q : StatePool) × (allocate name p ≡ ok h q) × Allocated p name h q)
          ⊎ ((is_blank (strip name) ≡ true) × (allocate name p ≡ raise value_error p))
          ⊎ ((p.free ≡ []) × (allocate name p ≡ raise state_pool_full p))
    unfolding allocate
    allocate_lem name = elim (Bool-cases (is_blank (strip name))) [
      | inl blank ↦ inr (inl (blank, ground arith))
      | inr named ↦ elim (List-cases p.free) [
        | inl full ↦ inr (inr (full, ground arith))
        | inr (slot, rest, e) ↦ inl (
          handle_of (claim p (strip name) slot rest) slot,
          claim p (strip name) slot rest,
          ground arith,
          claim-Allocated name slot rest e,
        )
      ]
    ]

    pub allocate-Allocated :
        (name : String) (h : StateHandle) (q : StatePool)
        → allocate name p ≡ ok h q
        → Allocated p name h q
    allocate-Allocated name h q e =
        let (slot, rest, free, q_eq, h_eq, _) = allocate-eq-ok p name h q e in
        rw (q_eq, h_eq) (claim-Allocated name slot rest free)

    -- A live handle's slot is not free.
    pub live-ne-free :
        (g : StateHandle) (slot : ℕ) (rest : List ℕ)
        → is_live p g ≡ true
        → p.free ≡ slot ∷ rest
        → g.slot ≢ slot
    live-ne-free g slot rest live e = λ same_slot. ground (arith, free_slot slot rest e)

    claim-keeps :
        (name : String) (slot : ℕ) (rest : List ℕ) (g : StateHandle)
        → p.free ≡ slot ∷ rest
        → is_live p g ≡ true
        → let q = claim p name slot rest in
          (is_live q g ≡ true) × (B.row q.state g.slot ≡ B.row p.state g.slot)
    unfolding claim
    claim-keeps name slot rest g free live =
        let other = live-ne-free g slot rest live free in
        (
          ground (
            arith,
            other,
            get_or-set p.owners slot g.slot (some name) none,
            get_or-set p.generation slot g.slot (generation_at p slot + 1) 0,
          ),
          B.row-index_fill_other (slot ∷ []) p.state g.slot (other, tt),
        )

    -- `allocate` gives no slot that a live handle names, and leaves that handle live with its row.
    pub allocate-keeps :
        (name : String) (h g : StateHandle) (q : StatePool)
        → allocate name p ≡ ok h q
        → is_live p g ≡ true
        → (is_live q g ≡ true) × (B.row q.state g.slot ≡ B.row p.state g.slot) × (g.slot ≢ h.slot)
    allocate-keeps name h g q e live =
        let (slot, rest, free, q_eq, h_eq, _) = allocate-eq-ok p name h q e in
        let other = live-ne-free g slot rest live free in
        let (still, kept) = claim-keeps (strip name) slot rest g free live in
        rw (q_eq, h_eq) (still, kept, other)

    pub vacate-live : (h : StateHandle) → is_live p h ≡ true → IsValid (vacate h.slot p)
    vacate-live h live = elim (Option-cases (owner_at p h.slot)) [
      | inl nobody ↦ absurd (ground arith)
      | inr (name, mine) ↦ vacate-IsValid p h.slot name (ground arith) mine v
    ]

    pub release-IsValid : (h : StateHandle) → IsValid (after (release h p))
    release-IsValid h = elim (Bool-cases (is_live p h)) [
      | inl live ↦ rw (release_lem, live) (vacate-live h live)
      | inr dead ↦ rw (release_lem, dead) v
    ]

    -- `release` of one handle leaves every live handle of another slot live, with its row.
    pub vacate-keeps :
        (h g : StateHandle)
        → is_live p h ≡ true
        → is_live p g ≡ true
        → g.slot ≢ h.slot
        → let q = vacate h.slot p in
          (is_live q g ≡ true) × (B.row q.state g.slot ≡ B.row p.state g.slot)
    vacate-keeps h g mine live other =
        (ground (arith, v.owned, get_or-set p.owners h.slot g.slot none none), refl)
