-- ===== src/StatePool/Invariant.antt =====
-- The pool's invariant: a slot is free, once, exactly when it has no owner. Every method keeps it.
use rwkv_agent.Base.{
  ℕ, zero, suc, replicate, ◌+◌, ◌<◌, ◌≡◌, refl, ◌∙◌, String, ◌&&◌, List, [], ◌∷◌, Option, none,
  some, ltb, if◌then◌else◌, length, count, get_or, set, get_or-set, length-set, get_or-replicate,
  count-range_from, length-range_from, length-replicate, arith, is_none, ok,
}
use rwkv_agent.Backend.{Backend}
use rwkv_agent.StatePool.{StatePool, PoolConfig, init, owner_at, generation_at, claim, vacate}

-- How many slots have an owner.
abbrev pub held : List (Option String) → ℕ
held [] = 0
held (none ∷ os) = held os
held (some name ∷ os) = suc (held os)

held-set-some :
    (os : List (Option String)) (i : ℕ) (name : String)
    → i < length os
    → get_or os i none ≡ none
    → held (set os i (some name)) ≡ held os + 1
held-set-some [] i name h e = elim h [ ]
held-set-some (none ∷ os) zero name h e = omega arith
held-set-some (some x ∷ os) zero name h e = absurd (cc)
held-set-some (none ∷ os) (suc i) name h e = held-set-some os i name (omega arith) e
held-set-some (some x ∷ os) (suc i) name h e =
    omega (arith, held-set-some os i name (omega arith) e)

held-set-none :
    (os : List (Option String)) (i : ℕ) (name : String)
    → get_or os i none ≡ some name
    → held (set os i none) + 1 ≡ held os
held-set-none [] i name e = cc
held-set-none (none ∷ os) zero name e = cc
held-set-none (some x ∷ os) zero name e = omega arith
held-set-none (none ∷ os) (suc i) name e = held-set-none os i name e
held-set-none (some x ∷ os) (suc i) name e = omega (arith, held-set-none os i name e)

held-replicate : (n : ℕ) → held (replicate n none) ≡ 0
held-replicate zero = refl
held-replicate (suc n) = held-replicate n

module _ ⦃B : Backend⦄ where
  -- 1 for a slot of the slab that nobody owns.
  abbrev pub vacancy : StatePool → ℕ → ℕ
  vacancy p i = if ltb i p.capacity && is_none (owner_at p i) then 1 else 0

  pub record IsValid (p : StatePool) : Type 0 where
    pub slab : B.size p.state ≡ p.capacity
    pub generations : length p.generation ≡ p.capacity
    pub owned : length p.owners ≡ p.capacity
    pub vacant : (i : ℕ) → count i p.free ≡ vacancy p i
    pub balanced : length p.free + held p.owners ≡ p.capacity

  -- A pool that the constructor accepts is valid.
  pub init-IsValid : (c : PoolConfig) (p : StatePool) → init c ≡ ok p tt → IsValid p
  unfolding init
  init-IsValid c p e = record {
    slab = ground (arith, B.size-zero_state c.capacity);
    generations = ground (arith, length-replicate {A = ℕ} c.capacity 0);
    owned = ground (arith, length-replicate {A = Option String} c.capacity none);
    vacant = λ i. ground (
      arith,
      count-range_from c.capacity 0 i,
      get_or-replicate {A = Option String} c.capacity i none,
    );
    balanced = ground (arith, length-range_from c.capacity 0, held-replicate c.capacity);
  }

  pub claim-IsValid :
      (p : StatePool) (name : String) (slot : ℕ) (rest : List ℕ)
      → p.free ≡ slot ∷ rest
      → IsValid p
      → IsValid (claim p name slot rest)
  unfolding claim
  claim-IsValid p name slot rest e v = record {
    slab = B.size-index_fill (slot ∷ []) p.state ∙ v.slab;
    generations =
        ground (arith, length-set p.generation slot (generation_at p slot + 1), v.generations);
    owned = ground (arith, length-set p.owners slot (some name), v.owned);
    vacant = λ i.
        ground
          (arith, v.vacant i, v.vacant slot, v.owned, get_or-set p.owners slot i (some name) none);
    balanced = ground (arith, v.balanced, v.vacant slot, v.owned, held-set-some p.owners slot name);
  }

  pub vacate-IsValid :
      (p : StatePool) (slot : ℕ) (name : String)
      → slot < p.capacity
      → owner_at p slot ≡ some name
      → IsValid p
      → IsValid (vacate slot p)
  vacate-IsValid p slot name h e v = record {
    slab = v.slab;
    generations = v.generations;
    owned = ground (arith, length-set {A = Option String} p.owners slot none, v.owned);
    vacant = λ i.
        ground (arith, v.vacant i, v.vacant slot, v.owned, get_or-set p.owners slot i none none);
    balanced = ground (arith, v.balanced, held-set-none p.owners slot name e);
  }
