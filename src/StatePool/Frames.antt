-- ===== src/StatePool/Frames.antt =====
-- src/rwkv7_scheduler/state_pool.py: the calls that move rows leave every slot in the hands it is in.
use rwkv_agent.Base.{
  ℕ, ◌==◌, ◌∙◌, Bool, true, false, not, ◌&&◌, List, [], ◌∷◌, ltb, leb, length, is_empty, contains,
  same, Dict, Error, modify, insert, ℕ_discrete, M, pure, ◌>>=◌, raise_if, value_error,
  stale_state_handle, Preserves, bind-Preserves, raise_if-Preserves, if-Preserves,
}
use rwkv_agent.Backend.{Backend}
use rwkv_agent.StatePool.{
  StatePool, StateHandle, validate, validate_from, validate_unique, workspace, gather, checkout,
  commit, checkin, write_through, is_range, first, slots,
}
use rwkv_agent.StatePool.History.{SameSlots}
use rwkv_agent.StatePool.Batches.{workspace-cases}

module _ ⦃B : Backend⦄ where
  pub SameSlots-trans : {p q r : StatePool} → SameSlots p q → SameSlots q r → SameSlots p r
  SameSlots-trans a b = record {
    config = b.config ∙ a.config;
    free = b.free ∙ a.free;
    generation = b.generation ∙ a.generation;
    owners = b.owners ∙ a.owners;
    size = b.size ∙ a.size;
  }

module _ ⦃B : Backend⦄ (p : StatePool) where
  abbrev pub Still : {A : Type 0} → M StatePool A → Type 0
  Still m = Preserves (SameSlots p) m

  bind :
      {A C : Type 0} (m : M StatePool A) (f : A → M StatePool C)
      → Still m
      → ((a : A) → Still (f a))
      → Still (m >>= f)
  bind = bind-Preserves (SameSlots p)

  check : (t : Bool) (e : Error) → Still (raise_if t e)
  check = raise_if-Preserves (SameSlots p)

  validate-Still : (h : StateHandle) → Still (validate h)
  unfolding validate
  validate-Still h q =
      bind {C = Unit {0}} (raise_if (not (same h.device q.device)) stale_state_handle) _ (check _ _)
        (λ _.
          bind {C = Unit {0}} (raise_if (leb q.capacity h.slot) stale_state_handle) _ (check _ _)
            (λ _. check _ _))
        q

  validate_from-Still : (seen : List ℕ) (hs : List StateHandle) → Still (validate_from seen hs)
  unfolding validate_from
  validate_from-Still seen [] = λ q s. s
  validate_from-Still seen (h ∷ hs) = bind {C = Unit {0}} (validate h) _ (validate-Still h) λ _.
      bind {C = Unit {0}} (raise_if (contains h.slot seen) value_error) _ (check _ _)
        λ _. validate_from-Still (h.slot ∷ seen) hs

  validate_unique-Still : (hs : List StateHandle) → Still (validate_unique hs)
  unfolding validate_unique
  validate_unique-Still hs = validate_from-Still [] hs

  written-SameSlots :
      (is : List ℕ) (b : B.Batch) (q : StatePool)
      → SameSlots p q
      → SameSlots p (record q { state = B.index_copy is b q.state })
  written-SameSlots is b q s = record {
    config = s.config;
    free = s.free;
    generation = s.generation;
    owners = s.owners;
    size = B.size-index_copy is b q.state ∙ s.size;
  }

  kept-SameSlots :
      (w : Dict ℕ B.Batch) (q : StatePool)
      → SameSlots p q
      → SameSlots p (record q { workspaces = w })
  kept-SameSlots w q s = record {
    config = s.config;
    free = s.free;
    generation = s.generation;
    owners = s.owners;
    size = s.size;
  }

  workspace-Still : (n : ℕ) → Still (workspace n)
  workspace-Still n q s = let (b, w, e) = workspace-cases n q in rw e (kept-SameSlots w q s)

  pub gather-Still : (hs : List StateHandle) → Still (gather hs)
  unfolding gather
  gather-Still hs = bind {C = B.Batch} (raise_if (is_empty hs) value_error) _ (check _ _) λ _ q.
      bind {C = B.Batch} (raise_if (ltb q.max_batch_size (length hs)) value_error) _ (check _ _)
        (λ _. bind {C = B.Batch} (validate_unique hs) _ (validate_unique-Still hs) λ _.
          bind {A = Unit {0}} {C = B.Batch} (workspace (length hs) >>= λ _. put)
            (λ _. pure (B.index_select (slots hs) q.state))
            (bind {A = B.Batch} {C = Unit {0}} (workspace (length hs)) (λ _. put)
              (workspace-Still (length hs))
              (λ _ r s.
                kept-SameSlots
                  (insert ℕ_discrete (length hs) (B.index_select (slots hs) r.state) r.workspaces) r
                  s))
            (λ _ r s. s))
        q
    where
      put : M StatePool (Unit {0})
      put = modify (λ r. record r {
        workspaces = insert ℕ_discrete (length hs) (B.index_select (slots hs) r.state) r.workspaces;
      })

  pub checkout-Still : (hs : List StateHandle) → Still (checkout hs)
  unfolding checkout
  checkout-Still hs =
      bind {C = B.Batch × Bool} (raise_if (is_empty hs) value_error) _ (check _ _) λ _.
        bind {C = B.Batch × Bool} (validate_unique hs) _ (validate_unique-Still hs) λ _ q.
          let views = B.narrow (first (slots hs)) (length hs) q.state in
          if-Preserves (SameSlots p)
            (is_range (first (slots hs)) (slots hs) && B.is_contiguous views) (pure (views, true))
            (gather hs >>= λ b. pure (b, false)) (λ r s. s)
            (bind {A = B.Batch} {C = B.Batch × Bool} (gather hs) (λ b. pure (b, false))
              (gather-Still hs) (λ b r s. s))
            q

  pub commit-Still : (hs : List StateHandle) (b : B.Batch) → Still (commit hs b)
  unfolding commit
  commit-Still hs b = bind {C = Unit {0}} (raise_if (is_empty hs) value_error) _ (check _ _) λ _.
      bind {C = Unit {0}} (validate_unique hs) _ (validate_unique-Still hs) λ _.
        bind {C = Unit {0}} (raise_if (not (B.size b == length hs)) value_error) _ (check _ _)
          (λ _ q s. written-SameSlots (slots hs) b q s)

  pub checkin-Still :
      (hs : List StateHandle) (b : B.Batch) (borrowed : Bool) → Still (checkin hs b borrowed)
  unfolding checkin
  checkin-Still hs b true =
      bind {C = Unit {0}} (validate_unique hs) _ (validate_unique-Still hs) λ _. check _ _
  checkin-Still hs b false = commit-Still hs b

  pub write_through-Still :
      (hs : List StateHandle) (b : B.Batch) (borrowed : Bool) → Still (write_through hs b borrowed)
  unfolding write_through
  write_through-Still hs b true = λ q s. written-SameSlots (slots hs) b q s
  write_through-Still hs b false = λ q s. kept-SameSlots _ q s
