-- ===== src/Scheduler/Restored.antt =====
-- src/rwkv7_scheduler/scheduler.py, `import_state`: what it leaves, whether it returns or raises.
use rwkv_agent.Base.{
  ◌+◌, ◌≡◌, refl, sym, ap, ◌∙◌, subst, String, true, not, ◌||◌, none, some, ltb, leb, length,
  is_blank, strip, has, has-lookup, string_dec, same, lookup, lookup-insert, M, ok, raise, Outcome,
  Error, pure, ◌>>=◌, on_error, after, value_error, runtime_error, arith, inl, inr, Holds,
  guard-Ends, find-Ends,
}
use rwkv_agent.Backend.{Backend}
use rwkv_agent.StatePool
use rwkv_agent.StatePool.{StatePool, StateHandle, allocate, vacate}
use rwkv_agent.StatePool.Handles.{
  Allocated, is_live, allocate_lem, allocate-Allocated, allocate-keeps, release_lem, vacate-keeps,
  vacate-live,
}
use rwkv_agent.Scheduler.Requests.{Scheduler, RequestState, on_pool, bump, store}
use rwkv_agent.Scheduler.Steady.{IsSteady, handle_at}
use rwkv_agent.Scheduler.Agreement.{
  Agrees, IsUnused, stored-Agrees, IsSteady-Agrees, Agrees-IsSteady, SameSlots-live, bump-Agrees,
  allocated-Agrees, refused-Agrees,
}
use rwkv_agent.Scheduler.Transfer.{
  Transfer, Manifest, Tensors, prepare_import, count_of, import_state,
}
use rwkv_agent.Scheduler.Imports.{IsPrepared, prepare_import-Yields}

module _ ⦃B : Backend⦄ where
  on_pool-Ends :
      {A C : Type 0} (Q : Outcome Scheduler C → Type 0) (m : M StatePool A) (f : A → M Scheduler C)
      (s : Scheduler)
      → ((a : A) (q : StatePool) → m s.pool ≡ ok a q → Q (f a (record s { pool = q })))
      → ((e : Error) (q : StatePool) → m s.pool ≡ raise e q → Q (raise e (record s { pool = q })))
      → Q ((on_pool m >>= f) s)
  on_pool-Ends {A = A} Q m f s k l = put (m s.pool) k l
    where
      put :
          (o : Outcome StatePool A)
          → ((a : A) (q : StatePool) → o ≡ ok a q → Q (f a (record s { pool = q })))
          → ((e : Error) (q : StatePool) → o ≡ raise e q → Q (raise e (record s { pool = q })))
          → Q ((on_pool (λ _. o) >>= f) s)
      put (ok a q) k l = k a q refl
      put (raise e q) k l = l e q refl

  -- A live handle that no request has goes back.
  vacated-Agrees :
      (s : Scheduler) (h : StateHandle)
      → Agrees s
      → is_live s.pool h ≡ true
      → IsUnused s h
      → Agrees (record s { pool = vacate h.slot s.pool })
  vacated-Agrees s h a live unused = record {
    pool = vacate-live s.pool a.pool h live;
    distinct = a.distinct;
    keyed = a.keyed;
    live = λ j g held. (vacate-keeps s.pool a.pool h g live (a.live j g held) (unused j g held)).0;
    apart = a.apart;
  }

  -- One request more and one slot less, or the handles and as many slots as before.
  abbrev pub Imported : Scheduler → String → Outcome Scheduler RequestState → Type 0
  Imported s id (ok r t) =
      Agrees t
      × (lookup string_dec id t.requests ≡ some r)
      × (length t.pool.free + 1 ≡ length s.pool.free)
  Imported s id (raise e t) =
      Agrees t
      × ((j : String) → handle_at t.requests j ≡ handle_at s.requests j)
      × (length t.pool.free ≡ length s.pool.free)

module _ ⦃B : Backend⦄ ⦃F : Transfer⦄ (s : Scheduler) (id : String) (h : StateHandle)
    (q : StatePool) (agrees : Agrees s) (new : lookup string_dec id s.requests ≡ none)
    (e : allocate id s.pool ≡ ok h q) where
  abbrev grown : Scheduler
  grown = record s { pool = q }

  grown-Agrees : Agrees grown
  grown-Agrees = allocated-Agrees s id h q agrees e

  facts : Allocated s.pool id h q
  facts = allocate-Allocated s.pool agrees.pool id h q e

  steady_live : (t : Scheduler) → IsSteady grown t → is_live t.pool h ≡ true
  steady_live t k = SameSlots-live q t.pool h k.slots ∙ facts.live

  steady-IsUnused : (t : Scheduler) → IsSteady grown t → IsUnused t h
  steady-IsUnused t k j g held =
      (allocate-keeps s.pool agrees.pool id h g q e (agrees.live j g (sym (k.handles j) ∙ held))).2

  steady_new : (t : Scheduler) → IsSteady grown t → lookup string_dec id t.requests ≡ none
  steady_new t k = ground (arith, k.handles id, new)

  installed-Imported :
      (r : RequestState) (t : Scheduler)
      → IsSteady grown t
      → IsPrepared s id h r
      → Imported s id ((store r >>= λ _. bump "state_imports" 1 >>= λ _. pure r) t)
  unfolding bump
  installed-Imported r t k (same_id, same_handle) = (
    bump-Agrees "state_imports" 1 _ (
        stored-Agrees t r (IsSteady-Agrees grown t grown-Agrees k)
          (subst (λ i. lookup string_dec i t.requests ≡ none) (sym same_id) (steady_new t k))
          (subst (λ g. is_live t.pool g ≡ true) (sym same_handle) (steady_live t k))
          (subst (IsUnused t) (sym same_handle) (steady-IsUnused t k))),
    ground (arith, same_id, lookup-insert string_dec r.request_id id r t.requests),
    omega (arith, ap length k.slots.free, facts.taken),
  )

  prepared-Imported :
      (o : Outcome Scheduler RequestState)
      → Holds (IsSteady grown) (IsPrepared s id h) o
      → Imported s id (
          (on_error (λ _. o) (on_pool (StatePool.release h)) >>= λ r.
          store r >>= λ _. bump "state_imports" 1 >>= λ _. pure r)
            grown)
  prepared-Imported (ok r t) (k, p) = installed-Imported r t k p
  prepared-Imported (raise x t) k =
      subst
        (λ (o : Outcome StatePool (Unit {0})). Imported s id (
          (on_error (λ _. raise x t) (on_pool (λ _. o)) >>= λ r.
          store r >>= λ _. bump "state_imports" 1 >>= λ _. pure r)
            grown))
        (sym accepted)
        (
          vacated-Agrees t h (IsSteady-Agrees grown t grown-Agrees k) (steady_live t k)
              (steady-IsUnused t k),
          k.handles,
          omega (arith, ap length k.slots.free, facts.taken),
        )
    where
      accepted : StatePool.release h t.pool ≡ ok tt (vacate h.slot t.pool)
      accepted = ground (arith, release_lem t.pool h, steady_live t k)

module _ ⦃B : Backend⦄ ⦃F : Transfer⦄ (s : Scheduler) (agrees : Agrees s) where
  same_Imported : (id : String) (x : Error) → Imported s id (raise x s)
  same_Imported id x = (agrees, (λ j. refl), refl)

  full-Imported :
      (id name : String) (x : Error) (q : StatePool)
      → allocate name s.pool ≡ raise x q
      → Imported s id (raise x (record s { pool = q }))
  full-Imported id name x q e =
      (refused-Agrees s name x q agrees e, (λ j. refl), ground (arith, refused))
    where
      refused : s.pool ≡ q
      refused = elim (allocate_lem s.pool agrees.pool name) [
        | inl (h, p, f, k) ↦ absurd (cc)
        | inr (inl (_, f)) ↦ ap after (sym f ∙ e)
        | inr (inr (_, f)) ↦ ap after (sym f ∙ e)
      ]

  -- On a scheduler whose request table agrees with its pool, an import that returns leaves them in
  -- agreement, with its request in the table and one free slot less; one that raises leaves them in
  -- agreement, every request with the handle it had and as many slots free as before.
  pub import_state-Imported :
      (id : String) (m : Manifest) (tensors : Tensors)
      → Imported s (strip id) (import_state id m tensors s)
  unfolding import_state
  import_state-Imported id m tensors =
      let name = strip id in
      let Q = Imported s name in
      guard-Ends Q (is_blank name) value_error _ s (same_Imported name value_error) λ _.
        guard-Ends Q
          (not (same m.format "rwkv-recurrent-state.v1") || not (same m.backend "albatross"))
          value_error _ s (same_Imported name value_error)
          λ _.
            find-Ends Q (count_of m.seen_tokens) value_error _ s (same_Imported name value_error)
              λ n _.
                guard-Ends Q (ltb s.config.max_input_tokens n) value_error _ s
                  (same_Imported name value_error)
                  λ _.
                    guard-Ends Q (has string_dec name s.requests) value_error _ s
                      (same_Imported name value_error)
                      λ new.
                        guard-Ends Q (leb s.config.max_queue_size (length s.requests)) runtime_error
                          _ s (same_Imported name runtime_error)
                          λ _.
                            on_pool-Ends Q (allocate name) _ s
                              (λ h q e.
                                prepared-Imported s name h q agrees
                                  (ground (arith, new, has-lookup string_dec name s.requests)) e
                                  (prepare_import name h m tensors n (record s { pool = q }))
                                  (prepare_import-Yields (record s { pool = q }) name h m tensors n
                                    (record s { pool = q })
                                    (Agrees-IsSteady (record s { pool = q })
                                      (allocated-Agrees s name h q agrees e))))
                              (λ x q e. full-Imported name name x q e)
