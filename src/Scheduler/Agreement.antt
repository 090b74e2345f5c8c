-- ===== src/Scheduler/Agreement.antt =====
-- src/rwkv7_scheduler/scheduler.py: the request table and the pool agree, whatever methods are called.
use rwkv_agent.Base.{
  ℕ, ◌≡◌, ◌≢◌, refl, sym, ap, ◌∙◌, String, Bool, true, none, some, string_dec, lookup, insert,
  remove, Distinct, lookup-insert, insert-Distinct, remove-Distinct, lookup-remove_ne,
  lookup-remove_self, M, ok, raise, ◌>>=◌, raise_if, subst, after, Error, Outcome, inl, inr,
  Preserves, bind-Preserves, raise_if-Preserves, arith,
}
use rwkv_agent.Backend.{Backend}
use rwkv_agent.StatePool.{StatePool, StateHandle, allocate, vacate}
use rwkv_agent.StatePool.Invariant.{IsValid}
use rwkv_agent.StatePool.Handles.{
  is_live, allocate_lem, allocate-Allocated, allocate-keeps, vacate-keeps, vacate-live,
}
use rwkv_agent.StatePool.History.{SameSlots, SameSlots-refl, SameSlots-IsValid}
use rwkv_agent.Scheduler.Requests.{Scheduler, RequestState, on_pool, bump}
use rwkv_agent.Scheduler.Steady.{handle_at, IsSteady, Steady, bump-Steady}

module _ ⦃B : Backend⦄ where
  pub record Agrees (s : Scheduler) : Type 0 where
    pub pool : IsValid s.pool
    pub distinct : Distinct string_dec s.requests
    pub keyed :
        (id : String) (r : RequestState)
        → lookup string_dec id s.requests ≡ some r
        → r.request_id ≡ id
    pub live :
        (id : String) (h : StateHandle) → handle_at s.requests id ≡ some h → is_live s.pool h ≡ true
    pub apart :
        (id j : String) (h g : StateHandle)
        → handle_at s.requests id ≡ some h
        → handle_at s.requests j ≡ some g
        → h.slot ≡ g.slot
        → id ≡ j

  pub SameSlots-live :
      (p q : StatePool) (h : StateHandle) → SameSlots p q → is_live q h ≡ is_live p h
  SameSlots-live p q h e = rw (e.config, e.owners, e.generation) refl

  pub IsSteady-Agrees : (s t : Scheduler) → Agrees s → IsSteady s t → Agrees t
  IsSteady-Agrees s t a h = record {
    pool = SameSlots-IsValid s.pool t.pool h.slots a.pool;
    distinct = h.distinct;
    keyed = h.keyed;
    live = λ id g e. SameSlots-live s.pool t.pool g h.slots ∙ a.live id g (sym (h.handles id) ∙ e);
    apart = λ id j g g' e e'. a.apart id j g g' (sym (h.handles id) ∙ e) (sym (h.handles j) ∙ e');
  }

  pub Agrees-IsSteady : (s : Scheduler) → Agrees s → IsSteady s s
  Agrees-IsSteady s a = record {
    handles = λ id. refl;
    slots = SameSlots-refl s.pool;
    distinct = a.distinct;
    keyed = a.keyed;
    config = refl;
  }

  pub Steady-Agrees :
      {A : Type 0} (m : M Scheduler A) → ((s : Scheduler) → Steady s m) → Preserves Agrees m
  Steady-Agrees m k s a = IsSteady-Agrees s (after (m s)) a (k s s (Agrees-IsSteady s a))

  -- No request has the slot of the handle.
  abbrev pub IsUnused : Scheduler → StateHandle → Type 0
  IsUnused s h =
      (id : String) (g : StateHandle) → handle_at s.requests id ≡ some g → g.slot ≢ h.slot

  pub stored-Agrees :
      (s : Scheduler) (r : RequestState)
      → Agrees s
      → lookup string_dec r.request_id s.requests ≡ none
      → is_live s.pool r.handle ≡ true
      → IsUnused s r.handle
      → Agrees (record s { requests = insert string_dec r.request_id r s.requests })
  stored-Agrees s r a new live unused = record {
    pool = a.pool;
    distinct = insert-Distinct string_dec r.request_id r s.requests a.distinct;
    keyed = λ id q e.
        ground (arith, e, a.keyed id q, lookup-insert string_dec r.request_id id r s.requests);
    live = λ id h e.
        ground (arith, e, a.live id h, live, lookup-insert string_dec r.request_id id r s.requests);
    apart = λ id j h g e e' same_slot. ground (
      arith,
      e,
      e',
      same_slot,
      a.apart id j h g,
      unused id h,
      unused j g,
      lookup-insert string_dec r.request_id id r s.requests,
      lookup-insert string_dec r.request_id j r s.requests,
    );
  }

  -- The pool grows by a handle: the table does not notice.
  pub allocated-Agrees :
      (s : Scheduler) (name : String) (h : StateHandle) (q : StatePool)
      → Agrees s
      → allocate name s.pool ≡ ok h q
      → Agrees (record s { pool = q })
  allocated-Agrees s name h q a e = record {
    pool = (allocate-Allocated s.pool a.pool name h q e).valid;
    distinct = a.distinct;
    keyed = a.keyed;
    live = λ id g k. (allocate-keeps s.pool a.pool name h g q e (a.live id g k)).0;
    apart = a.apart;
  }

  pub released-Agrees :
      (s : Scheduler) (id : String) (r : RequestState)
      → Agrees s
      → lookup string_dec id s.requests ≡ some r
      → Agrees (record s {
        requests = remove string_dec id s.requests;
        pool = vacate r.handle.slot s.pool;
      })
  released-Agrees s id r a e = record {
    pool = vacate-live s.pool a.pool r.handle mine;
    distinct = remove-Distinct string_dec id s.requests a.distinct;
    keyed = λ j q k. a.keyed j q (kept_request j q k);
    live = λ j g k.
        (vacate-keeps s.pool a.pool r.handle g mine (a.live j g (kept j g k))
          (λ same_slot. other j g k (sym (a.apart j id g r.handle (kept j g k) held same_slot)))).0;
    apart = λ i j h g k k'. a.apart i j h g (kept i h k) (kept j g k');
  }
    where
      held : handle_at s.requests id ≡ some r.handle
      held = ground (arith, e)

      mine : is_live s.pool r.handle ≡ true
      mine = a.live id r.handle held

      other :
          (j : String) (g : StateHandle)
          → handle_at (remove string_dec id s.requests) j ≡ some g
          → id ≢ j
      other j g k same_id =
          ground (arith, k, same_id, lookup-remove_self string_dec id s.requests a.distinct)

      kept :
          (j : String) (g : StateHandle)
          → handle_at (remove string_dec id s.requests) j ≡ some g
          → handle_at s.requests j ≡ some g
      kept j g k = ground (arith, k, other j g k, lookup-remove_ne string_dec id j s.requests)

      kept_request :
          (j : String) (q : RequestState)
          → lookup string_dec j (remove string_dec id s.requests) ≡ some q
          → lookup string_dec j s.requests ≡ some q
      kept_request j q k = ground (
        arith,
        k,
        lookup-remove_self string_dec id s.requests a.distinct,
        lookup-remove_ne string_dec id j s.requests,
      )

  pub refused-Agrees :
      (s : Scheduler) (name : String) (x : Error) (q : StatePool)
      → Agrees s
      → allocate name s.pool ≡ raise x q
      → Agrees (record s { pool = q })
  refused-Agrees s name x q a e = elim (allocate_lem s.pool a.pool name) [
    | inl (h, p, f, k) ↦ absurd (cc)
    | inr (inl (_, f)) ↦ subst (λ p. Agrees (record s { pool = p })) (ap after (sym f ∙ e)) a
    | inr (inr (_, f)) ↦ subst (λ p. Agrees (record s { pool = p })) (ap after (sym f ∙ e)) a
  ]

  pub check : (t : Bool) (e : Error) → Preserves Agrees (raise_if t e)
  check = raise_if-Preserves Agrees

  pub bump-Agrees : (name : String) (n : ℕ) → Preserves Agrees (bump name n)
  bump-Agrees name n = Steady-Agrees (bump name n) (λ s. bump-Steady s name n)

  pub bind :
      {A C : Type 0} (m : M Scheduler A) (f : A → M Scheduler C)
      → Preserves Agrees m
      → ((a : A) → Preserves Agrees (f a))
      → Preserves Agrees (m >>= f)
  bind = bind-Preserves Agrees

  pub on_pool-then :
      {A C : Type 0} (m : M StatePool A) (f : A → M Scheduler C) (s : Scheduler)
      → ((a : A) (q : StatePool) → m s.pool ≡ ok a q → Agrees (after (f a (record s { pool = q }))))
      → ((e : Error) (q : StatePool) → m s.pool ≡ raise e q → Agrees (record s { pool = q }))
      → Agrees (after ((on_pool m >>= f) s))
  on_pool-then {A = A} {C = C} m f s k l = put (m s.pool) k l
    where
      put :
          (o : Outcome StatePool A)
          → ((a : A) (q : StatePool) → o ≡ ok a q → Agrees (after (f a (record s { pool = q }))))
          → ((e : Error) (q : StatePool) → o ≡ raise e q → Agrees (record s { pool = q }))
          → Agrees (after ((on_pool (λ _. o) >>= f) s))
      put (ok a q) k l = k a q refl
      put (raise e q) k l = l e q refl
