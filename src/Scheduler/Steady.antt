-- ===== src/Scheduler/Steady.antt =====
-- src/rwkv7_scheduler/scheduler.py: the methods that neither admit nor release leave every request
-- with the handle it has, and every slot in the hands it is in.
use rwkv_agent.Base.{
  ℕ, ◌≡◌, String, Bool, List, [], ◌∷◌, Option, none, some, if◌then◌else◌, string_dec, Dict, lookup,
  insert, Distinct, lookup-insert, insert-Distinct, M, ok, raise, ◌>>=◌, raise_if, after, Error,
  Outcome, modify, Yields, bind-Yields, bind-Yields-Preserves, inl, inr, Preserves, bind-Preserves,
  raise_if-Preserves, if-Preserves, arith, Option-cases,
}
use rwkv_agent.Backend.{Backend}
use rwkv_agent.StatePool.{StatePool, StateHandle}
use rwkv_agent.StatePool.History.{SameSlots}
use rwkv_agent.StatePool.Frames.{Still}
use rwkv_agent.Scheduler.Requests.{Scheduler, RequestState, on_pool, bump, request, store}
use rwkv_agent.Scheduler.Forward.{count_shape, requests_of}

module _ ⦃B : Backend⦄ where
  -- The handle of a request.
  abbrev pub handle_at : Dict String RequestState → String → Option StateHandle
  handle_at requests id = elim (lookup string_dec id requests) [
    | none ↦ none
    | some r ↦ some r.handle
  ]

  -- `t` has the requests of `s`, with their handles, and its slots.
  pub record IsSteady (s t : Scheduler) : Type 0 where
    pub handles : (id : String) → handle_at t.requests id ≡ handle_at s.requests id
    pub slots : SameSlots s.pool t.pool
    pub distinct : Distinct string_dec t.requests
    pub keyed :
        (id : String) (r : RequestState)
        → lookup string_dec id t.requests ≡ some r
        → r.request_id ≡ id
    pub config : t.config ≡ s.config

  -- A copy of a request that is in the table, as far as its key and its handle go.
  abbrev pub IsKnown : Scheduler → RequestState → Type 0
  IsKnown s r = handle_at s.requests r.request_id ≡ some r.handle

  abbrev pub AllKnown : Scheduler → List RequestState → Type 0
  AllKnown s [] = Unit {0}
  AllKnown s (r ∷ rs) = IsKnown s r × AllKnown s rs

  pub stored-IsSteady :
      (s t : Scheduler) (r : RequestState)
      → IsKnown s r
      → IsSteady s t
      → IsSteady s (record t { requests = insert string_dec r.request_id r t.requests })
  stored-IsSteady s t r k h = record {
    handles = λ id.
        ground (arith, h.handles id, k, lookup-insert string_dec r.request_id id r t.requests);
    slots = h.slots;
    distinct = insert-Distinct string_dec r.request_id r t.requests h.distinct;
    keyed = λ id q e.
        ground (arith, e, h.keyed id q, lookup-insert string_dec r.request_id id r t.requests);
    config = h.config;
  }

  lookup-IsKnown :
      (s t : Scheduler) (id : String) (r : RequestState)
      → IsSteady s t
      → lookup string_dec id t.requests ≡ some r
      → IsKnown s r
  lookup-IsKnown s t id r h e = ground (arith, e, h.keyed id r e, h.handles id)

module _ ⦃B : Backend⦄ (s : Scheduler) where
  abbrev pub Steady : {A : Type 0} → M Scheduler A → Type 0
  Steady m = Preserves (IsSteady s) m

  pub bind :
      {A C : Type 0} (m : M Scheduler A) (f : A → M Scheduler C)
      → Steady m
      → ((a : A) → Steady (f a))
      → Steady (m >>= f)
  bind = bind-Preserves (IsSteady s)

  pub check : (t : Bool) (e : Error) → Steady (raise_if t e)
  check = raise_if-Preserves (IsSteady s)

  pub branch :
      {A : Type 0} (t : Bool) (a b : M Scheduler A)
      → Steady a
      → Steady b
      → Steady (if t then a else b)
  branch = if-Preserves (IsSteady s)

  pub request-Yields : (id : String) → Yields (IsSteady s) (IsKnown s) (request id)
  unfolding request
  request-Yields id t h = elim (Option-cases (lookup string_dec id t.requests)) [
    | inl out ↦ rw out h
    | inr (r, e) ↦ rw e (h, lookup-IsKnown s t id r h e)
  ]

  pub requests_of-Yields : (ids : List String) → Yields (IsSteady s) (AllKnown s) (requests_of ids)
  unfolding requests_of
  requests_of-Yields [] = λ t h. (h, tt)
  requests_of-Yields (id ∷ ids) =
      bind-Yields (IsSteady s) (IsKnown s) (AllKnown s) (request id) _ (request-Yields id) λ r k.
        bind-Yields (IsSteady s) (AllKnown s) (AllKnown s) (requests_of ids) _
          (requests_of-Yields ids) (λ rs ks t h. (h, (k, ks)))

  pub with_request :
      {C : Type 0} (id : String) (f : RequestState → M Scheduler C)
      → ((r : RequestState) → IsKnown s r → Steady (f r))
      → Steady (request id >>= f)
  with_request id f =
      bind-Yields-Preserves (IsSteady s) (IsKnown s) (request id) f (request-Yields id)

  pub with_requests :
      {C : Type 0} (ids : List String) (f : List RequestState → M Scheduler C)
      → ((rs : List RequestState) → AllKnown s rs → Steady (f rs))
      → Steady (requests_of ids >>= f)
  with_requests ids f =
      bind-Yields-Preserves (IsSteady s) (AllKnown s) (requests_of ids) f (requests_of-Yields ids)

  pub bump-Steady : (name : String) (n : ℕ) → Steady (bump name n)
  unfolding bump
  bump-Steady name n t h = record {
    handles = h.handles;
    slots = h.slots;
    distinct = h.distinct;
    keyed = h.keyed;
    config = h.config;
  }

  pub count_shape-Steady : (batch tokens : ℕ) → Steady (count_shape batch tokens)
  unfolding count_shape
  count_shape-Steady batch tokens t h = record {
    handles = h.handles;
    slots = h.slots;
    distinct = h.distinct;
    keyed = h.keyed;
    config = h.config;
  }

  pub generator-Steady : (g : ℕ) → Steady (modify (λ t. record t { generator = g }))
  generator-Steady g t h = record {
    handles = h.handles;
    slots = h.slots;
    distinct = h.distinct;
    keyed = h.keyed;
    config = h.config;
  }

  pub store-Steady : (r : RequestState) → IsKnown s r → Steady (store r)
  store-Steady r k t h = stored-IsSteady s t r k h

  pub on_pool-Steady : {A : Type 0} (m : M StatePool A) → Still s.pool m → Steady (on_pool m)
  on_pool-Steady {A = A} m k t h = put (m t.pool) (k t.pool h.slots)
    where
      put :
          (o : Outcome StatePool A)
          → SameSlots s.pool (after o)
          → IsSteady s (
              after {S = Scheduler} {A = A} (elim o [
                | ok a q ↦ ok a (record t { pool = q })
                | raise e q ↦ raise e (record t { pool = q })
              ]))
      put (ok a q) e = record {
        handles = h.handles;
        slots = e;
        distinct = h.distinct;
        keyed = h.keyed;
        config = h.config;
      }
      put (raise x q) e = record {
        handles = h.handles;
        slots = e;
        distinct = h.distinct;
        keyed = h.keyed;
        config = h.config;
      }
