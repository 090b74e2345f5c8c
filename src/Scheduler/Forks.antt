-- ===== src/Scheduler/Forks.antt =====
-- src/rwkv7_scheduler/scheduler.py, `fork`: the request table and the pool still agree.
use rwkv_agent.Base.{
  ℕ, ◌+◌, ◌≡◌, refl, ap, String, true, false, not, ◌||◌, List, [], ◌∷◌, map, some, ltb, length,
  is_empty, is_none, is_blank, strip, any, has, mentions, mentions-cons, is_unique, string_dec,
  lookup, insert, lookup-insert, has-lookup, NotIn, AllDistinct, ok, raise, pure, ◌>>=◌, raise_if,
  or_fail-Preserves, guard-Preserves, returned-Preserves, key_error, ◌⊎◌, value_error,
  runtime_error, inl, inr, Preserves, bind-Preserves, raise_if-Preserves, arith, subst,
}
use mathlib.Core.Option.{some-injective}
use rwkv_agent.Backend.{Backend}
use rwkv_agent.StatePool.{StatePool, StateHandle, slots, clone_many}
use rwkv_agent.StatePool.Batches.{AllLive}
use rwkv_agent.StatePool.Atomic.{Restored}
use rwkv_agent.StatePool.Clone.{CloneResult, clone_many-copies}
use rwkv_agent.Scheduler.Requests.{
  Scheduler, RequestState, bump, request, child_of, install_children, remaining, fork,
}
use rwkv_agent.Scheduler.Steady.{handle_at}
use rwkv_agent.Scheduler.Agreement.{Agrees, stored-Agrees, on_pool-then, bump-Agrees}

module _ ⦃B : Backend⦄ where
  -- Handles that the children may have: live, with slots of their own that no request has.
  record AreSpare (s : Scheduler) (hs : List StateHandle) : Type 0 where
    live : AllLive s.pool hs
    distinct : AllDistinct (slots hs)
    unused :
        (id : String) (g : StateHandle) → handle_at s.requests id ≡ some g → NotIn g.slot (slots hs)

  abbrev with_child : Scheduler → RequestState → Scheduler
  with_child s r = record s { requests = insert string_dec r.request_id r s.requests }

  new_after :
      (s : Scheduler) (r : RequestState) (ids : List String)
      → mentions r.request_id ids ≡ false
      → any (λ c. has string_dec c s.requests) ids ≡ false
      → any (λ c. has string_dec c (insert string_dec r.request_id r s.requests)) ids ≡ false
  new_after s r [] other new = refl
  new_after s r (id ∷ ids) other new = ground (
    arith,
    other,
    new,
    mentions-cons r.request_id id ids,
    new_after s r ids,
    has-lookup string_dec id s.requests,
    has-lookup string_dec id (insert string_dec r.request_id r s.requests),
    lookup-insert string_dec r.request_id id r s.requests,
  )

  held-cases :
      (s : Scheduler) (r : RequestState) (id : String) (g : StateHandle)
      → handle_at (with_child s r).requests id ≡ some g
      → (r.handle ≡ g) ⊎ (handle_at s.requests id ≡ some g)
  held-cases s r id g e = elim (string_dec r.request_id id) [
    | yes same_id ↦ inl (
        some-injective _ _
          (ground (arith, e, same_id, lookup-insert string_dec r.request_id id r s.requests)))
    | no other ↦
        inr (ground (arith, e, other, lookup-insert string_dec r.request_id id r s.requests))
  ]

  spare_after :
      (s : Scheduler) (hs : List StateHandle) (r : RequestState)
      → AreSpare s (r.handle ∷ hs)
      → AreSpare (with_child s r) hs
  spare_after s hs r k = record {
    live = k.live.1;
    distinct = k.distinct.1;
    unused = λ id g held. elim (held-cases s r id g held) [
      | inl mine ↦ subst (λ x. NotIn x.slot (slots hs)) mine k.distinct.0
      | inr old ↦ (k.unused id g old).1
    ];
  }

  child-Agrees :
      (s : Scheduler) (hs : List StateHandle) (r : RequestState)
      → Agrees s
      → AreSpare s (r.handle ∷ hs)
      → has string_dec r.request_id s.requests ≡ false
      → Agrees (with_child s r)
  child-Agrees s hs r a k new =
      stored-Agrees s r a (ground (arith, new, has-lookup string_dec r.request_id s.requests))
        k.live.0 (λ id g held. (k.unused id g held).0)

  install-cons :
      (parent : RequestState) (now : ℕ) (id : String) (ids : List String) (h : StateHandle)
      (hs : List StateHandle) (s : Scheduler) (children : List RequestState) (t : Scheduler)
      → install_children parent now ids hs (with_child s (child_of parent id h now)) ≡ ok children t
      → install_children parent now (id ∷ ids) (h ∷ hs) s
        ≡ ok (child_of parent id h now ∷ children) t
  unfolding install_children
  install-cons parent now id ids h hs s children t e =
      ap (λ o. elim o [ ok cs u ↦ ok (child_of parent id h now ∷ cs) u | raise x u ↦ raise x u ]) e

  -- With as many spare handles as new names, the children go in.
  install_children-Agrees :
      (parent : RequestState) (now : ℕ) (ids : List String) (hs : List StateHandle) (s : Scheduler)
      → Agrees s
      → AreSpare s hs
      → is_unique ids ≡ true
      → any (λ c. has string_dec c s.requests) ids ≡ false
      → length hs ≡ length ids
      → (children : List RequestState) × (t : Scheduler) × (install_children parent now ids hs s
          ≡ ok children t)
        × Agrees t
  unfolding install_children is_unique
  install_children-Agrees parent now [] [] s a k unique new e = ([], s, refl, a)
  install_children-Agrees parent now [] (h ∷ hs) s a k unique new e = absurd (omega arith)
  install_children-Agrees parent now (id ∷ ids) [] s a k unique new e = absurd (omega arith)
  install_children-Agrees parent now (id ∷ ids) (h ∷ hs) s a k unique new e =
      let child = child_of parent id h now in
      let (children, t, done, b) =
        install_children-Agrees parent now ids hs (with_child s child)
          (child-Agrees s hs child a k (ground arith)) (spare_after s hs child k) (ground arith)
          (new_after s child ids (ground arith) (ground arith)) (omega arith) in
      (child ∷ children, t, install-cons parent now id ids h hs s children t done, b)

  forked-Agrees :
      (s : Scheduler) (source : StateHandle) (names : List String) (hs : List StateHandle)
      (q : StatePool)
      → Agrees s
      → CloneResult s.pool source (length names) (ok hs q)
      → Agrees (record s { pool = q })
        × AreSpare (record s { pool = q }) hs
        × (length hs ≡ length names)
  forked-Agrees s source names hs q a (c, n) = (
    record {
      pool = c.grown.valid;
      distinct = a.distinct;
      keyed = a.keyed;
      live = λ id g held. (c.grown.keeps g (a.live id g held)).0;
      apart = a.apart;
    },
    record {
      live = c.grown.live;
      distinct = c.grown.distinct;
      unused = λ id g held. (c.grown.keeps g (a.live id g held)).2;
    },
    n,
  )

  refused-Agrees :
      (s : Scheduler) (q : StatePool)
      → Agrees s
      → Restored s.pool q
      → Agrees (record s { pool = q })
  refused-Agrees s q a r = record {
    pool = r.valid;
    distinct = a.distinct;
    keyed = a.keyed;
    live = λ id g held. (r.keeps g (a.live id g held)).0;
    apart = a.apart;
  }

  pub request-Agrees : (id : String) → Preserves Agrees (request id)
  unfolding request
  request-Agrees id s a = or_fail-Preserves Agrees (lookup string_dec id s.requests) key_error s a

  counted :
      (cs : List RequestState)
      → Preserves Agrees
          (bump "fork_calls" 1 >>= λ _. bump "forked_states" (length cs) >>= λ _. pure cs)
  counted cs =
      bind-Preserves Agrees {C = List RequestState} (bump "fork_calls" 1) _
        (bump-Agrees "fork_calls" 1)
        λ _.
          bind-Preserves Agrees {C = List RequestState} (bump "forked_states" (length cs))
            (λ _. pure cs) (bump-Agrees "forked_states" (length cs)) (λ _ t a. a)

  pub fork-Agrees :
      (parent : String) (children : List String) → Preserves Agrees (fork parent children)
  unfolding fork
  fork-Agrees parent_id children =
      let ids = map strip children in
      bind-Preserves Agrees {C = List RequestState}
        (raise_if (is_empty ids || any is_blank ids) value_error) _ (raise_if-Preserves Agrees _ _)
        λ _ s a.
          guard-Preserves {C = List RequestState} Agrees (not (is_unique ids)) value_error _ s a
            λ unique.
              bind-Preserves Agrees {C = List RequestState} (request parent_id) _
                (request-Agrees parent_id)
                (λ parent t b.
                  guard-Preserves {C = List RequestState} Agrees parent.cancelled runtime_error _ t
                    b
                    λ _.
                      guard-Preserves {C = List RequestState} Agrees (ltb 0 (remaining parent))
                        runtime_error _ t b
                        λ _.
                          guard-Preserves {C = List RequestState} Agrees (is_none parent.logits)
                            runtime_error _ t b
                            λ _.
                              guard-Preserves {C = List RequestState} Agrees
                                (mentions parent_id ids
                                  || any (λ c. has string_dec c t.requests) ids)
                                value_error _ t b
                                λ new.
                                  guard-Preserves {C = List RequestState} Agrees
                                    (ltb t.config.max_queue_size (length t.requests + length ids))
                                    runtime_error _ t b
                                    λ _.
                                      on_pool-then {C = List RequestState}
                                        (clone_many parent.handle ids) _ t
                                        (λ hs q e.
                                          let (b', spare, n) =
                                            forked-Agrees t parent.handle ids hs q b (
                                              rw e at (
                                                clone_many-copies t.pool parent.handle ids
                                                  b.pool)) in
                                          let (cs, u, done, k) =
                                            install_children-Agrees parent t.clock ids hs
                                              (record t { pool = q }) b' spare (ground arith)
                                              (ground arith) n in
                                          returned-Preserves {C = List RequestState} Agrees
                                            (install_children parent t.clock ids hs) _ _
                                            (record t { pool = q }) u cs done (counted cs u k))
                                        (λ x q e. refused-Agrees t q b (
                                          rw e at
                                            (clone_many-copies t.pool parent.handle ids b.pool))))
                s a
