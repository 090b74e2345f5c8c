-- ===== src/Scheduler/Admissions.antt =====
-- src/rwkv7_scheduler/scheduler.py, `admit`, `release` and `admit_many`: the request table and the pool
-- still agree.
use rwkv_agent.Base.{
  suc, ◌≡◌, refl, sym, ap, ◌∙◌, String, true, false, List, [], ◌∷◌, ◌++◌, some, ltb, leb, length,
  is_empty, is_blank, strip, any, has, string_dec, is_negative, ℤ, lookup, remove,
  lookup-remove_self, has-lookup, ok, raise, pure, raise_if, guard-Preserves, subst, for_each,
  on_error, after, value_error, key_error, runtime_error, inl, inr, Preserves, on_error-Preserves,
  for_each-Preserves, arith, Option-cases, Bool-cases, ◌⊎◌, none, mentions, mentions-cons,
  mentions-nil, if◌then◌else◌, lookup-remove_ne,
}
use rwkv_agent.Backend.{Backend}
use rwkv_agent.StatePool.{StatePool, StateHandle, allocate, vacate, owner_at, generation_at}
use rwkv_agent.StatePool
use rwkv_agent.StatePool.Handles.{allocate-Allocated, allocate-keeps, release_lem}
use rwkv_agent.Scheduler.Requests.{
  Scheduler, RequestState, bump, fresh_request, admit, admit_each, admit_many, release,
}
use rwkv_agent.Scheduler.Agreement.{
  Agrees, bind, check, bump-Agrees, stored-Agrees, allocated-Agrees, refused-Agrees,
  released-Agrees, on_pool-then,
}

module _ ⦃B : Backend⦄ where
  pub admit-Agrees : (id : String) (token_ids : List ℤ) → Preserves Agrees (admit id token_ids)
  unfolding admit
  admit-Agrees id token_ids =
      bind {C = RequestState} (raise_if (is_blank (strip id)) value_error) _ (check _ _) λ _.
        bind {C = RequestState} (raise_if (is_empty token_ids) value_error) _ (check _ _) λ _ s a.
          guard-Preserves {C = RequestState} Agrees
            (ltb s.config.max_input_tokens (length token_ids)) value_error _ s a
            λ _.
              guard-Preserves {C = RequestState} Agrees (any is_negative token_ids) value_error _ s
                a
                λ _.
                  guard-Preserves {C = RequestState} Agrees (has string_dec (strip id) s.requests)
                    value_error _ s a
                    λ new.
                      guard-Preserves {C = RequestState} Agrees
                        (leb s.config.max_queue_size (length s.requests)) runtime_error _ s a
                        λ _.
                          on_pool-then {C = RequestState} (allocate (strip id)) _ s
                            (λ h q e.
                              let k = allocate-Allocated s.pool a.pool (strip id) h q e in
                              bind {C = RequestState} (bump "admitted" 1)
                                (λ _. pure (fresh_request (strip id) h token_ids s.clock))
                                (bump-Agrees "admitted" 1) (λ _ t b. b) _
                                (stored-Agrees (record s { pool = q })
                                  (fresh_request (strip id) h token_ids s.clock)
                                  (allocated-Agrees s (strip id) h q a e)
                                  (ground (arith, new, has-lookup string_dec (strip id) s.requests))
                                  k.live
                                  (λ j g held.
                                    (allocate-keeps s.pool a.pool (strip id) h g q e
                                      (a.live j g held)).2)))
                            (λ x q e. refused-Agrees s (strip id) x q a e)

  -- The pool takes the handle of a request back.
  accepted :
      (s : Scheduler) (id : String) (r : RequestState)
      → Agrees s
      → lookup string_dec id s.requests ≡ some r
      → StatePool.release r.handle s.pool ≡ ok tt (vacate r.handle.slot s.pool)
  accepted s id r a e =
      ground (arith, release_lem s.pool r.handle, a.live id r.handle (ground (arith, e)))

  pub release-Agrees : (id : String) → Preserves Agrees (release id)
  unfolding release
  release-Agrees id s a = elim (Option-cases (lookup string_dec id s.requests)) [
    | inl unknown ↦ rw unknown a
    | inr (r, e) ↦ rw e (
        on_pool-then (StatePool.release r.handle) (λ _. bump "released" 1)
          (record s { requests = remove string_dec id s.requests })
          (λ _ q k.
            subst
              (λ p. Agrees (
                after (
                  bump "released" 1
                    (record s { requests = remove string_dec id s.requests; pool = p }))))
              (ap after (sym (accepted s id r a e) ∙ k))
              (bump-Agrees "released" 1 _ (released-Agrees s id r a e)))
          (λ x q k. absurd (ground (arith, accepted s id r a e, k))))
  ]

  -- A release that returns has taken the request, and no other, out of the table.
  pub release_removes :
      (s t : Scheduler) (id : String)
      → Agrees s
      → release id s ≡ ok tt t
      → t.requests ≡ remove string_dec id s.requests
  unfolding release bump
  release_removes s t id a e = elim (Option-cases (lookup string_dec id s.requests)) [
    | inl unknown ↦ absurd (ground (arith, e, unknown))
    | inr (r, found) ↦ ground (arith, e, found, accepted s id r a found)
  ]

  pub release_unknown :
      (s : Scheduler) (id : String)
      → has string_dec id s.requests ≡ false
      → release id s ≡ raise key_error s
  unfolding release
  release_unknown s id e = ground (arith, e, has-lookup string_dec id s.requests)

  pub release_known :
      (s : Scheduler) (id : String)
      → Agrees s
      → has string_dec id s.requests ≡ true
      → (t : Scheduler) × (release id s ≡ ok tt t)
        × (has string_dec id t.requests ≡ false)
        × (length t.pool.free ≡ suc (length s.pool.free))
  unfolding release bump
  release_known s id a e = elim (Option-cases (lookup string_dec id s.requests)) [
    | inl unknown ↦ absurd (ground (arith, e, has-lookup string_dec id s.requests))
    | inr (r, found) ↦ (
      after (
          bump "released" 1 (record s {
            requests = remove string_dec id s.requests;
            pool = vacate r.handle.slot s.pool;
          })),
      ground (arith, found, accepted s id r a found),
      ground (
        arith,
        has-lookup string_dec id (remove string_dec id s.requests),
        lookup-remove_self string_dec id s.requests a.distinct,
      ),
      refl,
    )
  ]

  -- After a release, which returns or finds no request, the request is not in the table, every other
  -- one is as it was, and the table agrees with the pool.
  pub release-table :
      (s : Scheduler) (id : String)
      → Agrees s
      → (t : Scheduler) × ((release id s ≡ ok tt t) ⊎ (release id s ≡ raise key_error t))
        × Agrees t
        × ((k : String)
            → lookup string_dec k t.requests
              ≡ (if mentions k (id ∷ []) then none else lookup string_dec k s.requests))
  release-table s id a = elim (Bool-cases (has string_dec id s.requests)) [
    | inr unknown ↦ (
      s,
      inr (release_unknown s id unknown),
      a,
      λ k. elim (string_dec k id) [
        | yes same ↦
            ground
              (arith, same, unknown, has-lookup string_dec id s.requests, mentions-cons k id [])
        | no other ↦ ground (arith, mentions-cons k id [], mentions-nil k)
      ],
    )
    | inl known ↦
        let (t, done, _, _) = release_known s id a known in
        let gone = release_removes s t id a done in
        (
          t,
          inl done,
          subst (λ o. Agrees (after o)) done (release-Agrees id s a),
          λ k. elim (string_dec k id) [
            | yes same ↦ ground (
              arith,
              same,
              gone,
              lookup-remove_self string_dec id s.requests a.distinct,
              mentions-cons k id [],
            )
            | no other ↦ ground (
              arith,
              gone,
              lookup-remove_ne string_dec id k s.requests,
              mentions-cons k id [],
              mentions-nil k,
            )
          ],
        )
  ]

  pub admit_each-Agrees :
      (admitted : List RequestState) (rows : List (String × List ℤ))
      → Preserves Agrees (admit_each admitted rows)
  unfolding admit_each
  admit_each-Agrees admitted [] = λ s a. a
  admit_each-Agrees admitted ((id, token_ids) ∷ rows) =
      bind {C = List RequestState}
        (on_error (admit id token_ids) (for_each admitted (λ r. release r.request_id))) _
        (on_error-Preserves Agrees (admit id token_ids) _ (admit-Agrees id token_ids)
          (for_each-Preserves Agrees admitted _ (λ r. release-Agrees r.request_id)))
        (λ r. admit_each-Agrees (admitted ++ r ∷ []) rows)

  pub admit_many-Agrees : (rows : List (String × List ℤ)) → Preserves Agrees (admit_many rows)
  unfolding admit_many
  admit_many-Agrees = admit_each-Agrees []
