-- ===== src/Runtime/Busy.antt =====
-- src/rwkv_agent/state_runtime.py: the marks of the states whose decode runs outside the lock.
use rwkv_agent.Base.{
  ℕ, ◌≡◌, refl, sym, ap, ◌∙◌, subst, inl, inr, String, Bool, true, false, not, ◌||◌, List, [], ◌∷◌,
  ◌++◌, map, Option, ltb, string_dec, length, is_empty, any, select, is_unique, mentions,
  mentions-nil, mentions-cons, ℤ, M, Outcome, ok, raise, pure, ◌>>=◌, ◌>>◌, raise_if, modify, after,
  value_error, Error, arith, Bool-cases,
}
use rwkv_agent.Backend.{Backend}
use rwkv_agent.Decoding.{Text, is_empty_text}
use rwkv_agent.Scheduler.Requests.{Scheduler}
use rwkv_agent.Registry.{PersistentState, clean_owner}
use rwkv_agent.Runtime.Defs.{Runtime, on_registry, bump, cleanup, ensure_available, touch_all}
use rwkv_agent.Runtime.Turns.{
  TurnItem, StateResult, collect_turns, ids_of, begin_turns, finish_turns, run_turns, continue_many,
  unmark,
}
use rwkv_agent.Runtime.Marks.{
  KeepsMarks, bind-keeps, bump-keeps, cleanup-keeps, collect_turns-keeps, on_registry-keeps,
  run_turns-keeps, touch_all-keeps,
}

module _ ⦃B : Backend⦄ where
  -- What `begin_turns` does to the marks `marks`: it adds the distinct states of the turns, none of
  -- which is there; or it raises, and adds none.
  abbrev pub Begun : List String → Outcome Runtime (List (PersistentState × List ℤ)) → Type 0
  Begun marks (ok turns t) =
      (t.busy ≡ ids_of turns ++ marks)
      × (is_unique (ids_of turns) ≡ true)
      × ((id : String) → mentions id (ids_of turns) ≡ true → mentions id marks ≡ false)
  Begun marks (raise e t) = t.busy ≡ marks

  Begins : List String → M Runtime (List (PersistentState × List ℤ)) → Type 0
  Begins marks m = (s : Runtime) → s.busy ≡ marks → Begun marks (m s)

  bind-Begins :
      {A : Type 0} (marks : List String) (m : M Runtime A)
      (f : A → M Runtime (List (PersistentState × List ℤ)))
      → KeepsMarks m
      → ((a : A) → Begins marks (f a))
      → Begins marks (m >>= f)
  unfolding Begins
  bind-Begins {A = A} marks m f k l s b = bound (m s) (k s)
    where
      bound :
          (o : Outcome Runtime A)
          → (after o).busy ≡ s.busy
          → Begun marks (elim o [ ok a s' ↦ f a s' | raise e s' ↦ raise e s' ])
      bound (ok a s') e = l a s' (e ∙ b)
      bound (raise x s') e = e ∙ b

  raise_if-Begins :
      (marks : List String) (t : Bool) (e : Error) (m : M Runtime (List (PersistentState × List ℤ)))
      → (t ≡ false → Begins marks m)
      → Begins marks (raise_if t e >> m)
  unfolding Begins
  raise_if-Begins marks true e m l s b = b
  raise_if-Begins marks false e m l s b = l refl s b

  not_busy :
      (marks : List String) (turns : List (PersistentState × List ℤ))
      → any (λ r. mentions r.state_id marks) (map (λ t. t.0) turns) ≡ false
      → (id : String) → mentions id (ids_of turns) ≡ true
      → mentions id marks ≡ false
  not_busy marks [] free id m = absurd (ground (arith, mentions-nil id, m))
  not_busy marks (t ∷ turns) free id m = elim (string_dec id t.0.state_id) [
    | yes e ↦ subst (λ i. mentions i marks ≡ false) (sym e) (ground (arith, free))
    | no other ↦
        not_busy marks turns (ground (arith, free)) id
          (ground (arith, m, mentions-cons id t.0.state_id (ids_of turns)))
  ]

  mark-Begins :
      (marks : List String) (turns : List (PersistentState × List ℤ))
      → is_unique (ids_of turns) ≡ true
      → Begins marks (do
        ensure_available (map (λ t. t.0) turns)
        modify (λ s. record s { busy = ids_of turns ++ s.busy })
        pure turns)
  unfolding Begins ensure_available
  mark-Begins marks turns u s b =
      elim (Bool-cases (any (λ r. mentions r.state_id s.busy) (map (λ t. t.0) turns))) [
        | inl taken ↦ rw (taken, Begun) b
        | inr free ↦
            rw (free, Begun)
              (
                ap (λ m. ids_of turns ++ m) b,
                u,
                not_busy marks turns (
                    subst (λ m. any (λ r. mentions r.state_id m) (map (λ t. t.0) turns) ≡ false) b
                      free),
              )
      ]

  clean_owner-keeps : (owner_id : String) → KeepsMarks (on_registry (clean_owner owner_id))
  clean_owner-keeps owner_id = on_registry-keeps (clean_owner owner_id)

  -- `begin_turns` marks the distinct states of its turns, none of which another call has marked, or
  -- it raises and leaves the marks as they were.
  pub begin_turns-excludes :
      (owner_id : String) (items : List TurnItem) (max_tokens : ℕ) (s : Runtime)
      → Begun s.busy (begin_turns owner_id items max_tokens s)
  unfolding begin_turns Begins
  begin_turns-excludes owner_id items max_tokens s = opened s.busy s refl
    where
      opened : (marks : List String) → Begins marks (begin_turns owner_id items max_tokens)
      opened marks =
          bind-Begins marks (on_registry (clean_owner owner_id)) _ (clean_owner-keeps owner_id)
            λ owner. raise_if-Begins marks (is_empty items) value_error _ λ _.
              raise_if-Begins marks (ltb max_tokens 1 || ltb 4096 max_tokens) value_error _ λ _.
                bind-Begins {A = Unit {0}} marks (cleanup >>= λ _. pure tt) _
                  (bind-keeps {C = Unit {0}} cleanup _ cleanup-keeps (λ _ s. refl))
                  λ _.
                    bind-Begins marks (collect_turns owner max_tokens items) _
                      (collect_turns-keeps owner max_tokens items)
                      λ turns.
                        raise_if-Begins marks (not (is_unique (ids_of turns))) value_error _
                          λ unique. mark-Begins marks turns (ground (arith, unique))

  unmark_none :
      (ids marks : List String)
      → ((id : String) → mentions id ids ≡ true → mentions id marks ≡ false)
      → unmark ids marks ≡ marks
  unmark_none ids [] free = refl
  unmark_none ids (m ∷ marks) free = ground (
    arith,
    unmark_none ids marks (λ id h. ground (arith, free id h, mentions-cons id m marks)),
    λ (h : mentions m ids ≡ true). free m h,
    mentions-cons m m marks,
  )

  unmark_all :
      (ids more marks : List String)
      → ((id : String) → mentions id more ≡ true → mentions id ids ≡ true)
      → unmark ids (more ++ marks) ≡ unmark ids marks
  unmark_all ids [] marks inside = refl
  unmark_all ids (i ∷ more) marks inside = ground (
    arith,
    unmark_all ids more marks (λ id h. inside id (ground (arith, h, mentions-cons id i more))),
    inside i (ground (arith, mentions-cons i i more)),
  )

  finish_turns-marks :
      (turns : List (PersistentState × List ℤ)) (o : Outcome Runtime (List StateResult))
      → (after (finish_turns turns o)).busy ≡ unmark (ids_of turns) (after o).busy
  unfolding finish_turns bump
  finish_turns-marks turns (ok a s) =
      bind-keeps {A = Unit {0}} {C = List StateResult} (touch_all (map (λ t. t.0) turns)) _
        (touch_all-keeps (map (λ t. t.0) turns))
        (λ _.
          bind-keeps {A = Unit {0}} {C = List StateResult} (bump "continued" (length turns))
            (λ _. pure a) (bump-keeps "continued" (length turns)) (λ _ s. refl))
        (record s { busy = unmark (ids_of turns) s.busy })
  finish_turns-marks turns (raise e s) = refl

  -- `continue_many` leaves no mark of its own behind and no other's out, whether it returns or raises.
  pub continue_many-unmarks :
      (engine : Option
        (List (PersistentState × List ℤ) → List Text → ℕ → M Scheduler (List StateResult)))
      (owner_id : String) (items : List TurnItem) (stops : List Text) (max_tokens : ℕ) (s : Runtime)
      → (after (continue_many engine owner_id items stops max_tokens s)).busy ≡ s.busy
  unfolding continue_many
  continue_many-unmarks engine owner_id items stops max_tokens s =
      closed (begin_turns owner_id items max_tokens s)
        (begin_turns-excludes owner_id items max_tokens s)
    where
      rest : List Text
      rest = select (λ stop. not (is_empty_text stop)) stops

      closed :
          (o : Outcome Runtime (List (PersistentState × List ℤ)))
          → Begun s.busy o
          → (after {S = Runtime} {A = List StateResult} (elim o [
            | ok turns t ↦ finish_turns turns (run_turns engine turns rest max_tokens t)
            | raise e t ↦ raise e t
          ])).busy
            ≡ s.busy
      closed (raise e t) b = b
      closed (ok turns t) (marked, unique, free) =
          finish_turns-marks turns (run_turns engine turns rest max_tokens t)
          ∙ ap (unmark (ids_of turns)) (run_turns-keeps engine turns rest max_tokens t ∙ marked)
          ∙ unmark_all (ids_of turns) (ids_of turns) s.busy (λ id m. m)
          ∙ unmark_none (ids_of turns) s.busy free
