-- ===== src/Registry/Subtrees.antt =====
-- src/rwkv_agent/persistent_state.py, release_records: what it takes out of the registry and of the
-- scheduler.
use rwkv_agent.Base.{
  ◌≡◌, refl, sym, subst, ap, ◌∙◌, ◌⊎◌, inl, inr, String, true, false, List, [], ◌∷◌, none,
  if◌then◌else◌, string_dec, mentions, mentions-nil, mentions-cons, lookup, remove, for_each, arith,
  Bool-cases, ok,
}
use rwkv_agent.Backend.{Backend}
use rwkv_agent.Scheduler.Agreement.{Agrees}
use rwkv_agent.Scheduler.Admissions.{release-table}
use rwkv_agent.Registry.{
  Registry, PersistentState, Records, subtree_of, drop_node, add_new, targets_of, release_records,
}
use rwkv_agent.Registry.Reachable.{Reaches, subtree-Reaches}
use rwkv_agent.Registry.Orphans.{
  IsForest, lookup-remove_all, remove_all-IsForest, targets-ClosedUnder, mentions-add_new,
}
use rwkv_agent.Registry.Release.{drop_each-records}

-- One of the states, or a descendant of one of them.
pub data IsUnder (records : Records) (k : String) : List PersistentState → Type 0 where
  first :
      {r : PersistentState} {rs : List PersistentState}
      → Reaches records r.state_id k
      → IsUnder records k (r ∷ rs)
  later :
      {r : PersistentState} {rs : List PersistentState}
      → IsUnder records k rs
      → IsUnder records k (r ∷ rs)

module _ (records : Records) (k : String) where
  IsUnder-cases :
      (r : PersistentState) (rs : List PersistentState)
      → IsUnder records k (r ∷ rs)
      → Reaches records r.state_id k ⊎ IsUnder records k rs
  IsUnder-cases r rs (first reached) = inl reached
  IsUnder-cases r rs (later under) = inr under

  IsUnder_nil : {A : Type 0} → IsUnder records k [] → A
  IsUnder_nil u = elim u [ ]

  listed-IsUnder :
      (rs : List PersistentState) (targets : List String)
      → mentions k (targets_of records rs targets) ≡ true
      → (mentions k targets ≡ true) ⊎ IsUnder records k rs
  unfolding targets_of
  listed-IsUnder [] targets m = inl m
  listed-IsUnder (r ∷ rs) targets m =
      elim (listed-IsUnder rs (add_new (subtree_of records r.state_id) targets) m) [
        | inr under ↦ inr (later under)
        | inl found ↦ elim (Bool-cases (mentions k targets)) [
          | inl old ↦ inl old
          | inr new ↦ inr (
              first (
                (subtree-Reaches records r.state_id k).0 (
                  ground (
                    arith,
                    found,
                    new,
                    mentions-add_new k (subtree_of records r.state_id) targets,
                  ))))
        ]
      ]

  under-listed :
      (rs : List PersistentState) (targets : List String)
      → (mentions k targets ≡ true) ⊎ IsUnder records k rs
      → mentions k (targets_of records rs targets) ≡ true
  unfolding targets_of
  under-listed [] targets (inl m) = m
  under-listed [] targets (inr u) = IsUnder_nil u
  under-listed (r ∷ rs) targets (inl m) =
      let nodes = subtree_of records r.state_id in
      under-listed rs (add_new nodes targets)
        (inl (ground (arith, m, mentions-add_new k nodes targets)))
  under-listed (r ∷ rs) targets (inr u) =
      let nodes = subtree_of records r.state_id in
      elim (IsUnder-cases r rs u) [
        | inr under ↦ under-listed rs (add_new nodes targets) (inr under)
        | inl reached ↦
            let inside = (subtree-Reaches records r.state_id k).1 reached in
            under-listed rs (add_new nodes targets)
              (inl (ground (arith, inside, mentions-add_new k nodes targets)))
      ]

  under-targets :
      (rs : List PersistentState)
      → IsUnder records k rs
      → mentions k (targets_of records rs []) ≡ true
  under-targets rs u = under-listed rs [] (inr u)

  outside-targets :
      (rs : List PersistentState)
      → (IsUnder records k rs → ⊥)
      → mentions k (targets_of records rs []) ≡ false
  outside-targets rs out = elim (Bool-cases (mentions k (targets_of records rs []))) [
    | inr free ↦ free
    | inl listed ↦ elim (listed-IsUnder rs [] listed) [
      | inl m ↦ absurd (ground (arith, m, mentions-nil k))
      | inr under ↦ absurd (out under)
    ]
  ]

module _ ⦃B : Backend⦄ where
  -- A registry that has lost the nodes, and whose scheduler has lost their requests, and no other.
  record Dropped (nodes : List String) (s t : Registry) : Type 0 where
    agrees : Agrees t.scheduler
    requests :
        (k : String)
        → lookup string_dec k t.scheduler.requests
          ≡ (if mentions k nodes then none else lookup string_dec k s.scheduler.requests)

  drop_node-Dropped :
      (id : String) (s : Registry)
      → Agrees s.scheduler
      → (t : Registry) × (drop_node id s ≡ ok tt t) × Dropped (id ∷ []) s t
  unfolding drop_node
  drop_node-Dropped id s a =
      let (q, outcome, agrees, requests) = release-table s.scheduler id a in
      let t = record s { records = remove string_dec id s.records; scheduler = q } in
      let dropped : Dropped (id ∷ []) s t = record { agrees = agrees; requests = requests } in
      elim outcome [
        | inl done ↦ (t, ground (arith, done), dropped)
        | inr unknown ↦ (t, ground (arith, unknown), dropped)
      ]

  drop_each-Dropped :
      (nodes : List String) (s : Registry)
      → Agrees s.scheduler
      → (t : Registry) × (for_each nodes drop_node s ≡ ok tt t) × Dropped nodes s t
  drop_each-Dropped [] s a =
      (s, refl, record { agrees = a; requests = λ k. ground (arith, mentions-nil k) })
  drop_each-Dropped (id ∷ nodes) s a =
      let (r, one, d) = drop_node-Dropped id s a in
      let (t, rest, l) = drop_each-Dropped nodes r d.agrees in
      (
        t,
        ground (arith, one, rest),
        record {
          agrees = l.agrees;
          requests = λ k. ground (
            arith,
            l.requests k,
            d.requests k,
            mentions-cons k id nodes,
            mentions-cons k id [],
            mentions-nil k,
          );
        },
      )

  -- What a release does: the states and all their descendants are gone, from the registry and from the
  -- scheduler, and every other record and request stays.
  pub record Released (rs : List PersistentState) (s t : Registry) : Type 0 where
    pub gone :
        (k : String)
        → IsUnder s.records k rs
        → (lookup string_dec k t.records ≡ none) × (lookup string_dec k t.scheduler.requests ≡ none)
    pub kept :
        (k : String)
        → (IsUnder s.records k rs → ⊥)
        → (lookup string_dec k t.records ≡ lookup string_dec k s.records)
          × (lookup string_dec k t.scheduler.requests ≡ lookup string_dec k s.scheduler.requests)
    pub forest : IsForest t.records
    pub agrees : Agrees t.scheduler

  -- From records that form a forest and a scheduler whose request table agrees with its pool, a
  -- release of any states returns: the states and all their descendants are gone, from the registry
  -- and from the scheduler, every other record and request stays, no record has lost its parent, and
  -- the table still agrees with the pool.
  pub release_records-Released :
      (rs : List PersistentState) (s : Registry)
      → IsForest s.records
      → Agrees s.scheduler
      → (t : Registry) × (release_records rs s ≡ ok tt t) × Released rs s t
  unfolding release_records
  release_records-Released rs s f a =
      let nodes = targets_of s.records rs [] in
      let (t, done, d) = drop_each-Dropped nodes s a in
      let left = drop_each-records nodes s t done in
      let look = λ (k : String).
        ap (lookup string_dec k) left ∙ lookup-remove_all nodes s.records k f.distinct in
      let closed =
        targets-ClosedUnder s.records rs []
          (λ x y inside _. absurd (ground (arith, mentions-nil x, inside))) in
      (
        t,
        done,
        record {
          gone = λ k u.
              let listed = under-targets s.records k rs u in
              (ground (arith, look k, listed), ground (arith, d.requests k, listed));
          kept = λ k out.
              let free = outside-targets s.records k rs out in
              (ground (arith, look k, free), ground (arith, d.requests k, free));
          forest = subst IsForest (sym left) (remove_all-IsForest nodes s.records closed f);
          agrees = d.agrees;
        },
      )
