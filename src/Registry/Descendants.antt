-- ===== src/Registry/Descendants.antt =====
-- src/rwkv_agent/persistent_state.py, descendants_of: the walk ends within its fuel, and what it has seen is closed under children.
use rwkv_agent.Base.{
  ℕ, zero, suc, ◌≤◌, ◌≡◌, ◌⊎◌, inl, inr, String, true, List, [], ◌∷◌, string_dec, length, mentions,
  mentions-nil, mentions-cons, arith, List-cases, subst, sym,
}
use rwkv_agent.Registry.{
  Records, Walk, children_of, visit, walk_step, walk_from, descendants_of, subtree_of,
}
use rwkv_agent.Registry.Rounds.{
  Grows, visit-Grows, Closed, walk_step-Closed, unseen, bound, walk_step-bound,
}

-- What is seen stays seen, and whatever is newly seen is listed.
record Lists (w u : Walk) : Type 0 where
  seen : (x : String) → mentions x w.seen ≡ true → mentions x u.seen ≡ true
  fresh :
      (x : String)
      → mentions x u.seen ≡ true
      → (mentions x w.seen ≡ true) ⊎ (mentions x u.out ≡ true)
  out : (x : String) → mentions x w.out ≡ true → mentions x u.out ≡ true
  known :
      (x : String)
      → mentions x u.out ≡ true
      → (mentions x w.out ≡ true) ⊎ (mentions x u.seen ≡ true)

Lists-refl : (w : Walk) → Lists w w
Lists-refl w = record {
  seen = λ x h. h;
  fresh = λ x h. inl h;
  out = λ x h. h;
  known = λ x h. inl h;
}

Lists-step :
    (records : Records) (current : String) (rest : List String) (w u : Walk)
    → Lists (walk_step records current rest w) u
    → Lists w u
unfolding walk_step
Lists-step records current rest w u l = record {
  seen = λ x h. l.seen x (g.seen x h);
  fresh = λ x h. elim (l.fresh x h) [
    | inr listed ↦ inr listed
    | inl known ↦ elim (g.fresh x known) [
      | inl old ↦ inl old
      | inr (_, listed) ↦ inr (l.out x listed)
    ]
  ];
  out = λ x h. l.out x (g.out x h);
  known = λ x h. elim (l.known x h) [
    | inr seen ↦ inr seen
    | inl old ↦ elim (g.known x old) [ inl older ↦ inl older | inr seen ↦ inr (l.seen x seen) ]
  ];
}
  where
    popped : Walk
    popped = record w { stack = rest }

    g : Grows popped (visit (children_of records current) popped)
    g = visit-Grows (children_of records current) popped

record Ended (records : Records) (w u : Walk) : Type 0 where
  empty : u.stack ≡ []
  closed : Closed records u
  lists : Lists w u

pub walk_from-done :
    (fuel : ℕ) (records : Records) (w : Walk) → w.stack ≡ [] → walk_from (suc fuel) records w ≡ w
unfolding walk_from
walk_from-done fuel records w e = ground arith

pub walk_from-next :
    (fuel : ℕ) (records : Records) (w : Walk) (current : String) (rest : List String)
    → w.stack ≡ current ∷ rest
    → walk_from (suc fuel) records w ≡ walk_from fuel records (walk_step records current rest w)
unfolding walk_from
walk_from-next fuel records w current rest e = ground arith

-- With fuel for the bound, the loop ends with an empty stack, and every seen key has its children
-- seen.
walk_from-Ended :
    (fuel : ℕ) (records : Records) (w : Walk)
    → bound records w ≤ fuel
    → Closed records w
    → Ended records w (walk_from fuel records w)
unfolding walk_from
walk_from-Ended zero records w b closed = record {
  empty = ground arith;
  closed = closed;
  lists = Lists-refl w;
}
walk_from-Ended (suc fuel) records w b closed = elim (List-cases w.stack) [
  | inl done ↦
      subst (Ended records w) (sym (walk_from-done fuel records w done))
        (record { empty = done; closed = closed; lists = Lists-refl w })
  | inr (current, rest, e) ↦
      let next = walk_step records current rest w in
      let smaller = walk_step-bound records current rest w e in
      let r =
        walk_from-Ended fuel records next (omega (arith, smaller))
          (walk_step-Closed records current rest w e closed) in
      subst (Ended records w) (sym (walk_from-next fuel records w current rest e)) (record {
        empty = r.empty;
        closed = r.closed;
        lists = Lists-step records current rest w (walk_from fuel records next) r.lists;
      })
]

unseen-le-length : (records : Records) (seen : List String) → unseen records seen ≤ length records
unseen-le-length [] seen = omega arith
unseen-le-length ((key, r) ∷ records) seen = ground (arith, unseen-le-length records seen)

-- The subtree of a key is closed: with a node it has every record whose parent the node is.
pub subtree-closed :
    (records : Records) (id x y : String)
    → mentions x (subtree_of records id) ≡ true
    → mentions y (children_of records x) ≡ true
    → mentions y (subtree_of records id) ≡ true
unfolding descendants_of
subtree-closed records id x y inside child = elim (string_dec x id) [
  | yes root ↦ listed y (found (r.lists.seen x (ground (arith, mentions-cons x id []))))
  | no other ↦ elim (r.lists.known x (ground (arith, mentions-cons x id last.out))) [
    | inl old ↦ absurd (ground (arith, mentions-nil x))
    | inr seen ↦ listed y (found seen)
  ]
]
  where
    start : Walk
    start = record { out = []; seen = id ∷ []; stack = id ∷ [] }

    last : Walk
    last = walk_from (suc (length records)) records start

    start-Closed : Closed records start
    start-Closed a b seen under = inl seen

    r : Ended records start last
    r =
        walk_from-Ended (suc (length records)) records start
          (omega (arith, unseen-le-length records (id ∷ []))) start-Closed

    found : mentions x last.seen ≡ true → mentions y last.seen ≡ true
    found seen = elim (r.closed x y seen child) [
      | inl stacked ↦ absurd (ground (arith, r.empty, mentions-nil x))
      | inr known ↦ known
    ]

    listed : (a : String) → mentions a last.seen ≡ true → mentions a (id ∷ last.out) ≡ true
    listed a seen = elim (r.lists.fresh a seen) [
      | inl old ↦ ground (arith, mentions-nil a, mentions-cons a id [], mentions-cons a id last.out)
      | inr new ↦ ground (arith, mentions-cons a id last.out)
    ]
