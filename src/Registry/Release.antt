-- ===== src/Registry/Release.antt =====
-- src/rwkv_agent/persistent_state.py: what release and expiry leave in the registry.
use rwkv_agent.Base.{
  ◌-◌, ◌≡◌, refl, subst, sym, ◌∙◌, ap, ◌⊎◌, inl, inr, String, true, false, List, [], ◌∷◌, map, ltb,
  string_dec, mentions, mentions-nil, mentions-cons, lookup, remove, has, for_each, arith,
  Bool-cases, ok, raise, Outcome, after, is_key_error, Error,
}
use rwkv_agent.Backend.{Backend}
use rwkv_agent.Scheduler.Requests
use rwkv_agent.Registry.{
  Registry, Records, subtree_of, drop_node, expire_one, expire_each, cleanup_expired, any_protected,
  subtree_last_active,
}
use rwkv_agent.Registry.Orphans.{
  IsForest, remove_all, lookup-remove_all, remove_all-IsForest, subtree-ClosedUnder,
}

-- A node is protected as soon as one of the nodes is.
any_protected-out :
    (k : String) (protected nodes : List String)
    → mentions k protected ≡ true
    → any_protected protected nodes ≡ false
    → mentions k nodes ≡ false
any_protected-out k protected [] p a = mentions-nil k
any_protected-out k protected (n ∷ nodes) p a = elim (string_dec k n) [
  | yes e ↦ absurd (ground (arith, p, a, e))
  | no other ↦
      ground (arith, mentions-cons k n nodes, any_protected-out k protected nodes p (ground arith))
]

pub Outcome-cases :
    {S A : Type 0} (o : Outcome S A)
    → ((a : A) × (s : S) × (o ≡ ok a s)) ⊎ ((e : Error) × (s : S) × (o ≡ raise e s))
Outcome-cases (ok a s) = inl (a, s, refl)
Outcome-cases (raise e s) = inr (e, s, refl)

-- What expiry may do to the records: it leaves a forest, and what is protected in place.
pub record Spared (protected : List String) (before now : Records) : Type 0 where
  pub forest : IsForest now
  pub in_place :
      (k : String)
      → mentions k protected ≡ true
      → lookup string_dec k now ≡ lookup string_dec k before

module _ ⦃B : Backend⦄ where
  drop_node-records :
      (id : String) (s : Registry)
      → (after (drop_node id s)).records ≡ remove string_dec id s.records
  unfolding drop_node
  drop_node-records id s = elim (Outcome-cases (Requests.release id s.scheduler)) [
    | inl (_, q, done) ↦ ground (arith, done)
    | inr (e, q, failed) ↦ elim (Bool-cases (is_key_error e)) [
      | inl key ↦ ground (arith, failed, key)
      | inr other ↦ ground (arith, failed, other)
    ]
  ]

  pub drop_each-records :
      (nodes : List String) (s t : Registry)
      → for_each nodes drop_node s ≡ ok tt t
      → t.records ≡ remove_all nodes s.records
  unfolding remove_all
  drop_each-records [] s t e = ground arith
  drop_each-records (id ∷ nodes) s t e = elim (Outcome-cases (drop_node id s)) [
    | inr (x, r, failed) ↦ absurd (ground (arith, e, failed))
    | inl (_, r, done) ↦
        let dropped = drop_node-records id s in
        let rest = drop_each-records nodes r t (ground (arith, e, done)) in
        rest
        ∙ ap (remove_all nodes)
            (ap (λ (o : Outcome Registry (Unit {0})). (after o).records) (sym done) ∙ dropped)
  ]

  subtree-Spared :
      (protected : List String) (id : String) (s t : Registry)
      → IsForest s.records
      → any_protected protected (subtree_of s.records id) ≡ false
      → for_each (subtree_of s.records id) drop_node s ≡ ok tt t
      → Spared protected s.records t.records
  subtree-Spared protected id s t f free e = record {
    forest =
        subst IsForest (sym gone)
          (remove_all-IsForest nodes s.records (subtree-ClosedUnder s.records id) f);
    in_place = λ k p. ground (
      arith,
      gone,
      lookup-remove_all nodes s.records k f.distinct,
      any_protected-out k protected nodes p free,
    );
  }
    where
      nodes : List String
      nodes = subtree_of s.records id

      gone : t.records ≡ remove_all nodes s.records
      gone = drop_each-records nodes s t e

  Spared-refl :
      (protected : List String) (s : Registry)
      → IsForest s.records
      → Spared protected s.records s.records
  Spared-refl protected s f = record { forest = f; in_place = λ k p. refl }

  Spared-eq :
      (protected : List String) (s r t : Registry)
      → r ≡ t
      → Spared protected s.records r.records
      → Spared protected s.records t.records
  Spared-eq protected s r t e = subst (λ (q : Registry). Spared protected s.records q.records) e

  Spared-trans :
      (protected : List String) (s r t : Registry)
      → Spared protected s.records r.records
      → Spared protected r.records t.records
      → Spared protected s.records t.records
  Spared-trans protected s r t a b = record {
    forest = b.forest;
    in_place = λ k p. b.in_place k p ∙ a.in_place k p;
  }

  expire_one-Spared :
      (protected : List String) (id : String) (found found' : List String × List String)
      (s t : Registry)
      → IsForest s.records
      → expire_one protected id found s ≡ ok found' t
      → Spared protected s.records t.records
  unfolding expire_one
  expire_one-Spared protected id (expired, handled) found' s t f e =
      elim (Bool-cases (mentions id handled)) [
        | inl h1 ↦ same_state (ground (arith, e, h1))
        | inr h1 ↦ elim (Bool-cases (mentions id protected)) [
          | inl h2 ↦ same_state (ground (arith, e, h1, h2))
          | inr h2 ↦ elim (Bool-cases (has string_dec id s.records)) [
            | inr h3 ↦ same_state (ground (arith, e, h1, h2, h3))
            | inl h3 ↦
                elim (Bool-cases (ltb (s.now - subtree_last_active s.records id) s.ttl_seconds)) [
                  | inl h4 ↦ same_state (ground (arith, e, h1, h2, h3, h4))
                  | inr h4 ↦ elim (Bool-cases (any_protected protected (subtree_of s.records id))) [
                    | inl h5 ↦ same_state (ground (arith, e, h1, h2, h3, h4, h5))
                    | inr h5 ↦
                        elim (Outcome-cases (for_each (subtree_of s.records id) drop_node s)) [
                          | inr (x, r, failed) ↦
                              absurd (ground (arith, e, h1, h2, h3, h4, h5, failed))
                          | inl (_, r, done) ↦
                              Spared-eq protected s r t
                                (ground (arith, e, h1, h2, h3, h4, h5, done))
                                (subtree-Spared protected id s r f h5 done)
                        ]
                  ]
                ]
          ]
        ]
      ]
    where
      same_state : s ≡ t → Spared protected s.records t.records
      same_state k = Spared-eq protected s s t k (Spared-refl protected s f)

  expire_each-Spared :
      (protected ids : List String) (found found' : List String × List String) (s t : Registry)
      → IsForest s.records
      → expire_each protected ids found s ≡ ok found' t
      → Spared protected s.records t.records
  unfolding expire_each
  expire_each-Spared protected [] found found' s t f e =
      Spared-eq protected s s t (ground arith) (Spared-refl protected s f)
  expire_each-Spared protected (id ∷ ids) found found' s t f e =
      elim (Outcome-cases (expire_one protected id found s)) [
        | inr (x, r, failed) ↦ absurd (ground (arith, e, failed))
        | inl (mid, r, done) ↦
            let one = expire_one-Spared protected id found mid s r f done in
            Spared-trans protected s r t one
              (expire_each-Spared protected ids mid found' r t one.forest (ground (arith, e, done)))
      ]

  -- From a forest, a `cleanup_expired` that returns has left every protected record in place, and a
  -- forest: no record that stays has lost its parent.
  pub cleanup_expired-spares :
      (protected found : List String) (s t : Registry)
      → IsForest s.records
      → cleanup_expired protected s ≡ ok found t
      → Spared protected s.records t.records
  unfolding cleanup_expired
  cleanup_expired-spares protected found s t f e =
      elim (Outcome-cases (expire_each protected (map (λ e. e.0) s.records) ([], []) s)) [
        | inr (x, r, failed) ↦ absurd (ground (arith, e, failed))
        | inl (mid, r, done) ↦
            Spared-eq protected s r t (ground (arith, e, done))
              (expire_each-Spared protected (map (λ e. e.0) s.records) ([], []) mid s r f done)
      ]
