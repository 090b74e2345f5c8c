-- ===== src/Registry/Reachable.antt =====
-- src/rwkv_agent/persistent_state.py, descendants_of: the walk lists the descendants and no other.
use rwkv_agent.Base.{
  ℕ, zero, suc, ◌≡◌, ◌↔◌, inl, inr, sym, subst, String, true, List, [], ◌∷◌, ◌++◌, string_dec,
  length, mentions, mentions-nil, mentions-cons, mentions-append, arith, Bool-cases, List-cases,
}
use rwkv_agent.Registry.{
  Records, Walk, children_of, visit, walk_step, walk_from, descendants_of, subtree_of,
}
use rwkv_agent.Registry.Descendants.{subtree-closed, walk_from-done, walk_from-next}

-- The key itself, the records whose parent it is, those whose parent is one of these, and so on.
pub data Reaches (records : Records) (id : String) : String → Type 0 where
  itself : Reaches records id id
  down :
      {x y : String}
      → Reaches records id x
      → mentions y (children_of records x) ≡ true
      → Reaches records id y

abbrev AllReached : Records → String → List String → Type 0
AllReached records id ys = (y : String) → mentions y ys ≡ true → Reaches records id y

module _ (records : Records) (id : String) where
  none-AllReached : AllReached records id []
  none-AllReached y m = absurd (ground (arith, m, mentions-nil y))

  cons-AllReached :
      (x : String) (xs : List String)
      → Reaches records id x
      → AllReached records id xs
      → AllReached records id (x ∷ xs)
  cons-AllReached x xs r a y m = elim (string_dec y x) [
    | yes e ↦ subst (Reaches records id) (sym e) r
    | no other ↦ a y (ground (arith, m, mentions-cons y x xs))
  ]

  append-AllReached :
      (xs ys : List String)
      → AllReached records id xs
      → AllReached records id ys
      → AllReached records id (xs ++ ys)
  append-AllReached xs ys a b y m = elim (Bool-cases (mentions y xs)) [
    | inl left ↦ a y left
    | inr other ↦ b y (ground (arith, m, other, mentions-append y xs ys))
  ]

  tail-AllReached :
      (x : String) (xs : List String) → AllReached records id (x ∷ xs) → AllReached records id xs
  tail-AllReached x xs a y m = a y (ground (arith, m, mentions-cons y x xs))

  -- A walk that has listed and pushed reached nodes only.
  record IsSound (w : Walk) : Type 0 where
    listed : AllReached records id w.out
    pushed : AllReached records id w.stack

  visit-IsSound :
      (children : List String) (w : Walk)
      → AllReached records id children
      → IsSound w
      → IsSound (visit children w)
  unfolding visit
  visit-IsSound [] w c s = s
  visit-IsSound (child ∷ children) w c s = elim (Bool-cases (mentions child w.seen)) [
    | inl old ↦ rw old (visit-IsSound children w (tail-AllReached child children c) s)
    | inr new ↦
        let reached = c child (ground (arith, mentions-cons child child children)) in
        rw new (
          visit-IsSound children _ (tail-AllReached child children c) (record {
            listed =
                append-AllReached w.out (child ∷ []) s.listed
                  (cons-AllReached child [] reached none-AllReached);
            pushed = cons-AllReached child w.stack reached s.pushed;
          }))
  ]

  step-IsSound :
      (current : String) (rest : List String) (w : Walk)
      → IsSound w
      → w.stack ≡ current ∷ rest
      → IsSound (walk_step records current rest w)
  unfolding walk_step
  step-IsSound current rest w s e =
      let pushed = subst (AllReached records id) e s.pushed in
      let here = pushed current (ground (arith, mentions-cons current current rest)) in
      visit-IsSound (children_of records current) (record w { stack = rest }) (λ y c. down here c)
        (record { listed = s.listed; pushed = tail-AllReached current rest pushed })

  walk_from-IsSound : (fuel : ℕ) (w : Walk) → IsSound w → IsSound (walk_from fuel records w)
  unfolding walk_from
  walk_from-IsSound zero w s = s
  walk_from-IsSound (suc fuel) w s = elim (List-cases w.stack) [
    | inl done ↦ subst IsSound (sym (walk_from-done fuel records w done)) s
    | inr (current, rest, e) ↦ subst IsSound (sym (walk_from-next fuel records w current rest e)) (
        walk_from-IsSound fuel (walk_step records current rest w) (step-IsSound current rest w s e))
  ]

  descendants_of-AllReached : AllReached records id (descendants_of records id)
  unfolding descendants_of
  descendants_of-AllReached =
      (walk_from-IsSound (suc (length records))
        (record { out = []; seen = id ∷ []; stack = id ∷ [] })
        (record {
          listed = none-AllReached;
          pushed = cons-AllReached id [] itself none-AllReached;
        })).listed

  -- The subtree of a key is what the key reaches: itself and all its descendants, and nothing else,
  -- also when the records have a cycle.
  pub subtree-Reaches :
      (y : String) → (mentions y (subtree_of records id) ≡ true) ↔ Reaches records id y
  subtree-Reaches y = (to y, from y)
    where
      to : (y : String) → mentions y (subtree_of records id) ≡ true → Reaches records id y
      to = cons-AllReached id (descendants_of records id) itself descendants_of-AllReached

      from : (y : String) → Reaches records id y → mentions y (subtree_of records id) ≡ true
      from y itself = ground (arith, mentions-cons id id (descendants_of records id))
      from y (down {x = x} r c) = subtree-closed records id x y (from x r) c
