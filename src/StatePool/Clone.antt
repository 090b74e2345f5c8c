-- ===== src/StatePool/Clone.antt =====
-- `clone_many`: the forked slots hold exact copies of the source row.
use rwkv_agent.Base.{
  ℕ, zero, suc, ◌<◌, ◌≡◌, refl, ◌∙◌, ◌⊎◌, inl, inr, String, true, List, [], ◌∷◌, map, some, ltb,
  length, get_elem?, lt_of_get_elem?, arith, Outcome, ok, raise, Error, Bool-cases, modify, pure,
  ◌>>=◌, ◌>>◌,
}
use rwkv_agent.Backend.{Backend}
use rwkv_agent.StatePool.{StatePool, StateHandle, allocate_many, clone_many, slots}
use rwkv_agent.StatePool.Invariant.{IsValid}
use rwkv_agent.StatePool.Handles.{is_live, validate_lem}
use rwkv_agent.StatePool.Batches.{AllLive}
use rwkv_agent.StatePool.Atomic.{
  Grown, Restored, AllOrNothing, allocate_many-all, Restored-refl, Grown-refl,
}

Outcome-cases :
    {S A : Type 0} (o : Outcome S A)
    → ((a : A) × (s : S) × (o ≡ ok a s)) ⊎ ((e : Error) × (s : S) × (o ≡ raise e s))
Outcome-cases (ok a s) = inl (a, s, refl)
Outcome-cases (raise e s) = inr (e, s, refl)

pub get_elem?-slots :
    (hs : List StateHandle) (k : ℕ) (h : StateHandle)
    → get_elem? hs k ≡ some h
    → get_elem? (map (λ h. h.slot) hs) k ≡ some h.slot
get_elem?-slots [] k h e = ground arith
get_elem?-slots (x ∷ hs) zero h e = ground arith
get_elem?-slots (x ∷ hs) (suc k) h e = get_elem?-slots hs k h e

module _ ⦃B : Backend⦄ where
  pub AllLive-get :
      (p : StatePool) (hs : List StateHandle) (k : ℕ) (h : StateHandle)
      → AllLive p hs
      → get_elem? hs k ≡ some h
      → is_live p h ≡ true
  AllLive-get p [] k h l e = absurd (cc)
  AllLive-get p (x ∷ hs) zero h l e = ground arith
  AllLive-get p (x ∷ hs) (suc k) h l e = AllLive-get p hs k h l.1 e

  pub AllLive-mono :
      (p q : StatePool) (hs : List StateHandle)
      → ((g : StateHandle) → is_live p g ≡ true → is_live q g ≡ true)
      → AllLive p hs
      → AllLive q hs
  AllLive-mono p q [] keep l = tt
  AllLive-mono p q (x ∷ hs) keep l = (keep x l.0, AllLive-mono p q hs keep l.1)

  pub slot_inside :
      (p : StatePool) (h : StateHandle) → IsValid p → is_live p h ≡ true → h.slot < B.size p.state
  slot_inside p h v live = ground (arith, v.slab)

  -- `q` is `p` with copies of the row of `source` in the new slots of `hs`.
  pub record Cloned (p : StatePool) (source : StateHandle) (hs : List StateHandle) (q : StatePool)
      : Type 0 where
    pub grown : Grown p hs q
    pub copies :
        (k : ℕ) (h : StateHandle)
        → get_elem? hs k ≡ some h
        → B.row q.state h.slot ≡ B.row p.state source.slot

  abbrev pub CloneResult :
      StatePool → StateHandle → ℕ → Outcome StatePool (List StateHandle) → Type 0
  CloneResult p source n (ok hs q) = Cloned p source hs q × (length hs ≡ n)
  CloneResult p source n (raise e q) = Restored p q

  copied-Cloned :
      (p q : StatePool) (source : StateHandle) (hs : List StateHandle)
      → is_live p source ≡ true
      → Grown p hs q
      → Cloned p source hs (record q {
        state = B.index_copy (slots hs) (B.expand (B.row q.state source.slot) (length hs)) q.state;
      })
  copied-Cloned p q source hs live g = record {
    grown = record {
      valid = record {
        slab = B.size-index_copy (slots hs) copies q.state ∙ g.valid.slab;
        generations = g.valid.generations;
        owned = g.valid.owned;
        vacant = g.valid.vacant;
        balanced = g.valid.balanced;
      };
      live = AllLive-mono q q hs (λ x l. l) g.live;
      distinct = g.distinct;
      taken = g.taken;
      keeps = λ x l.
          let (now, same_row, out) = g.keeps x l in
          (now, B.row-index_copy_other (slots hs) copies q.state x.slot out ∙ same_row, out);
    };
    copies = λ k h e.
        let named : get_elem? (slots hs) k ≡ some h.slot = get_elem?-slots hs k h e in
        let inside : h.slot < B.size q.state =
          slot_inside q h g.valid (AllLive-get q hs k h g.live e) in
        B.row-index_copy_named (slots hs) copies q.state k h.slot g.distinct named inside
        ∙ B.row-expand (B.row q.state source.slot) (length hs) k (lt_of_get_elem? hs k h e)
        ∙ (g.keeps source live).1;
  }
    where
      copies : B.Batch
      copies = B.expand (B.row q.state source.slot) (length hs)

  copied :
      {p : StatePool} (source : StateHandle) (names : List String)
      → is_live p source ≡ true
      → IsValid p
      → CloneResult p source (length names) (
          (allocate_many names >>= λ hs.
          (modify (λ q. record q {
            state =
                B.index_copy (slots hs) (B.expand (B.row q.state source.slot) (length hs)) q.state;
          })
            >> pure hs))
            p)
  copied {p} source names live v =
      let result = allocate_many-all names p v in
      elim (Outcome-cases (allocate_many names p)) [
        | inl (hs, q, e) ↦
            let (g, n) = rw (e, AllOrNothing) at result in
            rw (e, CloneResult) (copied-Cloned p q source hs live g, n)
        | inr (_, q, e) ↦ rw (e, CloneResult) (rw (e, AllOrNothing) at result)
      ]

  -- On a valid pool, `clone_many` makes a live copy of the source row in a slot of its own for each name, and changes
  -- no row that was live; or it raises, and the pool has as many free slots as before and every live
  -- handle its row.
  pub clone_many-copies :
      (p : StatePool) (source : StateHandle) (names : List String)
      → IsValid p
      → CloneResult p source (length names) (clone_many source names p)
  unfolding clone_many
  clone_many-copies p source [] v =
      (record { grown = Grown-refl p v; copies = λ k h e. absurd (cc) }, refl)
  clone_many-copies p source (name ∷ names) v =
      elim (Bool-cases (ltb p.max_batch_size (length (name ∷ names)))) [
        | inl wide ↦ rw (wide, CloneResult) (Restored-refl p v)
        | inr fits ↦ elim (Bool-cases (is_live p source)) [
          | inr dead ↦ rw (fits, validate_lem, dead, CloneResult) (Restored-refl p v)
          | inl live ↦
              rw (fits, validate_lem, live, CloneResult) (copied source (name ∷ names) live v)
        ]
      ]
