-- ===== src/StatePool/Atomic.antt =====
-- `allocate_many` is all or nothing: on an error every slot that it took goes back, and no other
-- handle notices.
use rwkv_agent.Base.{
  ℕ, ◌+◌, ◌≡◌, ◌≢◌, refl, sym, ◌∙◌, ◌⊎◌, inl, inr, String, true, List, [], ◌∷◌, ◌++◌, ltb, length,
  NotIn, AllDistinct, arith, ok, raise, Error, Outcome, value_error, subst, Bool-cases,
  state_pool_full, on_error,
}
use native.Mathlib.Nat.{zero-add}
use rwkv_agent.Backend.{Backend}
use rwkv_agent.StatePool.{
  StatePool, StateHandle, allocate, release_many, allocate_each, allocate_many, slots, vacate,
}
use rwkv_agent.StatePool.Invariant.{IsValid}
use rwkv_agent.StatePool.Handles.{
  Allocated, is_live, allocate_lem, allocate-Allocated, allocate-keeps, release_lem, vacate-keeps,
  vacate-live,
}
use rwkv_agent.StatePool.Batches.{AllLive}

module _ ⦃B : Backend⦄ where
  -- The live handles of `p` outside `hs` are live in `q`, with the rows they had.
  abbrev pub Keeps : StatePool → List StateHandle → StatePool → Type 0
  Keeps p hs q =
      (g : StateHandle)
      → is_live p g ≡ true
      → NotIn g.slot (slots hs)
      → (is_live q g ≡ true) × (B.row q.state g.slot ≡ B.row p.state g.slot)

  -- `q` is `p` after the slots of `hs` were taken.
  pub record Grown (p : StatePool) (hs : List StateHandle) (q : StatePool) : Type 0 where
    pub valid : IsValid q
    pub live : AllLive q hs
    pub distinct : AllDistinct (slots hs)
    pub taken : length q.free + length hs ≡ length p.free
    pub keeps :
        (g : StateHandle)
        → is_live p g ≡ true
        → (is_live q g ≡ true)
          × (B.row q.state g.slot ≡ B.row p.state g.slot)
          × NotIn g.slot (slots hs)

  NotIn-snoc :
      (i : ℕ) (hs : List StateHandle) (h : StateHandle)
      → NotIn i (slots hs)
      → i ≢ h.slot
      → NotIn i (slots (hs ++ h ∷ []))
  NotIn-snoc i [] h n d = (d, tt)
  NotIn-snoc i (x ∷ hs) h n d = (n.0, NotIn-snoc i hs h n.1 d)

  AllDistinct-snoc :
      (hs : List StateHandle) (h : StateHandle)
      → AllDistinct (slots hs)
      → NotIn h.slot (slots hs)
      → AllDistinct (slots (hs ++ h ∷ []))
  AllDistinct-snoc [] h d n = (tt, tt)
  AllDistinct-snoc (x ∷ hs) h d n =
      (NotIn-snoc x.slot hs h d.0 (λ e. n.0 (sym e)), AllDistinct-snoc hs h d.1 n.1)

  AllLive-snoc :
      (p q : StatePool) (hs : List StateHandle) (h : StateHandle)
      → ((g : StateHandle) → is_live p g ≡ true → is_live q g ≡ true)
      → AllLive p hs
      → is_live q h ≡ true
      → AllLive q (hs ++ h ∷ [])
  AllLive-snoc p q [] h keep l m = (m, tt)
  AllLive-snoc p q (x ∷ hs) h keep l m = (keep x l.0, AllLive-snoc p q hs h keep l.1 m)

  NotIn-live :
      (i : ℕ) (p : StatePool) (hs : List StateHandle)
      → ((g : StateHandle) → is_live p g ≡ true → g.slot ≢ i)
      → AllLive p hs
      → NotIn i (slots hs)
  NotIn-live i p [] other l = tt
  NotIn-live i p (x ∷ hs) other l = ((λ e. other x l.0 (sym e)), NotIn-live i p hs other l.1)

  AllLive-keep :
      (i : ℕ) (p q : StatePool) (hs : List StateHandle)
      → ((g : StateHandle)
          → is_live p g ≡ true
          → g.slot ≢ i
          → (is_live q g ≡ true) × (B.row q.state g.slot ≡ B.row p.state g.slot))
      → AllLive p hs
      → NotIn i (slots hs)
      → AllLive q hs
  AllLive-keep i p q [] keep l n = tt
  AllLive-keep i p q (x ∷ hs) keep l n =
      ((keep x l.0 (λ e. n.0 (sym e))).0, AllLive-keep i p q hs keep l.1 n.1)

  length-snoc : (hs : List StateHandle) (h : StateHandle) → length (hs ++ h ∷ []) ≡ length hs + 1
  length-snoc [] h = omega arith
  length-snoc (x ∷ hs) h = omega (arith, length-snoc hs h)

  -- One more slot.
  allocate-Grown :
      (p q r : StatePool) (hs : List StateHandle) (name : String) (h : StateHandle)
      → Grown p hs q
      → allocate name q ≡ ok h r
      → Grown p (hs ++ h ∷ []) r
  allocate-Grown p q r hs name h g e = record {
    valid = a.valid;
    live = AllLive-snoc q r hs h (λ x l. (keep x l).0) g.live a.live;
    distinct =
        AllDistinct-snoc hs h g.distinct (NotIn-live h.slot q hs (λ x l. (keep x l).2) g.live);
    taken = omega (arith, g.taken, a.taken, length-snoc hs h);
    keeps = λ x l.
        let (now, same_row, out) = g.keeps x l in
        let (still, same_row', other) = keep x now in
        (still, same_row' ∙ same_row, NotIn-snoc x.slot hs h out other);
  }
    where
      a : Allocated q name h r
      a = allocate-Allocated q g.valid name h r e

      keep :
          (x : StateHandle)
          → is_live q x ≡ true
          → (is_live r x ≡ true) × (B.row r.state x.slot ≡ B.row q.state x.slot) × (x.slot ≢ h.slot)
      keep x l = allocate-keeps q g.valid name h x r e l

  -- What `release_many` leaves: the slots of `hs` are free, and the other handles notice nothing.
  pub record Released (q : StatePool) (hs : List StateHandle) (r : StatePool) : Type 0 where
    pub done : release_many hs q ≡ ok tt r
    pub valid : IsValid r
    pub freed : length r.free ≡ length q.free + length hs
    pub keeps : Keeps q hs r

  release_first :
      (h : StateHandle) (hs : List StateHandle) (q r : StatePool)
      → is_live q h ≡ true
      → IsValid q
      → Released (vacate h.slot q) hs r
      → Released q (h ∷ hs) r
  unfolding release_many
  release_first h hs q r live v more = record {
    done = ground (arith, release_lem q h, more.done);
    valid = more.valid;
    freed = omega (arith, more.freed);
    keeps = λ g l n.
        let (still, kept) = vacate-keeps q v h g live l n.0 in
        let (still', kept') = more.keeps g still n.1 in (still', kept' ∙ kept);
  }

  -- Releasing live handles of distinct slots succeeds, and touches no other handle.
  pub release_many-lem :
      (hs : List StateHandle) (q : StatePool)
      → IsValid q
      → AllLive q hs
      → AllDistinct (slots hs)
      → (r : StatePool) × Released q hs r
  unfolding release_many
  release_many-lem [] q v l d =
      (q, record { done = refl; valid = v; freed = omega arith; keeps = λ g live n. (live, refl) })
  release_many-lem (h ∷ hs) q v l d =
      let (r, more) =
        release_many-lem hs (vacate h.slot q) (vacate-live q v h l.0)
          (AllLive-keep h.slot q (vacate h.slot q) hs (λ g live n. vacate-keeps q v h g l.0 live n)
            l.1 d.0)
          d.1 in
      (r, release_first h hs q r l.0 v more)

  -- What a failed `allocate_each` leaves: the slots of `hs` are free again.
  pub record Restored (p q : StatePool) : Type 0 where
    pub valid : IsValid q
    pub freed : length q.free ≡ length p.free
    pub keeps :
        (g : StateHandle)
        → is_live p g ≡ true
        → (is_live q g ≡ true) × (B.row q.state g.slot ≡ B.row p.state g.slot)

  Grown-Restored :
      (p q r : StatePool) (hs : List StateHandle) → Grown p hs q → Released q hs r → Restored p r
  Grown-Restored p q r hs g m = record {
    valid = m.valid;
    freed = omega (arith, m.freed, g.taken);
    keeps = λ x l.
        let (now, same_row, out) = g.keeps x l in
        let (still, same_row') = m.keeps x now out in (still, same_row' ∙ same_row);
  }

  -- One allocation under the `try`, from a pool where `hs` were taken.
  allocate_next :
      (p q : StatePool) (hs : List StateHandle) (name : String)
      → Grown p hs q
      → ((h : StateHandle) × (r : StatePool) × (on_error (allocate name) (release_many hs) q
            ≡ ok h r)
          × Grown p (hs ++ h ∷ []) r)
        ⊎ ((e : Error) × (r : StatePool) × (on_error (allocate name) (release_many hs) q
              ≡ raise e r)
            × Restored p r)
  allocate_next p q hs name g =
      let (r', m) = release_many-lem hs q g.valid g.live g.distinct in
      elim (allocate_lem q g.valid name) [
        | inl (h, r, e, _) ↦ inl (h, r, ground arith, allocate-Grown p q r hs name h g e)
        | inr (inl (_, e)) ↦
            inr (value_error, r', ground (arith, m.done), Grown-Restored p q r' hs g m)
        | inr (inr (_, e)) ↦
            inr (state_pool_full, r', ground (arith, m.done), Grown-Restored p q r' hs g m)
      ]

  -- Slots for all the names, or the pool as it was.
  abbrev pub AllOrNothing : StatePool → ℕ → Outcome StatePool (List StateHandle) → Type 0
  AllOrNothing p n (ok hs q) = Grown p hs q × (length hs ≡ n)
  AllOrNothing p n (raise e q) = Restored p q

  allocate_each-all :
      (names : List String) (p q : StatePool) (hs : List StateHandle)
      → Grown p hs q
      → AllOrNothing p (length hs + length names) (allocate_each hs names q)
  unfolding allocate_each
  allocate_each-all [] p q hs g = (g, omega arith)
  allocate_each-all (name ∷ names) p q hs g = elim (allocate_next p q hs name g) [
    | inr (e, r, failed, restored) ↦ rw (failed, AllOrNothing) restored
    | inl (h, r, done, grown) ↦
        rw (done, AllOrNothing)
          (subst (λ n. AllOrNothing p n (allocate_each (hs ++ h ∷ []) names r))
            (omega (arith, length-snoc hs h)) (allocate_each-all names p r (hs ++ h ∷ []) grown))
  ]

  pub Restored-refl : (p : StatePool) → IsValid p → Restored p p
  Restored-refl p v = record { valid = v; freed = refl; keeps = λ g l. (l, refl) }

  pub Grown-refl : (p : StatePool) → IsValid p → Grown p [] p
  Grown-refl p v = record {
    valid = v;
    live = tt;
    distinct = tt;
    taken = omega arith;
    keeps = λ g l. (l, refl, tt);
  }

  -- On a valid pool, `allocate_many` takes a distinct live slot for each name, or raises and leaves as many slots
  -- free as before; either way every handle that was live stays so, with its row.
  pub allocate_many-all :
      (names : List String) (p : StatePool)
      → IsValid p
      → AllOrNothing p (length names) (allocate_many names p)
  unfolding allocate_many
  allocate_many-all names p v = elim (Bool-cases (ltb (length p.free) (length names))) [
    | inl short ↦ rw short (Restored-refl p v)
    | inr enough ↦
        rw (enough, AllOrNothing) (rw zero-add at (allocate_each-all names p p [] (Grown-refl p v)))
  ]
