-- ===== src/StatePool/Batches.antt =====
-- Batched access to the slab: which batches pass validation, and what a forward pass writes,
-- whether the batch was borrowed from the slab or gathered into a workspace.
use rwkv_agent.Base.{
  ℕ, ◌≡◌, refl, sym, ◌⊎◌, inl, inr, true, List, [], ◌∷◌, ltb, ◌==◌, length, contains, NotIn,
  AllDistinct, NotIn-contains, contains-NotIn, arith, ok, raise, Error, stale_state_handle,
  value_error, Bool-cases, is_empty, Option-cases, lookup, insert, Dict, ℕ_discrete, ◌≤◌,
}
use rwkv_agent.Backend.{Backend}
use rwkv_agent.StatePool.{
  StatePool, StateHandle, commit, gather, workspace, validate_from, validate_unique, slots,
}
use rwkv_agent.StatePool.Handles.{is_live, validate_lem}

module _ ⦃B : Backend⦄ where
  abbrev pub AllLive : StatePool → List StateHandle → Type 0
  AllLive p [] = Unit {0}
  AllLive p (h ∷ hs) = (is_live p h ≡ true) × AllLive p hs

  abbrev NoneSeen : List ℕ → List StateHandle → Type 0
  NoneSeen seen [] = Unit {0}
  NoneSeen seen (h ∷ hs) = NotIn h.slot seen × NoneSeen seen hs

  -- Each handle is live, and no two name one slot.
  pub record IsBatch (p : StatePool) (hs : List StateHandle) : Type 0 where
    pub live : AllLive p hs
    pub distinct : AllDistinct (slots hs)

  not-seen-tail :
      (i : ℕ) (seen : List ℕ) (hs : List StateHandle)
      → NoneSeen (i ∷ seen) hs
      → NotIn i (slots hs) × NoneSeen seen hs
  not-seen-tail i seen [] n = (tt, tt)
  not-seen-tail i seen (h ∷ hs) n =
      let (later, rest) = not-seen-tail i seen hs n.1 in
      (((λ e. n.0.0 (sym e)), later), (n.0.1, rest))

  validate_from-cases :
      (seen : List ℕ) (hs : List StateHandle) (p : StatePool)
      → ((validate_from seen hs p ≡ ok tt p)
          × AllLive p hs
          × AllDistinct (slots hs)
          × NoneSeen seen hs)
        ⊎ ((e : Error) × (validate_from seen hs p ≡ raise e p))
  unfolding validate_from
  validate_from-cases seen [] p = inl (refl, tt, tt, tt)
  validate_from-cases seen (h ∷ hs) p = elim (Bool-cases (is_live p h)) [
    | inr dead ↦ inr (stale_state_handle, ground (arith, validate_lem p h))
    | inl live ↦ elim (Bool-cases (contains h.slot seen)) [
      | inl twice ↦ inr (value_error, ground (arith, validate_lem p h))
      | inr fresh ↦ elim (validate_from-cases (h.slot ∷ seen) hs p) [
        | inr (e, failed) ↦ inr (e, ground (arith, validate_lem p h))
        | inl (passed, l, d, n) ↦
            let (later, rest) = not-seen-tail h.slot seen hs n in
            inl (
              ground (arith, validate_lem p h),
              (live, l),
              (later, d),
              (NotIn-contains h.slot seen fresh, rest),
            )
      ]
    ]
  ]

  -- Validation of a batch changes nothing, and passes only handles that are live and distinct.
  pub validate_unique-cases :
      (hs : List StateHandle) (p : StatePool)
      → ((validate_unique hs p ≡ ok tt p) × IsBatch p hs)
        ⊎ ((e : Error) × (validate_unique hs p ≡ raise e p))
  unfolding validate_unique
  validate_unique-cases hs p = elim (validate_from-cases [] hs p) [
    | inl (e, live, distinct, _) ↦ inl (e, record { live = live; distinct = distinct })
    | inr (e, failed) ↦ inr (e, failed)
  ]

  seen-later :
      (i : ℕ) (seen : List ℕ) (hs : List StateHandle)
      → NotIn i (slots hs)
      → NoneSeen seen hs
      → NoneSeen (i ∷ seen) hs
  seen-later i seen [] n s = tt
  seen-later i seen (h ∷ hs) n s = (((λ e. n.0 (sym e)), s.0), seen-later i seen hs n.1 s.1)

  validate_from-ok :
      (seen : List ℕ) (hs : List StateHandle) (p : StatePool)
      → AllLive p hs
      → AllDistinct (slots hs)
      → NoneSeen seen hs
      → validate_from seen hs p ≡ ok tt p
  unfolding validate_from
  validate_from-ok seen [] p l d s = refl
  validate_from-ok seen (h ∷ hs) p l d s = ground (
    arith,
    validate_lem p h,
    contains-NotIn h.slot seen s.0,
    validate_from-ok (h.slot ∷ seen) hs p l.1 d.1 (seen-later h.slot seen hs d.0 s.1),
  )

  none-seen : (hs : List StateHandle) → NoneSeen [] hs
  none-seen [] = tt
  none-seen (h ∷ hs) = (tt, none-seen hs)

  -- Live handles of distinct slots pass.
  pub validate_unique-ok :
      (hs : List StateHandle) (p : StatePool) → IsBatch p hs → validate_unique hs p ≡ ok tt p
  unfolding validate_unique
  validate_unique-ok hs p b = validate_from-ok [] hs p b.live b.distinct (none-seen hs)

  -- What `commit` does: it writes the rows of a valid batch of the right size, or changes nothing.
  pub commit-cases :
      (hs : List StateHandle) (b : B.Batch) (p : StatePool)
      → ((commit hs b p ≡ ok tt (record p { state = B.index_copy (slots hs) b p.state }))
          × IsBatch p hs
          × (B.size b ≡ length hs))
        ⊎ ((e : Error) × (commit hs b p ≡ raise e p))
  unfolding commit
  commit-cases hs b p = elim (Bool-cases (is_empty hs)) [
    | inl empty ↦ inr (value_error, rw empty)
    | inr full ↦ elim (validate_unique-cases hs p) [
      | inr (e, failed) ↦ inr (e, ground arith)
      | inl (passed, batch) ↦ elim (Bool-cases (B.size b == length hs)) [
        | inl fits ↦ inl (ground arith, batch, ground arith)
        | inr other ↦ inr (value_error, ground arith)
      ]
    ]
  ]

  pub workspace-cases :
      (n : ℕ) (p : StatePool)
      → (b : B.Batch) × (w : Dict ℕ B.Batch) × (workspace n p ≡ ok b (record p { workspaces = w }))
  unfolding workspace
  workspace-cases n p = elim (Option-cases (lookup ℕ_discrete n p.workspaces)) [
    | inl new ↦ (
      B.zero_state n,
      insert ℕ_discrete n (B.zero_state n) p.workspaces,
      ground (arith, B.size-zero_state n),
    )
    | inr (b, old) ↦ (b, p.workspaces, ground arith)
  ]

  -- What `gather` does: it copies the rows out, in the order of the handles, and touches only the
  -- workspaces; or it raises and changes nothing.
  pub gather-cases :
      (hs : List StateHandle) (p : StatePool)
      → ((w : Dict ℕ B.Batch) × (gather hs p
            ≡ ok (B.index_select (slots hs) p.state) (record p { workspaces = w }))
          × IsBatch p hs
          × (length hs ≤ p.max_batch_size))
        ⊎ ((e : Error) × (gather hs p ≡ raise e p))
  unfolding gather
  gather-cases hs p = elim (Bool-cases (is_empty hs)) [
    | inl empty ↦ inr (value_error, rw empty)
    | inr full ↦ elim (Bool-cases (ltb p.max_batch_size (length hs))) [
      | inl wide ↦ inr (value_error, ground arith)
      | inr fits ↦ elim (validate_unique-cases hs p) [
        | inr (e, failed) ↦ inr (e, ground arith)
        | inl (passed, batch) ↦
            let (b, w, got) = workspace-cases (length hs) p in
            inl (
              insert ℕ_discrete (length hs) (B.index_select (slots hs) p.state) w,
              ground (arith, got),
              batch,
              ground arith,
            )
      ]
    ]
  ]
