-- ===== src/Scheduler/Names.antt =====
-- src/rwkv7_scheduler/scheduler.py: an import finds the tensors that an export named.
use rwkv_agent.Base.{
  ℕ, suc, ◌≤◌, ◌<◌, ◌≡◌, refl, sym, true, false, List, [], ◌∷◌, ◌++◌, some, ok, arith, Bool-cases,
  inl, inr, subst,
}
use rwkv_agent.Backend.{Backend}
use rwkv_agent.Scheduler.Requests.{Scheduler}
use rwkv_agent.Scheduler.Transfer.{
  Transfer, TensorName, logits_name, same_name, Tensors, find_tensor, name_at, named_group,
  named_groups, validated_tensor, incoming_group, incoming_groups,
}

module _ ⦃B : Backend⦄ ⦃F : Transfer⦄ where
  -- The items of a group, from an index on, are found under their names.
  abbrev pub Found : Tensors → ℕ → ℕ → List F.Tensor → Type 0
  Found ts g i [] = Unit {0}
  Found ts g i (v ∷ vs) = (find_tensor (name_at g i) ts ≡ some v) × Found ts g (suc i) vs

  abbrev pub FoundGroups : Tensors → ℕ → List (List F.Tensor) → Type 0
  FoundGroups ts g [] = Unit {0}
  FoundGroups ts g (vs ∷ groups) = Found ts g 0 vs × FoundGroups ts (suc g) groups

  abbrev pub AllFit : List F.Tensor → List F.Tensor → Type 0
  AllFit [] [] = Unit {0}
  AllFit (v ∷ vs) (w ∷ ws) = (F.fits v w ≡ true) × AllFit vs ws
  AllFit _ _ = ⊥

  abbrev pub GroupsFit : List (List F.Tensor) → List (List F.Tensor) → Type 0
  GroupsFit [] [] = Unit {0}
  GroupsFit (vs ∷ gs) (ws ∷ hs) = AllFit vs ws × GroupsFit gs hs
  GroupsFit _ _ = ⊥

  Found-skip :
      (n : TensorName) (x : F.Tensor) (ts : Tensors) (g i : ℕ) (vs : List F.Tensor)
      → ((j : ℕ) → i ≤ j → same_name (name_at g j) n ≡ false)
      → Found ts g i vs
      → Found ((n, x) ∷ ts) g i vs
  unfolding find_tensor
  Found-skip n x ts g i [] other k = tt
  Found-skip n x ts g i (v ∷ vs) other k = (
    ground (arith, other i (omega arith), k.0),
    Found-skip n x ts g (suc i) vs (λ j le. other j (omega arith)) k.1,
  )

  name_at-later : (g i j : ℕ) → i < j → same_name (name_at g j) (name_at g i) ≡ false
  unfolding same_name
  name_at-later g i j lt = ground arith

  name_at_self : (g i : ℕ) → same_name (name_at g i) (name_at g i) ≡ true
  unfolding same_name
  name_at_self g i = ground arith

  -- A named group is found at the head of a list.
  Found-named :
      (ts : Tensors) (g i : ℕ) (vs : List F.Tensor) → Found (named_group g i vs ++ ts) g i vs
  unfolding named_group find_tensor
  Found-named ts g i [] = tt
  Found-named ts g i (v ∷ vs) = (
    ground (arith, name_at_self g i),
    Found-skip (name_at g i) v (named_group g (suc i) vs ++ ts) g (suc i) vs
        (λ j le. name_at-later g i j (omega arith)) (Found-named ts g (suc i) vs),
  )

  incoming_group-find :
      (ts : Tensors) (g i : ℕ) (vs ws : List F.Tensor) (s : Scheduler)
      → Found ts g i vs
      → AllFit vs ws
      → incoming_group ts g i ws s ≡ ok vs s
  unfolding incoming_group validated_tensor
  incoming_group-find ts g i [] [] s k fit = refl
  incoming_group-find ts g i [] (w ∷ ws) s k fit = absurd fit
  incoming_group-find ts g i (v ∷ vs) [] s k fit = absurd fit
  incoming_group-find ts g i (v ∷ vs) (w ∷ ws) s k fit =
      ground (arith, k.0, fit.0, incoming_group-find ts g (suc i) vs ws s k.1 fit.1)

  pub incoming_groups-found :
      (ts : Tensors) (g : ℕ) (vs ws : List (List F.Tensor)) (s : Scheduler)
      → FoundGroups ts g vs
      → GroupsFit vs ws
      → incoming_groups ts g ws s ≡ ok vs s
  unfolding incoming_groups
  incoming_groups-found ts g [] [] s k fit = refl
  incoming_groups-found ts g [] (w ∷ ws) s k fit = absurd fit
  incoming_groups-found ts g (v ∷ vs) [] s k fit = absurd fit
  incoming_groups-found ts g (v ∷ vs) (w ∷ ws) s k fit = ground (
    arith,
    incoming_group-find ts g 0 v w s k.0 fit.0,
    incoming_groups-found ts (suc g) vs ws s k.1 fit.1,
  )

  -- A pipeline's names tell the groups apart.
  group_name-later :
      F.is_pipeline ≡ true → (g h i j : ℕ) → g < h → same_name (name_at h j) (name_at g i) ≡ false
  unfolding same_name
  group_name-later p g h i j lt = ground (arith, p, lt)

  FoundGroups-skip :
      (n : TensorName) (x : F.Tensor) (ts : Tensors) (g : ℕ) (gs : List (List F.Tensor))
      → ((h j : ℕ) → g ≤ h → same_name (name_at h j) n ≡ false)
      → FoundGroups ts g gs
      → FoundGroups ((n, x) ∷ ts) g gs
  FoundGroups-skip n x ts g [] other k = tt
  FoundGroups-skip n x ts g (vs ∷ gs) other k = (
    Found-skip n x ts g 0 vs (λ j le. other g j (omega arith)) k.0,
    FoundGroups-skip n x ts (suc g) gs (λ h j le. other h j (omega arith)) k.1,
  )

  FoundGroups-append :
      F.is_pipeline ≡ true
      → (ts : Tensors) (g i : ℕ) (vs : List F.Tensor) (h : ℕ) (gs : List (List F.Tensor)) → g < h
      → FoundGroups ts h gs
      → FoundGroups (named_group g i vs ++ ts) h gs
  unfolding named_group
  FoundGroups-append p ts g i [] h gs lt k = k
  FoundGroups-append p ts g i (v ∷ vs) h gs lt k =
      FoundGroups-skip (name_at g i) v (named_group g (suc i) vs ++ ts) h gs
        (λ h' j le. group_name-later p g h' i j (omega arith))
        (FoundGroups-append p ts g (suc i) vs h gs lt k)

  named_groups-FoundGroups :
      F.is_pipeline ≡ true
      → (g : ℕ) (gs : List (List F.Tensor)) → FoundGroups (named_groups g gs) g gs
  unfolding named_groups
  named_groups-FoundGroups p g [] = tt
  named_groups-FoundGroups p g (vs ∷ gs) = (
    Found-named (named_groups (suc g) gs) g 0 vs,
    FoundGroups-append p (named_groups (suc g) gs) g 0 vs (suc g) gs (omega arith)
        (named_groups-FoundGroups p (suc g) gs),
  )

  logits_name-other : (g i : ℕ) → same_name (name_at g i) logits_name ≡ false
  unfolding same_name
  logits_name-other g i = ground arith

  abbrev pub exported : B.Logits → List (List F.Tensor) → Tensors
  exported l gs = (logits_name, F.of_logits l) ∷ named_groups 0 gs

  pub exported-FoundGroups :
      (l : B.Logits) (gs : List (List F.Tensor))
      → (F.is_pipeline ≡ false → (vs : List F.Tensor) × (gs ≡ vs ∷ []))
      → FoundGroups (exported l gs) 0 gs
  unfolding named_groups
  exported-FoundGroups l gs single =
      FoundGroups-skip logits_name (F.of_logits l) (named_groups 0 gs) 0 gs
        (λ h j le. logits_name-other h j)
        (elim (Bool-cases F.is_pipeline) [
          | inl p ↦ named_groups-FoundGroups p 0 gs
          | inr flat ↦
              let (vs, e) = single flat in
              subst (λ gs. FoundGroups (named_groups 0 gs) 0 gs) (sym e) (Found-named [] 0 0 vs, tt)
        ])
