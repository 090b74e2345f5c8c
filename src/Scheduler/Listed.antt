-- ===== src/Scheduler/Listed.antt =====
-- src/rwkv7_scheduler/scheduler.py: the names and the layout of an export are those that an import expects.
use rwkv_agent.Base.{
  ℕ, suc, ◌≡◌, refl, sym, ap, ◌∙◌, Bool, true, false, not, ◌&&◌, List, [], ◌∷◌, ◌++◌, map, length,
  any, is_none, arith, Bool-cases, inl, inr, subst,
}
use rwkv_agent.Backend.{Backend}
use rwkv_agent.Scheduler.Transfer.{
  Transfer, TensorName, logits_name, item_name, group_name, other_name, same_name, Tensors,
  find_tensor, name_at, named_group, named_groups, lengths_of, same_lengths, has_names,
}
use rwkv_agent.Scheduler.Names.{AllFit, GroupsFit, exported}

module _ ⦃B : Backend⦄ ⦃F : Transfer⦄ where
  abbrev names : Tensors → List TensorName
  names = map (λ e. e.0)

  same_name_refl : (n : TensorName) → same_name n n ≡ true
  unfolding same_name
  same_name_refl logits_name = refl
  same_name_refl (item_name i) = ground arith
  same_name_refl (group_name g i) = ground arith
  same_name_refl (other_name a) = ground arith

  named_group-names :
      (g i : ℕ) (vs ws : List F.Tensor)
      → AllFit vs ws
      → names (named_group g i vs) ≡ names (named_group g i ws)
  unfolding named_group
  named_group-names g i [] [] fit = refl
  named_group-names g i [] (w ∷ ws) fit = absurd fit
  named_group-names g i (v ∷ vs) [] fit = absurd fit
  named_group-names g i (v ∷ vs) (w ∷ ws) fit =
      ap (λ ns. name_at g i ∷ ns) (named_group-names g (suc i) vs ws fit.1)

  names-append : (ts us : Tensors) → names (ts ++ us) ≡ names ts ++ names us
  names-append [] us = refl
  names-append (t ∷ ts) us = ap (λ ns. t.0 ∷ ns) (names-append ts us)

  named_groups-names :
      (g : ℕ) (vs ws : List (List F.Tensor))
      → GroupsFit vs ws
      → names (named_groups g vs) ≡ names (named_groups g ws)
  unfolding named_groups
  named_groups-names g [] [] fit = refl
  named_groups-names g [] (w ∷ ws) fit = absurd fit
  named_groups-names g (v ∷ vs) [] fit = absurd fit
  named_groups-names g (v ∷ vs) (w ∷ ws) fit =
      names-append (named_group g 0 v) (named_groups (suc g) vs)
      ∙ ap (λ ns. ns ++ names (named_groups (suc g) vs)) (named_group-names g 0 v w fit.0)
      ∙ ap (λ ns. names (named_group g 0 w) ++ ns) (named_groups-names (suc g) vs ws fit.1)
      ∙ sym (names-append (named_group g 0 w) (named_groups (suc g) ws))

  abbrev is_unlisted : List TensorName → Tensors → Bool
  is_unlisted ns ts = any (λ e. not (any (same_name e.0) ns)) ts

  is_unlisted-weaken :
      (n : TensorName) (ns : List TensorName) (ts : Tensors)
      → is_unlisted ns ts ≡ false
      → is_unlisted (n ∷ ns) ts ≡ false
  is_unlisted-weaken n ns [] e = refl
  is_unlisted-weaken n ns (t ∷ ts) e = ground (arith, e, is_unlisted-weaken n ns ts)

  listed_self : (ts : Tensors) → is_unlisted (names ts) ts ≡ false
  listed_self [] = refl
  listed_self (t ∷ ts) =
      ground (arith, same_name_refl t.0, is_unlisted-weaken t.0 (names ts) ts (listed_self ts))

  abbrev is_missing : Tensors → List TensorName → Bool
  is_missing ts ns = any (λ n. is_none (find_tensor n ts)) ns

  is_missing-weaken :
      (t : TensorName × F.Tensor) (ts : Tensors) (ns : List TensorName)
      → is_missing ts ns ≡ false
      → is_missing (t ∷ ts) ns ≡ false
  unfolding find_tensor
  is_missing-weaken t ts [] e = refl
  is_missing-weaken t ts (n ∷ ns) e = ground (arith, e, is_missing-weaken t ts ns)

  found_self : (ts : Tensors) → is_missing ts (names ts) ≡ false
  unfolding find_tensor
  found_self [] = refl
  found_self (t ∷ ts) =
      ground (arith, same_name_refl t.0, is_missing-weaken t ts (names ts) (found_self ts))

  names_match :
      (ts : Tensors) (ns : List TensorName)
      → names ts ≡ ns
      → (not (is_unlisted ns ts) && not (is_missing ts ns)) ≡ true
  names_match ts ns e =
      subst (λ ns. (not (is_unlisted ns ts) && not (is_missing ts ns)) ≡ true) e
        (rw (listed_self ts, found_self ts) refl)

  pub exported-names :
      (l : B.Logits) (gs hs : List (List F.Tensor))
      → GroupsFit gs hs
      → has_names (exported l gs) hs ≡ true
  unfolding has_names
  exported-names l gs hs fit =
      names_match (exported l gs) (logits_name ∷ names (named_groups 0 hs))
        (ap (λ ns. logits_name ∷ ns) (named_groups-names 0 gs hs fit))

  lengths-same :
      (gs hs : List (List F.Tensor))
      → GroupsFit gs hs
      → same_lengths (map length gs) (map length hs) ≡ true
  unfolding same_lengths
  lengths-same [] [] fit = refl
  lengths-same [] (w ∷ ws) fit = absurd fit
  lengths-same (v ∷ vs) [] fit = absurd fit
  lengths-same (v ∷ vs) (w ∷ ws) fit =
      ground (arith, length-fit v w fit.0, lengths-same vs ws fit.1)
    where
      length-fit : (v w : List F.Tensor) → AllFit v w → length v ≡ length w
      length-fit [] [] fit = refl
      length-fit [] (x ∷ w) fit = absurd fit
      length-fit (x ∷ v) [] fit = absurd fit
      length-fit (x ∷ v) (y ∷ w) fit = omega (arith, length-fit v w fit.1)

  pub lengths_of-same :
      (gs hs : List (List F.Tensor))
      → GroupsFit gs hs
      → same_lengths (lengths_of gs) (lengths_of hs) ≡ true
  unfolding same_lengths
  lengths_of-same gs hs fit = elim (Bool-cases F.is_pipeline) [
    | inl p ↦ rw p (lengths-same gs hs fit)
    | inr flat ↦ rw flat refl
  ]
