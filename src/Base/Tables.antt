-- ===== src/Base/Tables.antt =====
-- A Python `dict`: an association list in insertion order. Assigning to a present key keeps its
-- place, a new key goes last.
use Prim.Native.Nat.{ℕ, ◌+◌}
use mathlib.Core.Path.{◌≡◌, refl}
use mathlib.Core.Logic.{◌≢◌, ite}
use mathlib.Core.Bool.{Bool, true, false}
use mathlib.Core.List.{List, [], ◌∷◌}
use mathlib.Core.Option.{Option, none, some}
use native.Mathlib.Omega.{arith}
use rwkv_agent.Base.Lists.{length}

abbrev pub Dict : Type 0 → Type 0 → Type 0
Dict K V = List (K × V)

module _ {K V : Type 0} (dec : Discrete K) where
  unfoldable pub lookup : K → Dict K V → Option V
  lookup k [] = none
  lookup k ((j, v) ∷ d) = ite (dec j k) (some v) (lookup k d)

  unfoldable pub insert : K → V → Dict K V → Dict K V
  insert k v [] = (k, v) ∷ []
  insert k v ((j, w) ∷ d) = ite (dec j k) ((j, v) ∷ d) ((j, w) ∷ insert k v d)

  unfoldable pub remove : K → Dict K V → Dict K V
  remove k [] = []
  remove k ((j, w) ∷ d) = ite (dec j k) d ((j, w) ∷ remove k d)

  unfoldable pub has : K → Dict K V → Bool
  has k [] = false
  has k ((j, w) ∷ d) = ite (dec j k) true (has k d)

  pub lookup-insert :
      (k j : K) (v : V) (d : Dict K V)
      → lookup j (insert k v d) ≡ ite (dec k j) (some v) (lookup j d)
  unfolding lookup insert
  lookup-insert k j v [] = refl
  lookup-insert k j v ((i, w) ∷ d) = ground (arith, lookup-insert k j v d)

  -- Keys are distinct: no entry shadows another.
  abbrev pub Distinct : Dict K V → Type 0
  Distinct [] = Unit {0}
  Distinct ((j, v) ∷ d) = (lookup j d ≡ none) × Distinct d

  pub lookup-remove_ne : (k j : K) (d : Dict K V) → k ≢ j → lookup j (remove k d) ≡ lookup j d
  unfolding lookup remove
  lookup-remove_ne k j [] h = refl
  lookup-remove_ne k j ((i, w) ∷ d) h = ground (arith, lookup-remove_ne k j d)

  pub lookup-remove_self : (k : K) (d : Dict K V) → Distinct d → lookup k (remove k d) ≡ none
  unfolding lookup remove
  lookup-remove_self k [] h = refl
  lookup-remove_self k ((i, w) ∷ d) h = ground (arith, lookup-remove_self k d h.1)

  pub remove-Distinct : (k : K) (d : Dict K V) → Distinct d → Distinct (remove k d)
  unfolding remove
  remove-Distinct k [] h = tt
  remove-Distinct k ((i, w) ∷ d) h = ground (arith, remove-Distinct k d h.1, lookup-remove_ne k i d)

  pub insert-Distinct : (k : K) (v : V) (d : Dict K V) → Distinct d → Distinct (insert k v d)
  unfolding insert lookup
  insert-Distinct k v [] h = ground arith
  insert-Distinct k v ((i, w) ∷ d) h =
      ground (arith, insert-Distinct k v d h.1, lookup-insert k i v d)

  pub length-insert_new :
      (k : K) (v : V) (d : Dict K V) → lookup k d ≡ none → length (insert k v d) ≡ length d + 1
  unfolding lookup insert
  length-insert_new k v [] h = omega arith
  length-insert_new k v ((i, w) ∷ d) h = ground (arith, length-insert_new k v d)

  pub length-remove :
      (k : K) (d : Dict K V) (v : V) → lookup k d ≡ some v → length (remove k d) + 1 ≡ length d
  unfolding lookup remove
  length-remove k [] v h = cc
  length-remove k ((i, w) ∷ d) v h = ground (arith, length-remove k d v)

  pub has-lookup :
      (k : K) (d : Dict K V) → has k d ≡ elim (lookup k d) [ none ↦ false | some _ ↦ true ]
  unfolding has lookup
  has-lookup k [] = refl
  has-lookup k ((i, w) ∷ d) = ground (arith, has-lookup k d)

-- `counter[key] += n`
unfoldable pub tally : {K : Type 0} (dec : Discrete K) → K → ℕ → Dict K ℕ → Dict K ℕ
tally dec k n [] = (k, n) ∷ []
tally dec k n ((j, m) ∷ d) = ite (dec j k) ((j, m + n) ∷ d) ((j, m) ∷ tally dec k n d)
