-- ===== src/Examples/Pool.antt =====
-- Runs of the pool and of a forward pass over it.
use rwkv_agent.Base.{
  string_dec, ℕ, ◌==◌, if◌then◌else◌, ◌≡◌, refl, List, [], ◌∷◌, some, none, ℤ, pos, ok, raise,
  arith, stale_state_handle,
}
use rwkv_agent.StatePool.{
  StatePool, StateHandle, PoolConfig, init, release, validate, allocate_many, clone_many,
}
use rwkv_agent.StatePool.Invariant.{IsValid, init-IsValid}
use rwkv_agent.StatePool.Batches.{IsBatch}
use rwkv_agent.StatePool.History.{allocates, releases, run, run-IsValid, released_forever}
use rwkv_agent.StatePool.Atomic.{AllOrNothing, allocate_many-all}
use rwkv_agent.StatePool.Clone.{CloneResult, clone_many-copies}
use rwkv_agent.Scheduler.Forward.{forward_batch}
use rwkv_agent.Backend.{is_rectangle, are_tokens}
use rwkv_agent.Scheduler.Rows.{Forwarded, forward_batch-rows}
use rwkv_agent.Examples.Machine.{machine}

abbrev small : PoolConfig
small = record { pool_id = "p"; capacity = 3; max_batch_size = 2; device = "cpu" }

-- Three free slots.
abbrev fresh : StatePool ⦃B = machine⦄
fresh = record {
  config = small;
  state = (3, λ i. []);
  workspaces = [];
  free = 0 ∷ 1 ∷ 2 ∷ [];
  generation = 0 ∷ 0 ∷ 0 ∷ [];
  owners = none ∷ none ∷ none ∷ [];
}

fresh_made : init ⦃B = machine⦄ small ≡ ok fresh tt
unfolding init
fresh_made = refl

fresh-IsValid : IsValid ⦃B = machine⦄ fresh
fresh-IsValid = init-IsValid ⦃B = machine⦄ small fresh fresh_made

init-IsValid_example : IsValid ⦃B = machine⦄ fresh
init-IsValid_example = init-IsValid ⦃B = machine⦄ small fresh fresh_made

abbrev handle : ℕ → ℕ → StateHandle
handle slot generation = record {
  state_id = ("p", slot, generation);
  slot = slot;
  generation = generation;
  device = "cpu";
}

-- Two names have a slot each; row 0 has seen the token 7.
abbrev taken : StatePool ⦃B = machine⦄
taken = record {
  config = small;
  state = (3, λ i. if i == 0 then pos 7 ∷ [] else []);
  workspaces = [];
  free = 2 ∷ [];
  generation = 1 ∷ 1 ∷ 0 ∷ [];
  owners = some "a" ∷ some "b" ∷ none ∷ [];
}

taken-IsValid : IsValid ⦃B = machine⦄ taken
taken-IsValid = record {
  slab = refl;
  generations = refl;
  owned = refl;
  vacant = λ i. ground arith;
  balanced = refl;
}

run-IsValid_example :
    IsValid ⦃B = machine⦄ (run ⦃B = machine⦄ (allocates "c" ∷ releases (handle 0 1) ∷ []) taken)
run-IsValid_example =
    run-IsValid ⦃B = machine⦄ (allocates "c" ∷ releases (handle 0 1) ∷ []) taken taken-IsValid

-- `taken` after the release of slot 0.
abbrev released : StatePool ⦃B = machine⦄
released = record taken { free = 0 ∷ 2 ∷ []; owners = none ∷ some "b" ∷ none ∷ [] }

released_made : release ⦃B = machine⦄ (handle 0 1) taken ≡ ok tt released
unfolding release validate string_dec
released_made = refl

released_forever_example :
    validate ⦃B = machine⦄ (handle 0 1) (run ⦃B = machine⦄ (allocates "c" ∷ []) released)
    ≡ raise stale_state_handle (run ⦃B = machine⦄ (allocates "c" ∷ []) released)
released_forever_example =
    released_forever ⦃B = machine⦄ (handle 0 1) taken released (allocates "c" ∷ []) taken-IsValid
      released_made

allocate_many-all_example :
    AllOrNothing ⦃B = machine⦄ taken 2 (allocate_many ⦃B = machine⦄ ("c" ∷ "d" ∷ []) taken)
allocate_many-all_example = allocate_many-all ⦃B = machine⦄ ("c" ∷ "d" ∷ []) taken taken-IsValid

clone_many-copies_example :
    CloneResult ⦃B = machine⦄ taken
      (handle 0 1)
      1
      (clone_many ⦃B = machine⦄ (handle 0 1) ("c" ∷ []) taken)
clone_many-copies_example =
    clone_many-copies ⦃B = machine⦄ taken (handle 0 1) ("c" ∷ []) taken-IsValid

abbrev both : List StateHandle
both = handle 1 1 ∷ handle 0 1 ∷ []

both-IsBatch : IsBatch ⦃B = machine⦄ taken both
unfolding string_dec
both-IsBatch = record {
  live = (refl, (refl, tt));
  distinct = (((λ e. ground (arith, e)), tt), (tt, tt));
}

forward_batch-rows_example :
    (logits : List (List ℤ)) × (q : StatePool ⦃B = machine⦄) × (forward_batch ⦃B = machine⦄ both
        ((pos 4 ∷ []) ∷ (pos 5 ∷ []) ∷ [])
        taken
      ≡ ok logits q)
    × Forwarded ⦃B = machine⦄ taken both ((pos 4 ∷ []) ∷ (pos 5 ∷ []) ∷ []) logits q
unfolding is_rectangle are_tokens
forward_batch-rows_example =
    forward_batch-rows ⦃B = machine⦄ taken both 1 ((pos 4 ∷ []) ∷ (pos 5 ∷ []) ∷ []) taken-IsValid
      both-IsBatch refl (omega arith) refl (omega arith) refl
