-- ===== src/StatePool.antt =====
-- src/rwkv7_scheduler/state_pool.py: the fixed-capacity slab of recurrent states. The lock makes
-- each method one step. The slab and the workspaces are batches of the backend, in either layout.
pub mod Invariant
pub mod Handles
pub mod History
pub mod Batches
pub mod Atomic
pub mod Clone
pub mod Frames
use rwkv_agent.Base.{
  ℕ, zero, suc, ◌+◌, ◌-◌, ◌≡◌, String, Bool, true, false, ◌&&◌, ◌||◌, not, List, [], ◌∷◌, ◌++◌, map,
  Option, none, some, ltb, leb, ◌==◌, if◌then◌else◌, same, ℕ_discrete, length, get_elem?, get_or,
  set, replicate, is_empty, range_from, contains, Outcome, ok, raise, M, pure, fail, ◌>>=◌, ◌>>◌,
  raise_if, on_error, read, modify, for_each, Dict, lookup, insert, is_blank, strip, Error, is_none,
  value_error, stale_state_handle, state_pool_full, assertion_error, or_fail,
}
use rwkv_agent.Backend.{Backend}

-- `state_id` is the formatted text `pool_id:slot:generation`, kept as its three parts.
pub record StateHandle : Type 0 where
  pub state_id : String × ℕ × ℕ
  pub slot : ℕ
  pub generation : ℕ
  pub device : String

-- The next two are the parameters of the constructor that outlive it.
pub record PoolConfig : Type 0 where
  pub pool_id : String
  pub capacity : ℕ
  pub max_batch_size : ℕ
  pub device : String

abbrev pub slots : List StateHandle → List ℕ
slots = map (λ h. h.slot)

-- `slots == list(range(start, start + len(slots)))`
abbrev pub is_range : ℕ → List ℕ → Bool
is_range start [] = true
is_range start (i ∷ is) = (i == start) && is_range (suc start) is

abbrev pub first : List ℕ → ℕ
first [] = 0
first (i ∷ is) = i

module _ ⦃B : Backend⦄ where
  open B use {
    Batch, size, zero_state, index_fill, index_select, index_copy, expand, narrow, is_contiguous,
  }

  -- `free` is `_free` from its end: `pop()` takes the head and `append` puts a new head.
  pub record StatePool : Type 0 where
    pub config : PoolConfig
    pub open config use *
    pub state : Batch
    pub workspaces : Dict ℕ Batch
    pub free : List ℕ
    pub generation : List ℕ
    pub owners : List (Option String)

  unfoldable pub init : PoolConfig → Outcome (Unit {0}) StatePool
  init c =
      (do
        raise_if (ltb c.capacity 1) value_error
        raise_if (ltb c.max_batch_size 1 || ltb c.capacity c.max_batch_size) value_error
        pure (record {
          config = c;
          state = zero_state c.capacity;
          workspaces = [];
          free = range_from 0 c.capacity;
          generation = replicate c.capacity 0;
          owners = replicate c.capacity none;
        }))
        tt

  unfoldable pub allocated : StatePool → ℕ
  allocated p = p.capacity - length p.free

  abbrev pub owner_at : StatePool → ℕ → Option String
  owner_at p i = get_or p.owners i none

  abbrev pub generation_at : StatePool → ℕ → ℕ
  generation_at p i = get_or p.generation i 0

  -- `slot < 0` cannot hold of a natural number.
  unfoldable pub validate : StateHandle → M StatePool (Unit {0})
  validate h = do
    p ← read
    raise_if (not (same h.device p.device)) stale_state_handle
    raise_if (leb p.capacity h.slot) stale_state_handle
    raise_if (is_none (owner_at p h.slot) || not (generation_at p h.slot == h.generation))
        stale_state_handle

  unfoldable pub validate_from : List ℕ → List StateHandle → M StatePool (Unit {0})
  validate_from seen [] = pure tt
  validate_from seen (h ∷ hs) = do
    validate h
    raise_if (contains h.slot seen) value_error
    validate_from (h.slot ∷ seen) hs

  unfoldable pub validate_unique : List StateHandle → M StatePool (Unit {0})
  validate_unique hs = validate_from [] hs

  abbrev pub handle_of : StatePool → ℕ → StateHandle
  handle_of p slot = record {
    state_id = (p.pool_id, slot, generation_at p slot);
    slot = slot;
    generation = generation_at p slot;
    device = p.device;
  }

  -- The slot taken for an owner: its generation grows and its row is zeroed.
  unfoldable pub claim : StatePool → String → ℕ → List ℕ → StatePool
  claim p owner slot rest = record p {
    free = rest;
    generation = set p.generation slot (generation_at p slot + 1);
    owners = set p.owners slot (some owner);
    state = index_fill (slot ∷ []) p.state;
  }

  unfoldable pub allocate : String → M StatePool StateHandle
  allocate owner = do
    let clean_owner = strip owner
    raise_if (is_blank clean_owner) value_error
    p ← read
    elim p.free [
      | [] ↦ fail state_pool_full
      | slot ∷ rest ↦ do
        modify (λ q. claim q clean_owner slot rest)
        q ← read
        pure (handle_of q slot)
    ]

  abbrev pub vacate : ℕ → StatePool → StatePool
  vacate slot p = record p { owners = set p.owners slot none; free = slot ∷ p.free }

  unfoldable pub release : StateHandle → M StatePool (Unit {0})
  release h = do validate h; modify (vacate h.slot)

  unfoldable pub release_many : List StateHandle → M StatePool (Unit {0})
  release_many hs = for_each hs release

  unfoldable pub owner : StateHandle → M StatePool String
  owner h = do validate h; p ← read; or_fail (owner_at p h.slot) assertion_error

  -- The `try` of `allocate_many`: what `handles` holds at the raise is released.
  unfoldable pub allocate_each : List StateHandle → List String → M StatePool (List StateHandle)
  allocate_each handles [] = pure handles
  allocate_each handles (name ∷ owners) = do
    h ← on_error (allocate name) (release_many handles)
    allocate_each (handles ++ h ∷ []) owners

  unfoldable pub allocate_many : List String → M StatePool (List StateHandle)
  allocate_many owners = do
    p ← read
    raise_if (ltb (length p.free) (length owners)) state_pool_full
    allocate_each [] owners

  unfoldable pub clone_many : StateHandle → List String → M StatePool (List StateHandle)
  clone_many source owners = do
    p ← read
    if is_empty owners then pure [] else do
      raise_if (ltb p.max_batch_size (length owners)) value_error
      validate source
      handles ← allocate_many owners
      modify (λ q. record q {
        state =
            index_copy (slots handles) (expand (B.row q.state source.slot) (length handles))
              q.state;
      })
      pure handles

  -- `_workspace`: the reusable batch of a size.
  unfoldable pub workspace : ℕ → M StatePool Batch
  workspace batch_size = do
    p ← read
    elim (lookup ℕ_discrete batch_size p.workspaces) [
      | some w ↦ pure w
      | none ↦ do
        let w = zero_state batch_size
        raise_if (not (size w == batch_size)) value_error
        modify (λ q. record q { workspaces = insert ℕ_discrete batch_size w q.workspaces })
        pure w
    ]

  -- `out=workspace` overwrites the workspace, which is what the caller gets.
  unfoldable pub gather : List StateHandle → M StatePool Batch
  gather handles = do
    raise_if (is_empty handles) value_error
    p ← read
    raise_if (ltb p.max_batch_size (length handles)) value_error
    validate_unique handles
    workspace (length handles) >>= λ _. modify (λ q. record q {
      workspaces =
          insert ℕ_discrete (length handles) (index_select (slots handles) q.state) q.workspaces;
    })
    pure (index_select (slots handles) p.state)

  unfoldable pub checkout : List StateHandle → M StatePool (Batch × Bool)
  checkout handles = do
    raise_if (is_empty handles) value_error
    validate_unique handles
    p ← read
    let start = first (slots handles)
    let views = narrow start (length handles) p.state
    if is_range start (slots handles) && is_contiguous views
        then pure (views, true)
        else gather handles >>= λ b. pure (b, false)

  unfoldable pub commit : List StateHandle → Batch → M StatePool (Unit {0})
  commit handles b = do
    raise_if (is_empty handles) value_error
    validate_unique handles
    raise_if (not (size b == length handles)) value_error
    modify (λ p. record p { state = index_copy (slots handles) b p.state })

  unfoldable pub checkin : List StateHandle → Batch → Bool → M StatePool (Unit {0})
  checkin handles b true = do
    validate_unique handles
    raise_if (not (size b == length handles)) value_error
  checkin handles b false = commit handles b

  -- What an in-place update of a checked-out batch writes: the slab under a borrowed view, else the
  -- workspace.
  unfoldable pub write_through : List StateHandle → Batch → Bool → M StatePool (Unit {0})
  write_through handles b true =
      modify (λ p. record p { state = index_copy (slots handles) b p.state })
  write_through handles b false =
      modify (λ p. record p { workspaces = insert ℕ_discrete (length handles) b p.workspaces })

  unfoldable pub snapshot : StateHandle → M StatePool Batch
  snapshot h = gather (h ∷ [])

  unfoldable pub prewarm : List ℕ → M StatePool (Unit {0})
  prewarm batch_sizes = for_each batch_sizes λ n. do
    p ← read
    raise_if (ltb n 1 || ltb p.max_batch_size n) value_error
    workspace n >>= λ _. pure tt
