-- ===== src/Registry.antt =====
-- src/rwkv_agent/persistent_state.py: who owns which persistent state, the tree that forking makes
-- of them, their idle times and the bound on their number.
pub mod Rounds
pub mod Descendants
pub mod Reachable
pub mod Orphans
pub mod Release
pub mod Subtrees
use rwkv_agent.Base.{
  ℕ, zero, suc, ◌+◌, ◌-◌, ◌≡◌, max, String, Bool, true, false, not, List, [], ◌∷◌, ◌++◌, map,
  Option, none, some, ltb, leb, if◌then◌else◌, same, string_dec, length, any, Dict, lookup, insert,
  remove, has, strip, mentions, is_blank, M, ok, raise, pure, fail, ◌>>=◌, ◌>>◌, raise_if,
  ignore_key_error, read, modify, for_each, or_fail, value_error, key_error, permission_error,
  runtime_error,
}
use rwkv_agent.Backend.{Backend}
use rwkv_agent.Scheduler.Requests.{Scheduler}
use rwkv_agent.Scheduler.Requests

pub record PersistentState : Type 0 where
  pub state_id : String
  pub owner_id : String
  pub parent_state_id : Option String
  pub branch : String
  pub created_at : ℕ
  pub last_used_at : ℕ

abbrev pub Records : Type 0
Records = Dict String PersistentState

-- The number of characters of a text.
abbrev pub text_length : String → ℕ
text_length String.[] = 0
text_length (String.◌∷◌ c s) = suc (text_length s)

abbrev pub is_child_of : String → PersistentState → Bool
is_child_of id r = elim r.parent_state_id [ none ↦ false | some parent ↦ same parent id ]

unfoldable pub children_of : Records → String → List String
children_of [] id = []
children_of ((key, r) ∷ records) id =
    let rest = children_of records id in if is_child_of id r then r.state_id ∷ rest else rest

-- The variables of the loop of `descendants_of`; the end of the Python stack is the head here.
pub record Walk : Type 0 where
  pub out : List String
  pub seen : List String
  pub stack : List String

unfoldable pub visit : List String → Walk → Walk
visit [] w = w
visit (child ∷ children) w = visit children (
    if mentions child w.seen
    then w
    else record { out = w.out ++ child ∷ []; seen = child ∷ w.seen; stack = child ∷ w.stack })

unfoldable pub walk_step : Records → String → List String → Walk → Walk
walk_step records current rest w = visit (children_of records current) (record w { stack = rest })

unfoldable pub walk_from : ℕ → Records → Walk → Walk
walk_from zero records w = w
walk_from (suc fuel) records w = elim w.stack [
  | [] ↦ w
  | current ∷ rest ↦ walk_from fuel records (walk_step records current rest w)
]

-- Every round of the loop takes a key off the stack, and a key goes there once.
unfoldable pub descendants_of : Records → String → List String
descendants_of records id =
    (walk_from (suc (length records)) records
      (record { out = []; seen = id ∷ []; stack = id ∷ [] })).out

abbrev pub subtree_of : Records → String → List String
subtree_of records id = id ∷ descendants_of records id

-- The loop of `root_of`; `seen` holds at most one key for each record.
unfoldable pub root_from : ℕ → Records → List String → String → String
root_from zero records seen current = current
root_from (suc fuel) records seen current = elim (lookup string_dec current records) [
  | none ↦ current
  | some r ↦ elim r.parent_state_id [
    | none ↦ current
    | some parent ↦
        let up = root_from fuel records (parent ∷ seen) parent in
        if mentions parent seen
        then current
        else if has string_dec parent records
        then up
        else current
  ]
]

unfoldable pub root_of : Records → String → String
root_of records id = root_from (suc (length records)) records (id ∷ []) id

unfoldable pub newest_of : Records → List String → ℕ → ℕ
newest_of records [] newest = newest
newest_of records (id ∷ ids) newest =
    newest_of records ids
      (elim (lookup string_dec id records) [ none ↦ newest | some r ↦ max newest r.last_used_at ])

-- The time of the latest use in the subtree; the node count goes unused by its caller.
unfoldable pub subtree_last_active : Records → String → ℕ
subtree_last_active records id = elim (lookup string_dec id records) [
  | none ↦ 0
  | some r ↦ newest_of records (subtree_of records id) r.last_used_at
]

abbrev pub any_protected : List String → List String → Bool
any_protected protected = any (λ node. mentions node protected)

unfoldable pub add_new : List String → List String → List String
add_new [] targets = targets
add_new (node ∷ nodes) targets =
    add_new nodes (if mentions node targets then targets else targets ++ node ∷ [])

-- The subtrees of the records, each node once.
unfoldable pub targets_of : Records → List PersistentState → List String → List String
targets_of records [] targets = targets
targets_of records (r ∷ rs) targets =
    targets_of records rs (add_new (subtree_of records r.state_id) targets)

module _ ⦃B : Backend⦄ where
  -- `now` is what the clock reads during a call.
  pub record Registry : Type 0 where
    pub scheduler : Scheduler
    pub capacity : ℕ
    pub ttl_seconds : ℕ
    pub now : ℕ
    pub records : Records

  abbrev pub on_scheduler : {A : Type 0} → M Scheduler A → M Registry A
  on_scheduler m s = elim (m s.scheduler) [
    | ok a q ↦ ok a (record s { scheduler = q })
    | raise e q ↦ raise e (record s { scheduler = q })
  ]

  unfoldable pub clean_owner : String → M Registry String
  clean_owner owner_id = do
    let value = strip owner_id
    raise_if (is_blank value) value_error
    raise_if (ltb 128 (text_length value)) value_error
    pure value

  abbrev pub allocated : Registry → ℕ
  allocated s = length s.records

  unfoldable pub require : String → String → M Registry PersistentState
  require state_id owner_id = do
    s ← read
    r ← or_fail (lookup string_dec (strip state_id) s.records) key_error
    raise_if (not (same r.owner_id owner_id)) permission_error
    pure r

  unfoldable pub ensure_capacity : ℕ → M Registry (Unit {0})
  ensure_capacity additional = do
    s ← read
    if ltb additional 1
        then pure tt
        else raise_if (ltb s.capacity (allocated s + additional)) runtime_error

  unfoldable pub add : PersistentState → M Registry (Unit {0})
  add r = do
    s ← read
    raise_if (has string_dec r.state_id s.records) value_error
    modify (λ s. record s { records = insert string_dec r.state_id r s.records })

  -- `self._records.pop(id, None)` and the release of the scheduler's request, if it has one.
  unfoldable pub drop_node : String → M Registry (Unit {0})
  drop_node id = do
    modify (λ s. record s { records = remove string_dec id s.records })
    ignore_key_error (on_scheduler (Requests.release id))

  -- One round of the loop of `cleanup_expired`; `found` is (expired, handled).
  unfoldable pub expire_one :
      List String → String → List String × List String → M Registry (List String × List String)
  expire_one protected id (expired, handled) = do
    s ← read
    if mentions id handled
        then pure (expired, handled)
        else if mentions id protected
        then pure (expired, handled)
        else if not (has string_dec id s.records)
        then pure (expired, handled)
        else if ltb (s.now - subtree_last_active s.records id) s.ttl_seconds
        then pure (expired, handled)
        else if any_protected protected (subtree_of s.records id)
        then pure (expired, handled)
        else do
          for_each (subtree_of s.records id) drop_node
          pure (expired ++ subtree_of s.records id, subtree_of s.records id ++ handled)

  unfoldable pub expire_each :
      List String → List String → List String × List String → M Registry (List String × List String)
  expire_each protected [] found = pure found
  expire_each protected (id ∷ ids) found = do
    found' ← expire_one protected id found
    expire_each protected ids found'

  unfoldable pub cleanup_expired : List String → M Registry (List String)
  cleanup_expired exclude = do
    s ← read
    found ← expire_each exclude (map (λ e. e.0) s.records) ([], [])
    pure found.0

  unfoldable pub release_records : List PersistentState → M Registry (Unit {0})
  release_records rs = do s ← read; for_each (targets_of s.records rs []) drop_node

  unfoldable pub clear : M Registry (Unit {0})
  clear = do
    s ← read
    for_each (map (λ e. e.0) s.records) (λ id. do
      ignore_key_error (on_scheduler (Requests.release id))
      modify (λ s. record s { records = remove string_dec id s.records }))
