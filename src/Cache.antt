-- ===== src/Cache.antt =====
-- src/rwkv_search/realtime/cache.py: a cache with a byte budget, expiry and eviction of what was used
-- least recently. Times are in whole ticks; the lock makes each method one step.
pub mod Budget
pub mod Lookups
use rwkv_agent.Base.{
  ℕ, ◌+◌, ◌-◌, max, String, Bool, List, [], ◌∷◌, ◌++◌, Option, none, some, ltb, leb, if◌then◌else◌,
  ◌||◌, string_dec, Dict, lookup, remove, has,
}

pub record Entry (T : Type 0) : Type 0 where
  pub value : T
  pub expires_at : ℕ
  pub size : ℕ

-- `items` is in the order of an OrderedDict, the least recently used first; `now` is what the clock
-- reads during a call.
pub record Cache (T : Type 0) : Type 0 where
  pub max_bytes : ℕ
  pub bytes : ℕ
  pub items : Dict String (Entry T)
  pub now : ℕ

module _ {T : Type 0} where
  abbrev pub init : ℕ → ℕ → Cache T
  init max_bytes now = record { max_bytes = max_bytes; bytes = 0; items = []; now = now }

  -- The counter is the sum of the sizes, so that the subtraction does not stop at 0.
  unfoldable pub drop_item : String → Cache T → Cache T
  drop_item key c = elim (lookup string_dec key c.items) [
    | none ↦ c
    | some item ↦ record c { items = remove string_dec key c.items; bytes = c.bytes - item.size }
  ]

  unfoldable pub get : String → Cache T → Option T × Cache T
  get key c = elim (lookup string_dec key c.items) [
    | none ↦ (none, c)
    | some item ↦ if leb item.expires_at c.now then (none, drop_item key c) else (
      some item.value,
      record c { items = remove string_dec key c.items ++ (key, item) ∷ [] },
    )
  ]

  -- The `while` loop of `put`: the items that stay, and the counter.
  unfoldable pub evict : ℕ → Dict String (Entry T) → ℕ → Dict String (Entry T) × ℕ
  evict max_bytes [] bytes = ([], bytes)
  evict max_bytes ((key, item) ∷ items) bytes =
      let rest = evict max_bytes items (bytes - item.size) in
      if ltb max_bytes bytes then rest else ((key, item) ∷ items, bytes)

  -- `size` is the argument, or what `sys.getsizeof` measured.
  unfoldable pub put : String → T → ℕ → ℕ → Cache T → Cache T
  put key value ttl size c =
      if leb c.max_bytes 0 || leb ttl 0
      then c
      else let measured = max 1 size in
        if ltb c.max_bytes measured
        then c
        else let dropped = if has string_dec key c.items then drop_item key c else c in
          let entry : Entry T = record {
            value = value;
            expires_at = c.now + ttl;
            size = measured;
          } in
          let kept =
            evict dropped.max_bytes (dropped.items ++ (key, entry) ∷ [])
              (dropped.bytes + measured) in
          record dropped { items = kept.0; bytes = kept.1 }
