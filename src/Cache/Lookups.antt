-- ===== src/Cache/Lookups.antt =====
-- src/rwkv_search/realtime/cache.py: what was put is found, until it expires.
use rwkv_agent.Base.{
  ℕ, ◌+◌, ◌-◌, ◌≤◌, ◌<◌, ◌≡◌, max, String, false, [], ◌∷◌, ◌++◌, none, some, ltb, leb, ◌||◌,
  string_dec, Dict, lookup, has, has-lookup, Bool-cases, inl, inr, arith,
}
use rwkv_agent.Cache.{Entry, Cache, drop_item, get, evict, put}
use rwkv_agent.Cache.Budget.{total, lookup-snoc, IsBudgeted, drop_item-IsBudgeted, drop_item-gone}

module _ {T : Type 0} where
  -- The last item stays when it fits by itself.
  evict-last :
      (m : ℕ) (items : Dict String (Entry T)) (b : ℕ) (key : String) (item : Entry T)
      → b ≡ total items + item.size
      → item.size ≤ m
      → lookup string_dec key items ≡ none
      → lookup string_dec key (evict m (items ++ (key, item) ∷ []) b).0 ≡ some item
  unfolding evict lookup
  evict-last m [] b key item e fits new = ground (arith, e, fits)
  evict-last m ((k, i) ∷ items) b key item e fits new = ground (
    arith,
    e,
    fits,
    new,
    evict-last m items (b - i.size) key item,
    lookup-snoc key key item items,
  )

  stored_last :
      (key : String) (item : Entry T) (c : Cache T)
      → IsBudgeted c
      → lookup string_dec key c.items ≡ none
      → item.size ≤ c.max_bytes
      → lookup string_dec key
          (evict c.max_bytes (c.items ++ (key, item) ∷ []) (c.bytes + item.size)).0
        ≡ some item
  stored_last key item c v new fits =
      evict-last c.max_bytes c.items (c.bytes + item.size) key item (omega (arith, v.counted)) fits
        new

  drop_item-budget : (key : String) (c : Cache T) → (drop_item key c).max_bytes ≡ c.max_bytes
  unfolding drop_item
  drop_item-budget key c = ground arith

  put-lookup :
      (key : String) (value : T) (ttl size : ℕ) (c : Cache T)
      → IsBudgeted c
      → 0 < ttl
      → max 1 size ≤ c.max_bytes
      → lookup string_dec key (put key value ttl size c).items
        ≡ some (record { value = value; expires_at = c.now + ttl; size = max 1 size })
  unfolding put
  put-lookup key value ttl size c v live fits = elim (Bool-cases (has string_dec key c.items)) [
    | inl here ↦
        rw (on, room, here)
          (stored_last key entry (drop_item key c) (drop_item-IsBudgeted key c v)
            (drop_item-gone key c v) (omega (arith, fits, drop_item-budget key c)))
    | inr new ↦
        rw (on, room, new)
          (stored_last key entry c v (ground (arith, new, has-lookup string_dec key c.items)) fits)
  ]
    where
      entry : Entry T
      entry = record { value = value; expires_at = c.now + ttl; size = max 1 size }

      on : (leb c.max_bytes 0 || leb ttl 0) ≡ false
      on = ground (arith, live, fits)

      room : ltb c.max_bytes (max 1 size) ≡ false
      room = ground (arith, fits)

  -- In a valid cache, a value put under a key with a positive time to live and a size within the
  -- budget is what a get of the key returns at any time before it expires.
  pub get-put :
      (key : String) (value : T) (ttl size : ℕ) (c : Cache T) (later : ℕ)
      → IsBudgeted c
      → 0 < ttl
      → max 1 size ≤ c.max_bytes
      → later < c.now + ttl
      → (get key (record (put key value ttl size c) { now = later })).0 ≡ some value
  unfolding get
  get-put key value ttl size c later v live fits early =
      ground (arith, put-lookup key value ttl size c v live fits, early)
