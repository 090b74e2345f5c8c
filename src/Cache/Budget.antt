-- ===== src/Cache/Budget.antt =====
-- src/rwkv_search/realtime/cache.py: the counter of bytes is the sum of the sizes, and within the budget.
use rwkv_agent.Base.{
  ℕ, ◌+◌, ◌-◌, ◌≤◌, ◌≡◌, refl, max, String, List, [], ◌∷◌, ◌++◌, Option, none, some, ltb, leb,
  if◌then◌else◌, ◌||◌, string_dec, Dict, lookup, remove, has, Distinct, lookup-remove_self,
  remove-Distinct, has-lookup, Bool-cases, inl, inr, arith,
}
use rwkv_agent.Cache.{Entry, Cache, drop_item, get, evict, put}

-- A call of a client, or the passing of time.
pub data Call (T : Type 0) : Type 0 where
  gets : String → Call T
  puts : String → T → ℕ → ℕ → Call T
  waits : ℕ → Call T

module _ {T : Type 0} where
  abbrev pub total : Dict String (Entry T) → ℕ
  total [] = 0
  total ((key, item) ∷ items) = item.size + total items

  pub record IsBudgeted (c : Cache T) : Type 0 where
    pub distinct : Distinct string_dec c.items
    pub counted : c.bytes ≡ total c.items
    pub bounded : c.bytes ≤ c.max_bytes

  total-remove :
      (key : String) (item : Entry T) (items : Dict String (Entry T))
      → lookup string_dec key items ≡ some item
      → total (remove string_dec key items) + item.size ≡ total items
  unfolding lookup remove
  total-remove key item [] e = absurd (cc)
  total-remove key item ((k, i) ∷ items) e = ground (arith, e, total-remove key item items)

  pub total-snoc :
      (key : String) (item : Entry T) (items : Dict String (Entry T))
      → total (items ++ (key, item) ∷ []) ≡ total items + item.size
  total-snoc key item [] = omega arith
  total-snoc key item ((k, i) ∷ items) = omega (arith, total-snoc key item items)

  pub lookup-snoc :
      (j key : String) (item : Entry T) (items : Dict String (Entry T))
      → lookup string_dec j (items ++ (key, item) ∷ []) ≡ elim (lookup string_dec j items) [
        | some i ↦ some i
        | none ↦ elim (string_dec key j) [ yes _ ↦ some item | no _ ↦ none ]
      ]
  unfolding lookup
  lookup-snoc j key item [] = ground arith
  lookup-snoc j key item ((k, i) ∷ items) = ground (arith, lookup-snoc j key item items)

  snoc-Distinct :
      (key : String) (item : Entry T) (items : Dict String (Entry T))
      → Distinct string_dec items
      → lookup string_dec key items ≡ none
      → Distinct string_dec (items ++ (key, item) ∷ [])
  unfolding lookup
  snoc-Distinct key item [] d new = (refl, tt)
  snoc-Distinct key item ((k, i) ∷ items) d new = (
    ground (arith, d.0, new, lookup-snoc k key item items),
    snoc-Distinct key item items d.1 (ground (arith, new)),
  )

  pub drop_item-IsBudgeted :
      (key : String) (c : Cache T) → IsBudgeted c → IsBudgeted (drop_item key c)
  unfolding drop_item
  drop_item-IsBudgeted key c v = dropped (lookup string_dec key c.items) refl
    where
      dropped :
          (o : Option (Entry T))
          → lookup string_dec key c.items ≡ o
          → IsBudgeted (elim o as (λ _. Cache T) [
            | none ↦ c
            | some item ↦ record c {
              items = remove string_dec key c.items;
              bytes = c.bytes - item.size;
            }
          ])
      dropped none e = v
      dropped (some item) e = record {
        distinct = remove-Distinct string_dec key c.items v.distinct;
        counted = omega (arith, total-remove key item c.items e, v.counted);
        bounded = omega (arith, v.bounded);
      }

  pub drop_item-gone :
      (key : String) (c : Cache T)
      → IsBudgeted c
      → lookup string_dec key (drop_item key c).items ≡ none
  unfolding drop_item
  drop_item-gone key c v = ground (arith, lookup-remove_self string_dec key c.items v.distinct)

  moved-IsBudgeted :
      (key : String) (item : Entry T) (c : Cache T)
      → IsBudgeted c
      → lookup string_dec key c.items ≡ some item
      → IsBudgeted (record c { items = remove string_dec key c.items ++ (key, item) ∷ [] })
  moved-IsBudgeted key item c v e = record {
    distinct =
        snoc-Distinct key item (remove string_dec key c.items)
          (remove-Distinct string_dec key c.items v.distinct)
          (lookup-remove_self string_dec key c.items v.distinct);
    counted = omega (
      arith,
      total-remove key item c.items e,
      total-snoc key item (remove string_dec key c.items),
      v.counted,
    );
    bounded = v.bounded;
  }

  get-IsBudgeted : (key : String) (c : Cache T) → IsBudgeted c → IsBudgeted (get key c).1
  unfolding get
  get-IsBudgeted key c v = found (lookup string_dec key c.items) refl
    where
      found :
          (o : Option (Entry T))
          → lookup string_dec key c.items ≡ o
          → IsBudgeted (
              (elim o as (λ _. Option T × Cache T) [
                | none ↦ (none, c)
                | some item ↦ if leb item.expires_at c.now then (none, drop_item key c) else (
                  some item.value,
                  record c { items = remove string_dec key c.items ++ (key, item) ∷ [] },
                )
              ]).1)
      found none e = v
      found (some item) e = elim (Bool-cases (leb item.expires_at c.now)) [
        | inl old ↦ rw old (drop_item-IsBudgeted key c v)
        | inr young ↦ rw young (moved-IsBudgeted key item c v e)
      ]

  evict-counted :
      (m : ℕ) (items : Dict String (Entry T)) (b : ℕ)
      → b ≡ total items
      → (evict m items b).1 ≡ total (evict m items b).0
  unfolding evict
  evict-counted m [] b e = e
  evict-counted m ((k, i) ∷ items) b e = ground (arith, e, evict-counted m items (b - i.size))

  evict-bounded :
      (m : ℕ) (items : Dict String (Entry T)) (b : ℕ) → b ≡ total items → (evict m items b).1 ≤ m
  unfolding evict
  evict-bounded m [] b e = ground (arith, e)
  evict-bounded m ((k, i) ∷ items) b e = ground (arith, e, evict-bounded m items (b - i.size))

  evict-lookup :
      (m : ℕ) (items : Dict String (Entry T)) (b : ℕ) (j : String)
      → lookup string_dec j items ≡ none
      → lookup string_dec j (evict m items b).0 ≡ none
  unfolding evict lookup
  evict-lookup m [] b j e = refl
  evict-lookup m ((k, i) ∷ items) b j e = ground (arith, e, evict-lookup m items (b - i.size) j)

  evict-Distinct :
      (m : ℕ) (items : Dict String (Entry T)) (b : ℕ)
      → Distinct string_dec items
      → Distinct string_dec (evict m items b).0
  unfolding evict
  evict-Distinct m [] b d = tt
  evict-Distinct m ((k, i) ∷ items) b d = elim (Bool-cases (ltb m b)) [
    | inl over ↦ rw over (evict-Distinct m items (b - i.size) d.1)
    | inr fits ↦ rw fits d
  ]

  stored-IsBudgeted :
      (key : String) (item : Entry T) (c : Cache T)
      → IsBudgeted c
      → lookup string_dec key c.items ≡ none
      → let kept = evict c.max_bytes (c.items ++ (key, item) ∷ []) (c.bytes + item.size) in
        IsBudgeted (record c { items = kept.0; bytes = kept.1 })
  stored-IsBudgeted key item c v new =
      let items = c.items ++ (key, item) ∷ [] in
      let sum : c.bytes + item.size ≡ total items =
        omega (arith, total-snoc key item c.items, v.counted) in
      record {
        distinct =
            evict-Distinct c.max_bytes items (c.bytes + item.size)
              (snoc-Distinct key item c.items v.distinct new);
        counted = evict-counted c.max_bytes items (c.bytes + item.size) sum;
        bounded = evict-bounded c.max_bytes items (c.bytes + item.size) sum;
      }

  put-IsBudgeted :
      (key : String) (value : T) (ttl size : ℕ) (c : Cache T)
      → IsBudgeted c
      → IsBudgeted (put key value ttl size c)
  unfolding put
  put-IsBudgeted key value ttl size c v = elim (Bool-cases (leb c.max_bytes 0 || leb ttl 0)) [
    | inl off ↦ rw off v
    | inr on ↦ rw on (elim (Bool-cases (ltb c.max_bytes (max 1 size))) [
      | inl wide ↦ rw wide v
      | inr fits ↦ rw fits (elim (Bool-cases (has string_dec key c.items)) [
        | inl here ↦ rw here (
            stored-IsBudgeted key entry (drop_item key c) (drop_item-IsBudgeted key c v)
              (drop_item-gone key c v))
        | inr new ↦ rw new (
            stored-IsBudgeted key entry c v
              (ground (arith, new, has-lookup string_dec key c.items)))
      ])
    ])
  ]
    where
      entry : Entry T
      entry = record { value = value; expires_at = c.now + ttl; size = max 1 size }

  unfoldable pub step : Call T → Cache T → Cache T
  step (gets key) c = (get key c).1
  step (puts key value ttl size) c = put key value ttl size c
  step (waits n) c = record c { now = c.now + n }

  unfoldable pub run : List (Call T) → Cache T → Cache T
  unfolding step
  run [] c = c
  run (s ∷ steps) c = run steps (step s c)

  step-IsBudgeted : (s : Call T) (c : Cache T) → IsBudgeted c → IsBudgeted (step s c)
  unfolding step
  step-IsBudgeted (gets key) c v = get-IsBudgeted key c v
  step-IsBudgeted (puts key value ttl size) c v = put-IsBudgeted key value ttl size c v
  step-IsBudgeted (waits n) c v = record {
    distinct = v.distinct;
    counted = v.counted;
    bounded = v.bounded;
  }

  -- Any sequence of gets, puts and waits keeps a cache valid: its keys are distinct, the counter of
  -- bytes is the sum of the sizes of its items, and it is within the budget.
  pub run-IsBudgeted :
      (steps : List (Call T)) (c : Cache T) → IsBudgeted c → IsBudgeted (run steps c)
  unfolding run
  run-IsBudgeted [] c v = v
  run-IsBudgeted (s ∷ steps) c v = run-IsBudgeted steps (step s c) (step-IsBudgeted s c v)
