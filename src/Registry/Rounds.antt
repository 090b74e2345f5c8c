-- ===== src/Registry/Rounds.antt =====
-- src/rwkv_agent/persistent_state.py, descendants_of: what a round of the walk does to its variables.
use rwkv_agent.Base.{
  ℕ, ◌+◌, ◌≤◌, ◌<◌, ◌≡◌, ◌⊎◌, inl, inr, String, Bool, true, false, ◌||◌, List, [], ◌∷◌, ◌++◌,
  if◌then◌else◌, string_dec, length, mentions, mentions-nil, mentions-cons, mentions-append, arith,
  Bool-cases, same,
}
use rwkv_agent.Registry.{PersistentState, Records, Walk, is_child_of, children_of, visit, walk_step}

-- One child that was not seen.
abbrev mark : String → Walk → Walk
mark c w =
    if mentions c w.seen
    then w
    else record { out = w.out ++ c ∷ []; seen = c ∷ w.seen; stack = c ∷ w.stack }

-- What a walk may only do: grow what is seen and stacked, stack what is newly seen, and list it.
pub record Grows (w u : Walk) : Type 0 where
  pub seen : (x : String) → mentions x w.seen ≡ true → mentions x u.seen ≡ true
  pub stack : (x : String) → mentions x w.stack ≡ true → mentions x u.stack ≡ true
  pub fresh :
      (x : String)
      → mentions x u.seen ≡ true
      → (mentions x w.seen ≡ true) ⊎ ((mentions x u.stack ≡ true) × (mentions x u.out ≡ true))
  pub out : (x : String) → mentions x w.out ≡ true → mentions x u.out ≡ true
  pub known :
      (x : String)
      → mentions x u.out ≡ true
      → (mentions x w.out ≡ true) ⊎ (mentions x u.seen ≡ true)

mark-Grows : (c : String) (w : Walk) → Grows w (mark c w)
mark-Grows c w = record {
  seen = λ x h. ground (arith, mentions-cons x c w.seen);
  stack = λ x h. ground (arith, mentions-cons x c w.stack);
  fresh = λ x h. ground (
    arith,
    mentions-cons x c w.seen,
    mentions-cons x c w.stack,
    mentions-append x w.out (c ∷ []),
    mentions-cons x c [],
  );
  out = λ x h. ground (arith, mentions-append x w.out (c ∷ []));
  known = λ x h. ground (
    arith,
    mentions-cons x c w.seen,
    mentions-append x w.out (c ∷ []),
    mentions-cons x c [],
    mentions-nil x,
  );
}

Grows-trans : {w u v : Walk} → Grows w u → Grows u v → Grows w v
Grows-trans a b = record {
  seen = λ x h. b.seen x (a.seen x h);
  stack = λ x h. b.stack x (a.stack x h);
  fresh = λ x h. elim (b.fresh x h) [
    | inr new ↦ inr new
    | inl old ↦ elim (a.fresh x old) [
      | inl older ↦ inl older
      | inr (s, o) ↦ inr (b.stack x s, b.out x o)
    ]
  ];
  out = λ x h. b.out x (a.out x h);
  known = λ x h. elim (b.known x h) [
    | inr seen ↦ inr seen
    | inl old ↦ elim (a.known x old) [ inl older ↦ inl older | inr seen ↦ inr (b.seen x seen) ]
  ];
}

pub visit-Grows : (cs : List String) (w : Walk) → Grows w (visit cs w)
unfolding visit
visit-Grows [] w = record {
  seen = λ x h. h;
  stack = λ x h. h;
  fresh = λ x h. inl h;
  out = λ x h. h;
  known = λ x h. inl h;
}
visit-Grows (c ∷ cs) w = Grows-trans (mark-Grows c w) (visit-Grows cs (mark c w))

-- Every child that is visited is seen.
visit-seen :
    (y : String) (cs : List String) (w : Walk)
    → mentions y cs ≡ true
    → mentions y (visit cs w).seen ≡ true
unfolding visit
visit-seen y [] w h = unfold mentions in (absurd (ground arith))
visit-seen y (c ∷ cs) w h = elim (Bool-cases (mentions y cs)) [
  | inl later ↦ visit-seen y cs (mark c w) later
  | inr here ↦
      (visit-Grows cs (mark c w)).seen y
        (ground (arith, mentions-cons y c cs, mentions-cons y c w.seen))
]

-- A key that is seen and no longer stacked has all its children seen.
abbrev pub Closed : Records → Walk → Type 0
Closed records w =
    (x y : String)
    → mentions x w.seen ≡ true
    → mentions y (children_of records x) ≡ true
    → (mentions x w.stack ≡ true) ⊎ (mentions y w.seen ≡ true)

pub walk_step-Closed :
    (records : Records) (current : String) (rest : List String) (w : Walk)
    → w.stack ≡ current ∷ rest
    → Closed records w
    → Closed records (walk_step records current rest w)
unfolding walk_step
walk_step-Closed records current rest w e closed x y seen child = elim (g.fresh x seen) [
  | inr (stacked, _) ↦ inl stacked
  | inl old ↦ elim (string_dec x current) [
    | yes here ↦ inr (visit-seen y (children_of records current) popped (rw here at child))
    | no other ↦ elim (closed x y old child) [
      | inl stacked ↦ inl (g.stack x (ground (arith, mentions-cons x current rest)))
      | inr known ↦ inr (g.seen y known)
    ]
  ]
]
  where
    popped : Walk
    popped = record w { stack = rest }

    g : Grows popped (visit (children_of records current) popped)
    g = visit-Grows (children_of records current) popped

-- The loop's bound: what is stacked, and the records that are not seen yet.
abbrev pub unseen : Records → List String → ℕ
unseen [] seen = 0
unseen ((key, r) ∷ records) seen = (if mentions r.state_id seen then 0 else 1) + unseen records seen

abbrev is_recorded : Records → String → Bool
is_recorded [] id = false
is_recorded ((key, r) ∷ records) id = same id r.state_id || is_recorded records id

unseen-mark-le :
    (records : Records) (c : String) (seen : List String)
    → unseen records (c ∷ seen) ≤ unseen records seen
unseen-mark-le [] c seen = omega arith
unseen-mark-le ((key, r) ∷ records) c seen =
    ground (arith, unseen-mark-le records c seen, mentions-cons r.state_id c seen)

unseen-mark-lt :
    (records : Records) (c : String) (seen : List String)
    → is_recorded records c ≡ true
    → mentions c seen ≡ false
    → unseen records (c ∷ seen) < unseen records seen
unseen-mark-lt [] c seen h n = absurd (cc)
unseen-mark-lt ((key, r) ∷ records) c seen h n = elim (string_dec c r.state_id) [
  | yes here ↦ ground (arith, unseen-mark-le records c seen, mentions-cons r.state_id c seen)
  | no other ↦
      ground
        (arith, unseen-mark-lt records c seen (ground arith) n, mentions-cons r.state_id c seen)
]

abbrev pub bound : Records → Walk → ℕ
bound records w = length w.stack + unseen records w.seen

abbrev AllRecorded : Records → List String → Type 0
AllRecorded records [] = Unit {0}
AllRecorded records (c ∷ cs) = (is_recorded records c ≡ true) × AllRecorded records cs

visit-bound :
    (records : Records) (cs : List String) (w : Walk)
    → AllRecorded records cs
    → bound records (visit cs w) ≤ bound records w
unfolding visit
visit-bound records [] w a = omega arith
visit-bound records (c ∷ cs) w a =
    let rest = visit-bound records cs (mark c w) a.1 in
    elim (Bool-cases (mentions c w.seen)) [
      | inl known ↦ ground (arith, rest)
      | inr new ↦ ground (arith, rest, unseen-mark-lt records c w.seen a.0 new)
    ]

AllRecorded-cons :
    (e : String × PersistentState) (records : Records) (cs : List String)
    → AllRecorded records cs
    → AllRecorded (e ∷ records) cs
AllRecorded-cons e records [] a = tt
AllRecorded-cons e records (c ∷ cs) a = (ground arith, AllRecorded-cons e records cs a.1)

children-recorded : (records : Records) (id : String) → AllRecorded records (children_of records id)
unfolding children_of
children-recorded [] id = tt
children-recorded ((key, r) ∷ records) id =
    let rest =
      AllRecorded-cons (key, r) records (children_of records id) (children-recorded records id) in
    elim (Bool-cases (is_child_of id r)) [
      | inl child ↦ rw child (ground arith, rest)
      | inr other ↦ rw other rest
    ]

pub walk_step-bound :
    (records : Records) (current : String) (rest : List String) (w : Walk)
    → w.stack ≡ current ∷ rest
    → bound records (walk_step records current rest w) + 1 ≤ bound records w
unfolding walk_step
walk_step-bound records current rest w e = ground (
  arith,
  visit-bound records (children_of records current) (record w { stack = rest })
      (children-recorded records current),
)
