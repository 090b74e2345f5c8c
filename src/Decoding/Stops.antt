-- ===== src/Decoding/Stops.antt =====
-- src/rwkv_runtime/decode.py: where a decoded output is cut, and when a token ends the output.
use rwkv_agent.Base.{
  ℕ, zero, suc, ◌≤◌, ◌<◌, ◌≡◌, refl, subst, ◌⊎◌, inl, inr, true, false, List, [], ◌∷◌, Option, none,
  some, ℤ, arith, Bool-cases, Option-cases, get_elem?,
}
use rwkv_agent.Decoding.{
  Text, is_prefix, find, mentions_code, earliest, hit_le, is_empty_text, take_text,
  decode_text_stops,
}

-- `s[n:]`
abbrev pub drop_text : ℕ → Text → Text
drop_text n [] = []
drop_text zero (c ∷ s) = c ∷ s
drop_text (suc n) (c ∷ s) = drop_text n s

-- `stop` starts at `i` in the text, and nowhere before.
pub record FirstAt (stop : Text) (s : Text) (i : ℕ) : Type 0 where
  pub here : is_prefix stop (drop_text i s) ≡ true
  pub earlier : (j : ℕ) → j < i → is_prefix stop (drop_text j s) ≡ false

-- `stop` starts nowhere in the text.
abbrev pub Absent : Text → Text → Type 0
Absent stop s = (j : ℕ) → is_prefix stop (drop_text j s) ≡ false

abbrev pub Located : Text → Text → Option ℕ → Type 0
Located stop s none = Absent stop s
Located stop s (some i) = FirstAt stop s i

later_Absent :
    (stop : Text) (c : ℕ) (s : Text)
    → is_prefix stop (c ∷ s) ≡ false
    → Absent stop s
    → Absent stop (c ∷ s)
later_Absent stop c s other a zero = other
later_Absent stop c s other a (suc j) = a j

later_FirstAt :
    (stop : Text) (c : ℕ) (s : Text) (i : ℕ)
    → is_prefix stop (c ∷ s) ≡ false
    → FirstAt stop s i
    → FirstAt stop (c ∷ s) (suc i)
later_FirstAt stop c s i other f = record { here = f.here; earlier = before }
  where
    before : (j : ℕ) → j < suc i → is_prefix stop (drop_text j (c ∷ s)) ≡ false
    before zero p = other
    before (suc j) p = f.earlier j (omega (arith, p))

pub find-Located : (stop s : Text) → Located stop s (find stop s)
unfolding find
find-Located stop [] = elim (Bool-cases (is_prefix stop [])) [
  | inl here ↦
      rw (here, Located) (record { here = here; earlier = λ j p. absurd (omega (arith, p)) })
  | inr absent ↦ rw (absent, Located) (λ j. absent)
]
find-Located stop (c ∷ s) = elim (Bool-cases (is_prefix stop (c ∷ s))) [
  | inl here ↦
      rw (here, Located) (record { here = here; earlier = λ j p. absurd (omega (arith, p)) })
  | inr other ↦ elim (Option-cases (find stop s)) [
    | inl none_e ↦
        rw (other, none_e, Located)
          (later_Absent stop c s other (subst (Located stop s) none_e (find-Located stop s)))
    | inr (i, e) ↦
        rw (other, e, Located)
          (later_FirstAt stop c s i other (subst (Located stop s) e (find-Located stop s)))
  ]
]

-- What the stops of a list amount to: the hit is a stop of the list that is not empty, starts where
-- the hit says, and no stop of the list that is not empty starts before it.
pub record IsEarliest (s : Text) (stops : List Text) (i : ℕ) (reason : Text) : Type 0 where
  pub first : FirstAt reason s i
  pub minimal :
      (k : ℕ) (stop : Text)
      → get_elem? stops k ≡ some stop
      → is_empty_text stop ≡ false
      → (j : ℕ) → j < i
      → is_prefix stop (drop_text j s) ≡ false
  pub named : (k : ℕ) × (get_elem? stops k ≡ some reason) × (is_empty_text reason ≡ false)

abbrev pub NoneOccurs : Text → List Text → Type 0
NoneOccurs s stops =
    (k : ℕ) (stop : Text)
    → get_elem? stops k ≡ some stop
    → is_empty_text stop ≡ false
    → Absent stop s

abbrev pub Earliest : Text → List Text → Option (ℕ × Text) → Type 0
Earliest s stops none = NoneOccurs s stops
Earliest s stops (some (i, reason)) = IsEarliest s stops i reason

skipped :
    (s stop other : Text)
    → ((is_empty_text stop ≡ true) ⊎ Absent stop s)
    → stop ≡ other
    → is_empty_text other ≡ false
    → Absent other s
skipped s stop other (inl empty) same filled = absurd (ground (arith, empty, same, filled))
skipped s stop other (inr absent) same filled = subst (λ t. Absent t s) same absent

-- One more stop, with what the others amount to.
Earliest-skip :
    (s stop : Text) (stops : List Text) (hit : Option (ℕ × Text))
    → ((is_empty_text stop ≡ true) ⊎ Absent stop s)
    → Earliest s stops hit
    → Earliest s (stop ∷ stops) hit
Earliest-skip s stop stops none out e = λ k. match_first k
  where
    match_first : NoneOccurs s (stop ∷ stops)
    match_first zero other at filled = skipped s stop other out (ground (arith, at)) filled
    match_first (suc k) other at filled = e k other at filled
Earliest-skip s stop stops (some (i, reason)) out e = record {
  first = e.first;
  minimal = minimal;
  named = (suc e.named.0, e.named.1, e.named.2);
}
  where
    minimal :
        (k : ℕ) (other : Text)
        → get_elem? (stop ∷ stops) k ≡ some other
        → is_empty_text other ≡ false
        → (j : ℕ) → j < i
        → is_prefix other (drop_text j s) ≡ false
    minimal zero other at filled j p = skipped s stop other out (ground (arith, at)) filled j
    minimal (suc k) other at filled j p = e.minimal k other at filled j p

abbrev pub Before : ℕ → Option (ℕ × Text) → Type 0
Before i none = Unit {0}
Before i (some (j, _)) = i ≤ j

-- A stop that is found, and is before the hit of the others.
Earliest-take :
    (s stop : Text) (stops : List Text) (hit : Option (ℕ × Text)) (i : ℕ)
    → is_empty_text stop ≡ false
    → FirstAt stop s i
    → Earliest s stops hit
    → Before i hit
    → IsEarliest s (stop ∷ stops) i stop
Earliest-take s stop stops hit i filled f e before = record {
  first = f;
  minimal = minimal hit e before;
  named = (0, refl, filled);
}
  where
    minimal :
        (hit : Option (ℕ × Text))
        → Earliest s stops hit
        → Before i hit
        → (k : ℕ) (other : Text) → get_elem? (stop ∷ stops) k ≡ some other
        → is_empty_text other ≡ false
        → (j : ℕ) → j < i
        → is_prefix other (drop_text j s) ≡ false
    minimal hit e before zero other at filled j p =
        subst (λ t. is_prefix t (drop_text j s) ≡ false) (ground (arith, at)) (f.earlier j p)
    minimal none e before (suc k) other at filled j p = e k other at filled j
    minimal (some (h, r)) e before (suc k) other at filled j p =
        e.minimal k other at filled j (omega (arith, before, p))

-- A stop that is found where the hit of the others is, or after it.
Earliest-later :
    (s stop : Text) (stops : List Text) (i h : ℕ) (reason : Text)
    → FirstAt stop s i
    → h ≤ i
    → IsEarliest s stops h reason
    → IsEarliest s (stop ∷ stops) h reason
Earliest-later s stop stops i h reason f after e = record {
  first = e.first;
  minimal = minimal;
  named = (suc e.named.0, e.named.1, e.named.2);
}
  where
    minimal :
        (k : ℕ) (other : Text)
        → get_elem? (stop ∷ stops) k ≡ some other
        → is_empty_text other ≡ false
        → (j : ℕ) → j < h
        → is_prefix other (drop_text j s) ≡ false
    minimal zero other at filled j p =
        subst (λ t. is_prefix t (drop_text j s) ≡ false) (ground (arith, at))
          (f.earlier j (omega (arith, p, after)))
    minimal (suc k) other at filled j p = e.minimal k other at filled j p

earliest-Earliest : (s : Text) (stops : List Text) → Earliest s stops (earliest s stops)
unfolding earliest
earliest-Earliest s [] = λ k stop at filled. absurd (ground (arith, at))
earliest-Earliest s (stop ∷ stops) = elim (Bool-cases (is_empty_text stop)) [
  | inl empty ↦
      rw (empty, Earliest)
        (Earliest-skip s stop stops (earliest s stops) (inl empty) (earliest-Earliest s stops))
  | inr filled ↦ elim (Option-cases (find stop s)) [
    | inl none_e ↦
        rw (filled, none_e, Earliest)
          (Earliest-skip s stop stops (earliest s stops)
            (inr (subst (Located stop s) none_e (find-Located stop s))) (earliest-Earliest s stops))
    | inr (i, e) ↦
        let f = subst (Located stop s) e (find-Located stop s) in
        let others = earliest-Earliest s stops in
        elim (Option-cases (earliest s stops)) [
          | inl only ↦
              rw (filled, e, only, Earliest)
                (Earliest-take s stop stops none i filled f (subst (Earliest s stops) only others)
                  tt)
          | inr ((h, reason), hit) ↦
              let known = subst (Earliest s stops) hit others in
              elim (Bool-cases (hit_le (i, stop) (h, reason))) [
                | inl first ↦
                    rw (filled, e, hit, first, Earliest)
                      (Earliest-take s stop stops (some (h, reason)) i filled f known
                        (ground (arith, first)))
                | inr second ↦
                    rw (filled, e, hit, second, Earliest)
                      (Earliest-later s stop stops i h reason f (ground (arith, second)) known)
              ]
        ]
  ]
]

-- A decoded output that ends inside a UTF-8 sequence keeps the previous text. Any other is cut where
-- a stop that is not empty first starts, the stop is the reason, and no such stop starts before; or
-- it is kept whole, without a reason, and no such stop occurs in it.
pub decode_text_stops-IsEarliest :
    (decode : List ℤ → Text) (output_ids : List ℤ) (previous_text : Text) (stops : List Text)
    → let status = decode_text_stops decode output_ids previous_text stops in
      let decoded = decode output_ids in
      ((mentions_code 0xfffd decoded ≡ true)
        × (status.text ≡ previous_text)
        × (status.stop_reason ≡ []))
      ⊎ ((mentions_code 0xfffd decoded ≡ false)
          × (status.text ≡ decoded)
          × (status.stop_reason ≡ [])
          × NoneOccurs decoded stops)
      ⊎ ((mentions_code 0xfffd decoded ≡ false)
          × (i : ℕ) × (status.text ≡ take_text i decoded)
          × IsEarliest decoded stops i status.stop_reason)
unfolding decode_text_stops
decode_text_stops-IsEarliest decode output_ids previous_text stops =
    elim (Bool-cases (mentions_code 0xfffd (decode output_ids))) [
      | inl partial ↦ inl (partial, ground (arith, partial), ground (arith, partial))
      | inr whole ↦
          let found = earliest-Earliest (decode output_ids) stops in
          elim (Option-cases (earliest (decode output_ids) stops)) [
            | inl no_hit ↦ inr (
                inl (
                  whole,
                  ground (arith, whole, no_hit),
                  ground (arith, whole, no_hit),
                  subst (Earliest (decode output_ids) stops) no_hit found,
                ))
            | inr ((i, reason), hit) ↦ inr (
                inr (
                  whole,
                  i,
                  ground (arith, whole, hit),
                  subst (IsEarliest (decode output_ids) stops i) (ground (arith, whole, hit))
                      (subst (Earliest (decode output_ids) stops) hit found),
                ))
          ]
    ]
