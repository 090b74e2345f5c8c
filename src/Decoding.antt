-- ===== src/Decoding.antt =====
-- src/rwkv_runtime/decode.py: one greedy token, and the earliest stop text of a decoded output.
pub mod Stops
use Prim.Native.Char.{Char, code}
use rwkv_agent.Base.{
  ℕ, suc, ◌+◌, ◌≤◌, String, Bool, true, false, ◌&&◌, ◌||◌, not, List, [], ◌∷◌, ◌++◌, Option, none,
  some, ltb, leb, ◌==◌, if◌then◌else◌, length, is_blank, ℤ, pos, negsuc,
}
use Prim.Native.Nat.{compare, Ordering}

abbrev pub same_token : ℤ → ℤ → Bool
same_token (pos m) (pos n) = m == n
same_token (negsuc m) (negsuc n) = m == n
same_token _ _ = false

pub record GreedyTokenStatus : Type 0 where
  pub token : ℤ
  pub eos : Bool
  pub budget_reached : Bool

abbrev pub finished : GreedyTokenStatus → Bool
finished s = s.eos || s.budget_reached

-- The status, and the output list as the call leaves it.
unfoldable pub append_greedy_token : List ℤ → ℤ → ℤ → ℕ → GreedyTokenStatus × List ℤ
append_greedy_token output_ids token eos_token_id max_tokens =
    if same_token token eos_token_id
    then (record { token = token; eos = true; budget_reached = false }, output_ids)
    else (
      record {
        token = token;
        eos = false;
        budget_reached = leb max_tokens (length (output_ids ++ token ∷ []));
      },
      output_ids ++ token ∷ [],
    )

-- Texts as lists of code points.
abbrev pub Text : Type 0
Text = List ℕ

unfoldable pub is_prefix : Text → Text → Bool
is_prefix [] s = true
is_prefix (c ∷ p) [] = false
is_prefix (c ∷ p) (d ∷ s) = (c == d) && is_prefix p s

-- `s.find(stop)`, with `none` for -1.
unfoldable pub find : Text → Text → Option ℕ
unfolding is_prefix
find stop [] = if is_prefix stop [] then some 0 else none
find stop (c ∷ s) =
    let later = find stop s in
    if is_prefix stop (c ∷ s) then some 0 else elim later [ none ↦ none | some i ↦ some (suc i) ]

unfoldable pub mentions_code : ℕ → Text → Bool
mentions_code c [] = false
mentions_code c (d ∷ s) = (c == d) || mentions_code c s

-- Python's order of texts.
unfoldable pub text_le : Text → Text → Bool
text_le [] t = true
text_le (c ∷ s) [] = false
text_le (c ∷ s) (d ∷ t) = elim (compare c d) [
  | Ordering.lt ↦ true
  | Ordering.gt ↦ false
  | Ordering.eq ↦ text_le s t
]

-- The order of the pairs that `min(hits)` compares.
abbrev pub hit_le : ℕ × Text → ℕ × Text → Bool
hit_le (i, s) (j, t) = ltb i j || ((i == j) && text_le s t)

-- The hits, one for each non-empty stop that occurs, and their minimum.
abbrev pub is_empty_text : Text → Bool
is_empty_text [] = true
is_empty_text (c ∷ s) = false

unfoldable pub earliest : Text → List Text → Option (ℕ × Text)
earliest decoded [] = none
earliest decoded (stop ∷ stops) =
    let rest = earliest decoded stops in
    if is_empty_text stop then rest else elim (find stop decoded) [
      | none ↦ rest
      | some i ↦ elim rest [
        | none ↦ some (i, stop)
        | some hit ↦ if hit_le (i, stop) hit then some (i, stop) else some hit
      ]
    ]

pub record DecodedTextStatus : Type 0 where
  pub text : Text
  pub stop_reason : Text

abbrev pub take_text : ℕ → Text → Text
take_text n [] = []
take_text ℕ.zero (c ∷ s) = []
take_text (suc n) (c ∷ s) = c ∷ take_text n s

-- 0xfffd is the replacement character of an incomplete UTF-8 sequence.
unfoldable pub decode_text_stops : (List ℤ → Text) → List ℤ → Text → List Text → DecodedTextStatus
decode_text_stops decode output_ids previous_text stops =
    if mentions_code 0xfffd (decode output_ids)
    then record { text = previous_text; stop_reason = [] }
    else elim (earliest (decode output_ids) stops) [
      | none ↦ record { text = decode output_ids; stop_reason = [] }
      | some (i, reason) ↦ record { text = take_text i (decode output_ids); stop_reason = reason }
    ]
