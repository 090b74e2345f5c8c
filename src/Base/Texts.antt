-- ===== src/Base/Texts.antt =====
-- Texts as Python handles them: `str.strip`, and the integers of a token stream.
use Prim.Native.Nat.{ℕ}
use Prim.Native.Char.{code}
use Prim.Native.String.{String}
use mathlib.Core.Bool.{Bool, true, false, ◌&&◌, ◌||◌}
use mathlib.Core.Path.{◌≡◌, refl}
use native.Mathlib.Omega.{arith}
use mathlib.Core.List.{List, [], ◌∷◌, ◌++◌}
use rwkv_agent.Base.Tests.{string_dec, leb, ◌==◌, if◌then◌else◌}

-- The code points for which `str.isspace` holds.
unfoldable pub is_space : ℕ → Bool
is_space c =
    (leb 9 c && leb c 13)
    || (leb 28 c && leb c 32)
    || c == 0x85
    || c == 0xa0
    || c == 0x1680
    || (leb 0x2000 c && leb c 0x200a)
    || c == 0x2028
    || c == 0x2029
    || c == 0x202f
    || c == 0x205f
    || c == 0x3000

abbrev pub is_blank : String → Bool
is_blank String.[] = true
is_blank (String.◌∷◌ c s) = false

unfoldable pub lstrip : String → String
unfolding is_space
lstrip String.[] = String.[]
lstrip (String.◌∷◌ c s) = let rest = lstrip s in if is_space (code c) then rest else String.◌∷◌ c s

unfoldable pub rstrip : String → String
unfolding is_space
rstrip String.[] = String.[]
rstrip (String.◌∷◌ c s) =
    let rest = rstrip s in
    if is_blank rest && is_space (code c) then String.[] else String.◌∷◌ c rest

unfoldable pub strip : String → String
unfolding lstrip rstrip
strip s = rstrip (lstrip s)

-- `x in xs`, for texts.
unfoldable pub mentions : String → List String → Bool
mentions x [] = false
mentions x (y ∷ ys) = elim (string_dec x y) [ yes _ ↦ true | no _ ↦ mentions x ys ]

-- Each value of the list is new: `len(set(xs)) == len(xs)`.
unfoldable pub is_unique : List String → Bool
is_unique [] = true
is_unique (x ∷ xs) = let rest = is_unique xs in if mentions x xs then false else rest

-- `negsuc n` is -(n + 1).
pub data ℤ : Type 0 where
  pos : ℕ → ℤ
  negsuc : ℕ → ℤ

abbrev pub is_negative : ℤ → Bool
is_negative (pos n) = false
is_negative (negsuc n) = true

pub mentions-nil : (x : String) → mentions x [] ≡ false
unfolding mentions
mentions-nil x = refl

-- Membership as `ground` reads it.
pub mentions-cons :
    (x y : String) (ys : List String)
    → mentions x (y ∷ ys) ≡ elim (string_dec x y) [ yes _ ↦ true | no _ ↦ mentions x ys ]
unfolding mentions
mentions-cons x y ys = refl

pub mentions-append :
    (x : String) (xs ys : List String) → mentions x (xs ++ ys) ≡ (mentions x xs || mentions x ys)
unfolding mentions
mentions-append x [] ys = refl
mentions-append x (z ∷ xs) ys = ground (arith, mentions-append x xs ys)
