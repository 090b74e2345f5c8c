-- ===== src/Base/Ending.antt =====
-- Code that never stops for want of fuel: it returns, or raises an error of the program.
use mathlib.Core.Path.{◌≡◌, refl}
use mathlib.Core.Bool.{Bool, true, false}
use mathlib.Core.List.{List, [], ◌∷◌}
use mathlib.Core.Option.{Option, none, some}
use rwkv_agent.Base.Monad.{
  Error, Outcome, M, ok, raise, ◌>>=◌, raise_if, or_fail, for_each, out_of_fuel,
}
use rwkv_agent.Base.Tests.{if◌then◌else◌}

abbrev pub is_fuel : Error → Bool
is_fuel out_of_fuel = true
is_fuel _ = false

abbrev pub stalls : {S A : Type 0} → Outcome S A → Bool
stalls (ok a s) = false
stalls (raise e s) = is_fuel e

abbrev pub Ends : {S A : Type 0} → M S A → Type 0
Ends {S} m = (s : S) → stalls (m s) ≡ false

pub bind-Ends :
    {S A C : Type 0} (m : M S A) (f : A → M S C) → Ends m → ((a : A) → Ends (f a)) → Ends (m >>= f)
bind-Ends {S = S} {A = A} {C = C} m f k l s = bound (m s) (k s)
  where
    bound :
        (o : Outcome S A)
        → stalls o ≡ false
        → stalls {S = S} {A = C} (elim o [ ok a s' ↦ f a s' | raise e s' ↦ raise e s' ]) ≡ false
    bound (ok a s') e = l a s'
    bound (raise x s') e = e

pub raise_if-Ends :
    {S : Type 0} (t : Bool) (e : Error) → is_fuel e ≡ false → Ends (raise_if {S = S} t e)
raise_if-Ends true e k s = k
raise_if-Ends false e k s = refl

pub or_fail-Ends :
    {S A : Type 0} (o : Option A) (e : Error) → is_fuel e ≡ false → Ends (or_fail {S = S} o e)
or_fail-Ends none e k s = k
or_fail-Ends (some a) e k s = refl

pub if-Ends : {S A : Type 0} (t : Bool) (a b : M S A) → Ends a → Ends b → Ends (if t then a else b)
if-Ends true a b k l = k
if-Ends false a b k l = l

pub for_each-Ends :
    {S A : Type 0} (xs : List A) (body : A → M S (Unit {0}))
    → ((x : A) → Ends (body x))
    → Ends (for_each xs body)
for_each-Ends [] body k s = refl
for_each-Ends {S = S} (x ∷ xs) body k s =
    bind-Ends {A = Unit {0}} (body x) (λ _. for_each xs body) (k x) (λ _. for_each-Ends xs body k) s
