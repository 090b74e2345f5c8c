-- ===== src/Base/Monad.antt =====
-- Stateful code that may raise: a state monad whose exceptions carry the state at the raise, since
-- what a Python method has written before it raises stays written.
use mathlib.Core.Bool.{Bool, true, false}
use mathlib.Core.List.{List, [], ◌∷◌}
use mathlib.Core.Option.{Option, none, some}
use mathlib.Core.Logic.{◌⊎◌, inl, inr}

-- One constructor for each exception class that the program tells apart; messages are dropped.
pub data Error : Type 0 where
  value_error key_error runtime_error permission_error timeout_error : Error
  stale_state_handle state_pool_full assertion_error worker_not_registered : Error
  recursion_error : Error
  -- What a library raises where no modelled code asks for its class.
  library_error : Error
  -- No Python error: a loop of the model stopped before the source's would.
  out_of_fuel : Error

pub data Outcome (S A : Type 0) : Type 0 where
  ok : A → S → Outcome S A
  raise : Error → S → Outcome S A

abbrev pub M : Type 0 → Type 0 → Type 0
M S A = S → Outcome S A

abbrev pub pure : {S A : Type 0} → A → M S A
pure a s = ok a s

abbrev pub fail : {S A : Type 0} → Error → M S A
fail e s = raise e s

infixl 5 ◌>>=◌ ◌>>◌
abbrev pub ◌>>=◌ : {S A B : Type 0} → M S A → (A → M S B) → M S B
◌>>=◌ m f s = elim (m s) [ ok a s' ↦ f a s' | raise e s' ↦ raise e s' ]

abbrev pub ◌>>◌ : {S B : Type 0} → M S (Unit {0}) → M S B → M S B
m >> k = m >>= λ _. k

-- `if test: raise error`
abbrev pub raise_if : {S : Type 0} → Bool → Error → M S (Unit {0})
raise_if true e s = raise e s
raise_if false e s = ok tt s

-- `try: body; except Exception: handler; raise`
abbrev pub on_error : {S A : Type 0} → M S A → M S (Unit {0}) → M S A
on_error body handler s = elim (body s) [
  | ok a s' ↦ ok a s'
  | raise e s' ↦ elim (handler s') [ ok _ s'' ↦ raise e s'' | raise e' s'' ↦ raise e' s'' ]
]

abbrev pub is_key_error : Error → Bool
is_key_error Error.key_error = true
is_key_error _ = false

-- `try: body; except KeyError: pass`
abbrev pub ignore_key_error : {S : Type 0} → M S (Unit {0}) → M S (Unit {0})
ignore_key_error body s = elim (body s) [
  | ok _ s' ↦ ok tt s'
  | raise e s' ↦ elim (is_key_error e) [ true ↦ ok tt s' | false ↦ raise e s' ]
]

abbrev pub read : {S : Type 0} → M S S
read s = ok s s

abbrev pub modify : {S : Type 0} → (S → S) → M S (Unit {0})
modify f s = ok tt (f s)

-- `for x in xs: body(x)`
abbrev pub for_each : {S A : Type 0} → List A → (A → M S (Unit {0})) → M S (Unit {0})
for_each [] body s = ok tt s
for_each (x ∷ xs) body s = elim (body x s) [
  | ok _ s' ↦ for_each xs body s'
  | raise e s' ↦ raise e s'
]

abbrev pub or_fail : {S A : Type 0} → Option A → Error → M S A
or_fail none e s = raise e s
or_fail (some a) e s = ok a s

-- The state that an outcome leaves, whether or not it raised.
abbrev pub after : {S A : Type 0} → Outcome S A → S
after (ok a s) = s
after (raise e s) = s

-- `try: body; except Exception as error: …`, with the error as a value.
abbrev pub attempt : {S A : Type 0} → M S A → M S (A ⊎ Error)
attempt body s = elim (body s) [ ok a s' ↦ ok (inl a) s' | raise e s' ↦ ok (inr e) s' ]
