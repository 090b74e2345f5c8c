-- ===== src/Base/Preserving.antt =====
-- Code that keeps a property of its state, whether it returns or raises: one rule for each way to
-- put code together.
use mathlib.Core.Bool.{Bool, true, false}
use mathlib.Core.List.{List, [], ◌∷◌}
use mathlib.Core.Option.{Option, none, some}
use mathlib.Core.Logic.{◌⊎◌, inl, inr}
use mathlib.Core.Path.{◌≡◌, refl, sym, subst, ap}
use rwkv_agent.Base.Monad.{
  Error, Outcome, M, ok, raise, ◌>>=◌, raise_if, or_fail, for_each, after, attempt, on_error,
  ignore_key_error, is_key_error,
}
use rwkv_agent.Base.Tests.{if◌then◌else◌}

abbrev pub Preserves : {S A : Type 0} → (S → Type 0) → M S A → Type 0
Preserves {S} P m = (s : S) → P s → P (after (m s))

module _ {S : Type 0} (P : S → Type 0) where
  pub bind-Preserves :
      {A C : Type 0} (m : M S A) (f : A → M S C)
      → Preserves P m
      → ((a : A) → Preserves P (f a))
      → Preserves P (m >>= f)
  bind-Preserves {A = A} {C = C} m f k l s p = bound (m s) (k s p)
    where
      bound :
          (o : Outcome S A)
          → P (after o)
          → P (after {S = S} {A = C} (elim o [ ok a s' ↦ f a s' | raise e s' ↦ raise e s' ]))
      bound (ok a s') q = l a s' q
      bound (raise e s') q = q

  pub raise_if-Preserves : (t : Bool) (e : Error) → Preserves P (raise_if t e)
  raise_if-Preserves true e s p = p
  raise_if-Preserves false e s p = p

  pub or_fail-Preserves : {A : Type 0} (o : Option A) (e : Error) → Preserves P (or_fail o e)
  or_fail-Preserves none e s p = p
  or_fail-Preserves (some a) e s p = p

  pub if-Preserves :
      {A : Type 0} (t : Bool) (a b : M S A)
      → Preserves P a
      → Preserves P b
      → Preserves P (if t then a else b)
  if-Preserves true a b k l = k
  if-Preserves false a b k l = l

  pub for_each-Preserves :
      {A : Type 0} (xs : List A) (body : A → M S (Unit {0}))
      → ((x : A) → Preserves P (body x))
      → Preserves P (for_each xs body)
  for_each-Preserves [] body k s p = p
  for_each-Preserves (x ∷ xs) body k s p =
      bind-Preserves {A = Unit {0}} (body x) (λ _. for_each xs body) (k x)
        (λ _. for_each-Preserves xs body k) s p

  pub attempt-Preserves : {A : Type 0} (m : M S A) → Preserves P m → Preserves P (attempt m)
  attempt-Preserves {A = A} m k s p = tried (m s) (k s p)
    where
      tried :
          (o : Outcome S A) → P (after o) → P (after {S = S} {A = A ⊎ Error} (attempt (λ _. o) s))
      tried (ok a s') q = q
      tried (raise e s') q = q

  pub either-Preserves :
      {A C D : Type 0} (o : A ⊎ C) (f : A → M S D) (g : C → M S D)
      → ((a : A) → Preserves P (f a))
      → ((c : C) → Preserves P (g c))
      → Preserves P (elim o [ inl a ↦ f a | inr c ↦ g c ])
  either-Preserves (inl a) f g k l = k a
  either-Preserves (inr c) f g k l = l c

  pub option-Preserves :
      {A C : Type 0} (o : Option A) (m : M S C) (f : A → M S C)
      → Preserves P m
      → ((a : A) → Preserves P (f a))
      → Preserves P (elim o [ none ↦ m | some a ↦ f a ])
  option-Preserves none m f k l = k
  option-Preserves (some a) m f k l = l a

  -- `try: … except Exception as error: …`, with both ends going on.
  pub tried-Preserves :
      {A C : Type 0} (m : M S A) (f : A → M S C) (g : Error → M S C)
      → Preserves P m
      → ((a : A) → Preserves P (f a))
      → ((e : Error) → Preserves P (g e))
      → Preserves P (attempt m >>= λ o. elim o [ inl a ↦ f a | inr e ↦ g e ])
  tried-Preserves {A = A} {C = C} m f g k l n =
      bind-Preserves {A = A ⊎ Error} {C = C} (attempt m) _ (attempt-Preserves m k)
        (λ o. either-Preserves {A = A} {C = Error} {D = C} o f g l n)

  pub on_error-Preserves :
      {A : Type 0} (m : M S A) (handler : M S (Unit {0}))
      → Preserves P m
      → Preserves P handler
      → Preserves P (on_error m handler)
  on_error-Preserves {A = A} m handler k l s p = handled (m s) (k s p)
    where
      thrown :
          (e : Error) (o : Outcome S (Unit {0}))
          → P (after o)
          → P (
              after {S = S} {A = A}
                (elim o [ ok _ s'' ↦ raise e s'' | raise e' s'' ↦ raise e' s'' ]))
      thrown e (ok _ s'') q = q
      thrown e (raise e' s'') q = q

      handled :
          (o : Outcome S A) → P (after o) → P (after {S = S} {A = A} (on_error (λ _. o) handler s))
      handled (ok a s') q = q
      handled (raise e s') q = thrown e (handler s') (l s' q)

  pub ignore_key_error-Preserves :
      (m : M S (Unit {0})) → Preserves P m → Preserves P (ignore_key_error m)
  ignore_key_error-Preserves m k s p = ignored (m s) (k s p)
    where
      kept :
          (t : Bool) (e : Error) (s' : S)
          → P s'
          → P (after {S = S} {A = Unit {0}} (elim t [ true ↦ ok tt s' | false ↦ raise e s' ]))
      kept true e s' q = q
      kept false e s' q = q

      ignored : (o : Outcome S (Unit {0})) → P (after o) → P (after (ignore_key_error (λ _. o) s))
      ignored (ok _ s') q = q
      ignored (raise e s') q = kept (is_key_error e) e s' q

-- Code that keeps a property of its state, and whose results have one of their own.
abbrev pub Holds : {S A : Type 0} → (S → Type 0) → (A → Type 0) → Outcome S A → Type 0
Holds P Q (ok a s) = P s × Q a
Holds P Q (raise e s) = P s

abbrev pub Yields : {S A : Type 0} → (S → Type 0) → (A → Type 0) → M S A → Type 0
Yields {S} P Q m = (s : S) → P s → Holds P Q (m s)

module _ {S : Type 0} (P : S → Type 0) where
  pub bind-Yields :
      {A C : Type 0} (Q : A → Type 0) (R : C → Type 0) (m : M S A) (f : A → M S C)
      → Yields P Q m
      → ((a : A) → Q a → Yields P R (f a))
      → Yields P R (m >>= f)
  bind-Yields {A = A} {C = C} Q R m f k l s p = bound (m s) (k s p)
    where
      bound :
          (o : Outcome S A)
          → Holds P Q o
          → Holds P R (elim o [ ok a s' ↦ f a s' | raise e s' ↦ raise e s' ])
      bound (ok a s') (q, h) = l a h s' q
      bound (raise e s') q = q

  pub bind-Yields-Preserves :
      {A C : Type 0} (Q : A → Type 0) (m : M S A) (f : A → M S C)
      → Yields P Q m
      → ((a : A) → Q a → Preserves P (f a))
      → Preserves P (m >>= f)
  bind-Yields-Preserves {A = A} {C = C} Q m f k l s p = bound (m s) (k s p)
    where
      bound :
          (o : Outcome S A)
          → Holds P Q o
          → P (after {S = S} {A = C} (elim o [ ok a s' ↦ f a s' | raise e s' ↦ raise e s' ]))
      bound (ok a s') (q, h) = l a h s' q
      bound (raise e s') q = q

-- A check that passes leaves the state as it is.
pub guard-Preserves :
    {S C : Type 0} (P : S → Type 0) (t : Bool) (e : Error) (f : Unit {0} → M S C) (s : S)
    → P s
    → (t ≡ false → P (after (f tt s)))
    → P (after ((raise_if t e >>= f) s))
guard-Preserves P true e f s p k = p
guard-Preserves P false e f s p k = k refl

-- A body that returns does not meet its handler.
pub returned-Preserves :
    {S A C : Type 0} (P : S → Type 0) (m : M S A) (handler : M S (Unit {0})) (f : A → M S C)
    (s t : S) (a : A)
    → m s ≡ ok a t
    → P (after (f a t))
    → P (after ((on_error m handler >>= f) s))
returned-Preserves P m handler f s t a e k =
    subst (λ o. P (after ((on_error (λ _. o) handler >>= f) s))) (sym e) k

-- A test in a state.
pub split-Preserves :
    {S C : Type 0} (P : S → Type 0) (t : Bool) (a b : M S C) (s : S)
    → P (after (a s))
    → P (after (b s))
    → P (after ((if t then a else b) s))
split-Preserves P true a b s k l = k
split-Preserves P false a b s k l = l

-- Code that keeps a property of its state, before code that yields another of its result.
pub bind-Preserves-Yields :
    {S A C : Type 0} (P : S → Type 0) (R : C → Type 0) (m : M S A) (f : A → M S C)
    → Preserves P m
    → ((a : A) → Yields P R (f a))
    → Yields P R (m >>= f)
bind-Preserves-Yields {S = S} {A = A} {C = C} P R m f k l s p = bound (m s) (k s p)
  where
    bound :
        (o : Outcome S A)
        → P (after o)
        → Holds P R (elim o as (λ _. Outcome S C) [ ok a s' ↦ f a s' | raise e s' ↦ raise e s' ])
    bound (ok a s') q = l a s' q
    bound (raise e s') q = q

-- A check before code whose outcome has a property.
pub guard-Ends :
    {S C : Type 0} (Q : Outcome S C → Type 0) (t : Bool) (e : Error) (f : Unit {0} → M S C) (s : S)
    → Q (raise e s)
    → (t ≡ false → Q (f tt s))
    → Q ((raise_if t e >>= f) s)
guard-Ends Q true e f s p k = p
guard-Ends Q false e f s p k = k refl

pub find-Ends :
    {S A C : Type 0} (Q : Outcome S C → Type 0) (o : Option A) (e : Error) (f : A → M S C) (s : S)
    → Q (raise e s)
    → ((a : A) → o ≡ some a → Q (f a s))
    → Q ((or_fail o e >>= f) s)
find-Ends Q none e f s p k = p
find-Ends Q (some a) e f s p k = k a refl

-- What code does when its first part returns.
pub returns :
    {S A C : Type 0} {a : A} (m : M S A) (f : A → M S C) (s : S) {u : S}
    → m s ≡ ok a u
    → (m >>= f) s ≡ f a u
returns {S = S} {A = A} {C = C} m f s k =
    ap
      (λ (o : Outcome S A). elim o as (λ _. Outcome S C) [
        | ok a s' ↦ f a s'
        | raise e s' ↦ raise e s'
      ])
      k

pub passes :
    {S C : Type 0} {t : Bool} (e : Error) (f : Unit {0} → M S C) (s : S)
    → t ≡ false
    → (raise_if t e >>= f) s ≡ f tt s
passes e f s k = ap (λ t. (raise_if t e >>= f) s) k

pub finds :
    {S A C : Type 0} {o : Option A} {a : A} (e : Error) (f : A → M S C) (s : S)
    → o ≡ some a
    → (or_fail o e >>= f) s ≡ f a s
finds e f s k = ap (λ o. (or_fail o e >>= f) s) k
