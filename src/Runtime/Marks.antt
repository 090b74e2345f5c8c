-- ===== src/Runtime/Marks.antt =====
-- src/rwkv_agent/state_runtime.py: the calls that leave the marks of busy states alone.
use rwkv_agent.Base.{
  ℕ, zero, suc, ◌+◌, ◌≡◌, refl, ◌∙◌, String, Bool, true, false, List, [], ◌∷◌, map, Option, none,
  some, ltb, if◌then◌else◌, length, is_empty, ℤ, M, Outcome, ok, raise, pure, ◌>>=◌, raise_if,
  modify, for_each, or_fail, after, library_error, key_error, value_error, is_blank, Error,
}
use rwkv_agent.Backend.{Backend}
use rwkv_agent.Decoding.{Text}
use rwkv_agent.Scheduler.Requests.{Scheduler, RequestState}
use rwkv_agent.Scheduler.Requests
use rwkv_agent.Scheduler.Continuations
use rwkv_agent.Scheduler.Decode.{sample_next, advance_tokens}
use rwkv_agent.Registry.{Registry, PersistentState, clean_owner, require}
use rwkv_agent.Registry
use rwkv_agent.Runtime.Defs.{
  Runtime, on_registry, scheduled, bump, encode, cleanup, touch_all, touch,
}
use rwkv_agent.Runtime.Turns.{
  TurnItem, StateResult, DecodeRow, take_token, advance_of, collect_turns, decode_rounds,
  results_of, decode_locked, row_of, run_turns, continuations_of,
}

module _ ⦃B : Backend⦄ where
  -- Whatever the call does, it leaves the marks as they were.
  abbrev pub KeepsMarks : {A : Type 0} → M Runtime A → Type 0
  KeepsMarks m = (s : Runtime) → (after (m s)).busy ≡ s.busy

  pub on_registry-keeps : {A : Type 0} (m : M Registry A) → KeepsMarks (on_registry m)
  on_registry-keeps {A = A} m s = put (m s.registry)
    where
      put :
          (o : Outcome Registry A)
          → (after {S = Runtime} {A = A} (elim o [
            | ok a q ↦ ok a (record s { registry = q })
            | raise e q ↦ raise e (record s { registry = q })
          ])).busy
            ≡ s.busy
      put (ok a q) = refl
      put (raise e q) = refl

  pub bind-keeps :
      {A C : Type 0} (m : M Runtime A) (f : A → M Runtime C)
      → KeepsMarks m
      → ((a : A) → KeepsMarks (f a))
      → KeepsMarks (m >>= f)
  bind-keeps {A = A} {C = C} m f k l s = bound (m s) (k s)
    where
      bound :
          (o : Outcome Runtime A)
          → (after o).busy ≡ s.busy
          → (after {S = Runtime} {A = C}
              (elim o [ ok a s' ↦ f a s' | raise e s' ↦ raise e s' ])).busy
            ≡ s.busy
      bound (ok a s') e = l a s' ∙ e
      bound (raise x s') e = e

  pub raise_if-keeps : (t : Bool) (e : Error) → KeepsMarks (raise_if t e)
  raise_if-keeps true e s = refl
  raise_if-keeps false e s = refl

  pub if-keeps :
      {A : Type 0} (t : Bool) (a b : M Runtime A)
      → KeepsMarks a
      → KeepsMarks b
      → KeepsMarks (if t then a else b)
  if-keeps true a b k l = k
  if-keeps false a b k l = l

  pub or_fail-keeps : {A : Type 0} (o : Option A) (e : Error) → KeepsMarks (or_fail o e)
  or_fail-keeps none e s = refl
  or_fail-keeps (some a) e s = refl

  pub scheduled-keeps : {A : Type 0} (m : M Scheduler A) → KeepsMarks (scheduled m)
  scheduled-keeps m = on_registry-keeps (Registry.on_scheduler m)

  pub results_of-keeps :
      (rows : List DecodeRow) (rs : List PersistentState) → KeepsMarks (results_of rows rs)
  unfolding results_of
  results_of-keeps rows [] = λ s. refl
  results_of-keeps rows (r ∷ rs) =
      bind-keeps {A = RequestState} {C = List StateResult} (scheduled (Requests.request r.state_id))
        _ (scheduled-keeps (Requests.request r.state_id))
        λ q.
          bind-keeps {A = DecodeRow} {C = List StateResult}
            (or_fail (row_of r.state_id rows) key_error) _
            (or_fail-keeps (row_of r.state_id rows) key_error)
            λ row.
              bind-keeps {C = List StateResult} (results_of rows rs) _ (results_of-keeps rows rs)
                (λ rest s. refl)

  pub decode_rounds-keeps :
      (fuel : ℕ) (stops : List Text) (n : ℕ) (active done : List DecodeRow)
      → KeepsMarks (decode_rounds fuel stops n active done)
  unfolding decode_rounds
  decode_rounds-keeps zero stops n active done = λ s. refl
  decode_rounds-keeps (suc fuel) stops n active done =
      if-keeps (is_empty active) _ _ (λ s. refl)
        λ s.
          bind-keeps (scheduled (sample_next (map (λ row. row.state_id) active))) _
            (scheduled-keeps (sample_next (map (λ row. row.state_id) active)))
            (λ sampled.
              bind-keeps
                (scheduled
                  (advance_tokens (advance_of (map (take_token s.eos_token_id n sampled) active))))
                _ (scheduled-keeps (advance_tokens _)) (λ _. decode_rounds-keeps fuel stops n _ _))
            s

  pub bump-keeps : (name : String) (n : ℕ) → KeepsMarks (bump name n)
  unfolding bump
  bump-keeps name n s = refl

  pub touch_each-keeps :
      (now : ℕ) (rs : List PersistentState)
      → KeepsMarks (for_each rs (λ r. on_registry (modify (touch now r))))
  touch_each-keeps now [] s = refl
  touch_each-keeps now (r ∷ rs) s =
      touch_each-keeps now rs (record s { registry = touch now r s.registry })

  pub touch_all-keeps : (rs : List PersistentState) → KeepsMarks (touch_all rs)
  unfolding touch_all
  touch_all-keeps rs s = touch_each-keeps s.registry.now rs s

  pub run_turns-keeps :
      (engine : Option
        (List (PersistentState × List ℤ) → List Text → ℕ → M Scheduler (List StateResult)))
      (turns : List (PersistentState × List ℤ)) (stops : List Text) (n : ℕ)
      → KeepsMarks (run_turns engine turns stops n)
  unfolding run_turns decode_locked
  run_turns-keeps (some engine) turns stops n = scheduled-keeps (engine turns stops n)
  run_turns-keeps none turns stops n =
      bind-keeps {A = Unit {0}} {C = List StateResult}
        (scheduled (Continuations.continue_many (continuations_of turns)) >>= λ _. pure tt) _
        (bind-keeps {C = Unit {0}}
          (scheduled (Continuations.continue_many (continuations_of turns))) _
          (scheduled-keeps (Continuations.continue_many (continuations_of turns))) (λ _ s. refl))
        λ _.
          bind-keeps {C = List StateResult} (decode_rounds (suc n) stops n _ []) _
            (decode_rounds-keeps (suc n) stops n _ [])
            (λ rows. results_of-keeps rows (map (λ t. t.0) turns))

  pub cleanup-keeps : KeepsMarks cleanup
  unfolding cleanup
  cleanup-keeps s =
      bind-keeps {C = List String} (on_registry (Registry.cleanup_expired s.busy)) _
        (on_registry-keeps (Registry.cleanup_expired s.busy))
        (λ expired.
          if-keeps (is_empty expired) _ _ (λ s. refl)
            (bind-keeps {C = List String} (bump "expired" _) _ (bump-keeps "expired" _) λ _.
              bind-keeps {C = List String} (bump "expired_grouped" 1) _
                (bump-keeps "expired_grouped" 1)
                λ _.
                  bind-keeps {C = List String} (bump "released" _) _ (bump-keeps "released" _)
                    (λ _ s. refl)))
        s

  pub encode-keeps : (text : String) → KeepsMarks (encode text)
  unfolding encode
  encode-keeps text =
      bind-keeps {C = List ℤ} (raise_if (is_blank text) value_error) _
        (raise_if-keeps (is_blank text) value_error)
        λ _ s.
          bind-keeps {C = List ℤ} (or_fail (s.tokenizer.encode text) library_error) _
            (or_fail-keeps (s.tokenizer.encode text) library_error)
            (λ tokens.
              bind-keeps {C = List ℤ} (raise_if (is_empty tokens) value_error) _
                (raise_if-keeps (is_empty tokens) value_error)
                λ _.
                  bind-keeps {C = List ℤ}
                    (raise_if (ltb s.context_limit (length tokens)) value_error) _
                    (raise_if-keeps (ltb s.context_limit (length tokens)) value_error)
                    (λ _ s. refl))
            s

  pub collect_turns-keeps :
      (owner : String) (extra : ℕ) (items : List TurnItem)
      → KeepsMarks (collect_turns owner extra items)
  unfolding collect_turns
  collect_turns-keeps owner extra [] = λ s. refl
  collect_turns-keeps owner extra (item ∷ items) =
      bind-keeps {C = List (PersistentState × List ℤ)} (on_registry (require item.state_id owner)) _
        (on_registry-keeps (require item.state_id owner))
        λ r.
          bind-keeps {C = List (PersistentState × List ℤ)} (encode item.input) _
            (encode-keeps item.input)
            λ tokens.
              bind-keeps {A = RequestState} {C = List (PersistentState × List ℤ)}
                (scheduled (Requests.request r.state_id)) _
                (scheduled-keeps (Requests.request r.state_id))
                λ q s.
                  bind-keeps {C = List (PersistentState × List ℤ)} (raise_if _ _) _
                    (raise_if-keeps (ltb s.context_limit (q.seen_tokens + length tokens + extra))
                      value_error)
                    (λ _.
                      bind-keeps {C = List (PersistentState × List ℤ)}
                        (collect_turns owner extra items) _ (collect_turns-keeps owner extra items)
                        (λ rest s. refl))
                    s
