-- ===== src/Runtime/Rounds.antt =====
-- src/rwkv_agent/state_runtime.py, _decode_locked: the rounds of a decode end.
use rwkv_agent.Base.{
  ℕ, zero, suc, ◌+◌, ◌<◌, ◌≡◌, refl, String, false, not, List, [], ◌∷◌, ◌++◌, map, length,
  if◌then◌else◌, Dict, ℤ, M, Outcome, ok, raise, or_fail, key_error, stalls, Ends, bind-Ends,
  or_fail-Ends, arith, Bool-cases, inl, inr,
}
use rwkv_agent.Backend.{Backend}
use rwkv_agent.Decoding.{Text, append_greedy_token}
use rwkv_agent.Scheduler.Requests.{Scheduler, RequestState}
use rwkv_agent.Scheduler.Requests
use rwkv_agent.Scheduler.Endings.{request-Ends, sample_next-Ends, advance_tokens-Ends}
use rwkv_agent.Scheduler.Decode.{token_of, sample_next, advance_tokens}
use rwkv_agent.Registry.{PersistentState, on_scheduler}
use rwkv_agent.Runtime.Defs.{Runtime, on_registry, scheduled}
use rwkv_agent.Runtime.Turns.{
  StateResult, DecodeRow, take_token, check_stop, still_active, advance_of, decode_rounds,
  results_of, decode_locked, row_of, new_row,
}

-- A row that goes on has tokens left, and no more rounds than the fuel to use them up.
abbrev Within : ℕ → ℕ → DecodeRow → Type 0
Within fuel max_tokens row =
    (length row.output_ids < max_tokens) × (max_tokens < fuel + length row.output_ids)

abbrev AllWithin : ℕ → ℕ → List DecodeRow → Type 0
AllWithin fuel max_tokens [] = Unit {0}
AllWithin fuel max_tokens (row ∷ rows) = Within fuel max_tokens row × AllWithin fuel max_tokens rows

length-snoc {ℓ} : {A : Type ℓ} (xs : List A) (x : A) → length (xs ++ x ∷ []) ≡ length xs + 1
length-snoc [] x = refl
length-snoc (y ∷ xs) x = omega (arith, length-snoc xs x)

-- A round gives a row that goes on one more token.
next-Within :
    (eos : ℤ) (fuel n : ℕ) (sampled : Dict String ℤ) (decode : List ℤ → Text) (stops : List Text)
    (row : DecodeRow)
    → Within (suc fuel) n row
    → (check_stop decode stops n (take_token eos n sampled row).0).is_finished ≡ false
    → Within fuel n (check_stop decode stops n (take_token eos n sampled row).0)
unfolding check_stop take_token append_greedy_token
next-Within eos fuel n sampled decode stops row w going =
    ground (arith, w.0, w.1, length-snoc row.output_ids (token_of sampled row.state_id))

kept-AllWithin :
    (fuel n : ℕ) (row : DecodeRow) (rows : List DecodeRow)
    → (row.is_finished ≡ false → Within fuel n row)
    → AllWithin fuel n rows
    → AllWithin fuel n (if not row.is_finished then row ∷ rows else rows)
kept-AllWithin fuel n row rows k w = elim (Bool-cases row.is_finished) [
  | inl over ↦ rw over w
  | inr going ↦ rw going (k going, w)
]

next-AllWithin :
    (eos : ℤ) (fuel n : ℕ) (sampled : Dict String ℤ) (decode : List ℤ → Text) (stops : List Text)
    (rows : List DecodeRow)
    → AllWithin (suc fuel) n rows
    → AllWithin fuel n (
        still_active
          (map (λ t. check_stop decode stops n t.0) (map (take_token eos n sampled) rows)))
next-AllWithin eos fuel n sampled decode stops [] w = tt
next-AllWithin eos fuel n sampled decode stops (row ∷ rows) w =
    kept-AllWithin fuel n (check_stop decode stops n (take_token eos n sampled row).0) _
      (next-Within eos fuel n sampled decode stops row w.0)
      (next-AllWithin eos fuel n sampled decode stops rows w.1)

module _ ⦃B : Backend⦄ where
  scheduled-Ends : {A : Type 0} (m : M Scheduler A) → Ends m → Ends (scheduled m)
  scheduled-Ends {A = A} m k s = put (m s.registry.scheduler) (k s.registry.scheduler)
    where
      put :
          (o : Outcome Scheduler A)
          → stalls o ≡ false
          → stalls {S = Runtime} {A = A} (on_registry (on_scheduler (λ _. o)) s) ≡ false
      put (ok a q) e = refl
      put (raise x q) e = e

  results_of-Ends : (rows : List DecodeRow) (rs : List PersistentState) → Ends (results_of rows rs)
  unfolding results_of
  results_of-Ends rows [] = λ s. refl
  results_of-Ends rows (r ∷ rs) =
      bind-Ends {A = RequestState} {C = List StateResult} (scheduled (Requests.request r.state_id))
        _ (scheduled-Ends (Requests.request r.state_id) (request-Ends r.state_id))
        λ q.
          bind-Ends {A = DecodeRow} {C = List StateResult}
            (or_fail (row_of r.state_id rows) key_error) _
            (or_fail-Ends (row_of r.state_id rows) key_error refl)
            λ row.
              bind-Ends {C = List StateResult} (results_of rows rs) _ (results_of-Ends rows rs)
                (λ rest s. refl)

  decode_rounds-Ends :
      (fuel : ℕ) (stops : List Text) (n : ℕ) (active done : List DecodeRow)
      → 0 < fuel
      → AllWithin fuel n active
      → Ends (decode_rounds fuel stops n active done)
  unfolding decode_rounds
  decode_rounds-Ends zero stops n active done p w = absurd (omega (arith, p))
  decode_rounds-Ends (suc fuel) stops n [] done p w = λ s. refl
  decode_rounds-Ends (suc fuel) stops n (row ∷ rows) done p w = λ s.
      bind-Ends {C = List DecodeRow}
        (scheduled (sample_next (map (λ row. row.state_id) (row ∷ rows)))) _
        (scheduled-Ends _ (sample_next-Ends _))
        (λ sampled.
          bind-Ends {C = List DecodeRow}
            (scheduled (
              advance_tokens (advance_of (map (take_token s.eos_token_id n sampled) (row ∷ rows)))))
            _ (scheduled-Ends _ (advance_tokens-Ends _))
            (λ _. decode_rounds-Ends fuel stops n _ _ (omega (arith, w.0)) (
              next-AllWithin s.eos_token_id fuel n sampled s.tokenizer.decode stops (row ∷ rows)
                w)))
        s

  new_rows-AllWithin :
      (n : ℕ) (rs : List PersistentState) → 0 < n → AllWithin (suc n) n (map new_row rs)
  new_rows-AllWithin n [] p = tt
  new_rows-AllWithin n (r ∷ rs) p = ((p, omega arith), new_rows-AllWithin n rs p)

  -- A decode with a positive token budget returns or raises an error of the program: the fuel of its
  -- rounds is enough.
  pub decode_locked-Ends :
      (rs : List PersistentState) (stops : List Text) (max_tokens : ℕ) (s : Runtime)
      → 0 < max_tokens
      → stalls (decode_locked rs stops max_tokens s) ≡ false
  unfolding decode_locked
  decode_locked-Ends rs stops n s p =
      bind-Ends {C = List StateResult} (decode_rounds (suc n) stops n (map new_row rs) []) _
        (decode_rounds-Ends (suc n) stops n (map new_row rs) [] (omega arith)
          (new_rows-AllWithin n rs p))
        (λ rows. results_of-Ends rows rs) s
