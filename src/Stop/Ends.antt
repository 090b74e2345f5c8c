-- ===== src/Stop/Ends.antt =====
-- src/rwkv_agent/statepool_drain.py: the wait ends, and how.
use rwkv_agent.Base.{
  ℕ, zero, suc, ◌+◌, ◌≤◌, ◌≡◌, refl, Bool, true, false, ◌||◌, leb, if◌then◌else◌, M, Error, Outcome,
  ok, raise, pure, fail, value_error, timeout_error, ◌⊎◌, inl, inr, arith, guard-Ends, ◌≢◌, ap,
}
use rwkv_agent.Stop.{Status, safe_to_stop, deadline_exceeded, waiting, Run, poll, drain}

-- The worker said that it is safe to stop; or the deadline passed; or a request failed, with its error.
abbrev pub Ended : Run → ℕ → Outcome (Unit {0}) Status → Type 0
Ended run last (ok s _) =
    (s ≡ safe_to_stop) × ((j : ℕ) × (j ≤ last) × (run.reply j ≡ inr safe_to_stop))
Ended run last (raise e _) =
    (e ≡ value_error) ⊎ (e ≡ timeout_error) ⊎ ((j : ℕ) × (j ≤ last) × (run.reply j ≡ inl e))

poll-Ended :
    (run : Run) (deadline last fuel n : ℕ)
    → deadline ≤ run.clock last
    → last + 1 ≤ n + fuel
    → n ≤ last
    → Ended run last (poll run deadline fuel n tt)
unfolding poll
poll-Ended run deadline last zero n late enough before = absurd (omega (arith, enough, before))
poll-Ended run deadline last (suc fuel) n late enough before =
    answered (run.reply n) refl
      (λ le. poll-Ended run deadline last fuel (suc n) late (omega (arith, enough)) le)
  where
    More : Type 0
    More = suc n ≤ last → Ended run last (poll run deadline fuel (suc n) tt)

    not_last : leb deadline (run.clock n) ≡ false → n ≢ last
    not_last e same = absurd (ground (arith, e, late, ap run.clock same))

    go_on :
        (b : Bool)
        → leb deadline (run.clock n) ≡ b
        → More
        → Ended run last ((if b then fail timeout_error else poll run deadline fuel (suc n)) tt)
    go_on true e more = inr (inl refl)
    go_on false e more = more (ground (arith, e, late, before, not_last e))

    answered :
        (r : Error ⊎ Status)
        → run.reply n ≡ r
        → More
        → Ended run last (
            (elim r as (λ _. M (Unit {0}) Status) [
              | inl e ↦ fail e
              | inr safe_to_stop ↦ pure safe_to_stop
              | inr deadline_exceeded ↦ fail timeout_error
              | inr waiting ↦
                  if leb deadline (run.clock n)
                  then fail timeout_error
                  else poll run deadline fuel (suc n)
            ])
              tt)
    answered (inl e) k more = inr (inr (n, before, k))
    answered (inr safe_to_stop) k more = (refl, (n, before, k))
    answered (inr deadline_exceeded) k more = inr (inl refl)
    answered (inr waiting) k more = go_on (leb deadline (run.clock n)) refl more

-- When the clock reaches the deadline by the test after some request, the wait ends by that request: it
-- returns only after the worker said that it is safe to stop, or raises a ValueError, a TimeoutError or
-- the error of a request. One round more than that request's number is fuel enough.
pub drain-Ended :
    (run : Run) (start deadline_seconds poll_seconds last : ℕ)
    → start + deadline_seconds ≤ run.clock last
    → Ended run last (drain run start deadline_seconds poll_seconds (suc last) tt)
unfolding drain
drain-Ended run start deadline_seconds poll_seconds last late =
    guard-Ends (Ended run last) (leb deadline_seconds 0 || leb poll_seconds 0) value_error _ tt
      (inl refl)
      (λ _.
        poll-Ended run (start + deadline_seconds) last (suc last) 0 late (omega arith)
          (omega arith))
