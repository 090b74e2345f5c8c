-- ===== src/Stop.antt =====
-- src/rwkv_agent/statepool_drain.py: the client that asks a worker to drain and waits until it may stop.
pub mod Ends
use rwkv_agent.Base.{
  ℕ, zero, suc, ◌+◌, String, Bool, true, false, ◌||◌, leb, if◌then◌else◌, M, Error, Outcome, ok,
  raise, pure, fail, ◌>>=◌, ◌>>◌, raise_if, value_error, timeout_error, out_of_fuel, ◌⊎◌, inl, inr,
}

-- `status.get("status")`; any other value goes on waiting.
pub data Status : Type 0 where
  safe_to_stop deadline_exceeded waiting : Status

-- What the worker and the clock give: the answer to the n-th request, or the error that it raises, and
-- what the clock reads at the n-th test of the deadline.
pub record Run : Type 0 where
  pub reply : ℕ → Error ⊎ Status
  pub clock : ℕ → ℕ

-- The test of the loop and its body, from the answer to the n-th request on.
unfoldable pub poll : Run → ℕ → ℕ → ℕ → M (Unit {0}) Status
poll run deadline zero n = fail out_of_fuel
poll run deadline (suc fuel) n = elim (run.reply n) [
  | inl e ↦ fail e
  | inr safe_to_stop ↦ pure safe_to_stop
  | inr deadline_exceeded ↦ fail timeout_error
  | inr waiting ↦
      if leb deadline (run.clock n) then fail timeout_error else poll run deadline fuel (suc n)
]

-- Times in whole ticks; `start` is what the clock reads before the first request.
unfoldable pub drain : Run → ℕ → ℕ → ℕ → ℕ → M (Unit {0}) Status
drain run start deadline_seconds poll_seconds fuel = do
  raise_if (leb deadline_seconds 0 || leb poll_seconds 0) value_error
  poll run (start + deadline_seconds) fuel 0
