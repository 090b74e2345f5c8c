-- ===== src/Worker/Drain.antt =====
-- The drain gate of src/rwkv_agent/statepool_worker.py: when a worker says that it may be stopped,
-- and that a worker which drains takes no new request.
use rwkv_agent.Base.{
  ℕ, ◌+◌, ◌≡◌, ◌≤◌, ◌↔◌, refl, Bool, true, false, List, [], ◌∷◌, Option, some, arith, after,
}
use rwkv_agent.Worker.{
  Worker, Reply, Health, safe_to_stop, is_closed, offline, draining, start, set_available,
  enter_request, exit_request, send_once, stop, begin_draining, capability, drain_status,
  as_non_negative_int, accepts, orders_draining, not_registered, fails, on_reply,
}

-- The calls on a worker, with the replies that they get.
pub data Call : Type 0 where
  starts : Bool → Call
  sets_available : Bool → Call
  enters exits : Call
  heartbeats : ℕ → Reply → Reply → Call
  stops : ℕ → Reply → Reply → Call
  drains : ℕ → ℕ → Reply → Reply → Bool → Call

unfoldable pub step : Call → Worker → Worker
step (starts r) w = start r w
step (sets_available a) w = set_available a w
step enters w = (enter_request w).0
step exits w = exit_request w
step (heartbeats t a b) w = send_once t a b w
step (stops t a b) w = stop t a b w
step (drains t d a b f) w = after (begin_draining t d a b f w)

unfoldable pub run : List Call → Worker → Worker
run [] w = w
run (c ∷ cs) w = run cs (step c w)

on_reply-closed :
    (t : ℕ) (r : Reply) (w : Worker)
    → is_closed w.lifecycle ≡ true
    → (is_closed (on_reply t r w).lifecycle ≡ true) × ((on_reply t r w).started ≡ w.started)
unfolding on_reply
on_reply-closed t accepts w h = (h, refl)
on_reply-closed t orders_draining w h = (refl, refl)
on_reply-closed t not_registered w h = (h, refl)
on_reply-closed t fails w h = (h, refl)

-- A started worker that drains or is offline.
abbrev pub IsClosed : Worker → Type 0
IsClosed w = (w.started ≡ true) × (is_closed w.lifecycle ≡ true)

send_once-IsClosed : (t : ℕ) (a b : Reply) (w : Worker) → IsClosed w → IsClosed (send_once t a b w)
unfolding send_once
send_once-IsClosed t a b w h =
    ground (arith, on_reply-closed t a w h.1, on_reply-closed t b (on_reply t a w))

step-IsClosed : (c : Call) (w : Worker) → IsClosed w → IsClosed (step c w)
unfolding step
step-IsClosed (starts r) w h = unfold start in (ground arith)
step-IsClosed (sets_available a) w h = unfold set_available in (ground arith)
step-IsClosed enters w h = unfold enter_request in (ground arith)
step-IsClosed exits w h = unfold exit_request in (ground arith)
step-IsClosed (heartbeats t a b) w h = send_once-IsClosed t a b w h
step-IsClosed (stops t a b) w h =
    unfold stop in (ground (arith, send_once-IsClosed t a b (record w { lifecycle = offline })))
step-IsClosed (drains t d a b f) w h =
    let marked : Worker = record w { lifecycle = draining; drain_deadline_ms = some (t + d) } in
    unfold begin_draining in (ground (arith, send_once-IsClosed t a b marked))

-- A started worker that drains or is offline admits no request after any sequence of calls and
-- replies: availability updates and heartbeats do not reopen it.
pub closed_forever :
    (cs : List Call) (w : Worker) → IsClosed w → enter_request (run cs w) ≡ (run cs w, false)
unfolding run
closed_forever [] w h = unfold enter_request in (ground arith)
closed_forever (c ∷ cs) w h = closed_forever cs (step c w) (step-IsClosed c w h)

-- `drain_status` says "safe to stop" exactly when no request is admitted, running or queued and no
-- more states are allocated than are reconstructible.
pub safe_iff :
    (now slots batch : ℕ) (deadline : Option ℕ) (h : Health) (w : Worker)
    → ((drain_status now (capability slots batch h w) deadline).status ≡ safe_to_stop) ↔ (
        (w.active_ingress ≡ 0)
        × (as_non_negative_int h.prefilling ≡ 0)
        × (as_non_negative_int h.decoding ≡ 0)
        × (as_non_negative_int h.batching_active_rows ≡ 0)
        × (as_non_negative_int h.busy ≡ 0)
        × (as_non_negative_int h.waiting ≡ 0)
        × (as_non_negative_int h.batching_waiting ≡ 0)
        × (as_non_negative_int h.allocated ≤ as_non_negative_int h.reconstructible))
unfolding drain_status capability
safe_iff now slots batch deadline h w = (λ e. ground arith, λ e. ground arith)
