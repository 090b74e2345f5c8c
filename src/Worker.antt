-- ===== src/Worker.antt =====
-- src/rwkv_agent/statepool_worker.py, class StatePoolWorkerAgent: registration, liveness and the
-- drain gate of one worker. The transport is not modelled: each call takes the replies that it gets.
pub mod Drain
use rwkv_agent.Base.{
  ℕ, ◌+◌, ◌-◌, ◌*◌, min, max, Bool, true, false, not, ◌&&◌, ◌||◌, List, [], ◌∷◌, Option, none, some,
  ltb, leb, ◌==◌, if◌then◌else◌, ℤ, pos, negsuc, Outcome, ok, raise, value_error,
}

pub data Lifecycle : Type 0 where
  starting ready draining offline : Lifecycle

-- What the control plane answers to a capability update.
pub data Reply : Type 0 where
  accepts : Reply
  orders_draining : Reply
  not_registered : Reply
  fails : Reply

-- The fields of the agent; `started` says that the heartbeat thread exists.
pub record Worker : Type 0 where
  pub lifecycle : Lifecycle
  pub started : Bool
  pub registered : Bool
  pub active_ingress : ℕ
  pub drain_deadline_ms : Option ℕ
  pub last_success_ms : ℕ
  pub failed_last : Bool

unfoldable pub init : Worker
init = record {
  lifecycle = starting;
  started = false;
  registered = false;
  active_ingress = 0;
  drain_deadline_ms = none;
  last_success_ms = 0;
  failed_last = false;
}

unfoldable pub start : Bool → Worker → Worker
start is_ready w =
    if w.started
    then w
    else record w { lifecycle = if is_ready then ready else starting; started = true }

abbrev pub is_closed : Lifecycle → Bool
is_closed starting = false
is_closed ready = false
is_closed draining = true
is_closed offline = true

abbrev pub is_ready : Lifecycle → Bool
is_ready ready = true
is_ready _ = false

unfoldable pub set_available : Bool → Worker → Worker
set_available available w =
    if is_closed w.lifecycle
    then w
    else record w { lifecycle = if available then ready else starting }

unfoldable pub enter_request : Worker → Worker × Bool
enter_request w =
    if is_ready w.lifecycle
    then (record w { active_ingress = w.active_ingress + 1 }, true)
    else (w, false)

unfoldable pub exit_request : Worker → Worker
exit_request w =
    if ltb 0 w.active_ingress then record w { active_ingress = w.active_ingress - 1 } else w

-- What one reply does, when the update was a heartbeat or a registration.
unfoldable pub on_reply : ℕ → Reply → Worker → Worker
on_reply now_ms accepts w = record w {
  registered = true;
  last_success_ms = now_ms;
  failed_last = false;
}
on_reply now_ms orders_draining w = record w {
  registered = true;
  last_success_ms = now_ms;
  failed_last = false;
  lifecycle = draining;
}
on_reply now_ms not_registered w = record w { registered = false }
on_reply now_ms fails w = record w { failed_last = true }

abbrev forgot : Reply → Bool
forgot not_registered = true
forgot _ = false

-- `_send_once(force_register=False)`: a registered worker that was forgotten registers again at
-- once, and gets the second reply; that registration is not repeated.
unfoldable pub send_once : ℕ → Reply → Reply → Worker → Worker
send_once now_ms first second w =
    if w.registered && forgot first
    then on_reply now_ms second (on_reply now_ms first w)
    else on_reply now_ms first w

unfoldable pub stop : ℕ → Reply → Reply → Worker → Worker
stop now_ms first second w =
    if w.registered
    then send_once now_ms first second (record w { lifecycle = offline })
    else record w { lifecycle = offline }

-- The drain request to the control plane leaves at most an error text.
unfoldable pub begin_draining : ℕ → ℕ → Reply → Reply → Bool → Worker → Outcome Worker ℕ
begin_draining now_ms timeout_ms first second drain_fails w =
    let deadline = now_ms + timeout_ms in
    let w' =
      send_once now_ms first second
        (record w { lifecycle = draining; drain_deadline_ms = some deadline }) in
    if leb timeout_ms 0
    then raise value_error w
    else ok deadline (record w' { failed_last = w'.failed_last || drain_fails })

unfoldable pub ready_status : Worker → Bool
ready_status w = is_ready w.lifecycle && w.registered

-- `_as_non_negative_int`: a missing value, or one that is no number, counts as 0.
unfoldable pub as_non_negative_int : Option ℤ → ℕ
as_non_negative_int none = 0
as_non_negative_int (some (pos n)) = n
as_non_negative_int (some (negsuc n)) = 0

-- The numbers that `capability` reads from the health document.
pub record Health : Type 0 where
  pub allocated : Option ℤ
  pub reconstructible : Option ℤ
  pub free : Option ℤ
  pub capacity : Option ℤ
  pub busy : Option ℤ
  pub waiting : Option ℤ
  pub prefilling : Option ℤ
  pub decoding : Option ℤ
  pub batching_waiting : Option ℤ
  pub batching_active_rows : Option ℤ
  pub batching_max_batch_size : Option ℤ

pub record Capacity : Type 0 where
  pub state_slots : ℕ
  pub free_state_slots : ℕ
  pub max_batch : ℕ
  pub queue_depth : ℕ
  pub running_requests : ℕ
  pub unpersisted_state_slots : ℕ

-- Python's `a or b` on numbers.
abbrev or_else : ℕ → ℕ → ℕ
or_else a b = if a == 0 then b else a

-- The `capacity` entry of the capability document.
unfoldable pub capability : ℕ → ℕ → Health → Worker → Capacity
capability settings_slots settings_max_batch h w = record {
  state_slots = capacity;
  free_state_slots = min free capacity;
  max_batch = or_else (int h.batching_max_batch_size) settings_max_batch;
  queue_depth = max (int h.waiting) (int h.batching_waiting);
  running_requests = max runtime_active w.active_ingress;
  unpersisted_state_slots = allocated - min allocated (int h.reconstructible);
}
  where
    int : Option ℤ → ℕ
    int = as_non_negative_int

    allocated : ℕ
    allocated = int h.allocated

    free : ℕ
    free = int h.free

    runtime_active : ℕ
    runtime_active =
        max (max (int h.prefilling + int h.decoding) (int h.batching_active_rows)) (int h.busy)

    capacity : ℕ
    capacity = max (or_else (int h.capacity) settings_slots) (allocated + free)

pub data DrainState : Type 0 where
  safe_to_stop deadline_exceeded still_draining : DrainState

pub record DrainStatus : Type 0 where
  pub status : DrainState
  pub active_requests : ℕ
  pub unpersisted_states : ℕ

abbrev is_expired : ℕ → Option ℕ → Bool
is_expired now_ms none = false
is_expired now_ms (some deadline) = leb deadline now_ms

unfoldable pub drain_status : ℕ → Capacity → Option ℕ → DrainStatus
drain_status now_ms c deadline_ms = record {
  status =
      if (active == 0) && (c.unpersisted_state_slots == 0)
      then safe_to_stop
      else if is_expired now_ms deadline_ms
      then deadline_exceeded
      else still_draining;
  active_requests = active;
  unpersisted_states = c.unpersisted_state_slots;
}
  where
    active : ℕ
    active = c.running_requests + c.queue_depth
