-- ===== src/Examples/Transfers.antt =====
-- An import into a scheduler: a row of the example backend is one tensor.
use mathlib.Core.Option.{some-injective}
use rwkv_agent.Base.{
  ◌≡◌, refl, subst, sym, ap, ◌∙◌, String, true, false, List, [], ◌∷◌, none, some, pos, strip,
  lookup, string_dec, has, arith, ok,
}
use rwkv_agent.StatePool.{StateHandle}
use rwkv_agent.StatePool.Handles.{is_live}
use rwkv_agent.Scheduler.Requests.{Scheduler, RequestState}
use rwkv_agent.Scheduler.Agreement.{Agrees}
use rwkv_agent.Scheduler.Steady.{handle_at}
use rwkv_agent.Scheduler.Transfer.{
  Transfer, Manifest, counts, Tensors, logits_name, item_name, export_state, import_state,
  imported_request,
}
use rwkv_agent.Scheduler.Portable.{IsExact}
use rwkv_agent.Scheduler.Exchange.{IsReady, HasRoom, import_state-export_state}
use rwkv_agent.Scheduler.Restored.{Imported, import_state-Imported}
use rwkv_agent.Examples.Machine.{machine, Rows, Row}
use rwkv_agent.Examples.Engine.{idle, idle-Agrees}

abbrev first_row : List (List Row) → Rows
first_row ((r ∷ rs) ∷ groups) = (1, λ i. r)
first_row _ = (1, λ i. [])

abbrev rows : Transfer ⦃B = machine⦄
rows = record {
  Tensor = Row;
  is_pipeline = false;
  groups = λ r. (r ∷ []) ∷ [];
  batch_of = first_row;
  fits = λ a b. true;
  of_logits = λ l. l;
  to_logits = λ t. t;
  is_vocabulary = λ t. true;
}

abbrev manifest : Manifest
manifest = record {
  format = "rwkv-recurrent-state.v1";
  backend = "albatross";
  layout = "stacked";
  group_lengths = counts [];
  seen_tokens = pos 2;
}

abbrev tensors : Tensors ⦃B = machine⦄ ⦃F = rows⦄
tensors = (logits_name, pos 1 ∷ pos 2 ∷ []) ∷ (item_name 0, pos 7 ∷ []) ∷ []

import_state-Imported_example :
    Imported ⦃B = machine⦄ idle
      (strip "r")
      (import_state ⦃B = machine⦄ ⦃F = rows⦄ "r" manifest tensors idle)
import_state-Imported_example =
    import_state-Imported ⦃B = machine⦄ ⦃F = rows⦄ idle idle-Agrees "r" manifest tensors

first_row-size : (gs : List (List Row)) → (first_row gs).0 ≡ 1
first_row-size [] = refl
first_row-size ([] ∷ gs) = refl
first_row-size ((r ∷ rs) ∷ gs) = refl

rows-IsExact : IsExact ⦃B = machine⦄ rows
rows-IsExact = record {
  size-batch_of = first_row-size;
  row-batch_of = λ r. refl;
  fits-groups = λ r q. ((refl, tt), tt);
  one_group = λ r e. (r ∷ [], refl);
  to_logits-of_logits = λ l. refl;
  is_vocabulary-of_logits = λ l. refl;
}

abbrev request_r : RequestState ⦃B = machine⦄
request_r = record {
  request_id = "r";
  handle = record { state_id = ("p", 0, 1); slot = 0; generation = 1; device = "cpu" };
  token_ids = [];
  offset = 0;
  seen_tokens = 1;
  logits = some (pos 7 ∷ []);
  output_ids = [];
  admitted_at = 0;
  first_service_at = some 0;
  completed_at = some 0;
  cancelled = false;
}

-- A request that is ready, in the first of three slots.
abbrev ready : Scheduler ⦃B = machine⦄
ready = record idle {
  pool = record idle.pool {
    state = (3, λ i. pos 7 ∷ []);
    free = 1 ∷ 2 ∷ [];
    generation = 1 ∷ 0 ∷ 0 ∷ [];
    owners = some "r" ∷ none ∷ none ∷ [];
  };
  requests = ("r", request_r) ∷ [];
}

only :
    (id : String) (q : RequestState ⦃B = machine⦄)
    → lookup string_dec id ready.requests ≡ some q
    → ("r" ≡ id) × (request_r ≡ q)
unfolding lookup
only id q e = elim (string_dec "r" id) [
  | yes same_id ↦ (same_id, some-injective _ _ (ground (arith, e, same_id)))
  | no other ↦ absurd (ground (arith, e, other))
]

held_only :
    (id : String) (h : StateHandle)
    → handle_at ⦃B = machine⦄ ready.requests id ≡ some h
    → ("r" ≡ id) × (request_r.handle ≡ h)
unfolding lookup
held_only id h e = elim (string_dec "r" id) [
  | yes same_id ↦ (same_id, some-injective _ _ (ground (arith, e, same_id)))
  | no other ↦ absurd (ground (arith, e, other))
]

ready-Agrees : Agrees ⦃B = machine⦄ ready
unfolding lookup string_dec
ready-Agrees = record {
  pool = record {
    slab = refl;
    generations = refl;
    owned = refl;
    vacant = λ i. ground arith;
    balanced = refl;
  };
  distinct = (refl, tt);
  keyed = λ id q e. let (a, b) = only id q e in ap (λ r. r.request_id) (sym b) ∙ a;
  live = λ id h e. subst (λ g. is_live ⦃B = machine⦄ ready.pool g ≡ true) (held_only id h e).1 refl;
  apart = λ id j h g e f same_slot. sym (held_only id h e).0 ∙ (held_only j g f).0;
}

ready-IsReady : IsReady ⦃B = machine⦄ ready "r" request_r (pos 7 ∷ [])
unfolding lookup string_dec
ready-IsReady = record {
  table = ready-Agrees;
  known = refl;
  active = refl;
  done = refl;
  ready = refl;
  wide = omega arith;
}

idle-HasRoom : HasRoom ⦃B = machine⦄ idle "c" 1
unfolding strip has
idle-HasRoom = record {
  table = idle-Agrees;
  clean = refl;
  named = refl;
  short = omega arith;
  new = refl;
  room = omega arith;
  free = omega arith;
  wide = omega arith;
}

import_state-export_state_example :
    (m : Manifest) × (ts : Tensors ⦃B = machine⦄ ⦃F = rows⦄) × (t : Scheduler ⦃B = machine⦄)
    × (h : StateHandle) × (v : Scheduler ⦃B = machine⦄) × (export_state ⦃B = machine⦄ ⦃F = rows⦄ "r"
          ready
        ≡ ok (m, ts) t)
    × (import_state ⦃B = machine⦄ ⦃F = rows⦄ "c" m ts idle
        ≡ ok (imported_request ⦃B = machine⦄ ⦃F = rows⦄ (strip "c") h 1 (pos 7 ∷ []) 0) v)
    × (v.pool.state.1 h.slot ≡ pos 7 ∷ [])
import_state-export_state_example =
    import_state-export_state ⦃B = machine⦄ ⦃F = rows⦄ rows-IsExact ready idle "r" "c" request_r
      (pos 7 ∷ []) ready-IsReady idle-HasRoom
