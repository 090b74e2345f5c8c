-- ===== src/Examples/Serving.antt =====
-- Runs of the runtime, the worker, the prefill and the stop texts.
use rwkv_agent.Base.{
  stalls, ℕ, ◌+◌, ◌%◌, ◌≤◌, ◌<◌, ◌≡◌, ◌↔◌, ◌⊎◌, refl, true, false, List, [], ◌∷◌, some, none, ℤ,
  pos, arith, after,
}
use rwkv_agent.Scheduler.Requests.{Scheduler}
use rwkv_agent.Registry.{PersistentState}
use rwkv_agent.Runtime.Defs.{Runtime}
use rwkv_agent.Runtime.Turns.{TurnItem, begin_turns, continue_many}
use rwkv_agent.Runtime.Busy.{Begun, begin_turns-excludes, continue_many-unmarks}
use rwkv_agent.Runtime.Turns.{decode_locked}
use rwkv_agent.Runtime.Rounds.{decode_locked-Ends}
use rwkv_agent.Scheduler.Prefill.{chunk_length, batches}
use rwkv_agent.Scheduler.Chunks.{chunk_length-bounds, batches-joined, joined, AllSized}
use rwkv_agent.Decoding.{
  Text, earliest, find, is_prefix, mentions_code, take_text, decode_text_stops,
}
use rwkv_agent.Decoding.Stops.{IsEarliest, NoneOccurs, decode_text_stops-IsEarliest}
use rwkv_agent.Worker.{
  Worker, Health, enter_request, drain_status, capability, safe_to_stop, draining,
  as_non_negative_int, accepts,
}
use rwkv_agent.Worker.Drain.{run, closed_forever, safe_iff, sets_available, heartbeats, exits}
use rwkv_agent.Examples.Machine.{machine}

-- One persistent state that has seen one token.
abbrev scheduler : Scheduler ⦃B = machine⦄
scheduler = record {
  pool = record {
    config = record { pool_id = "p"; capacity = 1; max_batch_size = 1; device = "cpu" };
    state = (1, λ i. pos 7 ∷ []);
    workspaces = [];
    free = [];
    generation = 1 ∷ [];
    owners = some "r" ∷ [];
  };
  config = record {
    prefill_chunk_size = 4;
    max_batch_size = 1;
    max_queue_size = 1;
    max_input_tokens = 8;
    eos_token_id = pos 0;
  };
  requests =
      (
        "r",
        record {
          request_id = "r";
          handle = record { state_id = ("p", 0, 1); slot = 0; generation = 1; device = "cpu" };
          token_ids = [];
          offset = 0;
          seen_tokens = 1;
          logits = some (pos 7 ∷ []);
          output_ids = [];
          admitted_at = 0;
          first_service_at = some 0;
          completed_at = some 0;
          cancelled = false;
        },
      )
      ∷ [];
  metrics = [];
  shape_counts = [];
  clock = 0;
  greedy = true;
  generator = 0;
}

abbrev root_record : PersistentState
root_record = record {
  state_id = "r";
  owner_id = "o";
  parent_state_id = none;
  branch = "root";
  created_at = 0;
  last_used_at = 0;
}

abbrev runtime : Runtime ⦃B = machine⦄
runtime = record {
  registry = record {
    scheduler = scheduler;
    capacity = 4;
    ttl_seconds = 5;
    now = 1;
    records =
        (
          "r",
          record {
            state_id = "r";
            owner_id = "o";
            parent_state_id = none;
            branch = "root";
            created_at = 0;
            last_used_at = 0;
          },
        )
        ∷ [];
  };
  tokenizer = record { encode = λ t. some (pos 3 ∷ []); decode = λ ts. [] };
  context_limit = 64;
  eos_token_id = pos 0;
  busy = "other" ∷ [];
  metrics = [];
  new_id = λ n. "n";
  ids_used = 0;
}

abbrev one_turn : List TurnItem
one_turn = record { state_id = "r"; input = "hi" } ∷ []

begin_turns-excludes_example :
    Begun ⦃B = machine⦄ ("other" ∷ []) (begin_turns ⦃B = machine⦄ "o" one_turn 2 runtime)
begin_turns-excludes_example = begin_turns-excludes ⦃B = machine⦄ "o" one_turn 2 runtime

continue_many-unmarks_example :
    (after (continue_many ⦃B = machine⦄ none "o" one_turn [] 2 runtime)).busy ≡ "other" ∷ []
continue_many-unmarks_example = continue_many-unmarks ⦃B = machine⦄ none "o" one_turn [] 2 runtime

decode_locked-Ends_example :
    stalls (decode_locked ⦃B = machine⦄ (root_record ∷ []) [] 2 runtime) ≡ false
decode_locked-Ends_example =
    decode_locked-Ends ⦃B = machine⦄ (root_record ∷ []) [] 2 runtime (omega arith)

abbrev draining_worker : Worker
draining_worker = record {
  lifecycle = draining;
  started = true;
  registered = true;
  active_ingress = 2;
  drain_deadline_ms = some 5;
  last_success_ms = 0;
  failed_last = false;
}

closed_forever_example :
    enter_request
      (run (sets_available true ∷ exits ∷ heartbeats 3 accepts accepts ∷ []) draining_worker)
    ≡ (run (sets_available true ∷ exits ∷ heartbeats 3 accepts accepts ∷ []) draining_worker, false)
closed_forever_example =
    closed_forever (sets_available true ∷ exits ∷ heartbeats 3 accepts accepts ∷ []) draining_worker
      (refl, refl)

chunk_length-bounds_example :
    (0 < chunk_length 4 6 9)
    × (chunk_length 4 6 9 ≤ 9)
    × (6 % 4 + chunk_length 4 6 9 ≤ 4)
    × ((chunk_length 4 6 9 ≡ 9) ⊎ (6 % 4 + chunk_length 4 6 9 ≡ 4))
chunk_length-bounds_example = chunk_length-bounds 4 6 9 (omega arith) (omega arith)

batches-joined_example :
    (joined {A = ℕ} (batches 2 (1 ∷ 2 ∷ 3 ∷ [])) ≡ 1 ∷ 2 ∷ 3 ∷ [])
    × AllSized {A = ℕ} 2 (batches 2 (1 ∷ 2 ∷ 3 ∷ []))
batches-joined_example = batches-joined 2 (1 ∷ 2 ∷ 3 ∷ []) (omega arith)

-- Every token is read as its code point; the stop "b" is before the stop "c".
abbrev codes : List ℤ → Text
codes [] = []
codes (pos n ∷ ts) = n ∷ codes ts
codes (ℤ.negsuc n ∷ ts) = codes ts

abbrev abc : List ℤ
abc = pos 97 ∷ pos 98 ∷ pos 99 ∷ []

abbrev b_or_c : List Text
b_or_c = (99 ∷ []) ∷ (98 ∷ []) ∷ []

cut_at_b : decode_text_stops codes abc [] b_or_c ≡ record { text = 97 ∷ []; stop_reason = 98 ∷ [] }
unfolding decode_text_stops mentions_code earliest find is_prefix
cut_at_b = refl

decode_text_stops-IsEarliest_example :
    ((mentions_code 0xfffd (codes abc) ≡ true)
      × ((decode_text_stops codes abc [] b_or_c).text ≡ [])
      × ((decode_text_stops codes abc [] b_or_c).stop_reason ≡ []))
    ⊎ ((mentions_code 0xfffd (codes abc) ≡ false)
        × ((decode_text_stops codes abc [] b_or_c).text ≡ codes abc)
        × ((decode_text_stops codes abc [] b_or_c).stop_reason ≡ [])
        × NoneOccurs (codes abc) b_or_c)
    ⊎ ((mentions_code 0xfffd (codes abc) ≡ false)
        × (i : ℕ) × ((decode_text_stops codes abc [] b_or_c).text ≡ take_text i (codes abc))
        × IsEarliest (codes abc) b_or_c i (decode_text_stops codes abc [] b_or_c).stop_reason)
decode_text_stops-IsEarliest_example = decode_text_stops-IsEarliest codes abc [] b_or_c

abbrev two_allocated : Health
two_allocated = record {
  allocated = some (pos 2);
  reconstructible = some (pos 2);
  free = some (pos 1);
  capacity = none;
  busy = none;
  waiting = none;
  prefilling = none;
  decoding = none;
  batching_waiting = none;
  batching_active_rows = none;
  batching_max_batch_size = none;
}

abbrev NothingRuns : Health → Worker → Type 0
NothingRuns h w =
    (w.active_ingress ≡ 0)
    × (as_non_negative_int h.prefilling ≡ 0)
    × (as_non_negative_int h.decoding ≡ 0)
    × (as_non_negative_int h.batching_active_rows ≡ 0)
    × (as_non_negative_int h.busy ≡ 0)
    × (as_non_negative_int h.waiting ≡ 0)
    × (as_non_negative_int h.batching_waiting ≡ 0)
    × (as_non_negative_int h.allocated ≤ as_non_negative_int h.reconstructible)

safe_iff_example :
    ((drain_status 9 (capability 3 2 two_allocated draining_worker) (some 5)).status ≡ safe_to_stop)
    ↔ NothingRuns two_allocated draining_worker
safe_iff_example = safe_iff 9 3 2 (some 5) two_allocated draining_worker
