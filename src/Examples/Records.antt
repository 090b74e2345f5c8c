-- ===== src/Examples/Records.antt =====
-- Runs of the registry of persistent states.
use rwkv_agent.Base.{
  tally, ◌≡◌, ◌↔◌, refl, subst, true, [], ◌∷◌, String, Option, some, none, string_dec, lookup, has,
  remove, mentions, ok, arith, pos,
}
use rwkv_agent.Scheduler.Requests
use rwkv_agent.Scheduler.Requests.{Scheduler, SchedulerConfig}
use rwkv_agent.Registry.{
  Registry, PersistentState, Records, children_of, subtree_of, release_records, cleanup_expired,
  expire_one, expire_each, drop_node, descendants_of, walk_from, walk_step, visit,
  subtree_last_active, newest_of,
}
use rwkv_agent.Registry.Reachable.{Reaches, subtree-Reaches}
use rwkv_agent.Registry.Orphans.{IsForest}
use rwkv_agent.Runtime.Defs.{Runtime, cleanup, bump}
use rwkv_agent.Runtime.Expiry.{cleanup-spares}
use rwkv_agent.Registry.Release.{Spared}
use rwkv_agent.Registry.Subtrees.{Released, release_records-Released}
use rwkv_agent.Scheduler.History.{admits, run, run-Agrees}
use rwkv_agent.Examples.Engine.{idle, idle-Agrees}
use rwkv_agent.Examples.Machine.{machine}

abbrev state_record : String → Option String → PersistentState
state_record id parent = record {
  state_id = id;
  owner_id = "o";
  parent_state_id = parent;
  branch = "b";
  created_at = 0;
  last_used_at = 0;
}

-- A root, its child and another root.
abbrev three : Records
three =
    ("r", state_record "r" none)
    ∷ ("c", state_record "c" (some "r"))
    ∷ ("x", state_record "x" none)
    ∷ []

three-IsForest : IsForest three
unfolding lookup has string_dec
three-IsForest = record {
  distinct = (refl, (refl, (refl, tt)));
  keyed = λ k r e. ground (arith, e);
  parents =
      λ k p r e parent. subst (λ q. has string_dec q three ≡ true) (the_root k p r e parent) refl;
}
  where
    the_root :
        (k p : String) (r : PersistentState)
        → lookup string_dec k three ≡ some r
        → r.parent_state_id ≡ some p
        → "r" ≡ p
    the_root k p r e parent = ground (arith, e, parent)

subtree-Reaches_example : (mentions "c" (subtree_of three "r") ≡ true) ↔ Reaches three "r" "c"
subtree-Reaches_example = subtree-Reaches three "r" "c"

abbrev idle_scheduler : Scheduler ⦃B = machine⦄
idle_scheduler = record {
  pool = record {
    config = record { pool_id = "p"; capacity = 1; max_batch_size = 1; device = "cpu" };
    state = (1, λ i. []);
    workspaces = [];
    free = 0 ∷ [];
    generation = 0 ∷ [];
    owners = none ∷ [];
  };
  config = record {
    prefill_chunk_size = 4;
    max_batch_size = 1;
    max_queue_size = 1;
    max_input_tokens = 8;
    eos_token_id = pos 0;
  };
  requests = [];
  metrics = [];
  shape_counts = [];
  clock = 0;
  greedy = true;
  generator = 0;
}

-- All three records are idle past their time.
abbrev registry_of : Records → Registry ⦃B = machine⦄
registry_of records = record {
  scheduler = idle_scheduler;
  capacity = 8;
  ttl_seconds = 5;
  now = 9;
  records = records;
}

-- A registry whose root and child have a request each.
abbrev serving : Registry ⦃B = machine⦄
serving = record {
  scheduler = run ⦃B = machine⦄ (admits "r" (pos 3 ∷ []) ∷ admits "c" (pos 3 ∷ []) ∷ []) idle;
  capacity = 8;
  ttl_seconds = 5;
  now = 9;
  records = three;
}

release_records-Released_example :
    (t : Registry ⦃B = machine⦄) × (release_records ⦃B = machine⦄
        (state_record "r" none ∷ [])
        serving
      ≡ ok tt t)
    × Released ⦃B = machine⦄ (state_record "r" none ∷ []) serving t
release_records-Released_example =
    release_records-Released ⦃B = machine⦄ (state_record "r" none ∷ []) serving three-IsForest (
      run-Agrees ⦃B = machine⦄ (admits "r" (pos 3 ∷ []) ∷ admits "c" (pos 3 ∷ []) ∷ []) idle
        idle-Agrees)

abbrev without_x : Records
without_x = ("r", state_record "r" none) ∷ ("c", state_record "c" (some "r")) ∷ []

abbrev runtime_of : Records → Runtime ⦃B = machine⦄
runtime_of records = record {
  registry = registry_of records;
  tokenizer = record { encode = λ t. some (pos 3 ∷ []); decode = λ ts. [] };
  context_limit = 64;
  eos_token_id = pos 0;
  busy = "c" ∷ [];
  metrics = [];
  new_id = λ n. "n";
  ids_used = 0;
}

abbrev after_expiry : Runtime ⦃B = machine⦄
after_expiry = record (runtime_of without_x) {
  metrics = ("expired", 1) ∷ ("expired_grouped", 1) ∷ ("released", 1) ∷ [];
}

-- The child is busy: its root stays with it, and the other root goes.
x_cleaned : cleanup ⦃B = machine⦄ (runtime_of three) ≡ ok ("x" ∷ []) after_expiry
unfolding cleanup bump tally cleanup_expired expire_each expire_one subtree_last_active newest_of
    drop_node descendants_of walk_from walk_step visit children_of Requests.release lookup remove
    has string_dec mentions
x_cleaned = refl

cleanup-spares_example : Spared ("c" ∷ []) three without_x
cleanup-spares_example =
    cleanup-spares ⦃B = machine⦄ ("x" ∷ []) (runtime_of three) after_expiry three-IsForest x_cleaned
