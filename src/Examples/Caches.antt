-- ===== src/Examples/Caches.antt =====
-- Runs of the cache.
use rwkv_agent.Base.{ℕ, ◌≡◌, refl, List, [], ◌∷◌, some, arith}
use rwkv_agent.Cache.{Cache, get, put, init}
use rwkv_agent.Cache.Budget.{IsBudgeted, Call, gets, puts, waits, run, run-IsBudgeted}
use rwkv_agent.Cache.Lookups.{get-put}

abbrev empty : Cache ℕ
empty = init 10 0

empty-IsBudgeted : IsBudgeted empty
empty-IsBudgeted = record { distinct = tt; counted = refl; bounded = omega arith }

abbrev calls : List (Call ℕ)
calls = puts "a" 1 5 4 ∷ puts "b" 2 5 4 ∷ gets "a" ∷ waits 2 ∷ puts "c" 3 5 4 ∷ []

run-IsBudgeted_example : IsBudgeted (run calls empty)
run-IsBudgeted_example = run-IsBudgeted calls empty empty-IsBudgeted

get-put_example : (get "a" (record (put "a" 7 5 4 empty) { now = 3 })).0 ≡ some 7
get-put_example =
    get-put "a" 7 5 4 empty 3 empty-IsBudgeted (omega arith) (omega arith) (omega arith)
