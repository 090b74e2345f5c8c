-- ===== src/Examples/Stops.antt =====
-- A worker that may stop at the third answer.
use rwkv_agent.Base.{◌==◌, if◌then◌else◌, inr, arith}
use rwkv_agent.Stop.{Run, waiting, safe_to_stop, drain}
use rwkv_agent.Stop.Ends.{Ended, drain-Ended}

abbrev third : Run
third = record { reply = λ n. if n == 2 then inr safe_to_stop else inr waiting; clock = λ n. n }

drain-Ended_example : Ended third 5 (drain third 0 5 1 6 tt)
drain-Ended_example = drain-Ended third 0 5 1 5 (omega arith)
